-- ===== src/Rtc/Wait.antt =====
-- How long `rtc_read` waits.
use native.Mathlib.Nat.{mod-add-mod, mod-eq_of_lt, add-mod_right}
use ece391_kernel.Base.{
  ℕ, zero, suc, ◌+◌, ◌-◌, ◌%◌, ◌^◌, ◌<◌, ◌≤◌, ◌≡◌, refl, ap, ap₂, ap₂, ◌∙◌, Bool, true, false, ◌==◌,
  ltb, [], some, arith, ℕ_discrete,
}
use ece391_kernel.Base.Int.{pos}
use ece391_kernel.State.{FileArray, done}
use ece391_kernel.Files.{outside_files}
use ece391_kernel.Rtc.{
  Rtc, rtc_handler, divider, is_multiple, wait_flag, wait_multiple, rtc_waits, rtc_read,
}

abbrev pub clock : ℕ → Bool → Rtc
clock c flag = record { rtc_counter_global = c; rtc_exe_flag = flag }

tick :
    (c : ℕ) (flag : Bool) → c + 1 < 2 ^ 31 → (rtc_handler (clock c flag) []).0 ≡ clock (c + 1) true
unfolding rtc_handler
tick c flag small = ap (λ n. clock n true) (omega arith)

not_yet : (d c j : ℕ) → suc j < d → (c + suc j) % d ≡ 0 → (c % d == 0) ≡ false
not_yet d c j lt h = elim (ℕ_discrete (c % d) 0) [
  | no ne ↦ ground arith
  | yes e ↦
      let far : (c % d + suc j) % d ≡ 0 = mod-add-mod c d (suc j) ∙ h in
      let same : (c % d + suc j) % d ≡ suc j = ap (λ x. x % d) (omega arith) ∙ mod-eq_of_lt lt in
      absurd (omega arith)
]

due :
    (d n c : ℕ)
    → c < 2 ^ 31
    → (c % d == 0) ≡ true
    → wait_multiple d n (clock c true) ≡ some (n, clock c true)
unfolding wait_multiple is_multiple
due d zero c small h = let low : ltb c (2 ^ 31) ≡ true = ground arith in rw (low, h) refl
due d (suc n) c small h = let low : ltb c (2 ^ 31) ≡ true = ground arith in rw (low, h) refl

not_due :
    (d n c : ℕ)
    → (c % d == 0) ≡ false
    → c + 1 < 2 ^ 31
    → wait_multiple d (suc n) (clock c true) ≡ wait_multiple d n (clock (c + 1) true)
unfolding wait_multiple is_multiple
not_due d n c h small =
    let low : ltb c (2 ^ 31) ≡ true = ground arith in rw (low, h, tick c true small) refl

-- The second wait takes i interrupts when the counter is i below a multiple.
wait_multiple_lem :
    (d i n c : ℕ)
    → i < d
    → c + i < 2 ^ 31
    → (c + i) % d ≡ 0
    → wait_multiple d (i + n) (clock c true) ≡ some (n, clock (c + i) true)
unfolding wait_multiple
wait_multiple_lem d zero n c lt small h =
    due d (0 + n) c (omega arith) (ground arith)
    ∙ ap₂ (λ x y. some (x, clock y true)) (omega arith) (omega arith)
wait_multiple_lem d (suc i) n c lt small h =
    ap (λ x. wait_multiple d x (clock c true)) {y = suc (i + n)} (omega arith)
    ∙ not_due d (i + n) c (not_yet d c i lt h) (omega arith)
    ∙ wait_multiple_lem d i n (c + 1) (omega arith) (omega arith)
        (ap (λ x. x % d) (omega arith) ∙ h)
    ∙ ap (λ x. some (n, clock x true)) (omega arith)

flag_up : (n c : ℕ) → wait_flag n (clock c true) ≡ some (n, clock c true)
unfolding wait_flag
flag_up zero c = refl
flag_up (suc n) c = refl

flag_down :
    (n c : ℕ) → c + 1 < 2 ^ 31 → wait_flag (suc n) (clock c false) ≡ some (n, clock (c + 1) true)
unfolding wait_flag
flag_down n c small = rw (tick c false small) (flag_up n (c + 1))

pub divider-pos : (ratio : ℕ) → 0 < divider ratio
unfolding divider
divider-pos ratio = ground arith

waits_lem :
    (ratio n c : ℕ)
    → c % divider ratio ≡ 0
    → c + divider ratio < 2 ^ 31
    → rtc_waits ratio (suc (divider ratio - 1 + n)) (clock c false)
      ≡ done (pos 0, n, clock (c + divider ratio) false)
unfolding rtc_waits
waits_lem ratio n c multiple small =
    let d = divider ratio in
    let positive = divider-pos ratio in
    let again : (c + 1 + (d - 1)) % d ≡ 0 =
      ap (λ x. x % d) (omega arith) ∙ add-mod_right c d ∙ multiple in
    rw
      (
        flag_down (d - 1 + n) c (omega arith),
        wait_multiple_lem d (d - 1) n (c + 1) (omega arith) (omega arith) again,
      )
      (ap (λ x. done (pos 0, n, clock x false)) (omega arith))

-- A read that starts where another one left the clock, with the flag down and the counter c at a multiple
-- of the descriptor's divider d, returns 0 after exactly d interrupts, whatever number of them is still
-- to come, as long as the counter stays below 2^31; and it leaves the clock in such a state again.
pub rtc_read-period :
    (fd n c : ℕ) (files : FileArray)
    → 2 ≤ fd
    → fd ≤ 7
    → let d = divider (files fd).file_position in
      c % d ≡ 0
      → c + d < 2 ^ 31
      → rtc_read (pos fd) files (d + n) (clock c false) ≡ done (pos 0, n, clock (c + d) false)
unfolding rtc_read
rtc_read-period fd n c files lo hi multiple small =
    let d = divider (files fd).file_position in
    let in_range : outside_files (pos fd) ≡ false = ground arith in
    let positive = divider-pos (files fd).file_position in
    rw in_range (
      ap (λ x. rtc_waits (files fd).file_position x (clock c false)) {y = suc (d - 1 + n)}
        (omega arith)
      ∙ waits_lem (files fd).file_position n c multiple small)
