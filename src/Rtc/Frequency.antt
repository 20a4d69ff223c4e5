-- ===== src/Rtc/Frequency.antt =====
-- `rtc_write` accepts exactly the powers of two up to 512.
use Prim.Native.Nat.{bit_and}
use ece391_kernel.Base.{
  ℕ, ◌+◌, ◌-◌, ◌/◌, ◌%◌, ◌^◌, ◌<◌, ◌≤◌, ◌≡◌, refl, Bool, true, false, not, ◌||◌, ◌&&◌, ltb, ◌==◌,
  if◌then◌else◌, arith, passes, passes-at, ltb→lt, Bool-cases, inl, inr,
}
use ece391_kernel.Base.Int.{pos, ltb_ℤ}
use ece391_kernel.FileSystem.Layout.{minus_one}
use ece391_kernel.State.{FileArray, done, fault}
use ece391_kernel.Files.{outside_files, set_entry}
use ece391_kernel.Rtc.{rtc_write}

-- An independent description of the rates: 2 ^ 0 to 2 ^ 9.
unfoldable pub is_rate : ℕ → Bool
is_rate f =
    f == 1
    || (f == 2)
    || (f == 4)
    || (f == 8)
    || (f == 16)
    || (f == 32)
    || (f == 64)
    || (f == 128)
    || (f == 256)
    || (f == 512)

-- The test of the code agrees with the description, except that it lets 0 through.
rate_law : ℕ → Bool
rate_law f =
    if bit_and f ((f + (2 ^ 32 - 1)) % 2 ^ 32) == 0
    then f == 0 || is_rate f
    else not (f == 0) && not (is_rate f)

rate_table : passes rate_law 513 ≡ true
unfolding passes rate_law is_rate
rate_table = refl

rate_agrees :
    (f : ℕ) → f ≤ 512 → (bit_and f ((f + (2 ^ 32 - 1)) % 2 ^ 32) == 0) ≡ (f == 0 || is_rate f)
unfolding rate_law
rate_agrees f le =
    let h = passes-at rate_law 513 rate_table f (omega arith) in
    agree (bit_and f ((f + (2 ^ 32 - 1)) % 2 ^ 32) == 0) (f == 0) (is_rate f) h
  where
    agree : (a z r : Bool) → (if a then z || r else not z && not r) ≡ true → a ≡ (z || r)
    agree a z r h = ground arith

large_is_rate : (f : ℕ) → 512 < f → is_rate f ≡ false
unfolding is_rate
large_is_rate f lt = ground arith

-- On an open descriptor from 2 to 7 and a request of at least two bytes, `rtc_write` sets the ratio
-- 512 / f when f is one of 1, 2, 4, ..., 512, divides by zero when f is 0, and otherwise returns -1 and
-- changes nothing.
pub rtc_write_lem :
    (fd freq n : ℕ) (files : FileArray)
    → 2 ≤ fd
    → fd ≤ 7
    → 2 ≤ n
    → rtc_write (pos fd) false freq (pos n) files ≡ (
        if freq == 0
        then fault
        else if is_rate freq
        then done
            (pos 0, set_entry files (pos fd) (record (files fd) { file_position = 512 / freq }))
        else done (minus_one, files))
unfolding rtc_write
rtc_write_lem fd freq n files lo hi enough =
    let in_range : outside_files (pos fd) ≡ false = ground arith in
    let request : ltb_ℤ (pos 1) (pos n) ≡ true = ground arith in
    rw (in_range, request)
      (elim (Bool-cases (ltb 512 freq)) [
        | inl gt ↦ rw (large_is_rate freq (omega (arith, ltb→lt))) (ground (arith, gt))
        | inr le ↦ rw (rate_agrees freq (ground arith)) (ground (arith, le))
      ])
