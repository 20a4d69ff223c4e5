-- ===== src/Pic/Masks.antt =====
-- Which interrupt lines are masked.
use ece391_kernel.Base.{
  ℕ, ◌+◌, ◌-◌, ◌*◌, ◌/◌, ◌%◌, ◌^◌, ◌<◌, ◌≡◌, Bool, true, ◌&&◌, ◌||◌, leb, ltb, ◌==◌, if◌then◌else◌,
  arith, passes, passes-at, refl, ==_iff,
}
use ece391_kernel.Pic.{Pic, clear_bit, set_bit, enable_irq, disable_irq}

-- Bit n of a byte.
abbrev pub bit : ℕ → ℕ → ℕ
bit m n = m / 2 ^ n % 2

-- Line n is masked: bit n of the master, or bit n - 8 of the slave.
abbrev pub masked : Pic → ℕ → ℕ
masked p n = if ltb n 8 then bit p.master_mask n else bit p.slave_mask (n - 8)

abbrev pub IsBytes : Pic → Type 0
IsBytes p = (p.master_mask < 256) × (p.slave_mask < 256)

-- The laws of one byte, for one m, n and j packed as m + 256 * (n + 8 * j).
clear_law : ℕ → Bool
clear_law x =
    let m = x % 256 in
    let n = x / 256 % 8 in
    let j = x / 2048 in bit (clear_bit m n) j == (if j == n then 0 else bit m j)

set_law : ℕ → Bool
set_law x =
    let m = x % 256 in
    let n = x / 256 % 8 in
    let j = x / 2048 in bit (set_bit m n) j == (if j == n then 1 else bit m j)

clear_table : passes clear_law 16384 ≡ true
unfolding passes clear_law
clear_table = refl

set_table : passes set_law 16384 ≡ true
unfolding passes set_law
set_table = refl

-- Where the two laws hold for (m, n, j).
at : ℕ → ℕ → ℕ → ℕ
at m n j = m + 256 * (n + 8 * j)

bit-clear_bit :
    (m n j : ℕ) → m < 256 → n < 8 → j < 8 → bit (clear_bit m n) j ≡ (if j == n then 0 else bit m j)
unfolding clear_law at
bit-clear_bit m n j hm hn hj =
    let x = at m n j in
    let e1 : x % 256 ≡ m = omega arith in
    let e2 : x / 256 % 8 ≡ n = omega arith in
    let e3 : x / 2048 ≡ j = omega arith in
    let law = (==_iff _ _).0 (passes-at clear_law 16384 clear_table x (omega arith)) in
    rw (e1, e2, e3) at law

bit-set_bit :
    (m n j : ℕ) → m < 256 → n < 8 → j < 8 → bit (set_bit m n) j ≡ (if j == n then 1 else bit m j)
unfolding set_law at
bit-set_bit m n j hm hn hj =
    let x = at m n j in
    let e1 : x % 256 ≡ m = omega arith in
    let e2 : x / 256 % 8 ≡ n = omega arith in
    let e3 : x / 2048 ≡ j = omega arith in
    let law = (==_iff _ _).0 (passes-at set_law 16384 set_table x (omega arith)) in
    rw (e1, e2, e3) at law

-- `enable_irq` unmasks its line, and for a line of the slave also line 2 of the master, and leaves
-- every other line as it was.
pub enable_irq-masked :
    (p : Pic) (irq j : ℕ)
    → IsBytes p
    → irq < 16
    → j < 16
    → masked (enable_irq irq p) j ≡ (if j == irq || (leb 8 irq && (j == 2)) then 0 else masked p j)
unfolding enable_irq
enable_irq-masked p irq j h hi hj = ground (
  arith,
  bit-clear_bit p.master_mask irq j,
  bit-clear_bit p.master_mask 2 j,
  bit-clear_bit p.slave_mask (irq - 8) (j - 8),
)

-- `disable_irq` masks its line and leaves every other line as it was.
pub disable_irq-masked :
    (p : Pic) (irq j : ℕ)
    → IsBytes p
    → irq < 16
    → j < 16
    → masked (disable_irq irq p) j ≡ (if j == irq then 1 else masked p j)
unfolding disable_irq
disable_irq-masked p irq j h hi hj =
    ground (arith, bit-set_bit p.master_mask irq j, bit-set_bit p.slave_mask (irq - 8) (j - 8))
