-- ===== src/Base/Bits.antt =====
-- Checking a test at every number under a bound by running it: the way to laws of the bit operations.
use Prim.Native.Nat.{ℕ, zero, suc, ◌<◌}
use mathlib.Core.Bool.{Bool, true, ◌&&◌}
use mathlib.Core.Path.{◌≡◌, ap}
use native.Mathlib.Omega.{arith}
use native.Mathlib.Decide.{ℕ_discrete}

module _ (test : ℕ → Bool) where
  unfoldable pub passes : (bound : ℕ) → Bool
  passes zero = true
  passes (suc bound) = passes bound && test bound

  pub passes-at : (bound : ℕ) → passes bound ≡ true → (x : ℕ) → x < bound → test x ≡ true
  unfolding passes
  passes-at zero all x under = absurd (omega arith)
  passes-at (suc bound) all x under = elim (ℕ_discrete x bound) [
    | yes last ↦ ground (arith, ap test last)
    | no earlier ↦ passes-at bound (ground arith) x (omega arith)
  ]
