-- ===== src/SysCall/Programs/Args.antt =====
-- What `getargs` gives to a program.
use ece391_kernel.Base.{
  ℕ, ◌+◌, ◌^◌, ◌<◌, ◌≡◌, refl, ltb, ◌==◌, ◌||◌, if◌then◌else◌, List, [], ◌∷◌, ◌++◌, length, arith,
}
use ece391_kernel.Base.Int.{pos}
use ece391_kernel.Text.{byte, strcpy}
use ece391_kernel.Text.Spec.{NonNul}
use ece391_kernel.Text.Copy.{strlen-append}
use ece391_kernel.FileSystem.Layout.{minus_one}
use ece391_kernel.State.{Kernel}
use ece391_kernel.Process.{last_pid, scheduled}
use ece391_kernel.SysCall.Programs.{getargs, unsigned32}

strcpy-append : (s t : List ℕ) → NonNul s → strcpy (s ++ 0 ∷ t) ≡ s ++ 0 ∷ []
unfolding strcpy
strcpy-append [] t h = refl
strcpy-append (c ∷ s) t h = ground (arith, strcpy-append s t h.1)

first_byte : (s t : List ℕ) → NonNul s → (byte (s ++ 0 ∷ t) == 0) ≡ (length s == 0)
unfolding byte
first_byte [] t h = refl
first_byte (c ∷ s) t h = ground (arith, h.0)

-- For a program whose stored arguments are the string s, `getargs` gives s with its final NUL to a
-- buffer that holds it, and returns -1 for no arguments or a shorter buffer.
pub getargs_lem :
    (k : Kernel) (s t : List ℕ) (n : ℕ)
    → (k.pcbs (last_pid (scheduled k))).params ≡ s ++ 0 ∷ t
    → NonNul s
    → n < 2 ^ 31
    → getargs (pos n) k
      ≡ (if ltb n (length s + 1) || (length s == 0) then (minus_one, []) else (pos 0, s ++ 0 ∷ []))
unfolding getargs
getargs_lem k s t n e h small =
    let size : unsigned32 (pos n) ≡ n = omega arith in
    rw (e, size, strlen-append s t h, first_byte s t h, strcpy-append s t h) refl
