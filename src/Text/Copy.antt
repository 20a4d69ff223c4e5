-- ===== src/Text/Copy.antt =====
-- What `strlen`, `strcpy` and `strncpy` do, in terms of the string before the first NUL.
use ece391_kernel.Base.{
  ℕ, zero, suc, ◌+◌, ◌-◌, ◌≡◌, refl, ap, List, [], ◌∷◌, ◌++◌, length, replicate, arith, ℕ_discrete,
  min,
}
use ece391_kernel.Text.{byte, rest, strlen, strcpy, strncpy, strncpy_pad}
use ece391_kernel.Text.Spec.{c_str, NonNul}

pub strncpy_pad-eq-replicate : (n : ℕ) → strncpy_pad n ≡ replicate n 0
unfolding strncpy_pad
strncpy_pad-eq-replicate zero = refl
strncpy_pad-eq-replicate (suc n) = ap (λ r. 0 ∷ r) (strncpy_pad-eq-replicate n)

-- `strncpy(dest, src, n)` stores the string, cut at n bytes, and fills up with NULs to n bytes.
pub strncpy_lem :
    (src : List ℕ) (n : ℕ) → strncpy src n ≡ c_str n src ++ replicate (n - length (c_str n src)) 0
unfolding strncpy byte rest
strncpy_lem src zero = refl
strncpy_lem [] (suc n) = ground (arith, strncpy_pad-eq-replicate (suc n))
strncpy_lem (c ∷ src) (suc n) = elim (ℕ_discrete c 0) [
  | yes z ↦ ground (arith, strncpy_pad-eq-replicate (suc n))
  | no nz ↦ ground (arith, strncpy_lem src n)
]

length-c_str : (n : ℕ) (s : List ℕ) → length (c_str n s) ≡ min n (strlen s)
unfolding strlen
length-c_str zero s = omega arith
length-c_str (suc n) [] = omega arith
length-c_str (suc n) (c ∷ s) = ground (arith, length-c_str n s)

-- `strcpy` stores the string and one NUL: `strlen` bytes and one more.
pub strcpy_lem :
    (s : List ℕ) → (strcpy s ≡ c_str (strlen s) s ++ 0 ∷ []) × (length (strcpy s) ≡ strlen s + 1)
unfolding strcpy strlen
strcpy_lem [] = (refl, refl)
strcpy_lem (c ∷ s) = ground (arith, strcpy_lem s)

-- The length of a string that stands before a NUL.
pub strlen-append : (s t : List ℕ) → NonNul s → strlen (s ++ 0 ∷ t) ≡ length s
unfolding strlen
strlen-append [] t h = refl
strlen-append (c ∷ s) t h = ground (arith, strlen-append s t h.1)
