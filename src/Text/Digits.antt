-- ===== src/Text/Digits.antt =====
-- How long the numerals of `itoa` are.
use mathlib.Core.List.{reverse, reverse-append}
use native.Mathlib.Nat.{div-lt_iff_lt-mul, pow-zero, pow-suc}
use ece391_kernel.Base.{
  ℕ, zero, suc, ◌/◌, ◌^◌, ◌<◌, ◌≤◌, ◌≡◌, sym, List, [], ◌∷◌, ◌++◌, ◌==◌, ltb, false, length, arith,
  Bool-cases, inl, inr,
}
use ece391_kernel.Text.{itoa_loop, itoa}
use ece391_kernel.Text.Spec.{NonNul}
use ece391_kernel.Text.Number.{itoa_loop-NonNul, strrev-eq-reverse, length-reverse}

NonNul-append : (s t : List ℕ) → NonNul s → NonNul t → NonNul (s ++ t)
NonNul-append [] t hs ht = ht
NonNul-append (c ∷ s) t hs ht = (hs.0, NonNul-append s t hs.1 ht)

reverse-NonNul : (s : List ℕ) → NonNul s → NonNul (reverse s)
reverse-NonNul [] h = tt
reverse-NonNul (c ∷ s) h =
    rw (reverse-append (c ∷ []) s)
      (NonNul-append (reverse s) (c ∷ []) (reverse-NonNul s h.1) (h.0, tt))

itoa-reverse :
    (value radix : ℕ) → 0 < value → itoa value radix ≡ reverse (itoa_loop value value radix)
unfolding itoa
itoa-reverse value radix lt =
    let test : (value == 0) ≡ false = ground (arith, lt) in
    rw test (strrev-eq-reverse (itoa_loop value value radix) (itoa_loop-NonNul value value radix))

pub itoa-NonNul : (value radix : ℕ) → NonNul (itoa value radix)
unfolding itoa
itoa-NonNul zero radix = (omega arith, tt)
itoa-NonNul (suc v) radix =
    rw (itoa-reverse (suc v) radix (omega arith))
      (reverse-NonNul (itoa_loop (suc v) (suc v) radix) (itoa_loop-NonNul (suc v) (suc v) radix))

-- n rounds are enough for a value under radix ^ n.
length-itoa_loop : (n f v radix : ℕ) → 0 < radix → v < radix ^ n → length (itoa_loop f v radix) ≤ n
unfolding itoa_loop
length-itoa_loop n zero v radix pos lt = omega arith
length-itoa_loop zero (suc f) v radix pos lt =
    let none_left : ltb 0 v ≡ false = ground (arith, lt, pow-zero radix) in
    rw none_left (omega arith)
length-itoa_loop (suc n) (suc f) v radix pos lt =
    let less : v / radix < radix ^ n = (div-lt_iff_lt-mul pos).1 (rw (sym (pow-suc radix n)) lt) in
    let rest = length-itoa_loop n f (v / radix) radix pos less in
    elim (Bool-cases (ltb 0 v)) [
      | inl digit ↦ rw digit (omega (arith, rest))
      | inr none_left ↦ rw none_left (omega arith)
    ]

-- For a radix from 2 on, the string that `itoa` leaves for a value under radix ^ n has at most n characters,
-- if n is at least 1.
pub length-itoa :
    (n value radix : ℕ) → 1 < radix → value < radix ^ n → 0 < n → length (itoa value radix) ≤ n
unfolding itoa
length-itoa n zero radix lo lt some_digit = omega (arith, some_digit)
length-itoa n (suc v) radix lo lt some_digit = rw (itoa-reverse (suc v) radix (omega arith)) (
    rw (length-reverse (itoa_loop (suc v) (suc v) radix))
      (length-itoa_loop n (suc v) (suc v) radix (omega (arith, lo)) lt))
