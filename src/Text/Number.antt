-- ===== src/Text/Number.antt =====
-- `strrev` reverses in place, and `itoa` prints the digits of a number.
use mathlib.Core.List.{reverse, reverse-append}
use native.Mathlib.Nat.{mod-lt, div-add-mod, div-lt_self}
use ece391_kernel.Base.{
  ℕ, zero, suc, ◌+◌, ◌*◌, ◌/◌, ◌%◌, ◌-◌, ◌<◌, ◌≤◌, ◌≡◌, refl, ap, ap₂, length-append, sym, ◌∙◌,
  List, [], ◌∷◌, ◌++◌, ◌==◌, if◌then◌else◌, length, get_or, set, arith, dec_lt, Bool-cases, inl,
  inr, length-set, ltb,
}
use ece391_kernel.Text.{strlen, digit_char, itoa_loop, strrev_loop, strrev, itoa}
use ece391_kernel.Text.Spec.{NonNul}

get_or-set :
    (xs : List ℕ) (i j v : ℕ)
    → i < length xs
    → get_or (set xs i v) j 0 ≡ (if j == i then v else get_or xs j 0)
get_or-set [] i j v h = absurd (omega arith)
get_or-set (x ∷ xs) zero zero v h = refl
get_or-set (x ∷ xs) zero (suc j) v h = ground arith
get_or-set (x ∷ xs) (suc i) zero v h = ground arith
get_or-set (x ∷ xs) (suc i) (suc j) v h = ground (arith, get_or-set xs i j v)

length-strrev_loop : (f : ℕ) (s : List ℕ) (b e : ℕ) → length (strrev_loop f s b e) ≡ length s
unfolding strrev_loop
length-strrev_loop zero s b e = refl
length-strrev_loop (suc f) s b e =
    let s1 = set s e (get_or s b 0) in
    ground (
      arith,
      length-set s e (get_or s b 0),
      length-set s1 b (get_or s e 0),
      length-strrev_loop f (set s1 b (get_or s e 0)) (b + 1) (e - 1),
    )

-- Where byte j of the reversed stretch comes from.
abbrev mirror : ℕ → ℕ → ℕ → ℕ
mirror b e j = if ltb j b then j else if ltb e j then j else b + e - j

get_or-strrev_loop :
    (f : ℕ) (s : List ℕ) (b e j : ℕ)
    → e < length s
    → e < f + b + 1
    → get_or (strrev_loop f s b e) j 0 ≡ get_or s (mirror b e j) 0
unfolding strrev_loop
get_or-strrev_loop zero s b e j h fuel = ap (λ k. get_or s k 0) (ground arith)
get_or-strrev_loop (suc f) s b e j h fuel = elim (dec_lt b e) [
  | no stop ↦ ground arith
  | yes go ↦
      let s1 = set s e (get_or s b 0) in
      let k = mirror (b + 1) (e - 1) j in
      ground (
        arith,
        length-set s e (get_or s b 0),
        length-set s1 b (get_or s e 0),
        get_or-set s1 b k (get_or s e 0),
        get_or-set s e k (get_or s b 0),
        get_or-strrev_loop f (set s1 b (get_or s e 0)) (b + 1) (e - 1) j,
      )
]

-- Lists of one length with the same bytes are one list.
list_ext :
    (xs ys : List ℕ)
    → length xs ≡ length ys
    → ((j : ℕ) → j < length xs → get_or xs j 0 ≡ get_or ys j 0)
    → xs ≡ ys
list_ext [] [] l h = refl
list_ext [] (y ∷ ys) l h = absurd (omega arith)
list_ext (x ∷ xs) [] l h = absurd (omega arith)
list_ext (x ∷ xs) (y ∷ ys) l h =
    ap₂ ◌∷◌ (h 0 (omega arith)) (list_ext xs ys (omega arith) (λ j lt. h (suc j) (omega arith)))

get_or-append :
    (xs ys : List ℕ) (j : ℕ)
    → get_or (xs ++ ys) j 0
      ≡ (if ltb j (length xs) then get_or xs j 0 else get_or ys (j - length xs) 0)
get_or-append [] ys j = ground arith
get_or-append (x ∷ xs) ys zero = ground arith
get_or-append (x ∷ xs) ys (suc j) = ground (arith, get_or-append xs ys j)

pub length-reverse : (s : List ℕ) → length (reverse s) ≡ length s
length-reverse [] = refl
length-reverse (x ∷ xs) =
    rw (reverse-append (x ∷ []) xs)
      (omega (arith, length-append (reverse xs) (x ∷ []), length-reverse xs))

get_or-cons :
    (x : ℕ) (xs : List ℕ) (n : ℕ)
    → get_or (x ∷ xs) n 0 ≡ (if n == 0 then x else get_or xs (n - 1) 0)
get_or-cons x xs zero = refl
get_or-cons x xs (suc n) = ground arith

get_or-reverse :
    (s : List ℕ) (j : ℕ) → j < length s → get_or (reverse s) j 0 ≡ get_or s (length s - 1 - j) 0
get_or-reverse [] j h = absurd (omega arith)
get_or-reverse (x ∷ xs) j h = rw (reverse-append (x ∷ []) xs) (
    ground (
      arith,
      get_or-append (reverse xs) (x ∷ []) j,
      length-reverse xs,
      get_or-reverse xs j,
      get_or-cons x [] (j - length xs),
      get_or-cons x xs (length xs - j),
    ))

pub strlen-eq-length : (s : List ℕ) → NonNul s → strlen s ≡ length s
unfolding strlen
strlen-eq-length [] h = refl
strlen-eq-length (c ∷ s) h = ground (arith, strlen-eq-length s h.1)

-- On a string of non-NUL bytes `strrev` leaves the reversed string.
pub strrev-eq-reverse : (s : List ℕ) → NonNul s → strrev s ≡ reverse s
unfolding strrev
strrev-eq-reverse [] h = refl
strrev-eq-reverse (x ∷ xs) h =
    let s = x ∷ xs in
    let n : strlen s ≡ length s = strlen-eq-length s h in
    rw n (
      list_ext _ _ (length-strrev_loop (length s) s 0 (length s - 1) ∙ sym (length-reverse s))
        (λ j lt.
          get_or-strrev_loop (length s) s 0 (length s - 1) j (omega arith) (omega arith)
          ∙ ap (λ k. get_or s k 0)
              (ground (arith, length-strrev_loop (length s) s 0 (length s - 1)))
          ∙ sym (
              get_or-reverse s j
                (omega (arith, length-strrev_loop (length s) s 0 (length s - 1))))))

-- The digit that a character stands for.
abbrev pub digit_value : ℕ → ℕ
digit_value c = if ltb c b'A' then c - b'0' else c - b'A' + 10

-- The number that a numeral stands for, most significant digit first.
abbrev pub numeral_value : ℕ → ℕ → List ℕ → ℕ
numeral_value radix acc [] = acc
numeral_value radix acc (c ∷ s) = numeral_value radix (acc * radix + digit_value c) s

numeral_value-append :
    (radix acc : ℕ) (s t : List ℕ)
    → numeral_value radix acc (s ++ t) ≡ numeral_value radix (numeral_value radix acc s) t
numeral_value-append radix acc [] t = refl
numeral_value-append radix acc (c ∷ s) t =
    numeral_value-append radix (acc * radix + digit_value c) s t

digit_value-char : (i : ℕ) → i < 36 → digit_value (digit_char i) ≡ i
unfolding digit_char
digit_value-char i h = ground arith

pub digit_char-pos : (i : ℕ) → 0 < digit_char i
unfolding digit_char
digit_char-pos i = ground arith

pub itoa_loop-NonNul : (f v radix : ℕ) → NonNul (itoa_loop f v radix)
unfolding itoa_loop
itoa_loop-NonNul zero v radix = tt
itoa_loop-NonNul (suc f) v radix = elim (Bool-cases (ltb 0 v)) [
  | inl p ↦ rw p (digit_char-pos (v % radix), itoa_loop-NonNul f (v / radix) radix)
  | inr p ↦ rw p tt
]

itoa_loop-value :
    (f v radix : ℕ)
    → 1 < radix
    → radix ≤ 36
    → v ≤ f
    → numeral_value radix 0 (reverse (itoa_loop f v radix)) ≡ v
unfolding itoa_loop
itoa_loop-value zero v radix lo hi fuel = omega arith
itoa_loop-value (suc f) v radix lo hi fuel = elim (Bool-cases (ltb 0 v)) [
  | inl p ↦
      let more = itoa_loop f (v / radix) radix in
      let low = digit_char (v % radix) in
      let smaller : v / radix < v = div-lt_self (ground arith) lo in
      rw p (
        rw
          (
            reverse-append (low ∷ []) more,
            numeral_value-append,
            itoa_loop-value f (v / radix) radix lo hi (omega arith),
          )
          (rw (digit_value-char (v % radix) (omega (arith, mod-lt v {m = radix} (omega arith))))
            (grind (arith, div-add-mod))))
  | inr p ↦ rw p (ground arith)
]

-- For a radix from 2 to 36, the string that `itoa` leaves is a numeral of the value in that radix.
pub itoa-value :
    (value radix : ℕ) → 1 < radix → radix ≤ 36 → numeral_value radix 0 (itoa value radix) ≡ value
unfolding itoa
itoa-value value radix lo hi = elim (Bool-cases (value == 0)) [
  | inl z ↦ rw z (ground arith)
  | inr nz ↦ rw nz (
      rw (strrev-eq-reverse (itoa_loop value value radix) (itoa_loop-NonNul value value radix))
        (itoa_loop-value value value radix lo hi (omega arith)))
]
