-- ===== src/User/Grep/Lines.antt =====
-- What grep is for: the lines of a text, and those in which a pattern occurs.
use ece391_kernel.Base.{
  ℕ, suc, ◌≤◌, ◌≡◌, ◌≢◌, ◌⊎◌, inl, inr, refl, ap, Bool, true, false, ◌&&◌, ◌||◌, ◌==◌,
  if◌then◌else◌, List, [], ◌∷◌, ◌++◌, length, arith, ℕ_discrete,
}

abbrev pub cons_line : (c : ℕ) → List (List ℕ) → List (List ℕ)
cons_line c [] = (c ∷ []) ∷ []
cons_line c (line ∷ more) = (c ∷ line) ∷ more

-- The text cut at its newlines.
unfoldable pub lines : List ℕ → List (List ℕ)
lines [] = [] ∷ []
lines (c ∷ text) = if c == 10 then [] ∷ lines text else cons_line c (lines text)

unfoldable pub is_prefix : (pattern text : List ℕ) → Bool
is_prefix [] text = true
is_prefix (c ∷ pattern) [] = false
is_prefix (c ∷ pattern) (d ∷ text) = (c == d) && is_prefix pattern text

unfoldable pub occurs : (pattern line : List ℕ) → Bool
unfolding is_prefix
occurs pattern [] = false
occurs pattern (c ∷ line) = is_prefix pattern (c ∷ line) || occurs pattern line

-- `name:line` with a newline for each line in which the pattern occurs, in order.
unfoldable pub reported : (pattern name line : List ℕ) → List ℕ
unfolding occurs
reported pattern name line = if occurs pattern line then name ++ (58 ∷ (line ++ 10 ∷ [])) else []

abbrev pub all_reported : (pattern name : List ℕ) → List (List ℕ) → List ℕ
all_reported pattern name [] = []
all_reported pattern name (line ∷ more) =
    reported pattern name line ++ all_reported pattern name more

abbrev pub found_in : (pattern name text : List ℕ) → List ℕ
found_in pattern name text = all_reported pattern name (lines text)

-- No line is longer than 1023 characters.
abbrev pub AllShort : List (List ℕ) → Type 0
AllShort [] = Unit
AllShort (line ∷ more) = (length line ≤ 1023) × AllShort more

abbrev pub NoNewline : List ℕ → Type 0
NoNewline [] = Unit
NoNewline (c ∷ line) = (c ≢ 10) × NoNewline line

pub lines-newline :
    (line text : List ℕ) → NoNewline line → lines (line ++ 10 ∷ text) ≡ line ∷ lines text
unfolding lines
lines-newline [] text h = refl
lines-newline (c ∷ line) text h =
    let test : (c == 10) ≡ false = ground (arith, h.0) in
    rw test (ap (cons_line c) (lines-newline line text h.1))

pub lines-last : (line : List ℕ) → NoNewline line → lines line ≡ line ∷ []
unfolding lines
lines-last [] h = refl
lines-last (c ∷ line) h =
    let test : (c == 10) ≡ false = ground (arith, h.0) in
    rw test (ap (cons_line c) (lines-last line h.1))

-- A text with a newline has a first line.
abbrev pub HasLine : List ℕ → Type 0
HasLine text = (line : List ℕ) × (more : List ℕ) × (text ≡ line ++ 10 ∷ more) × NoNewline line

pub first_line : (text : List ℕ) → NoNewline text ⊎ HasLine text
first_line [] = inl tt
first_line (c ∷ text) = elim (ℕ_discrete c 10) [
  | yes newline ↦ inr ([], text, ap (λ x. x ∷ text) newline, tt)
  | no other ↦ elim (first_line text) [
    | inl none_left ↦ inl (other, none_left)
    | inr r ↦ inr (c ∷ r.0, r.1, ap (λ t. c ∷ t) r.2, (other, r.3))
  ]
]

abbrev first_length : List (List ℕ) → ℕ
first_length [] = 0
first_length (line ∷ more) = length line

first_length-cons_line :
    (c : ℕ) (ls : List (List ℕ)) → first_length (cons_line c ls) ≡ suc (first_length ls)
first_length-cons_line c [] = refl
first_length-cons_line c (line ∷ more) = refl

le-first_length :
    (line text : List ℕ) → NoNewline line → length line ≤ first_length (lines (line ++ text))
unfolding lines
le-first_length [] text h = omega arith
le-first_length (c ∷ line) text h =
    let test : (c == 10) ≡ false = ground (arith, h.0) in
    rw test (
      omega (arith, first_length-cons_line c (lines (line ++ text)), le-first_length line text h.1))

first_length-AllShort : (ls : List (List ℕ)) → AllShort ls → first_length ls ≤ 1023
first_length-AllShort [] h = omega arith
first_length-AllShort (line ∷ more) h = h.0

-- A beginning without a newline is part of the first line.
pub AllShort-begin :
    (line text : List ℕ) → NoNewline line → AllShort (lines (line ++ text)) → length line ≤ 1023
AllShort-begin line text h short =
    omega (arith, le-first_length line text h, first_length-AllShort (lines (line ++ text)) short)
