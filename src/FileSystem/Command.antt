-- ===== src/FileSystem/Command.antt =====
-- `parse_command` splits a command line into the file name and the arguments.
use ece391_kernel.Base.{
  ℕ, zero, suc, ◌+◌, ◌-◌, ◌<◌, ◌≡◌, ◌≢◌, ◌⊎◌, refl, ap, inl, inr, List, [], ◌∷◌, ◌++◌, arith, take,
}
use ece391_kernel.FileSystem.{skip_spaces, name_loop, params_loop, parse_command}

-- k spaces in front of `s`
abbrev pub spaces : ℕ → List ℕ → List ℕ
spaces zero s = s
spaces (suc k) s = b' ' ∷ spaces k s

-- A word holds no space, newline or NUL.
abbrev pub IsWord : List ℕ → Type 0
IsWord [] = Unit
IsWord (c ∷ s) = (c ≢ b' ') × (c ≢ 10) × (c ≢ 0) × IsWord s

-- A line holds no newline or NUL.
abbrev pub IsLine : List ℕ → Type 0
IsLine [] = Unit
IsLine (c ∷ s) = (c ≢ 10) × (c ≢ 0) × IsLine s

abbrev pub IsStop : ℕ → Type 0
IsStop c = (c ≡ 10) ⊎ (c ≡ 0)

-- The first byte is not a space.
abbrev pub NoSpace : List ℕ → Type 0
NoSpace [] = Unit
NoSpace (c ∷ s) = c ≢ b' '

-- The first byte ends a word.
abbrev EndsWord : List ℕ → Type 0
EndsWord [] = Unit
EndsWord (c ∷ s) = (c ≡ b' ') ⊎ (c ≡ 10) ⊎ (c ≡ 0)

skip_spaces-spaces : (k : ℕ) (s : List ℕ) → skip_spaces (spaces k s) ≡ skip_spaces s
unfolding skip_spaces
skip_spaces-spaces zero s = refl
skip_spaces-spaces (suc k) s = skip_spaces-spaces k s

skip_spaces-NoSpace : (s : List ℕ) → NoSpace s → skip_spaces s ≡ s
unfolding skip_spaces
skip_spaces-NoSpace [] h = refl
skip_spaces-NoSpace (c ∷ s) h = ground arith

take-cons : (n : ℕ) (x : ℕ) (xs : List ℕ) → 0 < n → take n (x ∷ xs) ≡ x ∷ take (n - 1) xs
take-cons zero x xs h = absurd (omega arith)
take-cons (suc n) x xs h = ap (λ k. x ∷ take k xs) (omega arith)

take-zero : (n : ℕ) (xs : List ℕ) → n ≡ 0 → take n xs ≡ []
take-zero zero xs h = refl
take-zero (suc n) xs h = absurd (omega arith)

take-nil : (n : ℕ) → take {A = ℕ} n [] ≡ []
take-nil zero = refl
take-nil (suc n) = refl

name_loop-word :
    (name t : List ℕ) (n : ℕ)
    → IsWord name
    → EndsWord t
    → name_loop (name ++ t) n ≡ (take (32 - n) name, t)
unfolding name_loop
name_loop-word [] [] n w e = ground (arith, take-nil (32 - n))
name_loop-word [] (c ∷ t) n w e = ground (arith, take-nil (32 - n))
name_loop-word (c ∷ name) t n w e = ground (
  arith,
  name_loop-word name t (n + 1) w.3 e,
  take-cons (32 - n) c name,
  take-zero (32 - n) (c ∷ name),
  take-zero (32 - (n + 1)) name,
)

params_loop-line :
    (params : List ℕ) (stop : ℕ) (rest : List ℕ)
    → IsLine params
    → IsStop stop
    → params_loop (params ++ stop ∷ rest) ≡ params
unfolding params_loop
params_loop-line [] stop rest l e = ground arith
params_loop-line (c ∷ params) stop rest l e =
    ground (arith, params_loop-line params stop rest l.2 e)

stop-NoSpace :
    (params : List ℕ) (stop : ℕ) (rest : List ℕ)
    → NoSpace params
    → IsStop stop
    → NoSpace (params ++ stop ∷ rest)
stop-NoSpace [] stop rest h e = ground arith
stop-NoSpace (c ∷ params) stop rest h e = h

-- `gap` spaces between the name and the arguments.
tail-EndsWord :
    (gap : ℕ) (params : List ℕ) (stop : ℕ) (rest : List ℕ)
    → (0 < gap) ⊎ (params ≡ [])
    → IsStop stop
    → EndsWord (spaces gap (params ++ stop ∷ rest))
tail-EndsWord (suc gap) params stop rest h e = inl refl
tail-EndsWord zero [] stop rest h e = inr e
tail-EndsWord zero (c ∷ params) stop rest h e = ground arith

-- On leading spaces, a word, a gap and a line of arguments, ended by a newline or NUL,
-- `parse_command` stores the first 32 bytes of the word in `filename` and the whole line in `params`,
-- each with a NUL behind it.
pub parse_command_lem :
    (lead gap stop : ℕ) (name params rest : List ℕ)
    → IsWord name
    → name ≢ []
    → IsLine params
    → NoSpace params
    → (0 < gap) ⊎ (params ≡ [])
    → IsStop stop
    → parse_command (spaces lead (name ++ spaces gap (params ++ stop ∷ rest)))
      ≡ (take 32 name ++ 0 ∷ [], params ++ 0 ∷ [])
unfolding parse_command
parse_command_lem lead gap stop [] params rest w ne l ns g e = absurd (ne refl)
parse_command_lem lead gap stop (c ∷ name) params rest w ne l ns g e =
    let t = spaces gap (params ++ stop ∷ rest) in
    rw (
      skip_spaces-spaces lead (c ∷ name ++ t),
      skip_spaces-NoSpace (c ∷ name ++ t) w.0,
      name_loop-word (c ∷ name) t 0 w (tail-EndsWord gap params stop rest g e),
      skip_spaces-spaces gap (params ++ stop ∷ rest),
      skip_spaces-NoSpace (params ++ stop ∷ rest) (stop-NoSpace params stop rest ns e),
      params_loop-line params stop rest l e,
    )
