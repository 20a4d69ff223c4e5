-- ===== src/Console/Printf/Pieces.antt =====
-- What `printf` prints, piece by piece.
use ece391_kernel.Base.{
  ℕ, zero, suc, ◌+◌, ◌-◌, ◌%◌, ◌^◌, ◌<◌, ◌≤◌, ◌≡◌, ◌≢◌, refl, ap, ◌∙◌, true, false, ◌==◌, ltb,
  if◌then◌else◌, if_ind, List, [], ◌∷◌, ◌++◌, length, length-append, length-replicate, replicate,
  arith, Bool-cases, inl, inr, drop,
}
use ece391_kernel.Text.{itoa}
use ece391_kernel.Text.Spec.{NonNul}
use ece391_kernel.Text.Number.{strlen-eq-length}
use ece391_kernel.Text.Digits.{itoa-NonNul, length-itoa}
use ece391_kernel.State.{Console}
use ece391_kernel.Console.{putc, puts}
use ece391_kernel.Console.Direct.{putc_direct, puts_direct}
use ece391_kernel.Console.Printf.{
  Output, conv_buf, pad_loop, hex_string, signed_string, text, step, printf_loop, printf,
  printf_direct,
}

-- A part of a format with the word that belongs to it: a character as it is, a `%`, or a conversion.
pub data Piece : Type 0 where
  plain : (c : ℕ) → Piece
  percent : Piece
  hex padded_hex unsigned signed char : (w : ℕ) → Piece
  string : (p : ℕ) → Piece

abbrev pub format_of : List Piece → List ℕ
format_of [] = []
format_of (plain c ∷ ps) = c ∷ format_of ps
format_of (percent ∷ ps) = b'%' ∷ b'%' ∷ format_of ps
format_of (hex w ∷ ps) = b'%' ∷ b'x' ∷ format_of ps
format_of (padded_hex w ∷ ps) = b'%' ∷ b'#' ∷ b'x' ∷ format_of ps
format_of (unsigned w ∷ ps) = b'%' ∷ b'u' ∷ format_of ps
format_of (signed w ∷ ps) = b'%' ∷ b'd' ∷ format_of ps
format_of (char w ∷ ps) = b'%' ∷ b'c' ∷ format_of ps
format_of (string p ∷ ps) = b'%' ∷ b's' ∷ format_of ps

-- The words that the caller pushes.
abbrev pub words_of : List Piece → List ℕ
words_of [] = []
words_of (plain c ∷ ps) = words_of ps
words_of (percent ∷ ps) = words_of ps
words_of (hex w ∷ ps) = w ∷ words_of ps
words_of (padded_hex w ∷ ps) = w ∷ words_of ps
words_of (unsigned w ∷ ps) = w ∷ words_of ps
words_of (signed w ∷ ps) = w ∷ words_of ps
words_of (char w ∷ ps) = w ∷ words_of ps
words_of (string p ∷ ps) = p ∷ words_of ps

-- The bytes before the first NUL.
abbrev pub until_nul : List ℕ → List ℕ
until_nul [] = []
until_nul (c ∷ s) = if c == 0 then [] else c ∷ until_nul s

abbrev pub text_of : (ℕ → List ℕ) → Piece → List ℕ
text_of strings (plain c) = c ∷ []
text_of strings percent = b'%' ∷ []
text_of strings (hex w) = itoa w 16
text_of strings (padded_hex w) = replicate (8 - length (itoa w 16)) b'0' ++ itoa w 16
text_of strings (unsigned w) = itoa w 10
text_of strings (signed w) = if ltb w (2 ^ 31) then itoa w 10 else b'-' ∷ itoa (2 ^ 32 - w) 10
text_of strings (char w) = w % 256 ∷ []
text_of strings (string p) = until_nul (strings p)

-- A plain character is no NUL and no `%`, and words have 32 bits.
abbrev pub IsPiece : Piece → Type 0
IsPiece (plain c) = (c ≢ 0) × (c ≢ b'%')
IsPiece percent = Unit
IsPiece (hex w) = w < 2 ^ 32
IsPiece (padded_hex w) = w < 2 ^ 32
IsPiece (unsigned w) = w < 2 ^ 32
IsPiece (signed w) = w < 2 ^ 32
IsPiece (char w) = w < 2 ^ 32
IsPiece (string p) = p < 2 ^ 32

abbrev pub AllPieces : List Piece → Type 0
AllPieces [] = Unit
AllPieces (p ∷ ps) = IsPiece p × AllPieces ps

-- One character after the other.
abbrev pub emit : (ℕ → Console → Console) → List ℕ → Console → Console
emit put [] k = k
emit put (c ∷ s) k = emit put s (put c k)

abbrev pub emit_all : (ℕ → Console → Console) → (ℕ → List ℕ) → List Piece → Console → Console
emit_all put strings [] k = k
emit_all put strings (p ∷ ps) k = emit_all put strings ps (emit put (text_of strings p) k)

until_nul-NonNul : (s : List ℕ) → NonNul s → until_nul s ≡ s
until_nul-NonNul [] h = refl
until_nul-NonNul (c ∷ s) h = ground (arith, h.0, until_nul-NonNul s h.1)

-- The zeros in front of n digits.
padding :
    (stack : ℕ → ℕ) (digits : List ℕ) (n : ℕ)
    → n ≤ 8
    → drop n (pad_loop 8 n (conv_buf stack digits)) ≡ replicate (8 - n) b'0' ++ digits
unfolding pad_loop
padding stack digits zero le = refl
padding stack digits (suc zero) le = refl
padding stack digits (suc (suc zero)) le = refl
padding stack digits (suc (suc (suc zero))) le = refl
padding stack digits (suc (suc (suc (suc zero)))) le = refl
padding stack digits (suc (suc (suc (suc (suc zero))))) le = refl
padding stack digits (suc (suc (suc (suc (suc (suc zero)))))) le = refl
padding stack digits (suc (suc (suc (suc (suc (suc (suc zero))))))) le = refl
padding stack digits (suc (suc (suc (suc (suc (suc (suc (suc zero)))))))) le = refl
padding stack digits (suc (suc (suc (suc (suc (suc (suc (suc (suc n))))))))) le =
    absurd (omega arith)

-- A terminal's output functions: the string is printed character by character, up to its NUL.
abbrev pub IsOutput : Output → Type 0
IsOutput out = (s : List ℕ) (k : Console) → out.put_string s k ≡ emit out.put_char (until_nul s) k

puts-IsOutput : IsOutput (record { put_char = putc; put_string = puts })
unfolding puts
puts-IsOutput [] k = refl
puts-IsOutput (c ∷ s) k = elim (Bool-cases (c == 0)) [
  | inl nul ↦ rw nul refl
  | inr other ↦ rw other (puts-IsOutput s (putc c k))
]

puts_direct-IsOutput : IsOutput (record { put_char = putc_direct; put_string = puts_direct })
unfolding puts_direct
puts_direct-IsOutput [] k = refl
puts_direct-IsOutput (c ∷ s) k = elim (Bool-cases (c == 0)) [
  | inl nul ↦ rw nul refl
  | inr other ↦ rw other (puts_direct-IsOutput s (putc_direct c k))
]

-- `%#x` prints the zeros and the digits.
padded_lem :
    (stack : ℕ → ℕ) (w : ℕ)
    → w < 2 ^ 32
    → hex_string stack true w ≡ replicate (8 - length (itoa w 16)) b'0' ++ itoa w 16
unfolding hex_string
padded_lem stack w lt = rw (strlen-eq-length (itoa w 16) (itoa-NonNul w 16)) (
    padding stack (itoa w 16) (length (itoa w 16))
      (length-itoa 8 w 16 (omega arith) lt (omega arith)))

zeros-NonNul : (n : ℕ) (s : List ℕ) → NonNul s → NonNul (replicate n b'0' ++ s)
zeros-NonNul zero s h = h
zeros-NonNul (suc n) s h = (omega arith, zeros-NonNul n s h)

signed-NonNul : (w : ℕ) → NonNul (signed_string w)
unfolding signed_string
signed-NonNul w =
    if_ind NonNul (ltb w (2 ^ 31)) (λ _. itoa-NonNul w 10)
      (λ _. (omega arith, itoa-NonNul (2 ^ 32 - w) 10))

-- One more character of the format.
abbrev one_more : ℕ × Console → ℕ × Console
one_more r = (r.0 + 1, r.1)

counted : {r : ℕ × Console} {m : ℕ} {k : Console} → r ≡ (m, k) → one_more r ≡ (suc m, k)
counted {m = m} {k = k} e =
    let now : one_more (m, k) ≡ (suc m, k) = ap {B = ℕ × Console} (λ x. (x, k)) (omega arith) in
    ap one_more e ∙ now

module _ (out : Output) (law : IsOutput out) (strings : ℕ → List ℕ) (stack : ℕ → ℕ) where
  -- A string without NUL is printed whole.
  whole :
      (s t : List ℕ) (k : Console) → s ≡ t → NonNul t → out.put_string s k ≡ emit out.put_char t k
  whole s t k e h =
      law s k ∙ ap (λ x. emit out.put_char x k) (ap until_nul e ∙ until_nul-NonNul t h)

  pub printf_loop_lem :
      (ps : List Piece) (past esp : List ℕ) (k : Console)
      → AllPieces ps
      → printf_loop out strings stack text (format_of ps ++ 0 ∷ past) (words_of ps ++ esp) k
        ≡ (length (format_of ps), emit_all out.put_char strings ps k)
  unfolding printf_loop step hex_string
  printf_loop_lem [] past esp k h = refl
  printf_loop_lem (plain c ∷ ps) past esp k h =
      let no_nul : (c == 0) ≡ false = ground (arith, h.0.0) in
      let no_percent : (c == b'%') ≡ false = ground (arith, h.0.1) in
      rw (no_nul, no_percent) (counted (printf_loop_lem ps past esp (out.put_char c k) h.1))
  printf_loop_lem (percent ∷ ps) past esp k h =
      counted (counted (printf_loop_lem ps past esp (out.put_char b'%' k) h.1))
  printf_loop_lem (hex w ∷ ps) past esp k h =
      rw (whole (itoa w 16) (itoa w 16) k refl (itoa-NonNul w 16))
        (counted (counted (printf_loop_lem ps past esp (emit out.put_char (itoa w 16) k) h.1)))
  printf_loop_lem (padded_hex w ∷ ps) past esp k h =
      let s = text_of strings (padded_hex w) in
      rw
        (whole (hex_string stack true w) s k (padded_lem stack w h.0)
          (zeros-NonNul _ (itoa w 16) (itoa-NonNul w 16)))
        (counted (counted (counted (printf_loop_lem ps past esp (emit out.put_char s k) h.1))))
  printf_loop_lem (unsigned w ∷ ps) past esp k h =
      rw (whole (itoa w 10) (itoa w 10) k refl (itoa-NonNul w 10))
        (counted (counted (printf_loop_lem ps past esp (emit out.put_char (itoa w 10) k) h.1)))
  printf_loop_lem (signed w ∷ ps) past esp k h =
      rw (whole (signed_string w) (signed_string w) k refl (signed-NonNul w)) (
        counted (counted (printf_loop_lem ps past esp (emit out.put_char (signed_string w) k) h.1)))
  printf_loop_lem (char w ∷ ps) past esp k h =
      counted (counted (printf_loop_lem ps past esp (out.put_char (w % 256) k) h.1))
  printf_loop_lem (string p ∷ ps) past esp k h = rw (law (strings p) k) (
      counted
        (counted (printf_loop_lem ps past esp (emit out.put_char (until_nul (strings p)) k) h.1)))

-- For pieces that are well formed, behind which the format ends with NUL: `printf` returns the length of the
-- format and prints the pieces' text character by character, one word of the arguments for each
-- conversion; `printf_direct` does so with its own output function. What the local buffers hold before
-- and what lies behind the format and the words does not matter.
pub printf_lem :
    (strings : ℕ → List ℕ) (stack : ℕ → ℕ) (ps : List Piece) (past esp : List ℕ) (k : Console)
    → AllPieces ps
    → (printf strings stack (format_of ps ++ 0 ∷ past) (words_of ps ++ esp) k
        ≡ (length (format_of ps), emit_all putc strings ps k))
      × (printf_direct strings stack (format_of ps ++ 0 ∷ past) (words_of ps ++ esp) k
          ≡ (length (format_of ps), emit_all putc_direct strings ps k))
unfolding printf printf_direct
printf_lem strings stack ps past esp k h = (
  printf_loop_lem (record { put_char = putc; put_string = puts }) puts-IsOutput strings stack ps
      past esp k h,
  printf_loop_lem (record { put_char = putc_direct; put_string = puts_direct }) puts_direct-IsOutput
      strings stack ps past esp k h,
)

-- For a 32-bit word, the digits of `%x` from index 8 on and their NUL fit the 64 bytes of `conv_buf`, those of `%u`
-- and of `%d` with its sign fit the 36 bytes, and `%#x` prints eight characters.
pub conversions-fit :
    (stack : ℕ → ℕ) (w : ℕ)
    → w < 2 ^ 32
    → (8 + length (itoa w 16) + 1 ≤ 64)
      × (length (itoa w 10) + 1 ≤ 36)
      × (length (signed_string w) + 1 ≤ 36)
      × (length (hex_string stack true w) ≡ 8)
unfolding signed_string
conversions-fit stack w lt =
    let digits = length-itoa 8 w 16 (omega arith) lt (omega arith) in
    let decimal : (v : ℕ) → v ≤ 2 ^ 32 → length (itoa v 10) ≤ 10 =
      λ v le. length-itoa 10 v 10 (omega arith) (omega (arith, le)) (omega arith) in
    (
      omega (arith, digits),
      omega (arith, decimal w (omega (arith, lt))),
      ground (arith, decimal w (omega (arith, lt)), decimal (2 ^ 32 - w) (omega arith)),
      rw
          (
            padded_lem stack w lt,
            length-append {A = ℕ} (replicate (8 - length (itoa w 16)) b'0') (itoa w 16),
            length-replicate {A = ℕ} (8 - length (itoa w 16)) b'0',
          )
          (omega (arith, digits)),
    )
