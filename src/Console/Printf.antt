-- ===== src/Console/Printf.antt =====
-- `printf` and `printf_direct` of student-distrib/lib.c, which differ in the output functions they call.
pub mod Pieces
pub mod Programs
use ece391_kernel.Base.{
  ℕ, zero, suc, ◌+◌, ◌-◌, ◌%◌, ◌^◌, Bool, true, false, ◌==◌, ltb, if◌then◌else◌, List, [], ◌∷◌,
  get_or, drop, set,
}
use ece391_kernel.Text.{strlen, itoa}
use ece391_kernel.State.{Console}
use ece391_kernel.Console.{putc, puts}
use ece391_kernel.Console.Direct.{putc_direct, puts_direct}

-- The functions that print a character and a string.
pub record Output : Type 0 where
  pub put_char : ℕ → Console → Console
  pub put_string : List ℕ → Console → Console

-- `conv_buf` of `%x`, with the digits at index 8; `stack` is what it holds before.
abbrev pub conv_buf : (stack : ℕ → ℕ) → List ℕ → List ℕ
conv_buf stack digits =
    stack 0 ∷ stack 1 ∷ stack 2 ∷ stack 3 ∷ stack 4 ∷ stack 5 ∷ stack 6 ∷ stack 7 ∷ digits

-- The `while (i < 8)` loop; eight rounds are enough.
unfoldable pub pad_loop : (rounds i : ℕ) → List ℕ → List ℕ
pad_loop zero i buf = buf
pad_loop (suc rounds) i buf =
    let next = pad_loop rounds (i + 1) (set buf i b'0') in if ltb i 8 then next else buf

-- What `%x` prints.
unfoldable pub hex_string : (stack : ℕ → ℕ) → (alternate : Bool) → ℕ → List ℕ
unfolding pad_loop
hex_string stack alternate w =
    let digits = itoa w 16 in
    let starting_index = strlen digits in
    if alternate
    then drop starting_index (pad_loop 8 starting_index (conv_buf stack digits))
    else digits

-- What `%d` prints for the word w.
unfoldable pub signed_string : ℕ → List ℕ
signed_string w = if ltb w (2 ^ 31) then itoa w 10 else b'-' ∷ itoa (2 ^ 32 - w) 10

-- Between two characters of the format, or behind a `%` with the value of `alternate`.
pub data Mode : Type 0 where
  text : Mode
  conversion : (alternate : Bool) → Mode

-- `strings` is the memory behind each pointer; `esp` is the list of words from the pointer on.
module _ (out : Output) (strings : ℕ → List ℕ) (stack : ℕ → ℕ) where
  -- One character of the format.
  unfoldable pub step : Mode → (c : ℕ) → (esp : List ℕ) → Console → Mode × List ℕ × Console
  unfolding hex_string signed_string
  step text c esp k =
      if c == b'%' then (conversion false, esp, k) else (text, esp, out.put_char c k)
  step (conversion alternate) c esp k =
      let w = get_or esp 0 0 in
      let more = drop 1 esp in
      if c == b'%'
      then (text, esp, out.put_char b'%' k)
      else if c == b'#'
      then (conversion true, esp, k)
      else if c == b'x'
      then (text, more, out.put_string (hex_string stack alternate w) k)
      else if c == b'u'
      then (text, more, out.put_string (itoa w 10) k)
      else if c == b'd'
      then (text, more, out.put_string (signed_string w) k)
      else if c == b'c'
      then (text, more, out.put_char (w % 2 ^ 8) k)
      else if c == b's'
      then (text, more, out.put_string (strings w) k)
      else (text, esp, k)

  -- NUL ends the loop between two conversions only.
  abbrev pub stops : Mode → ℕ → Bool
  stops text c = c == 0
  stops (conversion alternate) c = false

  -- The loop over the format, with what is added to `buf - format`. The end of the list reads as NUL.
  unfoldable pub printf_loop : Mode → (buf : List ℕ) → (esp : List ℕ) → Console → ℕ × Console
  unfolding step
  printf_loop text [] esp k = (0, k)
  printf_loop (conversion alternate) [] esp k = (1, k)
  printf_loop mode (c ∷ buf) esp k =
      let s = step mode c esp k in
      let next = printf_loop s.0 buf s.1 s.2 in
      if stops mode c then (0, k) else (next.0 + 1, next.1)

unfoldable pub printf : (ℕ → List ℕ) → (ℕ → ℕ) → (format esp : List ℕ) → Console → ℕ × Console
unfolding printf_loop
printf strings stack =
    printf_loop (record { put_char = putc; put_string = puts }) strings stack text

unfoldable pub printf_direct :
    (ℕ → List ℕ) → (ℕ → ℕ) → (format esp : List ℕ) → Console → ℕ × Console
unfolding printf_loop
printf_direct strings stack =
    printf_loop (record { put_char = putc_direct; put_string = puts_direct }) strings stack text
