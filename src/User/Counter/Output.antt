-- ===== src/User/Counter/Output.antt =====
-- What hello and counter write on a terminal.
use mathlib.Core.Path.{subst}
use mathlib.Core.List.{append_assoc, append-nil}
use ece391_kernel.Base.{
  ℕ, zero, suc, ◌+◌, ◌≤◌, ◌≡◌, refl, sym, ap, ◌∙◌, false, ◌||◌, ◌==◌, if◌then◌else◌, ltb, List, [],
  ◌∷◌, ◌++◌, length, length-append, take, arith,
}
use ece391_kernel.Base.Int.{pos}
use ece391_kernel.Text.{byte, strlen, itoa}
use ece391_kernel.Text.Spec.{NonNul}
use ece391_kernel.Text.Digits.{itoa-NonNul}
use ece391_kernel.User.Messages.{ask_number, ask_name, hello}
use ece391_kernel.User.Grep.Buffer.{take-here}
use ece391_kernel.User.Grep.Match.{strlen-nul}
use ece391_kernel.User.Counter.{wrong_choice, max_of, count_loop, counter_main}
use ece391_kernel.User.{Os, fdputs, hello_main}

-- A terminal: `typed` is the line that `read` gives, `shown` what was written.
pub record IsTerminal {S : Type 0} (os : Os S) (typed shown : S → List ℕ) : Type 0 where
  pub read_line :
      (n : ℕ) (s : S)
      → length (typed s) ≤ n
      → (s' : S) × (os.read (pos 0) n s ≡ (pos (length (typed s)), typed s, s'))
        × (shown s' ≡ shown s)
  pub write_shows :
      (buf : List ℕ) (n : ℕ) (s : S)
      → n ≤ length buf
      → (shown (os.write (pos 1) buf n s).1 ≡ shown s ++ take n buf)
        × (typed (os.write (pos 1) buf n s).1 ≡ typed s)

-- A text without its NUL.
abbrev pub body : List ℕ → List ℕ
body [] = []
body (c ∷ []) = []
body (c ∷ d ∷ l) = c ∷ body (d ∷ l)

-- The numerals of i + 1 to i + n in base ten, one to a line.
abbrev pub numerals : (n i : ℕ) → List ℕ
numerals zero i = []
numerals (suc n) i = (itoa (i + 1) 10 ++ 10 ∷ []) ++ numerals n (i + 1)

max_of-chosen :
    (c : ℕ)
    → 48 ≤ c
    → c ≤ 50
    → max_of c ≡ (if c == 48 then 100 else if c == 49 then 10000 else 100000)
unfolding max_of
max_of-chosen c lo hi = ground (arith, lo, hi)

module _ {S : Type 0} (os : Os S) (typed shown : S → List ℕ)
    (terminal : IsTerminal os typed shown) where
  pub fdputs-shows :
      (string : List ℕ) (s : S)
      → NonNul string
      → (shown (fdputs os (pos 1) (string ++ 0 ∷ []) s) ≡ shown s ++ string)
        × (typed (fdputs os (pos 1) (string ++ 0 ∷ []) s) ≡ typed s)
  unfolding fdputs
  fdputs-shows string s h =
      let size = strlen-nul string [] h in
      let fits : length string ≤ length (string ++ 0 ∷ []) =
        omega (arith, length-append string (0 ∷ [])) in
      let w = terminal.write_shows (string ++ 0 ∷ []) (length string) s fits in
      rw (fdputs, size) (w.0 ∙ ap (λ l. shown s ++ l) (take-here string (0 ∷ [])), w.1)

  count_loop-numerals :
      (rounds i : ℕ) (s : S) → shown (count_loop os rounds i s) ≡ shown s ++ numerals rounds i
  unfolding count_loop
  count_loop-numerals zero i s = sym (append-nil (shown s))
  count_loop-numerals (suc rounds) i s =
      let digits = itoa (i + 1) 10 in
      let s1 = fdputs os (pos 1) (digits ++ 0 ∷ []) s in
      let e1 = (fdputs-shows digits s (itoa-NonNul (i + 1) 10)).0 in
      let e2 = (fdputs-shows (10 ∷ []) s1 (omega arith, tt)).0 in
      count_loop-numerals rounds (i + 1) (fdputs os (pos 1) (10 ∷ 0 ∷ []) s1)
      ∙ ap (λ l. l ++ numerals rounds (i + 1)) (e2 ∙ ap (λ l. l ++ 10 ∷ []) e1)
      ∙ simp append_assoc

  -- A question, and the line that is typed.
  asked :
      (question : List ℕ) (s : S)
      → NonNul question
      → length (typed s) ≤ 1023
      → let s1 = fdputs os (pos 1) (question ++ 0 ∷ []) s in
        (s' : S) × (os.read (pos 0) 1023 s1 ≡ (pos (length (typed s)), typed s, s'))
        × (shown s' ≡ shown s ++ question)
  asked question s h fits =
      let say = fdputs-shows question s h in
      let s1 = fdputs os (pos 1) (question ++ 0 ∷ []) s in
      let r = terminal.read_line 1023 s1 (subst (λ l. length l ≤ 1023) (sym say.1) fits) in
      (r.0, subst (λ l. os.read (pos 0) 1023 s1 ≡ (pos (length l), l, r.0)) say.1 r.1, r.2 ∙ say.0)

  -- When a line without NUL is typed that fits the buffer, hello ends with 0 and has written its question,
  -- its greeting and the line.
  pub hello_main_lem :
      (s : S)
      → NonNul (typed s)
      → length (typed s) ≤ 1023
      → (s' : S) × (hello_main os s ≡ (pos 0, s'))
        × (shown s' ≡ shown s ++ (body ask_name ++ (body hello ++ typed s)))
  unfolding hello_main
  hello_main_lem s valid fits =
      let name = typed s in
      let r = asked (body ask_name) s (omega arith) fits in
      let greeting = fdputs-shows (body hello) r.0 (omega arith) in
      let s2 = fdputs os (pos 1) hello r.0 in
      let named = fdputs-shows name s2 valid in
      let whole : take (length name) name ≡ name =
        ap (take (length name)) (sym (append-nil name)) ∙ take-here name [] in
      (
        fdputs os (pos 1) (name ++ 0 ∷ []) s2,
        rw (r.1, whole) refl,
        named.0
            ∙ ap (λ l. l ++ name) (greeting.0 ∙ ap (λ l. l ++ body hello) r.2)
            ∙ simp append_assoc,
      )

  -- When 0, 1 or 2 is typed with ENTER, counter ends with 0 and has written, behind its question, the numerals
  -- in base ten from 1 to 100, 10000 or 100000, one to a line.
  pub counter_main_lem :
      (s : S) (c : ℕ)
      → 48 ≤ c
      → c ≤ 50
      → typed s ≡ c ∷ 10 ∷ []
      → (s' : S) × (counter_main os s ≡ (pos 0, s'))
        × (shown s'
            ≡ shown s
              ++ (body ask_number
                  ++ numerals (if c == 48 then 100 else if c == 49 then 10000 else 100000) 0))
  unfolding counter_main wrong_choice
  counter_main_lem s c lo hi line =
      let chosen = max_of-chosen c lo hi in
      let fits : length (typed s) ≤ 1023 = subst (λ l. length l ≤ 1023) (sym line) (omega arith) in
      let r = asked (body ask_number) s (omega arith) fits in
      let read : os.read (pos 0) 1023 (fdputs os (pos 1) ask_number s) ≡ (pos 2, c ∷ 10 ∷ [], r.0) =
        subst
          (λ l. os.read (pos 0) 1023 (fdputs os (pos 1) ask_number s) ≡ (pos (length l), l, r.0))
          line r.1 in
      let size : strlen (c ∷ 10 ∷ 0 ∷ []) ≡ 2 = strlen-nul (c ∷ 10 ∷ []) [] (omega (arith, lo)) in
      let right : (ltb c 48 || ltb 50 c) ≡ false = ground (arith, lo, hi) in
      (
        count_loop os (max_of c) 0 r.0,
        rw (read, wrong_choice, size, byte, right) refl,
        count_loop-numerals (max_of c) 0 r.0
            ∙ ap (λ l. l ++ numerals (max_of c) 0) r.2
            ∙ append_assoc (shown s) (body ask_number) (numerals (max_of c) 0)
            ∙ ap (λ n. shown s ++ (body ask_number ++ numerals n 0)) chosen,
      )
