-- ===== src/Tests/Typed.antt =====
-- The user programs: the shell on a system with a typist, `ls` on one with an open directory, and counter on a
-- terminal.
use ece391_kernel.Base.{
  ℕ, ◌+◌, ◌≡◌, refl, ap, false, Bool, leb, ◌==◌, if◌then◌else◌, length, take, drop, arith, List, [],
  ◌∷◌, ◌++◌, some,
}
use ece391_kernel.Base.Int.{ℤ, pos, negsuc}
use ece391_kernel.Text.{byte}
use ece391_kernel.FileSystem.Layout.{minus_one}
use ece391_kernel.User.Messages.{ask_number}
use ece391_kernel.User.Counter.{counter_main}
use ece391_kernel.User.Counter.Output.{IsTerminal, body, numerals, counter_main_lem}
use ece391_kernel.User.{Os, shell_main}
use ece391_kernel.User.Shell.{IsTyped, Session, exits, skips, executes, exit_line, shell_main_lem}

-- The lines to come, and the commands that were executed.
abbrev Typist : Type 0
Typist = List (List ℕ) × List (List ℕ)

typed_line : (pending log : List (List ℕ)) → ℤ × List ℕ × Typist
typed_line [] log = (minus_one, [], ([], log))
typed_line (line ∷ lines) log = (pos (length line + 1), line ++ 10 ∷ [], (lines, log))

-- `cat` reads a line; the other programs read none.
left_by : (command : List ℕ) → List (List ℕ) → List (List ℕ)
left_by command [] = []
left_by command (line ∷ lines) = if byte command == 99 then lines else line ∷ lines

abbrev typist : Os Typist
typist = record {
  execute = λ command s. (pos 0, (left_by command s.0, s.1 ++ command ∷ []));
  open_file = λ name s. (minus_one, s);
  read = λ fd n s. typed_line s.0 s.1;
  write = λ fd buf n s. (pos n, s);
  getargs = λ n s. (minus_one, [], s);
  close = λ fd s. (minus_one, s);
}

typist-IsTyped : IsTyped typist 127 left_by (λ s. s.0) (λ s. s.1)
unfolding typed_line left_by
typist-IsTyped = record {
  read_line = λ s line lines e fits. ((lines, s.1), ap (λ p. typed_line p s.1) e, refl, refl);
  write_keeps = λ fd buf n s. (refl, refl);
  execute_notes = λ command s. (refl, refl);
}

-- ls, an empty line, cat with a line of its input, exit, and one line more.
abbrev session : List (List ℕ)
session = (108 ∷ 115 ∷ []) ∷ [] ∷ (99 ∷ 97 ∷ 116 ∷ []) ∷ (104 ∷ 105 ∷ []) ∷ exit_line ∷ [] ∷ []

abbrev ran : List (List ℕ)
ran = (108 ∷ 115 ∷ 0 ∷ []) ∷ (99 ∷ 97 ∷ 116 ∷ 0 ∷ []) ∷ []

session-Session : Session 127 left_by 3 session ran ([] ∷ [])
unfolding left_by byte
session-Session =
    executes 108 (115 ∷ []) (omega arith) (omega arith) (ground arith)
      (skips (executes 99 (97 ∷ 116 ∷ []) (omega arith) (omega arith) (ground arith) exits))

shell_main_lem_example :
    (s' : Typist) × (shell_main typist 4 (session, []) ≡ some (pos 0, s'))
    × (s'.0 ≡ [] ∷ [])
    × (s'.1 ≡ (108 ∷ 115 ∷ 0 ∷ []) ∷ (99 ∷ 97 ∷ 116 ∷ 0 ∷ []) ∷ [])
shell_main_lem_example =
    shell_main_lem typist 127 (omega arith) left_by (λ s. s.0) (λ s. s.1) typist-IsTyped 3 session
      ran ([] ∷ []) 4 (session, []) session-Session (omega arith) refl

-- The bytes of the open file that are left, and what was written.
abbrev Reader : Type 0
Reader = List (List ℕ) × List ℕ

-- The next n bytes of the first line, of which the rest stays.
next_piece : (n : ℕ) (pieces : List (List ℕ)) → List ℕ → ℤ × List ℕ × Reader
next_piece n [] out = (pos 0, [], ([], out))
next_piece n (piece ∷ pieces) out =
    if leb (length piece) n
    then (pos (length piece), piece, (pieces, out))
    else (pos n, take n piece, (drop n piece ∷ pieces, out))

abbrev reader : Os Reader
reader = record {
  execute = λ command s. (minus_one, s);
  open_file = λ name s. (pos 2, s);
  read = λ fd n s. next_piece n s.0 s.1;
  write = λ fd buf n s. (pos n, (s.0, s.1 ++ buf));
  getargs = λ n s. (pos 0, 97 ∷ 0 ∷ [], s);
  close = λ fd s. (pos 0, s);
}

abbrev two_pieces : List (List ℕ)
two_pieces = (104 ∷ 105 ∷ []) ∷ (33 ∷ []) ∷ []

is_terminal : ℤ → Bool
is_terminal (pos n) = n == 1
is_terminal (negsuc n) = false

-- The line that is typed, and what was written to descriptor 1; descriptor 2 shows nothing.
abbrev asking : Os (List ℕ × List ℕ)
asking = record {
  execute = λ command s. (minus_one, s);
  open_file = λ name s. (pos 2, s);
  read = λ fd n s. (pos (length s.0), s.0, s);
  write = λ fd buf n s. (pos n, if is_terminal fd then (s.0, s.1 ++ take n buf) else s);
  getargs = λ n s. (minus_one, [], s);
  close = λ fd s. (minus_one, s);
}

asking-IsTerminal : IsTerminal asking (λ s. s.0) (λ s. s.1)
unfolding is_terminal
asking-IsTerminal = record {
  read_line = λ n s fits. (s, refl, refl);
  write_shows = λ buf n s fits. (refl, refl);
}

counter_main_lem_example :
    (s' : List ℕ × List ℕ) × (counter_main asking (48 ∷ 10 ∷ [], []) ≡ (pos 0, s'))
    × (s'.1 ≡ [] ++ (body ask_number ++ numerals 100 0))
counter_main_lem_example =
    counter_main_lem asking (λ s. s.0) (λ s. s.1) asking-IsTerminal (48 ∷ 10 ∷ [], []) 48
      (omega arith) (omega arith) refl
