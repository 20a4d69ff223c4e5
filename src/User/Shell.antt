-- ===== src/User/Shell.antt =====
-- The shell executes the lines that are typed, until `exit`.
use mathlib.Core.List.{append-nil, append_assoc}
use ece391_kernel.Base.{
  ℕ, zero, suc, ◌+◌, ◌-◌, ◌<◌, ◌≤◌, ◌≡◌, ◌≢◌, refl, sym, ap, ◌∙◌, true, false, not, ◌==◌, ltb,
  if_ind, List, [], ◌∷◌, ◌++◌, some, length, get_or, take, arith, ℕ_discrete, ap₂,
}
use ece391_kernel.Base.Int.{ℤ, pos, pos_part}
use ece391_kernel.Text.{byte, rest, strlen}
use ece391_kernel.Text.Spec.{NonNul}
use ece391_kernel.FileSystem.Layout.{is_zero, is_minus_one}
use ece391_kernel.User.Messages.{prompt, shell_start, no_such_command, by_exception, abnormally}
use ece391_kernel.User.Support.{difference-nonzero}
use ece391_kernel.User.{
  Os, strcmp, ends, goes_on, fdputs, next_round, repeat, tell, command_of, shell_command,
  shell_round, shell_main,
}

strcmp-other :
    (a b x y : List ℕ)
    → NonNul a
    → NonNul b
    → a ≢ b
    → is_zero (strcmp (a ++ 0 ∷ x) (b ++ 0 ∷ y)) ≡ false
unfolding strcmp byte rest
strcmp-other [] [] x y ha hb ne = absurd (ne refl)
strcmp-other [] (d ∷ b) x y ha hb ne =
    let test : (0 == d) ≡ false = ground (arith, hb.0) in
    rw test (difference-nonzero 0 d (omega (arith, hb.0)))
strcmp-other (c ∷ a) [] x y ha hb ne =
    let test : (c == 0) ≡ false = ground (arith, ha.0) in
    rw test (difference-nonzero c 0 (omega (arith, ha.0)))
strcmp-other (c ∷ a) (d ∷ b) x y ha hb ne = elim (ℕ_discrete c d) [
  | yes same ↦
      let test : (c == d) ≡ true = ground (arith, same) in
      let no_nul : (c == 0) ≡ false = ground (arith, ha.0) in
      rw (test, no_nul) (strcmp-other a b x y ha.1 hb.1 (λ e. ne (ap₂ ◌∷◌ same e)))
  | no differ ↦
      let test : (c == d) ≡ false = ground (arith, differ) in
      rw test (difference-nonzero c d differ)
]

abbrev pub exit_line : List ℕ
exit_line = 101 ∷ 120 ∷ 105 ∷ 116 ∷ []

-- What is typed, and what comes of it: `Session limit left n lines commands after` says that the shell reads n lines up
-- to `exit`, executes the commands, and leaves the lines `after`. `left` is what a program that is executed leaves of the
-- lines. A line fits the buffer and has no NUL.
pub data Session (limit : ℕ) (left : List ℕ → List (List ℕ) → List (List ℕ))
    : ℕ → List (List ℕ) → List (List ℕ) → List (List ℕ) → Type 0 where
  exits : {after : List (List ℕ)} → Session limit left 0 (exit_line ∷ after) [] after
  skips :
      {n : ℕ} {lines commands after : List (List ℕ)}
      → Session limit left n lines commands after
      → Session limit left (suc n) ([] ∷ lines) commands after
  executes :
      {n : ℕ} {lines commands after : List (List ℕ)} (c : ℕ) (line : List ℕ)
      → NonNul (c ∷ line)
      → length (c ∷ line) ≤ limit
      → (c ∷ line) ≢ exit_line
      → Session limit left n (left ((c ∷ line) ++ 0 ∷ []) lines) commands after
      → Session limit left (suc n) ((c ∷ line) ∷ lines) (((c ∷ line) ++ 0 ∷ []) ∷ commands) after

exit_NonNul : NonNul exit_line
exit_NonNul = (omega arith, (omega arith, (omega arith, (omega arith, tt))))

-- What the shell executes of the lines: those that are not empty, each with its NUL.
abbrev pub executed : List (List ℕ) → List (List ℕ)
executed [] = []
executed ([] ∷ lines) = executed lines
executed ((c ∷ line) ∷ lines) = ((c ∷ line) ++ 0 ∷ []) ∷ executed lines

-- A system with a typist: `pending` are the lines that are still typed, `log` the commands that were executed.
-- `read` from the terminal gives the next line with its newline, if it has at most
-- `limit` characters (the keyboard buffer of a terminal has room for 127); output changes neither; `execute`
-- notes its command, and the program leaves what `left` says of the lines.
pub record IsTyped {S : Type 0} (os : Os S) (limit : ℕ)
    (left : List ℕ → List (List ℕ) → List (List ℕ)) (pending log : S → List (List ℕ)) : Type 0 where
  pub read_line :
      (s : S) (line : List ℕ) (lines : List (List ℕ))
      → pending s ≡ line ∷ lines
      → length line ≤ limit
      → (s' : S) × (os.read (pos 0) 1023 s ≡ (pos (length line + 1), line ++ 10 ∷ [], s'))
        × (pending s' ≡ lines)
        × (log s' ≡ log s)
  pub write_keeps :
      (fd : ℤ) (buf : List ℕ) (n : ℕ) (s : S)
      → (pending (os.write fd buf n s).1 ≡ pending s) × (log (os.write fd buf n s).1 ≡ log s)
  pub execute_notes :
      (command : List ℕ) (s : S)
      → (pending (os.execute command s).1 ≡ left command (pending s))
        × (log (os.execute command s).1 ≡ log s ++ command ∷ [])

get_or-last : (line : List ℕ) (c : ℕ) → get_or (line ++ c ∷ []) (length line) 0 ≡ c
get_or-last [] c = refl
get_or-last (x ∷ line) c = get_or-last line c

take-whole : (line tail : List ℕ) → take (length line) (line ++ tail) ≡ line
take-whole [] tail = refl
take-whole (c ∷ line) tail = ap (λ l. c ∷ l) (take-whole line tail)

module _ {S : Type 0} (os : Os S) where
  -- The newline is cut off.
  command_of-line :
      (line : List ℕ) → command_of os (length line + 1) (line ++ 10 ∷ []) ≡ line ++ 0 ∷ []
  unfolding command_of
  command_of-line line =
      let n : length line + 1 - 1 ≡ length line = omega arith in
      let some_left : ltb 0 (length line + 1) ≡ true = ground arith in
      let last : (get_or (line ++ 10 ∷ []) (length line) 0 == 10) ≡ true =
        rw (get_or-last line 10) refl in
      rw (n, some_left, last) (ap (λ l. l ++ 0 ∷ []) (take-whole line (10 ∷ [])))

  module _ (limit : ℕ) (room : 4 ≤ limit) (left : List ℕ → List (List ℕ) → List (List ℕ))
      (pending log : S → List (List ℕ)) (typed : IsTyped os limit left pending log) where
    -- A state with given lines and a given log.
    abbrev At : List (List ℕ) → List (List ℕ) → S → Type 0
    At lines done s = (pending s ≡ lines) × (log s ≡ done)

    fdputs-At :
        (fd : ℤ) (text : List ℕ) (lines done : List (List ℕ)) (s : S)
        → At lines done s
        → At lines done (fdputs os fd text s)
    unfolding fdputs
    fdputs-At fd text lines done s h =
        let keeps = typed.write_keeps fd text (strlen text) s in (keeps.0 ∙ h.0, keeps.1 ∙ h.1)

    tell-At :
        (rval : ℤ) (lines done : List (List ℕ)) (s : S)
        → At lines done s
        → At lines done (tell os rval s)
    unfolding tell
    tell-At rval lines done s h =
        if_ind (At lines done) (is_minus_one rval)
          (λ _. fdputs-At (pos 1) no_such_command lines done s h)
          (λ _.
            if_ind (At lines done) (pos_part rval == 256)
              (λ _. fdputs-At (pos 1) by_exception lines done s h)
              (λ _.
                if_ind (At lines done) (not (is_zero rval))
                  (λ _. fdputs-At (pos 1) abnormally lines done s h) (λ _. h)))

    -- A round reads one line.
    round_reads :
        (line : List ℕ) (lines done : List (List ℕ)) (s : S)
        → length line ≤ limit
        → At (line ∷ lines) done s
        → (s' : S) × (shell_round os s ≡ shell_command os (line ++ 0 ∷ []) s') × At lines done s'
    unfolding shell_round
    round_reads line lines done s fits h =
        let asked = fdputs-At (pos 1) prompt (line ∷ lines) done s h in
        let r = typed.read_line (fdputs os (pos 1) prompt s) line lines asked.0 fits in
        (r.0, rw (r.1, command_of-line line) refl, (r.2, r.3 ∙ asked.1))

    exit_command : (s : S) → shell_command os (exit_line ++ 0 ∷ []) s ≡ ends (pos 0) s
    unfolding shell_command strcmp byte rest
    exit_command s = refl

    empty_command : (s : S) → shell_command os (0 ∷ []) s ≡ goes_on s
    unfolding shell_command byte
    empty_command s =
        rw
          (strcmp-other [] exit_line [] [] tt exit_NonNul
            (λ e. absurd (ground (arith, ap length e))))
          refl

    other_command :
        (c : ℕ) (line : List ℕ) (s : S)
        → NonNul (c ∷ line)
        → (c ∷ line) ≢ exit_line
        → let r = os.execute ((c ∷ line) ++ 0 ∷ []) s in
          shell_command os ((c ∷ line) ++ 0 ∷ []) s ≡ goes_on (tell os r.0 r.1)
    unfolding shell_command byte
    other_command c line s h ne =
        let no_nul : (c == 0) ≡ false = ground (arith, h.0) in
        rw (strcmp-other (c ∷ line) exit_line [] [] h exit_NonNul ne, no_nul) refl

    run-Session :
        (rounds : ℕ) {n : ℕ} {lines commands after : List (List ℕ)} (done : List (List ℕ)) (s : S)
        → Session limit left n lines commands after
        → n < rounds
        → At lines done s
        → (s' : S) × (repeat os (shell_round os) rounds s ≡ some (pos 0, s'))
          × At after (done ++ commands) s'
    unfolding repeat
    run-Session zero done s typed_in lt h = absurd (omega (arith, lt))
    run-Session (suc rounds) {after = after} done s exits lt h =
        let r = round_reads exit_line after done s (omega (arith, room)) h in
        (
          r.0,
          ap (next_round os (repeat os (shell_round os) rounds)) (r.1 ∙ exit_command r.0),
          (r.2.0, r.2.1 ∙ sym (append-nil done)),
        )
    run-Session (suc rounds) done s (skips {lines = lines} more_lines) lt h =
        let r = round_reads [] lines done s (omega arith) h in
        let more = run-Session rounds done r.0 more_lines (omega (arith, lt)) r.2 in
        (
          more.0,
          ap (next_round os (repeat os (shell_round os) rounds)) (r.1 ∙ empty_command r.0) ∙ more.1,
          more.2,
        )
    run-Session (suc rounds) done s
          (executes {lines = lines} {commands = commands} c line valid fits other more_lines) lt h =
        let r = round_reads (c ∷ line) lines done s fits h in
        let command = (c ∷ line) ++ 0 ∷ [] in
        let x = os.execute command r.0 in
        let notes = typed.execute_notes command r.0 in
        let told =
          tell-At x.0 (left command lines) (done ++ command ∷ []) x.1
            (notes.0 ∙ ap (left command) r.2.0, notes.1 ∙ ap (λ l. l ++ command ∷ []) r.2.1) in
        let more =
          run-Session rounds (done ++ command ∷ []) (tell os x.0 x.1) more_lines (omega (arith, lt))
            told in
        (
          more.0,
          ap (next_round os (repeat os (shell_round os) rounds))
                (r.1 ∙ other_command c line r.0 valid other)
              ∙ more.1,
          (more.2.0, more.2.1 ∙ append_assoc done (command ∷ []) commands),
        )

    -- On a system where lines are typed, of which the programs that are executed may read some: for a session in
    -- which the shell comes to the line `exit` after n others, which have no NUL and at most as many
    -- characters as the terminal gives in a line, at least 4, with more than
    -- n rounds the shell ends with 0. It has then executed the nonempty ones of the lines that it reads, in order and
    -- without their newlines, and nothing else, and the lines behind `exit` are left.
    pub shell_main_lem :
        (n : ℕ) (lines commands after : List (List ℕ)) (rounds : ℕ) (s : S)
        → Session limit left n lines commands after
        → n < rounds
        → pending s ≡ lines
        → (s' : S) × (shell_main os rounds s ≡ some (pos 0, s'))
          × (pending s' ≡ after)
          × (log s' ≡ log s ++ commands)
    unfolding shell_main
    shell_main_lem n lines commands after rounds s session lt e =
        let started = fdputs-At (pos 1) shell_start lines (log s) s (e, refl) in
        let r = run-Session rounds (log s) (fdputs os (pos 1) shell_start s) session lt started in
        (r.0, r.1, r.2.0, r.2.1)
