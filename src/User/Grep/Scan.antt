-- ===== src/User/Grep/Scan.antt =====
-- One pass over the lines in the buffer.
use mathlib.Core.List.{append_assoc, append-nil}
use ece391_kernel.Base.{
  ℕ, suc, ◌+◌, ◌-◌, ◌<◌, ◌≡◌, inl, inr, refl, sym, ap, ◌∙◌, Bool, not, ◌&&◌, ◌==◌, leb,
  if◌then◌else◌, Bool-cases, List, [], ◌∷◌, ◌++◌, Option, some, length, length-append, get_or, set,
  drop, arith,
}
use ece391_kernel.Base.Int.{pos}
use ece391_kernel.Text.Spec.{NonNul}
use ece391_kernel.User.{Os, fdputs}
use ece391_kernel.User.Grep.Lines.{occurs, reported}
use ece391_kernel.User.Grep.Buffer.{set-here, drop-here}
use ece391_kernel.User.Grep.Match.{search_line-occurs}
use ece391_kernel.User.Grep.Disk.{Disk, shows, shows-shows, IsDisk, fdputs-shows}
use ece391_kernel.User.Support.{strcpy_within}
use ece391_kernel.User.Grep.{find_end, search_line, print_line, scan_lines}

-- The loop stops before the end of a line only where more is to be read.
abbrev pub stops : (buf : List ℕ) (line_end cnt line_start : ℕ) → Bool
stops buf line_end cnt line_start =
    not (get_or buf line_end 0 == 10) && (not (cnt == 0) && not (line_start == 0))

-- One round, with the end of the line known.
abbrev pub round_result :
    {S : Type 0} (more : Option (List ℕ × ℕ × S)) (cnt : ℕ) (buf cut : List ℕ)
    (last line_end line_start : ℕ)
    → S
    → S
    → Option (List ℕ × ℕ × S)
round_result more cnt buf cut last line_end line_start state state' =
    if stops buf line_end cnt line_start
    then some (strcpy_within line_start cut, last - line_start, state)
    else if leb last (line_end + 1)
    then some (cut, 0, state')
    else more

module _ {S : Type 0} (os : Os S) (s fname : List ℕ) where
  -- What the loop does with one line.
  abbrev pub look : (line before tail : List ℕ) → S → S
  look line before tail state =
      let cut = before ++ (line ++ 0 ∷ tail) in
      if search_line (length line) s cut (length before)
      then print_line os s fname (drop (length before) cut) state
      else state

  pub scan_round :
      (rounds cnt : ℕ) (before line : List ℕ) (c : ℕ) (behind : List ℕ) (last : ℕ) (state : S)
      → find_end (last - length before) (before ++ (line ++ c ∷ behind)) (length before)
        ≡ length before + length line
      → scan_lines os s fname
          (suc rounds)
          cnt
          (before ++ (line ++ c ∷ behind))
          last
          (length before)
          state
        ≡ round_result
            (scan_lines os s fname rounds cnt
              (before ++ (line ++ 0 ∷ behind))
              last
              (length before + length line + 1)
              (look line before behind state))
            cnt
            (before ++ (line ++ c ∷ behind))
            (before ++ (line ++ 0 ∷ behind))
            last
            (length before + length line)
            (length before)
            state
            (look line before behind state)
  unfolding scan_lines
  scan_round rounds cnt before line c behind last state e =
      let cut : set (before ++ (line ++ c ∷ behind)) (length before + length line) 0
          ≡ before ++ (line ++ 0 ∷ behind) =
        rw
          (
            ← append_assoc before line (c ∷ behind),
            ← append_assoc before line (0 ∷ behind),
            ← length-append before line,
          )
          (set-here (before ++ line) c 0 behind) in
      let size : length before + length line - length before ≡ length line = omega arith in
      rw (e, cut, size) refl

module _ {S : Type 0} (os : Os S) (text : List ℕ → Option (List ℕ)) (dir file : ℕ) (d : ℕ)
    (pattern y : List ℕ) (view : S → Disk) (disk : IsDisk os text dir file (d ∷ pattern) view)
    (name : List ℕ) (named : NonNul name) (small : d < 128) (proper : NonNul (d ∷ pattern)) where
  abbrev s : List ℕ
  s = (d ∷ pattern) ++ 0 ∷ y

  abbrev fname : List ℕ
  fname = name ++ 0 ∷ []

  -- A line in which the pattern was found is written behind the file's name.
  print_line-shows :
      (line tail : List ℕ) (state : S)
      → NonNul line
      → view (print_line os s fname (line ++ 0 ∷ tail) state)
        ≡ shows (view state) (name ++ (58 ∷ (line ++ 10 ∷ [])))
  unfolding print_line
  print_line-shows line tail state h =
      let say = fdputs-shows os text dir file (d ∷ pattern) view disk in
      let s1 = fdputs os (pos 1) fname state in
      let s2 = fdputs os (pos 1) (58 ∷ 0 ∷ []) s1 in
      let s3 = fdputs os (pos 1) (line ++ 0 ∷ tail) s2 in
      let e1 = say name [] state named in
      let e2 = say (58 ∷ []) [] s1 (omega arith, tt) in
      let e3 = say line tail s2 h in
      let e4 = say (10 ∷ []) [] s3 (omega arith, tt) in
      let r1 = e1 in
      let r2 = e2 ∙ ap (λ v. shows v (58 ∷ [])) r1 ∙ shows-shows (view state) name (58 ∷ []) in
      let r3 = e3 ∙ ap (λ v. shows v line) r2 ∙ shows-shows (view state) (name ++ 58 ∷ []) line in
      e4
      ∙ ap (λ v. shows v (10 ∷ [])) r3
      ∙ shows-shows (view state) ((name ++ 58 ∷ []) ++ line) (10 ∷ [])
      ∙ ap (shows (view state)) (simp append_assoc)

  pub look-reported :
      (line before tail : List ℕ) (state : S)
      → NonNul line
      → view (look os s fname line before tail state)
        ≡ shows (view state) (reported (d ∷ pattern) name line)
  unfolding reported
  look-reported line before tail state h =
      rw
        (
          search_line-occurs line d pattern before tail y small h proper,
          drop-here before (line ++ 0 ∷ tail),
        )
        (elim (Bool-cases (occurs (d ∷ pattern) line)) [
          | inl found ↦ rw found (print_line-shows line tail state h)
          | inr other ↦
              rw other
                (ap (λ l. record (view state) { shown = l }) (sym (append-nil (view state).shown)))
        ])
