-- ===== src/User/Grep/Pass.antt =====
-- The lines in the buffer: those that are complete are searched, the rest is kept.
use mathlib.Core.List.{append_assoc, append-nil}
use mathlib.Core.Path.{subst}
use ece391_kernel.Base.{
  ℕ, suc, ◌+◌, ◌-◌, ◌<◌, ◌≤◌, ◌≡◌, ◌≢◌, ◌⊎◌, inl, inr, refl, sym, ap, ◌∙◌, true, false, not, ◌&&◌,
  ◌==◌, leb, Bool-cases, List, [], ◌∷◌, ◌++◌, Option, some, length, length-append, arith,
}
use ece391_kernel.Text.Spec.{NonNul}
use ece391_kernel.User.{Os}
use ece391_kernel.User.Grep.Lines.{
  lines, occurs, reported, found_in, AllShort, NoNewline, lines-newline, lines-last, AllShort-begin,
}
use ece391_kernel.User.Grep.Buffer.{
  IsBuffer, cut_inner-IsBuffer, get_or-inner, end_guarded, find_end-last,
}
use ece391_kernel.User.Grep.Shift.{shifted}
use ece391_kernel.User.Grep.Scan.{look, look-reported, stops, scan_round}
use ece391_kernel.User.Grep.Disk.{Disk, shows, IsDisk}
use ece391_kernel.User.Support.{strcpy_within}
use ece391_kernel.User.Grep.{find_end, scan_lines}

empty_cases : (l : List ℕ) → (l ≡ []) ⊎ (l ≢ [])
empty_cases [] = inl refl
empty_cases (c ∷ l) = inr (λ e. absurd (omega (arith, ap length e)))

pub NonNul-parts : (a b : List ℕ) → NonNul (a ++ b) → NonNul a × NonNul b
NonNul-parts [] b h = (tt, h)
NonNul-parts (c ∷ a) b h = let r = NonNul-parts a b h.1 in ((h.0, r.0), r.1)

-- When the loop does not stop at the end of the bytes read, there is no more text.
short_nothing : AllShort (lines [])
unfolding lines
short_nothing = (omega arith, tt)

no_more :
    (cnt : ℕ) (before todo : List ℕ) (c : ℕ) (behind left : List ℕ)
    → IsBuffer (before ++ (todo ++ c ∷ behind))
    → NoNewline todo
    → AllShort (lines (todo ++ left))
    → (cnt ≡ 0 → left ≡ [])
    → (left ≢ [] → length before + length todo ≡ 1024)
    → (not (c == 10) && (not (cnt == 0) && not (length before == 0))) ≡ false
    → left ≡ []
no_more cnt before todo c behind left good clear short ended full go = elim (empty_cases left) [
  | inl e ↦ e
  | inr ne ↦
      let all = full ne in
      let line = AllShort-begin todo left clear short in
      let place : IsBuffer ((before ++ todo) ++ c ∷ behind) =
        rw (append_assoc before todo (c ∷ behind)) good in
      let other = end_guarded (before ++ todo) c behind (length-append before todo ∙ all) place in
      let reads : cnt ≢ 0 = λ e. ne (ended e) in
      let begun : length before ≢ 0 = omega (arith, all, line) in
      absurd (ground (arith, go, other, reads, begun))
]

stops_facts :
    (buf : List ℕ) (line_end cnt line_start : ℕ)
    → stops buf line_end cnt line_start ≡ true
    → (cnt ≢ 0) × (line_start ≢ 0)
stops_facts buf line_end cnt line_start h = ground (arith, h)

module _ {S : Type 0} (os : Os S) (text : List ℕ → Option (List ℕ)) (dir file : ℕ) (d : ℕ)
    (pattern y : List ℕ) (view : S → Disk) (disk : IsDisk os text dir file (d ∷ pattern) view)
    (name : List ℕ) (named : NonNul name) (small : d < 128) (proper : NonNul (d ∷ pattern)) where
  abbrev s : List ℕ
  s = (d ∷ pattern) ++ 0 ∷ y

  abbrev fname : List ℕ
  fname = name ++ 0 ∷ []

  -- The buffer after a pass: `pending` is kept at its front, `out` was written, and together they account for the
  -- text.
  pub record Scanned (cnt : ℕ) (left todo : List ℕ) (state : S) (result : Option (List ℕ × ℕ × S))
      : Type 0 where
    pub buf : List ℕ
    pub pending : List ℕ
    pub tail : List ℕ
    pub out : List ℕ
    pub state' : S
    pub runs : result ≡ some (buf, length pending, state')
    pub good : IsBuffer buf
    pub front : buf ≡ pending ++ tail
    pub valid : NonNul pending
    pub fits : length pending ≤ 1023
    pub short : AllShort (lines (pending ++ left))
    pub at_end : (cnt ≡ 0) → pending ≡ []
    pub written : view state' ≡ shows (view state) out
    pub account :
        out ++ found_in (d ∷ pattern) name (pending ++ left)
        ≡ found_in (d ∷ pattern) name (todo ++ left)

  -- One line of the text is accounted for.
  pub found_in-line :
      (line more : List ℕ)
      → NoNewline line
      → found_in (d ∷ pattern) name (line ++ 10 ∷ more)
        ≡ reported (d ∷ pattern) name line ++ found_in (d ∷ pattern) name more
  found_in-line line more h = rw (lines-newline line more h) refl

  found_in-last :
      (line : List ℕ)
      → NoNewline line
      → found_in (d ∷ pattern) name line ≡ reported (d ∷ pattern) name line
  found_in-last line h = rw (lines-last line h) (append-nil (reported (d ∷ pattern) name line))

  pub found_in-nothing : found_in (d ∷ pattern) name [] ≡ []
  unfolding lines reported occurs
  found_in-nothing = refl

  -- Everything was searched.
  all_searched :
      (cnt : ℕ) (left todo : List ℕ) (state state' : S) (buf : List ℕ)
      → left ≡ []
      → NoNewline todo
      → IsBuffer buf
      → view state' ≡ shows (view state) (reported (d ∷ pattern) name todo)
      → Scanned cnt left todo state (some (buf, 0, state'))
  all_searched cnt left todo state state' buf none_left clear good written = record {
    buf = buf;
    pending = [];
    tail = buf;
    out = reported (d ∷ pattern) name todo;
    state' = state';
    runs = refl;
    good = good;
    front = refl;
    valid = tt;
    fits = omega arith;
    short = rw none_left short_nothing;
    at_end = λ e. refl;
    written = written;
    account =
        ap (λ l. reported (d ∷ pattern) name todo ++ found_in (d ∷ pattern) name l) none_left
        ∙ ap (λ l. reported (d ∷ pattern) name todo ++ l) found_in-nothing
        ∙ append-nil (reported (d ∷ pattern) name todo)
        ∙ sym (found_in-last todo clear)
        ∙ ap (found_in (d ∷ pattern) name)
            (sym (append-nil todo) ∙ ap (λ l. todo ++ l) (sym none_left));
  }

  -- Behind the bytes read: the line there is kept, or it is the last one and is searched.
  pub last_line :
      (rounds cnt : ℕ) (before todo : List ℕ) (c : ℕ) (behind left : List ℕ) (state : S)
      → IsBuffer (before ++ (todo ++ c ∷ behind))
      → NonNul todo
      → NoNewline todo
      → AllShort (lines (todo ++ left))
      → (cnt ≡ 0 → left ≡ [])
      → (left ≢ [] → length before + length todo ≡ 1024)
      → Scanned cnt left todo state (
          scan_lines os s fname
            (suc rounds)
            cnt
            (before ++ (todo ++ c ∷ behind))
            (length before + length todo)
            (length before)
            state)
  last_line rounds cnt before todo c behind left state good proper' clear short ended full =
      let last = length before + length todo in
      let whole = before ++ (todo ++ c ∷ behind) in
      let cut = before ++ (todo ++ 0 ∷ behind) in
      let size : last - length before ≡ length todo = omega arith in
      let end : find_end (last - length before) whole (length before) ≡ last =
        rw size (find_end-last todo before (c ∷ behind) clear) in
      let step = scan_round os s fname rounds cnt before todo c behind last state end in
      let here = get_or-inner before todo c behind in
      elim (Bool-cases (stops whole last cnt (length before))) [
        | inl stop ↦
            let facts = stops_facts whole last cnt (length before) stop in
            let moved = shifted before todo c behind proper' facts.1 good in
            let total = length-append before (todo ++ c ∷ behind) in
            let total' = length-append todo (c ∷ behind) in
            let result : Option (List ℕ × ℕ × S) =
              some (strcpy_within (length before) cut, length todo, state) in
            let runs : scan_lines os s fname (suc rounds) cnt whole last (length before) state
                ≡ result =
              step ∙ rw (stop, size) refl in
            record {
              buf = strcpy_within (length before) cut;
              pending = todo;
              tail = moved.0;
              out = [];
              state' = state;
              runs = runs;
              good = moved.2;
              front = moved.1;
              valid = proper';
              fits = omega (arith, facts.1, total, total', good.size);
              short = short;
              at_end = λ e. absurd (facts.0 e);
              written =
                  ap (λ l. record (view state) { shown = l }) (sym (append-nil (view state).shown));
              account = refl;
            }
        | inr go ↦
            let none_left =
              no_more cnt before todo c behind left good clear short ended full (rw (← here) go) in
            let ends : leb last (last + 1) ≡ true = ground arith in
            let good' = cut_inner-IsBuffer before todo c behind good in
            let written =
              look-reported os text dir file d pattern y view disk name named small proper todo
                before behind state proper' in
            subst (Scanned cnt left todo state) (sym (step ∙ rw (go, ends) refl)) (
              all_searched cnt left todo state (look os s fname todo before behind state) cut
                none_left clear good' written)
      ]
