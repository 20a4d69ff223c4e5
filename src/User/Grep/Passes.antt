-- ===== src/User/Grep/Passes.antt =====
-- All lines in the buffer, one after the other.
use mathlib.Core.List.{append_assoc, append-nil}
use mathlib.Core.Path.{subst}
use ece391_kernel.Base.{
  ℕ, zero, suc, ◌+◌, ◌-◌, ◌<◌, ◌≤◌, ◌≡◌, ◌≢◌, inl, inr, refl, sym, ap, ◌∙◌, true, false, leb, List,
  [], ◌∷◌, ◌++◌, Option, length, length-append, arith,
}
use ece391_kernel.Text.Spec.{NonNul}
use ece391_kernel.User.{Os}
use ece391_kernel.User.Grep.Lines.{
  lines, reported, found_in, AllShort, NoNewline, lines-newline, first_line,
}
use ece391_kernel.User.Grep.Buffer.{
  IsBuffer, cut_inner-IsBuffer, get_or-inner, regroup, length-next, find_end-newline,
}
use ece391_kernel.User.Grep.Scan.{look, look-reported, stops, round_result, scan_round}
use ece391_kernel.User.Grep.Disk.{Disk, shows, shows-shows, IsDisk}
use ece391_kernel.User.Grep.{find_end, scan_lines}
use ece391_kernel.User.Grep.Pass.{Scanned, NonNul-parts, found_in-line, last_line}

module _ {S : Type 0} (os : Os S) (text : List ℕ → Option (List ℕ)) (dir file : ℕ) (d : ℕ)
    (pattern y : List ℕ) (view : S → Disk) (disk : IsDisk os text dir file (d ∷ pattern) view)
    (name : List ℕ) (named : NonNul name) (small : d < 128) (proper : NonNul (d ∷ pattern)) where
  abbrev s : List ℕ
  s = (d ∷ pattern) ++ 0 ∷ y

  abbrev fname : List ℕ
  fname = name ++ 0 ∷ []

  abbrev Kept : (cnt : ℕ) (left todo : List ℕ) → S → Option (List ℕ × ℕ × S) → Type 0
  Kept = Scanned os text dir file d pattern y view disk name named small proper

  -- A line was searched before the rest.
  prepend :
      (cnt : ℕ) (left line more : List ℕ) (state state' : S) {result : Option (List ℕ × ℕ × S)}
      → NoNewline line
      → view state' ≡ shows (view state) (reported (d ∷ pattern) name line)
      → Kept cnt left more state' result
      → Kept cnt left (line ++ 10 ∷ more) state result
  prepend cnt left line more state state' clear written r = record {
    buf = r.buf;
    pending = r.pending;
    tail = r.tail;
    out = reported (d ∷ pattern) name line ++ r.out;
    state' = r.state';
    runs = r.runs;
    good = r.good;
    front = r.front;
    valid = r.valid;
    fits = r.fits;
    short = r.short;
    at_end = r.at_end;
    written =
        r.written
        ∙ ap (λ v. shows v r.out) written
        ∙ shows-shows (view state) (reported (d ∷ pattern) name line) r.out;
    account =
        append_assoc (reported (d ∷ pattern) name line) r.out
          (found_in (d ∷ pattern) name (r.pending ++ left))
        ∙ ap (λ l. reported (d ∷ pattern) name line ++ l) r.account
        ∙ sym (
            found_in-line os text dir file d pattern y view disk name named small proper line
              (more ++ left) clear)
        ∙ ap (found_in (d ∷ pattern) name) (sym (append_assoc line (10 ∷ more) left));
  }

  -- The loop from a line's beginning on.
  abbrev pub Passes : (rounds : ℕ) (todo : List ℕ) → Type 0
  Passes rounds todo =
      (cnt : ℕ) (before tail left : List ℕ) (state : S)
      → IsBuffer (before ++ (todo ++ tail))
      → NonNul todo
      → length todo < rounds
      → AllShort (lines (todo ++ left))
      → (cnt ≡ 0 → left ≡ [])
      → (left ≢ [] → length before + length todo ≡ 1024)
      → length before + length todo ≤ 1024
      → Kept cnt left todo state (
          scan_lines os s fname rounds cnt (before ++ (todo ++ tail)) (length before + length todo)
            (length before) state)

  Passes-end : (rounds : ℕ) (todo : List ℕ) → NoNewline todo → Passes (suc rounds) todo
  Passes-end rounds todo clear cnt before [] left state good nn lt short ended full fits =
      absurd
        (omega (arith, good.size, length-append before (todo ++ []), ap length (append-nil todo)))
  Passes-end rounds todo clear cnt before (c ∷ behind) left state good nn lt short ended full fits =
      last_line os text dir file d pattern y view disk name named small proper rounds cnt before
        todo c behind left state good nn clear short ended full

  pub scan_lines-same :
      (rounds cnt : ℕ) (state : S) {buf buf' : List ℕ} {last last' start start' : ℕ}
      → buf ≡ buf'
      → last ≡ last'
      → start ≡ start'
      → scan_lines os s fname rounds cnt buf last start state
        ≡ scan_lines os s fname rounds cnt buf' last' start' state
  scan_lines-same rounds cnt state e f g = cc (e, f, g)

  -- Behind a line that was searched: the end, or another line.
  line_rest :
      (rounds cnt : ℕ) (before line more tail left : List ℕ) (last : ℕ) (buf : List ℕ)
      (state state' : S)
      → stops buf (length before + length line) cnt (length before) ≡ false
      → IsBuffer (before ++ (line ++ 0 ∷ (more ++ tail)))
      → last ≡ length before + (length line + suc (length more))
      → NonNul more
      → length more < rounds
      → AllShort (lines (more ++ left))
      → (cnt ≡ 0 → left ≡ [])
      → (left ≢ [] → last ≡ 1024)
      → last ≤ 1024
      → Passes rounds more
      → Kept cnt left more state' (
          round_result
            (scan_lines os s fname rounds cnt
              (before ++ (line ++ 0 ∷ (more ++ tail)))
              last
              (length before + length line + 1)
              state')
            cnt
            buf
            (before ++ (line ++ 0 ∷ (more ++ tail)))
            last
            (length before + length line)
            (length before)
            state
            state')
  line_rest rounds cnt before line [] tail left last buf state state' go good at nn lt short ended
        full fits ih =
      let ends : leb last (length before + length line + 1) ≡ true = ground (arith, at) in
      subst (Kept cnt left [] state') (sym (rw (go, ends) refl)) (record {
        buf = before ++ (line ++ 0 ∷ tail);
        pending = [];
        tail = before ++ (line ++ 0 ∷ tail);
        out = [];
        state' = state';
        runs = refl;
        good = good;
        front = refl;
        valid = tt;
        fits = omega arith;
        short = short;
        at_end = λ e. refl;
        written =
            ap (λ l. record (view state') { shown = l }) (sym (append-nil (view state').shown));
        account = refl;
      })
  line_rest rounds cnt before line (m ∷ more) tail left last buf state state' go good at nn lt short
        ended full fits ih =
      let before' = before ++ (line ++ 0 ∷ []) in
      let size : length before' ≡ length before + length line + 1 =
        omega (arith, length-append before (line ++ 0 ∷ []), length-next line 0) in
      let goes : leb last (length before + length line + 1) ≡ false = ground (arith, at) in
      let place : before' ++ ((m ∷ more) ++ tail) ≡ before ++ (line ++ 0 ∷ ((m ∷ more) ++ tail)) =
        append_assoc before (line ++ 0 ∷ []) ((m ∷ more) ++ tail)
        ∙ ap (λ l. before ++ l) (regroup line 0 ((m ∷ more) ++ tail)) in
      let last' : length before' + length (m ∷ more) ≡ last = omega (arith, size, at) in
      let r =
        ih cnt before' tail left state' (subst IsBuffer (sym place) good) nn lt short ended
          (λ ne. last' ∙ full ne) (omega (arith, last', fits)) in
      subst (Kept cnt left (m ∷ more) state')
        (scan_lines-same rounds cnt state' place last' size ∙ sym (rw (go, goes) refl)) r

  Passes-line :
      (rounds : ℕ) (line more : List ℕ)
      → NoNewline line
      → Passes rounds more
      → Passes (suc rounds) (line ++ 10 ∷ more)
  Passes-line rounds line more clear ih cnt before tail left state good nn lt short ended full
        fits =
      let total = length-append line (10 ∷ more) in
      let last = length before + length (line ++ 10 ∷ more) in
      let place : before ++ ((line ++ 10 ∷ more) ++ tail)
          ≡ before ++ (line ++ 10 ∷ (more ++ tail)) =
        ap (λ l. before ++ l) (append_assoc line (10 ∷ more) tail) in
      let whole = before ++ (line ++ 10 ∷ (more ++ tail)) in
      let cut = before ++ (line ++ 0 ∷ (more ++ tail)) in
      let state' = look os s fname line before (more ++ tail) state in
      let nns = NonNul-parts line (10 ∷ more) nn in
      let size : last - length before ≡ length line + suc (length more) = omega (arith, total) in
      let end : find_end (last - length before) whole (length before)
          ≡ length before + length line =
        rw size (find_end-newline line (length more) before (more ++ tail) clear) in
      let step = scan_round os s fname rounds cnt before line 10 (more ++ tail) last state end in
      let written =
        look-reported os text dir file d pattern y view disk name named small proper line before
          (more ++ tail) state nns.0 in
      let good' : IsBuffer cut =
        cut_inner-IsBuffer before line 10 (more ++ tail) (subst IsBuffer place good) in
      let go : stops whole (length before + length line) cnt (length before) ≡ false =
        rw (get_or-inner before line 10 (more ++ tail)) refl in
      let rest : Kept cnt left more state' (
          round_result
            (scan_lines os s fname rounds cnt cut last (length before + length line + 1) state') cnt
            whole cut last (length before + length line) (length before) state state') =
        line_rest rounds cnt before line more tail left last whole state state' go good'
          (omega (arith, total)) nns.1.1 (omega (arith, total))
          (subst AllShort (lines-newline line (more ++ left) clear)
            (subst (λ l. AllShort (lines l)) (append_assoc line (10 ∷ more) left) short)).1
          ended full fits ih in
      subst
        (λ b.
          Kept cnt left (line ++ 10 ∷ more) state
            (scan_lines os s fname (suc rounds) cnt b last (length before) state))
        (sym place)
        (subst (Kept cnt left (line ++ 10 ∷ more) state) (sym step)
          (prepend cnt left line more state state' clear written rest))

  pub scan_lines-Passes : (rounds : ℕ) (todo : List ℕ) → Passes rounds todo
  scan_lines-Passes zero todo = λ cnt before tail left state good nn lt. absurd (omega (arith, lt))
  scan_lines-Passes (suc rounds) todo = elim (first_line todo) [
    | inl clear ↦ Passes-end rounds todo clear
    | inr r ↦
        subst (Passes (suc rounds)) (sym r.2)
          (Passes-line rounds r.0 r.1 r.3 (scan_lines-Passes rounds r.1))
  ]
