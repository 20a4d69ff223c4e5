-- ===== src/User/Grep/Search.antt =====
-- A whole file, and all files of the directory.
use mathlib.Core.List.{append_assoc, append-nil}
use mathlib.Core.Path.{subst}
use ece391_kernel.Base.{
  ℕ, zero, suc, ◌+◌, ◌-◌, ◌<◌, ◌≤◌, ◌≡◌, ◌≢◌, refl, sym, ap, ap₂, ◌∙◌, List, [], ◌∷◌, ◌++◌, Option,
  some, length, length-append, length-take, length-drop, take, drop, take-append-drop, min, arith,
}
use ece391_kernel.Base.Int.{pos}
use ece391_kernel.Text.Spec.{NonNul}
use ece391_kernel.User.{Os}
use ece391_kernel.User.Grep.Lines.{lines, found_in, AllShort}
use ece391_kernel.User.Grep.Buffer.{IsBuffer, store_at-IsBuffer, take-here}
use ece391_kernel.User.Grep.Disk.{Disk, shows, IsDisk}
use ece391_kernel.User.Grep.Pass.{Scanned, NonNul-parts, found_in-nothing}
use ece391_kernel.User.Grep.Passes.{scan_lines-same, scan_lines-Passes}
use ece391_kernel.User.Grep.{store_at, scan_lines, after_scan, read_lines, close_file, do_one_file}

nil_of_length : (l : List ℕ) → length l ≡ 0 → l ≡ []
nil_of_length [] e = refl
nil_of_length (c ∷ l) e = absurd (omega (arith, e))

NonNul-append : (a b : List ℕ) → NonNul a → NonNul b → NonNul (a ++ b)
NonNul-append [] b h k = k
NonNul-append (c ∷ a) b h k = (h.0, NonNul-append a b h.1 k)

module _ {S : Type 0} (os : Os S) (text : List ℕ → Option (List ℕ)) (dir file : ℕ) (d : ℕ)
    (pattern y : List ℕ) (view : S → Disk) (disk : IsDisk os text dir file (d ∷ pattern) view)
    (name : List ℕ) (named : NonNul name) (small : d < 128) (proper : NonNul (d ∷ pattern)) where
  abbrev s : List ℕ
  s = (d ∷ pattern) ++ 0 ∷ y

  abbrev fname : List ℕ
  fname = name ++ 0 ∷ []

  abbrev Kept : (cnt : ℕ) (left todo : List ℕ) → S → Option (List ℕ × ℕ × S) → Type 0
  Kept = Scanned os text dir file d pattern y view disk name named small proper

  -- The file was read to its end, and its lines were searched.
  abbrev searched : Disk → (text : List ℕ) → Disk
  searched v t = record v { left = []; shown = v.shown ++ found_in (d ∷ pattern) name t }

  close_file_lem :
      (state : S)
      → (s' : S) × (close_file os s fname (pos file) state ≡ (pos 0, s')) × (view s' ≡ view state)
  unfolding close_file
  close_file_lem state = let r = disk.closes state in (r.0, rw r.1 refl, r.2)

  -- The buffer with the bytes read behind what was kept.
  store_at-place :
      (pending tail chunk extra : List ℕ)
      → (tail' : List ℕ) × (store_at (length pending) (chunk ++ extra) (pending ++ tail)
          ≡ (pending ++ chunk) ++ tail')
  store_at-place pending tail chunk extra =
      let rest = drop (length pending + length (chunk ++ extra)) (pending ++ tail) in
      (
        extra ++ rest,
        ap (λ l. l ++ ((chunk ++ extra) ++ rest)) (take-here pending tail) ∙ simp append_assoc,
      )

  -- One read and one pass.
  read_pass :
      (pending tail : List ℕ) (state : S)
      → IsBuffer (pending ++ tail)
      → NonNul (pending ++ (view state).left)
      → length pending ≤ 1023
      → AllShort (lines (pending ++ (view state).left))
      → let n = 1024 - length pending in
        let cnt = min n (length (view state).left) in
        let left = drop n (view state).left in
        (bytes : List ℕ) × (state1 : S) × (os.read (pos file) n state ≡ (pos cnt, bytes, state1))
        × (view state1 ≡ record (view state) { left = left })
        × Kept cnt left (pending ++ take n (view state).left) state1 (
            scan_lines os s fname
              (suc (length pending + cnt))
              cnt
              (store_at (length pending) bytes (pending ++ tail))
              (length pending + cnt)
              0
              state1)
  read_pass pending tail state good nn fits short =
      let n = 1024 - length pending in
      let all = (view state).left in
      let cnt = min n (length all) in
      let r = disk.read_text n state in
      let chunk = take n all in
      let left = drop n all in
      let todo = pending ++ chunk in
      let place = store_at-place pending tail chunk r.0 in
      let size : length chunk ≡ cnt = length-take n all in
      let total = length-append pending chunk in
      let rest = length-drop n all in
      let stored = length-append chunk r.0 in
      let whole : todo ++ left ≡ pending ++ all =
        append_assoc pending chunk left ∙ ap (λ l. pending ++ l) (take-append-drop n all) in
      let good' =
        store_at-IsBuffer (length pending) (chunk ++ r.0) (pending ++ tail)
          (omega (arith, stored, size, r.3, fits)) good in
      let pass =
        scan_lines-Passes os text dir file d pattern y view disk name named small proper
          (suc (length pending + cnt)) todo cnt [] place.0 left r.1 (subst IsBuffer place.1 good')
          (NonNul-parts todo left (subst NonNul (sym whole) nn)).0 (omega (arith, total, size))
          (subst (λ l. AllShort (lines l)) (sym whole) short)
          (λ e. nil_of_length left (omega (arith, e, rest, fits)))
          (λ ne.
            let some_left : length left ≢ 0 = λ e. ne (nil_of_length left e) in
            omega (arith, some_left, rest, total, size, fits))
          (omega (arith, total, size, fits)) in
      (
        chunk ++ r.0,
        r.1,
        r.2,
        r.4,
        subst (Kept cnt left todo r.1)
            (scan_lines-same os text dir file d pattern y view disk name named small proper
              (suc (length pending + cnt)) cnt r.1 (sym place.1) (omega (arith, total, size)) refl)
            pass,
      )

  -- The end of a round, by what the read returned.
  abbrev Rest : (rounds : ℕ) → Type 0
  Rest rounds =
      (pending tail : List ℕ) (state : S)
      → IsBuffer (pending ++ tail)
      → NonNul (pending ++ (view state).left)
      → length pending ≤ 1023
      → AllShort (lines (pending ++ (view state).left))
      → length (view state).left < rounds
      → (s' : S) × (read_lines os s fname rounds (pos file) (pending ++ tail) (length pending) state
          ≡ some (pos 0, s'))
        × (view s' ≡ searched (view state) (pending ++ (view state).left))

  after_pass :
      (rounds cnt : ℕ) (left todo : List ℕ) (state state1 : S) (result : Option (List ℕ × ℕ × S))
      → Kept cnt left todo state1 result
      → view state1 ≡ record (view state) { left = left }
      → NonNul left
      → (cnt ≡ 0 → left ≡ [])
      → (cnt ≢ 0 → length left < rounds)
      → Rest rounds
      → (s' : S) × (after_scan os s fname
            (read_lines os s fname rounds (pos file))
            (pos file)
            cnt
            result
          ≡ some (pos 0, s'))
        × (view s' ≡ searched (view state) (todo ++ left))
  after_pass rounds zero left todo state state1 result k opened nn ended enough rest =
      let closed = close_file_lem k.state' in
      let none_left = ended refl in
      let nothing : k.pending ++ left ≡ [] = ap₂ ◌++◌ (k.at_end refl) none_left in
      let silent =
        found_in-nothing os text dir file d pattern y view disk name named small proper in
      let account : k.out ≡ found_in (d ∷ pattern) name (todo ++ left) =
        sym (append-nil k.out)
        ∙ ap (λ l. k.out ++ l) (sym (ap (found_in (d ∷ pattern) name) nothing ∙ silent))
        ∙ k.account in
      (
        closed.0,
        ap (after_scan os s fname (read_lines os s fname rounds (pos file)) (pos file) 0) k.runs
            ∙ ap (λ p. some p) closed.1,
        closed.2
            ∙ k.written
            ∙ ap (λ v. shows v k.out) opened
            ∙ ap₂ (λ l o. record (view state) { left = l; shown = (view state).shown ++ o })
                none_left account,
      )
  after_pass rounds (suc cnt) left todo state state1 result k opened nn ended enough rest =
      let seen = k.written ∙ ap (λ v. shows v k.out) opened in
      let now : (view k.state').left ≡ left = ap (λ v. v.left) seen in
      let more =
        rest k.pending k.tail k.state' (subst IsBuffer k.front k.good)
          (subst (λ l. NonNul (k.pending ++ l)) (sym now) (NonNul-append k.pending left k.valid nn))
          k.fits (subst (λ l. AllShort (lines (k.pending ++ l))) (sym now) k.short)
          (subst (λ l. length l < rounds) (sym now) (enough (omega arith))) in
      (
        more.0,
        ap (after_scan os s fname (read_lines os s fname rounds (pos file)) (pos file) (suc cnt))
              k.runs
            ∙ ap (λ b. read_lines os s fname rounds (pos file) b (length k.pending) k.state')
                k.front
            ∙ more.1,
        more.2
            ∙ ap (λ v. searched v (k.pending ++ v.left)) seen
            ∙ ap (λ l. record (view state) { left = []; shown = l })
                (append_assoc (view state).shown k.out
                    (found_in (d ∷ pattern) name (k.pending ++ left))
                  ∙ ap (λ l. (view state).shown ++ l) k.account),
      )

  read_lines_lem : (rounds : ℕ) → Rest rounds
  unfolding read_lines
  read_lines_lem zero pending tail state good nn fits short enough = absurd (omega (arith, enough))
  read_lines_lem (suc rounds) pending tail state good nn fits short enough =
      let n = 1024 - length pending in
      let all = (view state).left in
      let cnt = min n (length all) in
      let left = drop n all in
      let p = read_pass pending tail state good nn fits short in
      let rest = length-drop n all in
      let whole : (pending ++ take n all) ++ left ≡ pending ++ all =
        append_assoc pending (take n all) left ∙ ap (λ l. pending ++ l) (take-append-drop n all) in
      let nn' = (NonNul-parts (pending ++ take n all) left (subst NonNul (sym whole) nn)).1 in
      let r =
        after_pass rounds cnt left (pending ++ take n all) state p.1
          (scan_lines os s fname (suc (length pending + cnt)) cnt
            (store_at (length pending) p.0 (pending ++ tail)) (length pending + cnt) 0 p.1)
          p.4 p.3 nn' (λ e. nil_of_length left (omega (arith, e, rest, fits)))
          (λ ne. omega (arith, ne, rest, enough, fits)) (read_lines_lem rounds) in
      (r.0, rw p.2 r.1, r.2 ∙ ap (searched (view state)) whole)

  -- `do_one_file` on a file that is there.
  pub do_one_file_lem :
      (c : ℕ) (rest : List ℕ) (rounds : ℕ) (stack : List ℕ) (state : S) (t : List ℕ)
      → name ≡ c ∷ rest
      → c ≢ 46
      → text name ≡ some t
      → IsBuffer stack
      → NonNul t
      → AllShort (lines t)
      → length t < rounds
      → (s' : S) × (do_one_file os s fname rounds stack state ≡ some (pos 0, s'))
        × (view s' ≡ searched (view state) t)
  unfolding do_one_file
  do_one_file_lem c rest rounds stack state t named' visible there good nn short enough =
      let r = disk.open_text c rest t state visible (subst (λ m. text m ≡ some t) named' there) in
      let now : (view r.0).left ≡ t = ap (λ v. v.left) r.2 in
      let more =
        read_lines_lem rounds [] stack r.0 good (subst NonNul (sym now) nn) (omega arith)
          (subst (λ l. AllShort (lines l)) (sym now) short)
          (subst (λ l. length l < rounds) (sym now) enough) in
      let opened : os.open_file fname state ≡ (pos file, r.0) =
        ap (λ m. os.open_file (m ++ 0 ∷ []) state) named' ∙ r.1 in
      (more.0, rw opened more.1, more.2 ∙ ap (λ v. searched v v.left) r.2)
