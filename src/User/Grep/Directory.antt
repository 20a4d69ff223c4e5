-- ===== src/User/Grep/Directory.antt =====
-- grep as a whole: every file of the directory, line by line.
use mathlib.Core.List.{append_assoc, append-nil}
use ece391_kernel.Base.{
  ℕ, zero, suc, ◌<◌, ◌≡◌, ◌⊎◌, inl, inr, refl, sym, ap, ◌∙◌, true, false, ◌==◌, if◌then◌else◌, List,
  [], ◌∷◌, ◌++◌, Option, none, some, length, take, arith, ℕ_discrete,
}
use ece391_kernel.Base.Int.{pos}
use ece391_kernel.Text.{byte}
use ece391_kernel.Text.Spec.{NonNul}
use ece391_kernel.User.{Os}
use ece391_kernel.User.Grep.Lines.{lines, found_in, AllShort}
use ece391_kernel.User.Grep.Buffer.{IsBuffer, take-here}
use ece391_kernel.User.Grep.Disk.{Disk, IsDisk}
use ece391_kernel.User.Grep.Search.{do_one_file_lem}
use ece391_kernel.User.Grep.{search_files, grep_main}

abbrev contents : Option (List ℕ) → List ℕ
contents none = []
contents (some t) = t

-- The lines with the pattern, of all files whose names do not begin with a dot.
abbrev pub found_files :
    (text : List ℕ → Option (List ℕ)) (pattern : List ℕ) → List (List ℕ) → List ℕ
found_files text pattern [] = []
found_files text pattern ([] ∷ names) = found_files text pattern names
found_files text pattern ((c ∷ name) ∷ names) =
    if c == 46
    then found_files text pattern names
    else found_in pattern (c ∷ name) (contents (text (c ∷ name))) ++ found_files text pattern names

-- A file of text with no NUL, in lines of at most 1023 characters, and shorter than `reads`.
abbrev pub IsText : (reads : ℕ) → Option (List ℕ) → Type 0
IsText reads none = ⊥
IsText reads (some t) = NonNul t × AllShort (lines t) × (length t < reads)

-- The names are not empty, and each begins with a dot or is that of a text.
abbrev pub AllTexts : (text : List ℕ → Option (List ℕ)) (reads : ℕ) → List (List ℕ) → Type 0
AllTexts text reads [] = Unit
AllTexts text reads ([] ∷ names) = ⊥
AllTexts text reads ((c ∷ name) ∷ names) =
    NonNul (c ∷ name) × ((c ≡ 46) ⊎ IsText reads (text (c ∷ name))) × AllTexts text reads names

IsText-some :
    (reads : ℕ) (o : Option (List ℕ))
    → IsText reads o
    → (t : List ℕ) × (o ≡ some t) × NonNul t × AllShort (lines t) × (length t < reads)
IsText-some reads none h = absurd h
IsText-some reads (some t) h = (t, refl, h.0, h.1, h.2)

module _ {S : Type 0} (os : Os S) (text : List ℕ → Option (List ℕ)) (dir file : ℕ) (d : ℕ)
    (pattern : List ℕ) (view : S → Disk) (disk : IsDisk os text dir file (d ∷ pattern) view)
    (small : d < 128) (proper : NonNul (d ∷ pattern)) (reads : ℕ) (stack : ℕ → List ℕ)
    (buffers : (n : ℕ) → IsBuffer (stack n)) where
  search_files_lem :
      (names : List (List ℕ)) (rounds : ℕ) (y : List ℕ) (s : S)
      → AllTexts text reads names
      → length names < rounds
      → (view s).names ≡ names
      → (s' : S) × (search_files os rounds reads stack ((d ∷ pattern) ++ 0 ∷ y) (pos dir) s
          ≡ some (pos 0, s'))
        × ((view s').shown ≡ (view s).shown ++ found_files text (d ∷ pattern) names)
  unfolding search_files
  search_files_lem names zero y s all lt e = absurd (omega (arith, lt))
  search_files_lem [] (suc rounds) y s all lt e =
      let r = disk.read_end s e in
      (r.1, rw r.2 refl, ap (λ v. v.shown) r.3 ∙ sym (append-nil (view s).shown))
  search_files_lem ([] ∷ names) (suc rounds) y s all lt e = absurd all
  search_files_lem ((c ∷ name) ∷ names) (suc rounds) y s all lt e =
      let r = disk.read_name c name names s e in
      let read = take-here (c ∷ name) r.0 in
      let seen = r.3 in
      let left : (view r.1).names ≡ names = ap (λ v. v.names) seen in
      elim (ℕ_discrete c 46) [
        | yes dot ↦
            let test : (c == 46) ≡ true = ground (arith, dot) in
            let more = search_files_lem names rounds y r.1 all.2 (omega (arith, lt)) left in
            (
              more.0,
              rw (r.2, byte, test) more.1,
              rw test (more.2 ∙ ap (λ v. v.shown ++ found_files text (d ∷ pattern) names) seen),
            )
        | no visible ↦
            let test : (c == 46) ≡ false = ground (arith, visible) in
            let ready : IsText reads (text (c ∷ name)) = elim all.1 [
              | inl dot ↦ absurd (visible dot)
              | inr h ↦ h
            ] in
            let t = IsText-some reads (text (c ∷ name)) ready in
            let file_found = found_in (d ∷ pattern) (c ∷ name) t.0 in
            let one =
              do_one_file_lem os text dir file d pattern y view disk (c ∷ name) all.0 small proper c
                name reads (stack rounds) r.1 t.0 refl visible t.1 (buffers rounds) t.2 t.3 t.4 in
            let more =
              search_files_lem names rounds y one.0 all.2 (omega (arith, lt))
                (ap (λ v. v.names) one.2 ∙ left) in
            let string : take (suc (length name)) (c ∷ (name ++ r.0)) ++ 0 ∷ []
                ≡ (c ∷ name) ++ 0 ∷ [] =
              ap (λ l. l ++ 0 ∷ []) read in
            let others = found_files text (d ∷ pattern) names in
            (
              more.0,
              rw (r.2, byte, test, string, one.1) more.1,
              rw (test, t.1)
                  (more.2
                    ∙ ap (λ v. v.shown ++ others) one.2
                    ∙ ap (λ v. (v.shown ++ file_found) ++ others) seen
                    ∙ append_assoc (view s).shown file_found others),
            )
      ]

  -- On a system with a directory and its files, with a pattern whose first character is below 128 and which has
  -- no NUL, where every name that does not begin with a dot is that of a text without NUL in lines of at most 1023
  -- characters, and where the last byte of the array `data` is never a newline before it is used: with more
  -- rounds than names, and more reads than characters in each file, grep ends with 0. It has then written, for
  -- each file in the order of the directory, exactly the lines in which the pattern occurs, each behind the
  -- file's name and a colon, and nothing else.
  pub grep_main_lem :
      (names : List (List ℕ)) (rounds : ℕ) (s : S)
      → AllTexts text reads names
      → length names < rounds
      → (view s).names ≡ names
      → (s' : S) × (grep_main os rounds reads stack s ≡ some (pos 0, s'))
        × ((view s').shown ≡ (view s).shown ++ found_files text (d ∷ pattern) names)
  unfolding grep_main
  grep_main_lem names rounds s all lt e =
      let args = disk.gives_pattern s in
      let opened = disk.open_directory args.1 in
      let seen = opened.2 ∙ args.3 in
      let r = search_files_lem names rounds args.0 opened.0 all lt (ap (λ v. v.names) seen ∙ e) in
      (
        r.0,
        rw (args.2, opened.1) r.1,
        r.2 ∙ ap (λ v. v.shown ++ found_files text (d ∷ pattern) names) seen,
      )
