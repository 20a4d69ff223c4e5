-- ===== src/User/Copy.antt =====
-- `cat` writes what it reads, and `ls` the names that it reads, one to a line.
use mathlib.Core.List.{append-nil, append_assoc}
use ece391_kernel.Base.{
  ℕ, zero, suc, ◌<◌, ◌≤◌, ◌≡◌, refl, sym, ap, ◌∙◌, List, [], ◌∷◌, ◌++◌, some, length, arith,
}
use ece391_kernel.Base.Int.{pos}
use ece391_kernel.User.{Os, Round, ends, goes_on, next_round, repeat, cat_round, cat_main}

-- A system with a file open at a descriptor: `pending` are the pieces, of at most `size` bytes, that reads of `size`
-- bytes from it still give, and `shown` what was written to the terminal.
pub record IsReadable {S : Type 0} (os : Os S) (fd size : ℕ) (pending : S → List (List ℕ))
    (shown : S → List ℕ) : Type 0 where
  pub read_end :
      (s : S)
      → pending s ≡ []
      → (s' : S) × (os.read (pos fd) size s ≡ (pos 0, [], s')) × (shown s' ≡ shown s)
  pub read_piece :
      (s : S) (c : ℕ) (piece : List ℕ) (pieces : List (List ℕ))
      → pending s ≡ (c ∷ piece) ∷ pieces
      → suc (length piece) ≤ size
      → (s' : S) × (os.read (pos fd) size s ≡ (pos (suc (length piece)), c ∷ piece, s'))
        × (pending s' ≡ pieces)
        × (shown s' ≡ shown s)
  pub shows :
      (buf : List ℕ) (s : S)
      → (s' : S) × (os.write (pos 1) buf (length buf) s ≡ (pos (length buf), s'))
        × (pending s' ≡ pending s)
        × (shown s' ≡ shown s ++ buf)

-- No piece is empty, since a read of nothing is the end, or longer than what is asked for.
abbrev pub AllPieces : (size : ℕ) → List (List ℕ) → Type 0
AllPieces size [] = Unit
AllPieces size ([] ∷ pieces) = ⊥
AllPieces size ((c ∷ piece) ∷ pieces) = (suc (length piece) ≤ size) × AllPieces size pieces

-- The pieces, with a tail behind each.
abbrev pub joined : (tail : List ℕ) → List (List ℕ) → List ℕ
joined tail [] = []
joined tail (piece ∷ pieces) = (piece ++ tail) ++ joined tail pieces

module _ {S : Type 0} (os : Os S) (fd size : ℕ) (pending : S → List (List ℕ))
    (shown : S → List ℕ) where
  -- A loop that ends at the end of the file, and otherwise writes the piece with a tail.
  record IsCopy (body : S → Round S) (tail : List ℕ) : Type 0 where
    pub at_end :
        (s : S) → pending s ≡ [] → (s' : S) × (body s ≡ ends (pos 0) s') × (shown s' ≡ shown s)
    pub at_piece :
        (s : S) (c : ℕ) (piece : List ℕ) (pieces : List (List ℕ))
        → pending s ≡ (c ∷ piece) ∷ pieces
        → suc (length piece) ≤ size
        → (s' : S) × (body s ≡ goes_on s')
          × (pending s' ≡ pieces)
          × (shown s' ≡ shown s ++ ((c ∷ piece) ++ tail))

  copies :
      (body : S → Round S) (tail : List ℕ)
      → IsCopy body tail
      → (pieces : List (List ℕ)) (rounds : ℕ) (s : S) → AllPieces size pieces
      → length pieces < rounds
      → pending s ≡ pieces
      → (s' : S) × (repeat os body rounds s ≡ some (pos 0, s'))
        × (shown s' ≡ shown s ++ joined tail pieces)
  unfolding repeat
  copies body tail copy pieces zero s all lt e = absurd (omega (arith, lt))
  copies body tail copy [] (suc rounds) s all lt e =
      let r = copy.at_end s e in
      (r.0, ap (next_round os (repeat os body rounds)) r.1, r.2 ∙ sym (append-nil (shown s)))
  copies body tail copy ([] ∷ pieces) (suc rounds) s all lt e = absurd all
  copies body tail copy ((c ∷ piece) ∷ pieces) (suc rounds) s all lt e =
      let r = copy.at_piece s c piece pieces e all.0 in
      let more = copies body tail copy pieces rounds r.0 all.1 (omega (arith, lt)) r.2 in
      (
        more.0,
        ap (next_round os (repeat os body rounds)) r.1 ∙ more.1,
        more.2
            ∙ ap (λ l. l ++ joined tail pieces) r.3
            ∙ append_assoc (shown s) ((c ∷ piece) ++ tail) (joined tail pieces),
      )

module _ {S : Type 0} (os : Os S) (fd : ℕ) (pending : S → List (List ℕ)) (shown : S → List ℕ) where
  cat-IsCopy :
      IsReadable os fd 1024 pending shown
      → IsCopy os fd 1024 pending shown (cat_round os (pos fd)) []
  unfolding cat_round
  cat-IsCopy readable = record {
    at_end = λ s e. let r = readable.read_end s e in (r.0, rw r.1 refl, r.2);
    at_piece = λ s c piece pieces e fits.
        let r = readable.read_piece s c piece pieces e fits in
        let w = readable.shows (c ∷ piece) r.0 in
        (
          w.0,
          rw (r.1, w.1) refl,
          w.2 ∙ r.2,
          w.3
              ∙ ap (λ l. l ++ c ∷ piece) r.3
              ∙ ap (λ l. shown s ++ l) (sym (append-nil (c ∷ piece))),
        );
  }

  -- On a system that gives the argument and opens the file of that name, where reads of 1024 bytes then give nonempty
  -- pieces of at most that size and at last the end, and writes to the terminal show their bytes: with more rounds
  -- than pieces, `cat` ends with 0 and has written the pieces one after the other, and nothing else.
  pub cat_main_lem :
      (name : List ℕ) (pieces : List (List ℕ)) (rounds : ℕ) (s s1 s2 : S)
      → IsReadable os fd 1024 pending shown
      → os.getargs 1024 s ≡ (pos 0, name, s1)
      → os.open_file name s1 ≡ (pos fd, s2)
      → shown s2 ≡ shown s
      → AllPieces 1024 pieces
      → length pieces < rounds
      → pending s2 ≡ pieces
      → (s' : S) × (cat_main os rounds s ≡ some (pos 0, s'))
        × (shown s' ≡ shown s ++ joined [] pieces)
  unfolding cat_main
  cat_main_lem name pieces rounds s s1 s2 readable args opened same all lt e =
      let cat =
        copies os fd 1024 pending shown (cat_round os (pos fd)) [] (cat-IsCopy readable) pieces
          rounds s2 all lt e in
      (cat.0, rw (args, opened) cat.1, cat.2 ∙ ap (λ l. l ++ joined [] pieces) same)
