-- ===== src/User/Grep/Disk.antt =====
-- A system with a directory and its files, as grep sees it.
use mathlib.Core.List.{append_assoc}
use ece391_kernel.Base.{
  ℕ, suc, ◌+◌, ◌≤◌, ◌≡◌, ◌≢◌, ap, ◌∙◌, List, [], ◌∷◌, ◌++◌, Option, some, length, length-append,
  take, drop, min, arith,
}
use ece391_kernel.Base.Int.{pos}
use ece391_kernel.Text.Spec.{NonNul}
use ece391_kernel.User.{Os, fdputs}
use ece391_kernel.User.Grep.Buffer.{take-here}
use ece391_kernel.User.Grep.Match.{strlen-nul}

-- The names that the directory still gives, what the open file still has, and what was written.
pub record Disk : Type 0 where
  pub names : List (List ℕ)
  pub left : List ℕ
  pub shown : List ℕ

abbrev pub shows : Disk → (out : List ℕ) → Disk
shows v out = record v { shown = v.shown ++ out }

abbrev pub opens : Disk → (text : List ℕ) → Disk
opens v text = record v { left = text }

-- `text` gives the contents of a file by its name. A read of the file stores what it returns and possibly more,
-- but never more than it was asked for.
pub record IsDisk {S : Type 0} (os : Os S) (text : List ℕ → Option (List ℕ)) (dir file : ℕ)
    (pattern : List ℕ) (view : S → Disk) : Type 0 where
  pub write_shows :
      (buf : List ℕ) (n : ℕ) (s : S)
      → n ≤ length buf
      → view (os.write (pos 1) buf n s).1 ≡ shows (view s) (take n buf)
  pub read_text :
      (n : ℕ) (s : S)
      → (extra : List ℕ) × (s' : S) × (os.read (pos file) n s
          ≡ (pos (min n (length (view s).left)), take n (view s).left ++ extra, s'))
        × (min n (length (view s).left) + length extra ≤ n)
        × (view s' ≡ opens (view s) (drop n (view s).left))
  pub closes : (s : S) → (s' : S) × (os.close (pos file) s ≡ (pos 0, s')) × (view s' ≡ view s)
  pub open_text :
      (c : ℕ) (name : List ℕ) (t : List ℕ) (s : S)
      → c ≢ 46
      → text (c ∷ name) ≡ some t
      → (s' : S) × (os.open_file ((c ∷ name) ++ 0 ∷ []) s ≡ (pos file, s'))
        × (view s' ≡ opens (view s) t)
  pub open_directory :
      (s : S) → (s' : S) × (os.open_file (46 ∷ 0 ∷ []) s ≡ (pos dir, s')) × (view s' ≡ view s)
  pub read_end :
      (s : S)
      → (view s).names ≡ []
      → (bytes : List ℕ) × (s' : S) × (os.read (pos dir) 32 s ≡ (pos 0, bytes, s'))
        × (view s' ≡ view s)
  pub read_name :
      (c : ℕ) (name : List ℕ) (more : List (List ℕ)) (s : S)
      → (view s).names ≡ (c ∷ name) ∷ more
      → (extra : List ℕ) × (s' : S) × (os.read (pos dir) 32 s
          ≡ (pos (suc (length name)), (c ∷ name) ++ extra, s'))
        × (view s' ≡ record (view s) { names = more })
  pub gives_pattern :
      (s : S)
      → (extra : List ℕ) × (s' : S) × (os.getargs 1024 s ≡ (pos 0, pattern ++ 0 ∷ extra, s'))
        × (view s' ≡ view s)

pub shows-shows : (v : Disk) (a b : List ℕ) → shows (shows v a) b ≡ shows v (a ++ b)
shows-shows v a b = ap (λ l. record v { shown = l }) (append_assoc v.shown a b)

module _ {S : Type 0} (os : Os S) (text : List ℕ → Option (List ℕ)) (dir file : ℕ)
    (pattern : List ℕ) (view : S → Disk) (disk : IsDisk os text dir file pattern view) where
  -- `ece391_fdputs` writes the string up to its NUL.
  pub fdputs-shows :
      (string tail : List ℕ) (s : S)
      → NonNul string
      → view (fdputs os (pos 1) (string ++ 0 ∷ tail) s) ≡ shows (view s) string
  unfolding fdputs
  fdputs-shows string tail s h =
      let size = strlen-nul string tail h in
      let fits : length string ≤ length (string ++ 0 ∷ tail) =
        omega (arith, length-append string (0 ∷ tail)) in
      rw (fdputs, size)
        (disk.write_shows (string ++ 0 ∷ tail) (length string) s fits
          ∙ ap (shows (view s)) (take-here string (0 ∷ tail)))
