-- ===== src/FileSystem/Lookup.antt =====
-- The lookups in the boot block, by name and by index.
use native.Mathlib.Nat.{add-zero, zero-add}
use mathlib.Core.Path.{subst}
use ece391_kernel.Base.{
  ℕ, zero, suc, ◌+◌, ◌<◌, ◌≤◌, ◌≡◌, refl, sym, ◌∙◌, leb, true, false, List, some, arith, Bool-cases,
  inl, inr, ap,
}
use ece391_kernel.Base.Int.{ℤ, pos}
use ece391_kernel.Text.{strlen, strncmp}
use ece391_kernel.Text.Spec.{c_str, AllBytes}
use ece391_kernel.Text.Compare.{strncmp-zero_iff}
use ece391_kernel.FileSystem.{dentry_loop, read_dentry_by_name, read_dentry_by_index}
use ece391_kernel.FileSystem.Layout.{Dentry, FileSystem, minus_one, is_zero}

-- The k-th entry of the boot block.
abbrev pub entry : FileSystem → ℕ → Dentry
entry fs k = fs.image.dentry_at (k + 1)

-- The name of the k-th entry is `fname`, as C strings of at most 32 bytes.
abbrev pub NameMatches : FileSystem → List ℕ → ℕ → Type 0
NameMatches fs fname k = c_str 32 fname ≡ c_str 32 (entry fs k).file_name

shift : (at j : ℕ) → at + suc j ≡ at + 1 + j
shift at j = omega arith

is_zero_iff : (r : ℤ) → is_zero r ≡ true → r ≡ pos 0
is_zero_iff r h = ground arith

module _ (fs : FileSystem) (fname : List ℕ) (bytes : AllBytes fname)
    (names : (k : ℕ) → AllBytes (entry fs k).file_name) where
  from_zero : (k : ℕ) → NameMatches fs fname k → NameMatches fs fname (0 + k)
  from_zero k = subst (NameMatches fs fname) (sym (zero-add k))

  to_zero : (k : ℕ) → NameMatches fs fname (0 + k) → NameMatches fs fname k
  to_zero k = subst (NameMatches fs fname) (zero-add k)

  hit : (k : ℕ) → NameMatches fs fname k → is_zero (strncmp fname (entry fs k).file_name 32) ≡ true
  hit k m = rw ((strncmp-zero_iff fname (entry fs k).file_name 32 bytes (names k)).1 m)

  miss :
      (k : ℕ) → ¬ NameMatches fs fname k → is_zero (strncmp fname (entry fs k).file_name 32) ≡ false
  miss k m = elim (Bool-cases (is_zero (strncmp fname (entry fs k).file_name 32))) [
    | inl z ↦
        absurd (
          m (
            (strncmp-zero_iff fname (entry fs k).file_name 32 bytes (names k)).0 (is_zero_iff _ z)))
    | inr nz ↦ nz
  ]

  dentry_loop-found :
      (rounds at k : ℕ) (d : Dentry)
      → k < rounds
      → NameMatches fs fname (at + k)
      → ((j : ℕ) → j < k → ¬ NameMatches fs fname (at + j))
      → dentry_loop fs fname rounds at d ≡ (pos 0, some (entry fs (at + k)))
  unfolding dentry_loop
  dentry_loop-found zero at k d lt m first = absurd (omega arith)
  dentry_loop-found (suc rounds) at zero d lt m first =
      rw (hit at (rw add-zero at m)) (ap (λ k. (pos 0, some (entry fs k))) (sym (add-zero at)))
  dentry_loop-found (suc rounds) at (suc k) d lt m first =
      rw (miss at (rw add-zero at (first 0 (omega arith)))) (
        dentry_loop-found rounds (at + 1) k d (omega arith)
          (subst (NameMatches fs fname) (shift at k) m)
          (λ j h same.
            first (suc j) (omega arith) (subst (NameMatches fs fname) (sym (shift at j)) same))
        ∙ ap (λ k. (pos 0, some (entry fs k))) (sym (shift at k)))

  dentry_loop-missing :
      (rounds at : ℕ) (d : Dentry)
      → ((j : ℕ) → j < rounds → ¬ NameMatches fs fname (at + j))
      → dentry_loop fs fname rounds at d ≡ (minus_one, some d)
  unfolding dentry_loop
  dentry_loop-missing zero at d none_match = refl
  dentry_loop-missing (suc rounds) at d none_match =
      rw (miss at (rw add-zero at (none_match 0 (omega arith)))) (
        dentry_loop-missing rounds (at + 1) d (λ j h same.
          none_match (suc j) (omega arith) (subst (NameMatches fs fname) (sym (shift at j)) same)))

  -- When entry k is the first whose name is `fname`, and `fname` has at most 32 bytes,
  -- `read_dentry_by_name` returns 0 and copies entry k to `dentry`.
  pub read_dentry_by_name-found :
      (k : ℕ) (d : Dentry)
      → strlen fname ≤ 32
      → k < fs.dentry_num
      → NameMatches fs fname k
      → ((j : ℕ) → j < k → ¬ NameMatches fs fname j)
      → read_dentry_by_name fs (some fname) (some d) ≡ (pos 0, some (entry fs k))
  unfolding read_dentry_by_name
  read_dentry_by_name-found k d short lt m first = ground (
    arith,
    dentry_loop-found fs.dentry_num 0 k d lt (from_zero k m)
        (λ j h same. first j h (to_zero j same)),
  )

  -- When no entry has the name `fname`, `read_dentry_by_name` returns -1 and leaves `dentry`
  -- alone.
  pub read_dentry_by_name-missing :
      (d : Dentry)
      → ((j : ℕ) → j < fs.dentry_num → ¬ NameMatches fs fname j)
      → read_dentry_by_name fs (some fname) (some d) ≡ (minus_one, some d)
  unfolding read_dentry_by_name
  read_dentry_by_name-missing d none_match =
      ground
        (arith, dentry_loop-missing fs.dentry_num 0 d (λ j h same. none_match j h (to_zero j same)))

-- Entries that `read_dentry_by_index` accepts are found again by their names, if no earlier entry
-- has the same name.
pub read_dentry_by_index-name :
    (fs : FileSystem) (k : ℕ) (d d' : Dentry)
    → ((j : ℕ) → AllBytes (entry fs j).file_name)
    → ((j : ℕ) → j < k → ¬ NameMatches fs (entry fs k).file_name j)
    → strlen (entry fs k).file_name ≤ 32
    → (read_dentry_by_index fs k (some d)).0 ≡ pos 0
    → read_dentry_by_name fs (some (entry fs k).file_name) (some d')
      ≡ read_dentry_by_index fs k (some d)
unfolding read_dentry_by_index
read_dentry_by_index-name fs k d d' names first short ok = elim (Bool-cases (leb fs.dentry_num k)) [
  | inl out ↦ absurd (ground arith)
  | inr within ↦ rw within (
      read_dentry_by_name-found fs (entry fs k).file_name (names k) names k d' short (ground arith)
        refl first)
]
