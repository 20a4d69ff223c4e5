-- ===== src/Console/Cells.antt =====
-- Reading a cell after `put_cell`.
use ece391_kernel.Base.{ℕ, ◌+◌, ◌*◌, ◌≡◌, ◌≢◌, ◌==◌, if◌then◌else◌, update, arith}
use ece391_kernel.Console.{put_cell, attrib}

-- The character at a cell, and its attribute.
abbrev pub char_at : ℕ → (ℕ → ℕ) → ℕ → ℕ
char_at base mem offset = mem (base + 2 * offset)

abbrev pub attrib_at : ℕ → (ℕ → ℕ) → ℕ → ℕ
attrib_at base mem offset = mem (base + 2 * offset + 1)

module _ (base o c : ℕ) (mem : ℕ → ℕ) where
  pub char-put_cell :
      (j : ℕ) → put_cell base o c mem (base + 2 * j) ≡ (if j == o then c else mem (base + 2 * j))
  unfolding put_cell update
  char-put_cell j = ground arith

  pub attrib-put_cell :
      (j : ℕ)
      → put_cell base o c mem (base + 2 * j + 1)
        ≡ (if j == o then attrib else mem (base + 2 * j + 1))
  unfolding put_cell update
  attrib-put_cell j = ground arith

  -- Any other place is left alone.
  pub put_cell-outside :
      (a : ℕ) → a ≢ base + 2 * o → a ≢ base + 2 * o + 1 → put_cell base o c mem a ≡ mem a
  unfolding put_cell update
  put_cell-outside a h1 h2 = ground arith
