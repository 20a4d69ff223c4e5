-- ===== src/Console/Scroll.antt =====
-- `scroll` moves every row up by one and empties the last.
use ece391_kernel.Base.{
  ℕ, zero, suc, ◌+◌, ◌*◌, ◌<◌, ◌≤◌, ◌≡◌, ◌⊎◌, ◌∙◌, ◌&&◌, leb, ltb, if◌then◌else◌, arith, refl,
  update,
}
use ece391_kernel.State.{Console}
use ece391_kernel.Console.{attrib, scroll_loop, blank_loop, scroll, screen_of}
use ece391_kernel.Console.Cells.{
  char_at, attrib_at, char-put_cell, attrib-put_cell, put_cell-outside,
}

module _ (base : ℕ) where
  scroll_loop-char :
      (n : ℕ) (mem : ℕ → ℕ) (j : ℕ)
      → char_at base (scroll_loop base n mem) j
        ≡ (if ltb j n then char_at base mem (j + 80) else char_at base mem j)
  unfolding scroll_loop
  scroll_loop-char zero mem j = ground arith
  scroll_loop-char (suc n) mem j =
      let m = scroll_loop base n mem in
      ground (
        arith,
        char-put_cell base n (m (base + 2 * (n + 80))) m j,
        scroll_loop-char n mem j,
        scroll_loop-char n mem (n + 80),
      )

  scroll_loop-attrib :
      (n : ℕ) (mem : ℕ → ℕ) (j : ℕ)
      → attrib_at base (scroll_loop base n mem) j
        ≡ (if ltb j n then attrib else attrib_at base mem j)
  unfolding scroll_loop
  scroll_loop-attrib zero mem j = ground arith
  scroll_loop-attrib (suc n) mem j =
      let m = scroll_loop base n mem in
      ground
        (arith, attrib-put_cell base n (m (base + 2 * (n + 80))) m j, scroll_loop-attrib n mem j)

  scroll_loop-outside :
      (n : ℕ) (mem : ℕ → ℕ) (a : ℕ)
      → (a < base) ⊎ (base + 2 * n ≤ a)
      → scroll_loop base n mem a ≡ mem a
  unfolding scroll_loop
  scroll_loop-outside zero mem a h = refl
  scroll_loop-outside (suc n) mem a h =
      let m = scroll_loop base n mem in
      put_cell-outside base n (m (base + 2 * (n + 80))) m a (omega arith) (omega arith)
      ∙ scroll_loop-outside n mem a (omega arith)

  blank_loop-char :
      (n : ℕ) (mem : ℕ → ℕ) (j : ℕ)
      → char_at base (blank_loop base n mem) j
        ≡ (if leb 1920 j && ltb j (1920 + n) then 0 else char_at base mem j)
  unfolding blank_loop
  blank_loop-char zero mem j = ground arith
  blank_loop-char (suc n) mem j =
      ground
        (arith, char-put_cell base (1920 + n) 0 (blank_loop base n mem) j, blank_loop-char n mem j)

  blank_loop-attrib :
      (n : ℕ) (mem : ℕ → ℕ) (j : ℕ)
      → attrib_at base (blank_loop base n mem) j
        ≡ (if leb 1920 j && ltb j (1920 + n) then attrib else attrib_at base mem j)
  unfolding blank_loop
  blank_loop-attrib zero mem j = ground arith
  blank_loop-attrib (suc n) mem j = ground (
    arith,
    attrib-put_cell base (1920 + n) 0 (blank_loop base n mem) j,
    blank_loop-attrib n mem j,
  )

  blank_loop-outside :
      (n : ℕ) (mem : ℕ → ℕ) (a : ℕ)
      → (a < base) ⊎ (base + 2 * (1920 + n) ≤ a)
      → blank_loop base n mem a ≡ mem a
  unfolding blank_loop
  blank_loop-outside zero mem a h = refl
  blank_loop-outside (suc n) mem a h =
      put_cell-outside base (1920 + n) 0 (blank_loop base n mem) a (omega arith) (omega arith)
      ∙ blank_loop-outside n mem a (omega arith)

-- `scroll` moves each of the rows 1 to 24 of the scheduled terminal's screen up by one, empties row 24,
-- leaves every cell behind the 25 rows alone, sets every attribute of the 25 rows, and puts the cursor at
-- the start of row 24.
pub scroll_lem :
    (k : Console) (j : ℕ)
    → let base = screen_of k k.cur_term_id in
      let k' = scroll k in
      (char_at base k'.mem j ≡ (
        if ltb j 1920
        then char_at base k.mem (j + 80)
        else if ltb j 2000
        then 0
        else char_at base k.mem j))
      × (attrib_at base k'.mem j ≡ (if ltb j 2000 then attrib else attrib_at base k.mem j))
      × ((k'.terminals k.cur_term_id).cursor_x ≡ 0)
      × ((k'.terminals k.cur_term_id).cursor_y ≡ 24)
unfolding scroll update
scroll_lem k j =
    let base = screen_of k k.cur_term_id in
    let m = scroll_loop base 1920 k.mem in
    (
      ground (arith, blank_loop-char base 80 m j, scroll_loop-char base 1920 k.mem j),
      ground (arith, blank_loop-attrib base 80 m j, scroll_loop-attrib base 1920 k.mem j),
      ground arith,
      ground arith,
    )

-- `scroll` writes nothing outside the 4000 bytes of the scheduled terminal's screen.
pub scroll-outside :
    (k : Console) (a : ℕ)
    → (a < screen_of k k.cur_term_id) ⊎ (screen_of k k.cur_term_id + 4000 ≤ a)
    → (scroll k).mem a ≡ k.mem a
unfolding scroll
scroll-outside k a h =
    let base = screen_of k k.cur_term_id in
    blank_loop-outside base 80 (scroll_loop base 1920 k.mem) a (omega arith)
    ∙ scroll_loop-outside base 1920 k.mem a (omega arith)
