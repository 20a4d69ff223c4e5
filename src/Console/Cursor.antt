-- ===== src/Console/Cursor.antt =====
-- `putc` keeps the cursor on the screen, and writes only to the page of its terminal.
use ece391_kernel.Base.{
  ℕ, zero, suc, ◌+◌, ◌-◌, ◌*◌, ◌<◌, ◌≤◌, ◌≡◌, ◌⊎◌, ◌∙◌, ◌==◌, List, [], ◌∷◌, arith, refl, update-ne,
  update, Bool-cases, inl, inr,
}
use ece391_kernel.State.{Console, Terminal}
use ece391_kernel.Console.{newline_loop, scroll, screen_of, putc_cell, putc, puts, is_newline}
use ece391_kernel.Console.Cells.{put_cell-outside}
use ece391_kernel.Console.Scroll.{scroll-outside}

abbrev pub OnScreen : Terminal → Type 0
OnScreen t = (t.cursor_x < 80) × (t.cursor_y < 25)

-- The 4 KB page that terminal `cur_term_id` prints to.
abbrev pub Outside : Console → ℕ → Type 0
Outside k a = (a < screen_of k k.cur_term_id) ⊎ (screen_of k k.cur_term_id + 4096 ≤ a)

newline_loop-outside :
    (base y rounds x a : ℕ) (mem : ℕ → ℕ)
    → y < 25
    → x + rounds ≤ 80
    → (a < base) ⊎ (base + 4096 ≤ a)
    → newline_loop base y rounds x mem a ≡ mem a
unfolding newline_loop
newline_loop-outside base y zero x a mem hy hx h = refl
newline_loop-outside base y (suc r) x a mem hy hx h =
    newline_loop-outside base y r (x + 1) a _ hy (omega arith) h ∙ update-ne mem 0 (omega arith)

-- The fields that no output changes.
scroll-ids :
    (k : Console)
    → ((scroll k).cur_term_id ≡ k.cur_term_id) × ((scroll k).active_term_idx ≡ k.active_term_idx)
unfolding scroll
scroll-ids k = (refl, refl)

scroll-cursor :
    (k : Console)
    → let t = (scroll k).terminals k.cur_term_id in (t.cursor_x ≡ 0) × (t.cursor_y ≡ 24)
unfolding scroll update
scroll-cursor k = ground arith

putc_cell-ids :
    (c : ℕ) (k : Console)
    → ((putc_cell c k).cur_term_id ≡ k.cur_term_id)
      × ((putc_cell c k).active_term_idx ≡ k.active_term_idx)
unfolding putc_cell
putc_cell-ids c k = ground arith

putc_cell-cursor :
    (c : ℕ) (k : Console)
    → OnScreen (k.terminals k.cur_term_id)
    → let t = (putc_cell c k).terminals k.cur_term_id in (t.cursor_x < 80) × (t.cursor_y ≤ 25)
unfolding putc_cell update
putc_cell-cursor c k h = ground arith

putc_cell-Outside :
    (c : ℕ) (k : Console) (a : ℕ)
    → OnScreen (k.terminals k.cur_term_id)
    → Outside k a
    → (putc_cell c k).mem a ≡ k.mem a
unfolding putc_cell
putc_cell-Outside c k a h out =
    let t = k.terminals k.cur_term_id in
    let base = screen_of k k.cur_term_id in
    elim (Bool-cases (is_newline c)) [
      | inl e ↦ rw e (
          newline_loop-outside base t.cursor_y (80 - t.cursor_x) t.cursor_x a k.mem h.1
            (omega arith) out)
      | inr e ↦ rw e (
          put_cell-outside base (80 * t.cursor_y + t.cursor_x) c k.mem a (omega arith)
            (omega arith))
    ]

-- A character keeps the cursor within the 80 columns and 25 rows.
pub putc-OnScreen :
    (c : ℕ) (k : Console)
    → OnScreen (k.terminals k.cur_term_id)
    → OnScreen ((putc c k).terminals (putc c k).cur_term_id)
unfolding putc
putc-OnScreen c k h =
    let k1 = putc_cell c k in
    ground (arith, putc_cell-ids c k, putc_cell-cursor c k h, scroll-ids k1, scroll-cursor k1)

-- A character writes nothing outside the page of the terminal.
pub putc-Outside :
    (c : ℕ) (k : Console) (a : ℕ)
    → OnScreen (k.terminals k.cur_term_id)
    → Outside k a
    → (putc c k).mem a ≡ k.mem a
unfolding putc
putc-Outside c k a h out =
    let k1 = putc_cell c k in
    ground (arith, putc_cell-ids c k, putc_cell-Outside c k a h out, scroll-outside k1 a)

putc-cur : (c : ℕ) (k : Console) → (putc c k).cur_term_id ≡ k.cur_term_id
unfolding putc
putc-cur c k = ground (arith, putc_cell-ids c k, scroll-ids (putc_cell c k))

putc-screen : (c : ℕ) (k : Console) → (putc c k).active_term_idx ≡ k.active_term_idx
unfolding putc
putc-screen c k = ground (arith, putc_cell-ids c k, scroll-ids (putc_cell c k))

-- A string keeps the cursor on the screen, and writes nothing outside the page of the terminal.
pub puts_lem :
    (s : List ℕ) (k : Console) (a : ℕ)
    → OnScreen (k.terminals k.cur_term_id)
    → Outside k a
    → OnScreen ((puts s k).terminals (puts s k).cur_term_id) × ((puts s k).mem a ≡ k.mem a)
unfolding puts
puts_lem [] k a h out = (h, refl)
puts_lem (c ∷ s) k a h out = elim (Bool-cases (c == 0)) [
  | inl e ↦ rw e (h, refl)
  | inr e ↦
      let k1 = putc c k in
      let (on, same) =
        puts_lem s k1 a (putc-OnScreen c k h) (rw (putc-screen c k, putc-cur c k) out) in
      rw e (on, same ∙ putc-Outside c k a h out)
]
