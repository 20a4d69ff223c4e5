-- ===== src/Console.antt =====
-- The text output of student-distrib/lib.c: `clear`, `backspace`, `scroll`, `putc`, `puts` for the
-- scheduled terminal, and their `_direct` forms, which serve the displayed terminal.
pub mod Cells
pub mod Scroll
pub mod Cursor
pub mod Direct
pub mod Backup
pub mod Programs
pub mod Printf
use Prim.Native.Nat.{bit_and}
use ece391_kernel.Base.{
  ℕ, zero, suc, ◌+◌, ◌-◌, ◌*◌, ◌/◌, ◌%◌, ◌^◌, Bool, true, false, not, ◌&&◌, ◌||◌, ltb, ◌==◌, List,
  [], ◌∷◌, if◌then◌else◌, update,
}
use ece391_kernel.Ports.{Ports, outb}
use ece391_kernel.State.{Console, Terminal}

abbrev pub num_cols : ℕ
num_cols = 80

abbrev pub num_rows : ℕ
num_rows = 25

abbrev pub attrib : ℕ
attrib = 7

abbrev pub video_mem_addr : ℕ
video_mem_addr = 0xb8000

-- `VIDEO_MEM + ((term + 1) << SHIFT_4K)`
abbrev pub backup_addr : ℕ → ℕ
backup_addr term = video_mem_addr + (term + 1) * 2 ^ 12

-- The character and the attribute of one cell.
unfoldable pub put_cell : (base offset c : ℕ) → (ℕ → ℕ) → ℕ → ℕ
put_cell base offset c mem =
    update (update mem (base + 2 * offset) c) (base + 2 * offset + 1) attrib

-- `terminals[i] = …`
abbrev pub set_terminal : ℕ → Terminal → Console → Console
set_terminal i t k = record k { terminals = update k.terminals i t }

unfoldable pub update_cursor : (x y : ℕ) → Ports → Ports
update_cursor x y sent =
    let at = (y * num_cols + x) % 2 ^ 16 in
    outb (bit_and (at / 2 ^ 8) 0xff) 0x3d5
      (outb 0x0e 0x3d4 (outb (bit_and at 0xff) 0x3d5 (outb 0x0f 0x3d4 sent)))

-- The loop of `clear`, over offsets 0 to n - 1.
unfoldable pub clear_loop : ℕ → (ℕ → ℕ) → ℕ → ℕ
unfolding put_cell
clear_loop zero mem = mem
clear_loop (suc i) mem =
    put_cell video_mem_addr i (if i % num_cols == 0 then b' ' else 0) (clear_loop i mem)

unfoldable pub clear : Console → Console
unfolding update_cursor
clear k =
    let active = k.active_term_idx in
    record k {
      mem = clear_loop (num_rows * num_cols) k.mem;
      terminals =
          update k.terminals active (record (k.terminals active) { cursor_x = 0; cursor_y = 0 });
      sent = update_cursor 0 0 k.sent;
    }

-- The loop of `backspace`. The C variable `offset` is `left - 1`, and stops at -1.
unfoldable pub skip_loop : (ℕ → ℕ) → ℕ → ℕ
skip_loop mem zero = zero
skip_loop mem (suc offset) =
    let next = skip_loop mem offset in
    if mem (video_mem_addr + 2 * offset) == 0
    then if (offset + 1) % num_cols == 0 then suc offset else next
    else suc offset

unfoldable pub backspace : Console → Console
unfolding skip_loop put_cell update_cursor
backspace k =
    let active = k.active_term_idx in
    let t = k.terminals active in
    let offset = t.cursor_y * num_cols + t.cursor_x in
    let mem = put_cell video_mem_addr (offset - 1) 0 k.mem in
    let at = skip_loop mem (offset - 1) in
    if offset == 0 then k else record k {
      mem = mem;
      terminals =
          update k.terminals active
            (record t { cursor_x = at % num_cols; cursor_y = at / num_cols });
      sent = update_cursor (at % num_cols) (at / num_cols) k.sent;
    }

-- The nested loops of `scroll`: `offset` runs from 0 to n - 1.
unfoldable pub scroll_loop : ℕ → ℕ → (ℕ → ℕ) → ℕ → ℕ
unfolding put_cell
scroll_loop base zero mem = mem
scroll_loop base (suc offset) mem =
    let m = scroll_loop base offset mem in
    put_cell base offset (m (base + 2 * (offset + num_cols))) m

-- The last loop: the last row, columns 0 to n - 1.
unfoldable pub blank_loop : ℕ → ℕ → (ℕ → ℕ) → ℕ → ℕ
unfolding put_cell
blank_loop base zero mem = mem
blank_loop base (suc j) mem =
    put_cell base ((num_rows - 1) * num_cols + j) 0 (blank_loop base j mem)

-- Where the output of terminal `term` goes.
abbrev pub screen_of : Console → ℕ → ℕ
screen_of k term = if term == k.active_term_idx then video_mem_addr else backup_addr term

unfoldable pub scroll : Console → Console
scroll k =
    let cur = k.cur_term_id in
    let base = screen_of k cur in
    record k {
      mem = blank_loop base num_cols (scroll_loop base ((num_rows - 1) * num_cols) k.mem);
      terminals =
          update k.terminals cur
            (record (k.terminals cur) { cursor_x = 0; cursor_y = num_rows - 1 });
    }

-- The `while (cursor_x++ < NUM_COLS)` loop of `putc`, from column x on.
unfoldable pub newline_loop : ℕ → ℕ → ℕ → ℕ → (ℕ → ℕ) → ℕ → ℕ
newline_loop base y zero x mem = mem
newline_loop base y (suc rounds) x mem =
    newline_loop base y rounds (x + 1) (update mem (base + 2 * (num_cols * y + (x + 1))) 0)

-- The cursor after a character that is no newline.
abbrev pub next_x : ℕ → ℕ
next_x x = (x + 1) % num_cols

abbrev pub next_y : ℕ → ℕ → ℕ
next_y x y =
    let wrapped = (y + next_x x / num_cols) % num_rows in
    if next_x x == 0 then wrapped + 1 else wrapped

abbrev pub is_newline : ℕ → Bool
is_newline c = (c == 10) || (c == 13)

-- `putc` up to the test for the last line.
unfoldable pub putc_cell : ℕ → Console → Console
unfolding newline_loop put_cell
putc_cell c k =
    let cur = k.cur_term_id in
    let t = k.terminals cur in
    let base = screen_of k cur in
    if is_newline c
    then record k {
      mem = newline_loop base t.cursor_y (num_cols - t.cursor_x) t.cursor_x k.mem;
      terminals = update k.terminals cur (record t { cursor_x = 0; cursor_y = t.cursor_y + 1 });
    }
    else record k {
      mem = put_cell base (num_cols * t.cursor_y + t.cursor_x) c k.mem;
      terminals =
          update k.terminals cur
            (record t { cursor_x = next_x t.cursor_x; cursor_y = next_y t.cursor_x t.cursor_y });
    }

unfoldable pub putc : ℕ → Console → Console
putc c k =
    let k1 = putc_cell c k in
    let k2 = if (k1.terminals k1.cur_term_id).cursor_y == num_rows then scroll k1 else k1 in
    let t = k2.terminals k2.cur_term_id in
    if k2.cur_term_id == k2.active_term_idx
    then record k2 { sent = update_cursor t.cursor_x t.cursor_y k2.sent }
    else k2

unfoldable pub puts : List ℕ → Console → Console
puts [] k = k
puts (c ∷ s) k = let more = puts s (putc c k) in if c == 0 then k else more
