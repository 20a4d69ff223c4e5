-- ===== src/Console/Direct.antt =====
-- `putc_direct`, `puts_direct` and `scroll_direct` of student-distrib/lib.c: output of the keyboard
-- handler, to the video memory and to the backup page of the displayed terminal.
use ece391_kernel.Base.{ℕ, zero, suc, ◌+◌, ◌-◌, ◌*◌, ◌==◌, List, [], ◌∷◌, if◌then◌else◌, update}
use ece391_kernel.State.{Console}
use ece391_kernel.Console.{
  num_cols, num_rows, video_mem_addr, backup_addr, put_cell, is_newline, next_x, next_y,
  update_cursor,
}

-- The nested loops: `offset` runs from 0 to n - 1. Both copies read the video memory.
unfoldable pub scroll_direct_loop : (backup : ℕ) → ℕ → (ℕ → ℕ) → ℕ → ℕ
unfolding put_cell
scroll_direct_loop backup zero mem = mem
scroll_direct_loop backup (suc offset) mem =
    let m = scroll_direct_loop backup offset mem in
    let m1 = put_cell video_mem_addr offset (m (video_mem_addr + 2 * (offset + num_cols))) m in
    put_cell backup offset (m1 (video_mem_addr + 2 * (offset + num_cols))) m1

-- The last loop: the video memory gets 0, the backup page what stands a row further down.
unfoldable pub blank_direct_loop : (backup : ℕ) → ℕ → (ℕ → ℕ) → ℕ → ℕ
unfolding put_cell
blank_direct_loop backup zero mem = mem
blank_direct_loop backup (suc j) mem =
    let offset = (num_rows - 1) * num_cols + j in
    let m = put_cell video_mem_addr offset 0 (blank_direct_loop backup j mem) in
    put_cell backup offset (m (video_mem_addr + 2 * (offset + num_cols))) m

unfoldable pub scroll_direct : Console → Console
scroll_direct k =
    let active = k.active_term_idx in
    let backup = backup_addr active in
    record k {
      mem =
          blank_direct_loop backup num_cols
            (scroll_direct_loop backup ((num_rows - 1) * num_cols) k.mem);
      terminals =
          update k.terminals active
            (record (k.terminals active) { cursor_x = 0; cursor_y = num_rows - 1 });
    }

unfoldable pub newline_direct_loop : (backup y : ℕ) → ℕ → ℕ → (ℕ → ℕ) → ℕ → ℕ
newline_direct_loop backup y zero x mem = mem
newline_direct_loop backup y (suc rounds) x mem =
    let at = 2 * (num_cols * y + (x + 1)) in
    newline_direct_loop backup y rounds (x + 1)
      (update (update mem (video_mem_addr + at) 0) (backup + at) 0)

-- `putc_direct` up to the test for the last line.
unfoldable pub putc_direct_cell : ℕ → Console → Console
unfolding newline_direct_loop put_cell
putc_direct_cell c k =
    let active = k.active_term_idx in
    let t = k.terminals active in
    let backup = backup_addr active in
    let at = num_cols * t.cursor_y + t.cursor_x in
    if is_newline c
    then record k {
      mem = newline_direct_loop backup t.cursor_y (num_cols - t.cursor_x) t.cursor_x k.mem;
      terminals = update k.terminals active (record t { cursor_x = 0; cursor_y = t.cursor_y + 1 });
    }
    else record k {
      mem = put_cell backup at c (put_cell video_mem_addr at c k.mem);
      terminals =
          update k.terminals active
            (record t { cursor_x = next_x t.cursor_x; cursor_y = next_y t.cursor_x t.cursor_y });
    }

unfoldable pub putc_direct : ℕ → Console → Console
putc_direct c k =
    let k1 = putc_direct_cell c k in
    let k2 =
      if (k1.terminals k1.active_term_idx).cursor_y == num_rows then scroll_direct k1 else k1 in
    let t = k2.terminals k2.active_term_idx in
    record k2 { sent = update_cursor t.cursor_x t.cursor_y k2.sent }

unfoldable pub puts_direct : List ℕ → Console → Console
unfolding putc_direct
puts_direct [] k = k
puts_direct (c ∷ s) k = let more = puts_direct s (putc_direct c k) in if c == 0 then k else more
