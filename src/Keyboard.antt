-- ===== src/Keyboard.antt =====
-- student-distrib/keyboard.c: from scan codes to characters, the interrupt handler, and the terminal's
-- read and write.
pub mod Scancode
pub mod Buffer
pub mod Typing
pub mod Lost
pub mod Programs
use ece391_kernel.Base.{
  ℕ, zero, suc, ◌+◌, ◌-◌, ◌*◌, Bool, true, false, not, ◌&&◌, ◌||◌, ltb, ◌==◌, List, [], ◌∷◌, ◌++◌,
  if◌then◌else◌, update, get_or,
}
use ece391_kernel.Base.Int.{ℤ, pos, negsuc, ltb_ℤ, pos_part, neg_part}
use ece391_kernel.FileSystem.Layout.{minus_one, signed32}
use ece391_kernel.State.{Console, Terminal, KeyFlags, Outcome, done, fault, blocked}
use ece391_kernel.Console.{clear, backspace, putc}
use ece391_kernel.Console.Direct.{putc_direct}
use ece391_kernel.Console.Backup.{switch_terminal}
use ece391_kernel.Pic.{send_eoi}
use ece391_kernel.Keyboard.Scancode.{scancode_set_1, scancode_set_2, scancode_set_3}

abbrev pub kb_buf_size : ℕ
kb_buf_size = 128

abbrev pub num_scancode : ℕ
num_scancode = 0x3a

-- The flags part of `scancode_handler`.
unfoldable pub next_flags : ℕ → KeyFlags → KeyFlags
next_flags scancode f =
    let l_shift =
      if scancode == 0x2a then true else if scancode == 0xaa then false else f.l_shift_flag in
    let r_shift =
      if scancode == 0x36 then true else if scancode == 0xb6 then false else f.r_shift_flag in
    record {
      caps_flag = if scancode == 0x3a then not f.caps_flag else f.caps_flag;
      l_shift_flag = l_shift;
      r_shift_flag = r_shift;
      shift_flag = l_shift || r_shift;
      ctrl_flag =
          if scancode == 0x1d then true else if scancode == 0x9d then false else f.ctrl_flag;
      alt_flag = if scancode == 0x38 then true else if scancode == 0xb8 then false else f.alt_flag;
    }

-- `character` of `scancode_handler`, from the test for ENTER on. A 0 of the tables is -1.
unfoldable pub character : KeyFlags → ℕ → ℤ
character f scancode =
    let looked_up = λ (table : List ℕ).
      if get_or table scancode 0 == 0 then minus_one else pos (get_or table scancode 0) in
    if scancode == 0x1c
    then pos 10
    else if scancode == 0x0f
    then pos 0x0f
    else if ltb scancode num_scancode && not f.caps_flag && not f.shift_flag
    then looked_up scancode_set_1
    else if ltb scancode num_scancode && f.caps_flag && not f.shift_flag
    then looked_up scancode_set_2
    else if ltb scancode num_scancode && f.shift_flag
    then looked_up scancode_set_3
    else minus_one

-- `terminal0`
abbrev pub displayed : Console → Terminal
displayed k = k.terminals k.active_term_idx

abbrev pub set_displayed : Console → Terminal → Console
set_displayed k t = record k { terminals = update k.terminals k.active_term_idx t }

-- `scancode_handler` behind the flags, which are the new ones.
unfoldable pub scancode_char : KeyFlags → ℕ → Console → ℤ × Console
scancode_char f scancode k =
    let t = displayed k in
    if scancode == 0x3b
    then (pos 0x3b, k)
    else if scancode == 0x3c
    then (pos 0x3c, k)
    else if scancode == 0x3d
    then (pos 0x3d, k)
    else if f.ctrl_flag && (scancode == 0x26)
    then (negsuc 1, clear k)
    else if scancode == 0x0e
    then if t.terminal_read_flag
      then if t.buf_index == 0 then (minus_one, k) else (
        character f scancode,
        backspace (set_displayed k (record t { buf_index = t.buf_index - 1 })),
      )
      else (character f scancode, backspace k)
    else (character f scancode, k)

unfoldable pub scancode_handler : ℕ → KeyFlags → Console → ℤ × KeyFlags × Console
scancode_handler scancode f k =
    let f' = next_flags scancode f in let r = scancode_char f' scancode k in (r.0, f', r.1)

-- `keyboard_buf[buf_index] = c; buf_index++;` and the echo, in the order of the code.
abbrev pub store_char : ℕ → Terminal → Terminal
store_char c t = record t {
  keyboard_buf = update t.keyboard_buf t.buf_index c;
  buf_index = t.buf_index + 1;
}

-- The TAB loop while a program reads; `tab_counter` is 4 less the rounds left.
unfoldable pub tab_loop : ℕ → Console → Console
tab_loop zero k = k
tab_loop (suc rounds) k =
    let t = displayed k in
    let next = tab_loop rounds (putc_direct b' ' (set_displayed k (store_char b' ' t))) in
    if ltb t.buf_index (kb_buf_size - 1) then next else k

-- The TAB loop while no program reads.
unfoldable pub tab_echo : ℕ → Console → Console
tab_echo zero k = k
tab_echo (suc rounds) k = tab_echo rounds (putc_direct b' ' k)

-- ENTER while a program reads.
unfoldable pub enter_char : Console → Console
enter_char k =
    let t = displayed k in
    let k1 = putc_direct 10 (
      set_displayed k (record t {
        terminal_read_flag = false;
        keyboard_buf = update t.keyboard_buf t.buf_index 10;
      })) in
    set_displayed k1 (record (displayed k1) { buf_index = (displayed k1).buf_index + 1 })

-- A character while a program reads from the displayed terminal.
unfoldable pub reading_char : ℕ → Console → Console
reading_char c k =
    let t = displayed k in
    if c == 10
    then enter_char k
    else if c == 0x0f
    then tab_loop 4 k
    else if ltb t.buf_index (kb_buf_size - 1)
    then putc_direct c (set_displayed k (store_char c t))
    else k

-- A character while no program reads.
unfoldable pub echo_char : ℕ → Console → Console
echo_char c k = if c == 0x0f then tab_echo 4 k else putc_direct c k

-- The index that Alt and a function key choose.
unfoldable pub chosen_terminal : ℕ → ℕ → ℕ
chosen_terminal c active =
    if c == 0x3b && not (active == 0)
    then 0
    else if c == 0x3c && not (active == 1)
    then 1
    else if c == 0x3d && not (active == 2)
    then 2
    else active

-- `keyboard_handler` behind `scancode_handler`, up to the `send_eoi` that ends every path.
unfoldable pub handle_char : ℤ → KeyFlags → Console → Console
handle_char (negsuc zero) f k = k
handle_char (negsuc (suc n)) f k =
    let t = displayed k in
    if t.terminal_read_flag then set_displayed k (record t { buf_index = 0 }) else k
handle_char (pos c) f k =
    let active = k.active_term_idx in
    let next = chosen_terminal c active in
    if (c == 0x3b) || (c == 0x3c) || (c == 0x3d)
    then if f.alt_flag then switch_terminal active next (record k { active_term_idx = next }) else k
    else if (displayed k).terminal_read_flag
    then reading_char c k
    else echo_char c k

unfoldable pub keyboard_handler : ℕ → KeyFlags → Console → KeyFlags × Console
keyboard_handler scancode f k =
    let r = scancode_handler scancode f k in
    let k' = handle_char r.0 r.1 r.2 in (r.1, record k' { sent = send_eoi 1 k'.sent })

-- `terminal_read` up to the wait: `fd` and `buf` are checked by the caller of this part.
unfoldable pub terminal_read_begin : Console → Console
terminal_read_begin k =
    let cur = k.cur_term_id in
    record k {
      terminals =
          update k.terminals cur
            (record (k.terminals cur) { terminal_read_flag = true; buf_index = 0 });
    }

-- The wait for ENTER, over the scan codes that arrive. With none left it waits for ever.
unfoldable pub terminal_read_wait : List ℕ → KeyFlags → Console → Outcome (KeyFlags × Console)
terminal_read_wait [] f k =
    if (k.terminals k.cur_term_id).terminal_read_flag then blocked else done (f, k)
terminal_read_wait (scancode ∷ more) f k =
    let r = keyboard_handler scancode f k in
    let next = terminal_read_wait more r.0 r.1 in
    if (k.terminals k.cur_term_id).terminal_read_flag then next else done (f, k)

-- The first n bytes of the keyboard buffer, from index i on.
abbrev pub prefix : (ℕ → ℕ) → ℕ → ℕ → List ℕ
prefix buf i zero = []
prefix buf i (suc n) = buf i ∷ prefix buf (i + 1) n

-- `terminal_read` behind the wait: the return value, the bytes stored from `buf` on, and the bytes
-- stored at `buf[-1]`.
unfoldable pub terminal_read_end : ℕ → Console → ℤ × List ℕ × List ℕ
terminal_read_end nbytes k =
    let t = k.terminals k.cur_term_id in
    let loop_end = if ltb nbytes t.buf_index then nbytes else t.buf_index in
    if loop_end == 0
    then (pos 0, [], 10 ∷ [])
    else (pos loop_end, prefix t.keyboard_buf 0 (loop_end - 1) ++ 10 ∷ [], [])

-- `terminal_read` with the result of the wait.
abbrev pub after_wait :
    (nbytes : ℕ)
    → Outcome (KeyFlags × Console)
    → Outcome ((ℤ × List ℕ × List ℕ) × KeyFlags × Console)
after_wait nbytes (done r) = done (terminal_read_end nbytes r.1, r.0, r.1)
after_wait nbytes fault = fault
after_wait nbytes blocked = blocked

-- `null` is `buf == 0`.
unfoldable pub terminal_read :
    (fd : ℤ) (null : Bool) (nbytes : ℤ)
    → List ℕ
    → KeyFlags
    → Console
    → Outcome ((ℤ × List ℕ × List ℕ) × KeyFlags × Console)
terminal_read fd null nbytes scancodes f k =
    if null || ltb_ℤ nbytes (pos 0) || not (pos_part fd == 0 && (neg_part fd == 0))
    then done ((minus_one, [], []), f, k)
    else after_wait (pos_part nbytes) (terminal_read_wait scancodes f (terminal_read_begin k))

-- The loop of `terminal_write` over the bytes of `buf`.
unfoldable pub write_loop : List ℕ → Console → Console
write_loop [] k = k
write_loop (c ∷ buf) k = write_loop buf (if c == 0 then k else putc c k)

-- `buf` holds `nbytes` bytes.
unfoldable pub terminal_write :
    (fd : ℤ) (null : Bool) (buf : List ℕ) (nbytes : ℤ) → Console → ℤ × Console
unfolding write_loop
terminal_write fd null buf nbytes k =
    if null || ltb_ℤ nbytes (pos 0) || not (pos_part fd == 1)
    then (minus_one, k)
    else (nbytes, write_loop buf k)

unfoldable pub terminal_open : ℤ → ℤ
terminal_open fd = pos 0

unfoldable pub terminal_close : ℤ → ℤ
terminal_close fd = pos 0
