-- ===== src/Tests/Devices.antt =====
-- The theorems on the screen, the keyboard, the clock, the interrupt controller and paging.
use ece391_kernel.Base.{◌+◌, ◌≡◌, refl, inl, arith, true, false, [], ◌∷◌, none, some}
use ece391_kernel.Base.Int.{pos}
use ece391_kernel.State.{Console, FileArray, done}
use ece391_kernel.Console.{puts}
use ece391_kernel.Console.Cursor.{OnScreen, puts_lem}
use ece391_kernel.Console.Backup.{switch_terminal, switch_terminal_lem, screen_byte, backup_byte}
use ece391_kernel.Keyboard.{keyboard_handler, displayed}
use ece391_kernel.Keyboard.Buffer.{AllFit, keyboard_handler-AllFit}
use ece391_kernel.Keyboard.Typing.{line_of, type_keys, edit_keys, type_keys-edit}
use ece391_kernel.Rtc.{rtc_write, rtc_read, divider}
use ece391_kernel.Rtc.Frequency.{is_rate, rtc_write_lem}
use ece391_kernel.Rtc.Wait.{clock, rtc_read-period}
use ece391_kernel.Files.{set_entry}
use ece391_kernel.Paging.{init_paging}
use ece391_kernel.Paging.Walk.{translate}
use ece391_kernel.Paging.Boot.{init_paging-translate}
use ece391_kernel.Tests.Data.{
  idle_terminal, blank_console, no_keys, zero_tables, linked_at, no_files, closed_entry,
}

-- Terminal 1 is scheduled and terminal 0 displayed; a program reads, and three bytes are typed.
abbrev busy_console : Console
busy_console = record blank_console {
  terminals = λ _. record idle_terminal {
    buf_index = 3;
    cursor_x = 79;
    cursor_y = 24;
    terminal_read_flag = true;
  };
  cur_term_id = 1;
}

puts_lem_example :
    let k' = puts (65 ∷ 66 ∷ []) busy_console in
    OnScreen (k'.terminals k'.cur_term_id) × (k'.mem 0xb8000 ≡ 0)
puts_lem_example = puts_lem (65 ∷ 66 ∷ []) busy_console 0xb8000 (omega arith) (inl (omega arith))

switch_terminal_lem_example :
    let k' = switch_terminal 0 1 busy_console in
    (screen_byte k' 5 ≡ backup_byte busy_console 1 5)
    × (backup_byte k' 2 5 ≡ backup_byte busy_console 2 5)
switch_terminal_lem_example = switch_terminal_lem busy_console 5 (omega arith) 0 1 2

-- The key `a`.
keyboard_handler-AllFit_example : AllFit (keyboard_handler 0x1e no_keys busy_console).1
keyboard_handler-AllFit_example =
    keyboard_handler-AllFit 0x1e no_keys busy_console (λ j. omega arith)

type_keys-edit_example :
    line_of (displayed (type_keys (97 ∷ 15 ∷ 10 ∷ []) busy_console))
    ≡ edit_keys (97 ∷ 15 ∷ 10 ∷ []) (line_of (displayed busy_console))
type_keys-edit_example = type_keys-edit (97 ∷ 15 ∷ 10 ∷ []) busy_console

rtc_write_lem_example :
    rtc_write (pos 2) false 64 (pos 4) no_files
    ≡ done (pos 0, set_entry no_files (pos 2) (record closed_entry { file_position = 8 }))
unfolding is_rate
rtc_write_lem_example = rtc_write_lem 2 64 4 no_files (omega arith) (omega arith) (omega arith)

-- Ratio 256, thus a divider of 85.
abbrev slow_clock : FileArray
slow_clock fd = record closed_entry { file_position = 256 }

rtc_read-period_example :
    rtc_read (pos 2) slow_clock (divider 256 + 5) (clock 0 false)
    ≡ done (pos 0, 5, clock (0 + divider 256) false)
unfolding divider
rtc_read-period_example =
    rtc_read-period 2 5 0 slow_clock (omega arith) (omega arith) refl (omega arith)

init_paging-translate_example :
    let t = init_paging 0x401000 0x402000 zero_tables in
    (translate linked_at t false 0xb8123 ≡ some 0xb8123)
    × (translate linked_at t true 0xb8123 ≡ none)
init_paging-translate_example =
    init_paging-translate linked_at
      (record { in_memory_0 = omega arith; in_memory_video = omega arith; apart = refl })
      zero_tables 0xb8123 (omega arith)
