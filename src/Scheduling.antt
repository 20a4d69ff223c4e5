-- ===== src/Scheduling.antt =====
-- student-distrib/scheduling.c: the three terminals and the timer's round-robin. (`switch_terminal` is in
-- Console/Backup.)
pub mod RoundRobin
use ece391_kernel.Base.{
  ℕ, zero, suc, ◌+◌, ◌-◌, ◌*◌, ◌/◌, ◌%◌, ◌^◌, Bool, true, false, ◌==◌, if◌then◌else◌, Option, none,
  some, update, fill,
}
use Prim.Native.Nat.{bit_and}
use ece391_kernel.Text.{byte}
use ece391_kernel.Ports.{Ports, outb}
use ece391_kernel.Pic.{send_eoi}
use ece391_kernel.State.{Kernel, Pcb, Terminal, Console}
use ece391_kernel.Console.{put_cell, num_cols, num_rows, video_mem_addr}
use ece391_kernel.Paging.{setup_paging, enable_prog_vid_page, change_prog_vid_mapping}
use ece391_kernel.Process.{scheduled, set_pcb, last_pid}
use ece391_kernel.SysCall.Programs.{
  Transfer, returns, enters, resumes, faults, Locals, execute, shell,
}
use ece391_kernel.Base.Int.{pos}

abbrev pub max_terminal_num : ℕ
max_terminal_num = 3

unfoldable pub start_terminal0 : (ebp : ℕ) → Locals → Kernel → Transfer
start_terminal0 ebp locals k =
    let ts = k.console.terminals in
    execute ebp locals (some shell) (record k {
      console = record k.console {
        active_term_idx = 0;
        terminals = update ts 0 (record (ts 0) { active = 1 });
        cur_term_id = 0;
      };
    })

-- The state of a terminal's running program, restored: its pages, its kernel stack and its files.
unfoldable pub restored : ℕ → Kernel → Kernel
restored term_id k =
    let pid = last_pid (k.console.terminals term_id) in
    let own = setup_paging pid k.tables in
    let tables =
      if (k.pcbs pid).video_mem_flag == 0
      then own
      else change_prog_vid_mapping k.console.active_term_idx term_id (enable_prog_vid_page own) in
    record k { tables = tables; tss_esp0 = 0x800000 - 0x2000 * pid; file_array = some pid }

-- `switch_process` once the old frame pointer is stored, for a terminal that runs a program. A null
-- `term_ebp` makes the call return.
unfoldable pub resume_process : ℕ → Kernel → Transfer
unfolding restored
resume_process term_id k =
    let pcb = k.pcbs (last_pid (k.console.terminals term_id)) in
    if pcb.term_ebp == 0
    then returns (pos 0) (restored term_id k)
    else resumes pcb.term_ebp 0 (restored term_id k)

-- `switch_process` up to its test. `ebp` is the frame pointer of the call.
unfoldable pub leave_process : (ebp prev_id term_id : ℕ) → Kernel → Kernel
leave_process ebp prev_id term_id k =
    let prev = last_pid (k.console.terminals prev_id) in
    let k' = set_pcb k prev (record (k.pcbs prev) { term_ebp = ebp }) in
    record k' {
      console = record k'.console { cur_term_id = term_id };
      video_mem =
          if term_id == k.console.active_term_idx
          then video_mem_addr
          else video_mem_addr + (1 + term_id) * 2 ^ 12;
    }

unfoldable pub switch_process : (ebp prev_id term_id : ℕ) → Locals → Kernel → Transfer
unfolding resume_process leave_process
switch_process ebp prev_id term_id locals k =
    let k' = leave_process ebp prev_id term_id k in
    if (k'.console.terminals term_id).term_prog_counter == 0
    then execute ebp locals (some shell) k'
    else resume_process term_id k'

-- The innermost loop of `init_terminals`, over cells 0 to n - 1 of backup page `term`.
unfoldable pub blank_page_loop : (term : ℕ) → ℕ → (ℕ → ℕ) → ℕ → ℕ
unfolding put_cell
blank_page_loop term zero mem = mem
blank_page_loop term (suc j) mem =
    put_cell (video_mem_addr + term * 2 ^ 12) j (if j % num_cols == 0 then b' ' else 0)
      (blank_page_loop term j mem)

-- The middle loop: pages 1 to n.
unfoldable pub blank_pages : ℕ → (ℕ → ℕ) → ℕ → ℕ
blank_pages zero mem = mem
blank_pages (suc n) mem = blank_page_loop (suc n) (num_rows * num_cols) (blank_pages n mem)

-- What the outer loop makes of terminal i. `memset` clears the first 4 bytes of `prog_pids`.
abbrev pub cleared_terminal : (ℕ → Terminal) → ℕ → Terminal
cleared_terminal ts i = record (ts i) {
  active = 0;
  buf_index = 0;
  cursor_x = 0;
  cursor_y = 0;
  terminal_read_flag = false;
  keyboard_buf = fill 128 (λ _. 0) (ts i).keyboard_buf;
  prog_pids = update (ts i).prog_pids 0 0;
  term_prog_counter = 0;
}

-- The outer loop, terminals 0 to n - 1.
unfoldable pub terminals_loop : ℕ → Console → Console
terminals_loop zero k = k
terminals_loop (suc n) k =
    let k' = terminals_loop n k in
    record k' {
      terminals = update k'.terminals n (cleared_terminal k'.terminals n);
      mem = blank_pages 3 k'.mem;
    }

unfoldable pub init_terminals : Console → Console
init_terminals k = record (terminals_loop max_terminal_num k) { cur_term_id = 0 }

unfoldable pub pit_init : Ports → Ports
pit_init sent =
    outb (bit_and 11931 0xff00 / 2 ^ 8 % 2 ^ 8) 0x40
      (outb (bit_and 11931 0xff % 2 ^ 8) 0x40 (outb 0x36 0x43 sent))

-- `pit_handler` up to its call of `switch_process`: the interrupt is acknowledged, and unless no program
-- runs, the next terminal is chosen.
unfoldable pub next_terminal : Kernel → Kernel
next_terminal k =
    let console = k.console in
    record k {
      prev_term_id = console.cur_term_id;
      console = record console {
        cur_term_id = (console.cur_term_id + 1) % max_terminal_num;
        sent = send_eoi 0 console.sent;
      };
    }

unfoldable pub pit_handler : (ebp : ℕ) → Locals → Kernel → Transfer
unfolding next_terminal
pit_handler ebp locals k =
    let k' = next_terminal k in
    if k.prog_counter == 0
    then returns (pos 0)
        (record k { console = record k.console { sent = send_eoi 0 k.console.sent } })
    else switch_process ebp k'.prev_term_id k'.console.cur_term_id locals k'
