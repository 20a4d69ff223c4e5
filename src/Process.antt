-- ===== src/Process.antt =====
-- student-distrib/process.c: the process control blocks. A block is named by its process number, as
-- `FIND_PCB` finds it; the blocks 0 to 5 are those of processes.
pub mod Table
pub mod Create
pub mod Remove
pub mod Same
pub mod Alive
use ece391_kernel.Base.{
  ℕ, zero, suc, ◌+◌, ◌-◌, ◌*◌, ltb, ◌==◌, if◌then◌else◌, Option, none, some, update, fill, false,
}
use ece391_kernel.Base.Int.{ℤ, pos}
use ece391_kernel.FileSystem.Layout.{minus_one}
use ece391_kernel.State.{Kernel, Pcb, Terminal, FileArray, FileEntry, OpTable, terminal_op_table}

abbrev pub max_pid : ℕ
max_pid = 5

-- `terminals[cur_term_id]`
abbrev pub scheduled : Kernel → Terminal
scheduled k = k.console.terminals k.console.cur_term_id

abbrev pub set_scheduled : Kernel → Terminal → Kernel
set_scheduled k t = record k {
  console = record k.console { terminals = update k.console.terminals k.console.cur_term_id t };
}

abbrev pub set_pcb : Kernel → ℕ → Pcb → Kernel
set_pcb k pid pcb = record k { pcbs = update k.pcbs pid pcb }

-- `prog_pids[term_prog_counter - 1]`. With no program the index is -1, which is the field before
-- `prog_pids` in `terminal_t`.
abbrev pub pid_at : Terminal → ℕ → ℕ
pid_at t zero = t.cursor_y
pid_at t (suc n) = t.prog_pids n

abbrev pub last_pid : Terminal → ℕ
last_pid t = pid_at t t.term_prog_counter

-- What the loop of `init_prog` makes of block i.
abbrev pub dead : (ℕ → Pcb) → ℕ → Pcb
dead pcbs i = record (pcbs i) { status = 0; video_mem_flag = 0 }

unfoldable pub init_prog : Kernel → Kernel
init_prog k = record k {
  prog_counter = 0;
  program_exception_flag = false;
  pcbs = fill (max_pid + 1) (dead k.pcbs) k.pcbs;
}

-- The loop of `get_active_pcb`: `rounds` blocks are left, from `count` on.
unfoldable pub find_loop : (ℕ → Pcb) → (rounds count : ℕ) → Option ℕ
find_loop pcbs zero count = none
find_loop pcbs (suc rounds) count =
    let next = find_loop pcbs rounds (count + 1) in
    if (pcbs count).status == 0 then some count else next

-- The number of the block that is returned, which is also stored in `*pid`; `none` is NULL.
unfoldable pub get_active_pcb : Kernel → Option ℕ
get_active_pcb k = if ltb max_pid k.prog_counter then none else find_loop k.pcbs (max_pid + 1) 0

-- What the loop of `create_pcb` makes of descriptor i.
abbrev pub fresh_entry : FileArray → ℕ → FileEntry
fresh_entry files i =
    if ltb i 2
    then record (files i) { flags = 1; op_ptr = some terminal_op_table; file_position = 0 }
    else record (files i) { flags = 0; file_position = 0 }

abbrev pub parent_of : Terminal → Option ℕ
parent_of t = if t.term_prog_counter == 0 then none else some (last_pid t)

abbrev pub new_pcb : Kernel → ℕ → Pcb
new_pcb k pid = record (k.pcbs pid) {
  pid = pid;
  file_array = fill 8 (fresh_entry (k.pcbs pid).file_array) (k.pcbs pid).file_array;
  parent_pcb_pointer = parent_of (scheduled k);
  status = 1;
  term_idx = k.console.cur_term_id;
}

-- `create_pcb` once a block is found.
unfoldable pub create_at : Kernel → Option ℕ → ℤ × Kernel
create_at k none = (minus_one, k)
create_at k (some pid) =
    let t = scheduled k in
    (
      pos pid,
      set_scheduled
          (record (set_pcb k pid (new_pcb k pid)) {
            prog_counter = k.prog_counter + 1;
            file_array = some pid;
          })
          (record t {
            prog_pids = update t.prog_pids t.term_prog_counter pid;
            term_prog_counter = t.term_prog_counter + 1;
          }),
    )

unfoldable pub create_pcb : Kernel → ℤ × Kernel
unfolding create_at get_active_pcb
create_pcb k = if ltb max_pid k.prog_counter then (minus_one, k) else create_at k (get_active_pcb k)

-- `context_switch` up to the `iret`: the kernel stack of the new process.
unfoldable pub context_switch : Kernel → Kernel
context_switch k = record k { tss_esp0 = 0x800000 - 0x2000 * last_pid (scheduled k) }
