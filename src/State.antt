-- ===== src/State.antt =====
-- The global state that the kernel's C files share: file descriptors, process control blocks
-- (student-distrib/process.h), terminals and keyboard flags (student-distrib/keyboard.h).
use ece391_kernel.Base.{ℕ, Bool, List, Option}
use ece391_kernel.Ports.{Ports}
use ece391_kernel.Paging.Entries.{Tables}
use ece391_kernel.FileSystem.Layout.{FileSystem}

-- Which of the four `file_op_table_t` a descriptor points to.
pub data OpTable : Type 0 where
  terminal_op_table rtc_op_table dirt_op_table regular_file_op_table : OpTable

-- `file_abs_entry_t`; `none` is a null `op_ptr`.
pub record FileEntry : Type 0 where
  pub op_ptr : Option OpTable
  pub inode_idx : ℕ
  pub file_position : ℕ
  pub flags : ℕ

abbrev pub FileArray : Type 0
FileArray = ℕ → FileEntry

-- `pcb_t`. A pointer to a block is the block's number; `none` is NULL.
pub record Pcb : Type 0 where
  pub ebp : ℕ
  pub file_array : FileArray
  pub status : ℕ
  pub pid : ℕ
  pub parent_pcb_pointer : Option ℕ
  pub params : List ℕ
  pub term_idx : ℕ
  pub term_ebp : ℕ
  pub video_mem_flag : ℕ

-- `terminal_t`
pub record Terminal : Type 0 where
  pub active : ℕ
  pub keyboard_buf : ℕ → ℕ
  pub buf_index : ℕ
  pub cursor_x : ℕ
  pub cursor_y : ℕ
  pub prog_pids : ℕ → ℕ
  pub term_prog_counter : ℕ
  pub terminal_read_flag : Bool

-- The video memory and its backup pages, the terminals, the scheduled and the displayed terminal,
-- and what went out to the ports.
pub record Console : Type 0 where
  pub mem : ℕ → ℕ
  pub terminals : ℕ → Terminal
  pub cur_term_id : ℕ
  pub active_term_idx : ℕ
  pub sent : Ports

-- The globals of keyboard.c.
pub record KeyFlags : Type 0 where
  pub caps_flag : Bool
  pub l_shift_flag : Bool
  pub r_shift_flag : Bool
  pub shift_flag : Bool
  pub ctrl_flag : Bool
  pub alt_flag : Bool

-- All of it. `file_array` is the number of the block whose array it points to; `none` is NULL.
-- `loaded` is what each process's program page holds from 0x08048000 on.
pub record Kernel : Type 0 where
  pub console : Console
  pub fs : FileSystem
  pub tables : Tables
  pub pcbs : ℕ → Pcb
  pub file_array : Option ℕ
  pub prog_counter : ℕ
  pub program_exception_flag : Bool
  pub prev_term_id : ℕ
  pub tss_esp0 : ℕ
  pub video_mem : ℕ
  pub loaded : ℕ → List ℕ

-- A call that returns, one that the processor stops by a fault, and one that waits for ever.
pub data Outcome {ℓ} (A : Type ℓ) : Type ℓ where
  done : A → Outcome A
  fault : Outcome A
  blocked : Outcome A
