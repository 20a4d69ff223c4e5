-- ===== src/SysCall.antt =====
-- student-distrib/system_call.c: the system calls on descriptors. Programs are in SysCall/Programs.
pub mod Programs
pub mod Descriptors
pub mod Ops
use ece391_kernel.Base.{
  ℕ, zero, suc, ◌+◌, Bool, true, false, not, ◌||◌, ◌==◌, ltb, if◌then◌else◌, List, [], Option, none,
  some, update,
}
use ece391_kernel.Base.Int.{ℤ, pos, ltb_ℤ, pos_part}
use ece391_kernel.FileSystem.{read_dentry_by_name}
use ece391_kernel.FileSystem.Layout.{FileSystem, Dentry, minus_one, is_minus_one}
use ece391_kernel.State.{
  Kernel, Console, FileArray, FileEntry, OpTable, terminal_op_table, rtc_op_table, dirt_op_table,
  regular_file_op_table, KeyFlags, Outcome, done, fault, blocked,
}
use ece391_kernel.Keyboard.{terminal_read, terminal_write, terminal_open, terminal_close}
use ece391_kernel.Rtc.{Rtc, rtc_read, rtc_write, rtc_open, rtc_close}
use ece391_kernel.Files.{
  file_open, file_close, file_read, file_write, directory_open, directory_close, directory_read,
  directory_write,
}

abbrev pub file_limit : ℕ
file_limit = 8

-- The kernel with the keyboard's flags and the clock.
pub record Machine : Type 0 where
  pub kernel : Kernel
  pub keys : KeyFlags
  pub rtc : Rtc

-- The array that `file_array` points to; `none` is a null pointer.
abbrev pub files_at : Kernel → Option ℕ → Option FileArray
files_at k none = none
files_at k (some pid) = some (k.pcbs pid).file_array

abbrev pub open_files : Kernel → Option FileArray
open_files k = files_at k k.file_array

abbrev pub store_files : Option ℕ → FileArray → Kernel → Kernel
store_files none files k = k
store_files (some pid) files k = record k {
  pcbs = update k.pcbs pid (record (k.pcbs pid) { file_array = files });
}

abbrev pub set_files : FileArray → Kernel → Kernel
set_files files k = store_files k.file_array files k

-- The loop of `open`: the first descriptor from fd on whose flags are 0.
unfoldable pub free_loop : FileArray → (rounds fd : ℕ) → ℕ
free_loop files zero fd = fd
free_loop files (suc rounds) fd =
    let next = free_loop files rounds (fd + 1) in if (files fd).flags == 0 then fd else next

-- `op_ptr->open`
unfoldable pub op_open : OpTable → ℤ → FileArray → ℤ × FileArray
unfolding rtc_open file_open directory_open terminal_open
op_open terminal_op_table fd files = (terminal_open fd, files)
op_open rtc_op_table fd files = rtc_open fd files
op_open dirt_op_table fd files = directory_open fd files
op_open regular_file_op_table fd files = file_open fd files

-- The `switch` of `open`; `none` is its default.
unfoldable pub table_of : ℕ → Option OpTable
table_of file_type =
    if file_type == 0
    then some rtc_op_table
    else if file_type == 1
    then some dirt_op_table
    else if file_type == 2
    then some regular_file_op_table
    else none

-- `open` from the `switch` on, with the descriptor already marked.
unfoldable pub open_with : Option OpTable → ℕ → FileArray → ℤ × FileArray
unfolding op_open
open_with none fd files = (minus_one, files)
open_with (some table) fd files = (
  pos fd,
  (op_open table (pos fd) (update files fd (record (files fd) { op_ptr = some table }))).1,
)

-- `open` behind the lookup.
unfoldable pub open_found : Option Dentry → ℕ → FileArray → ℤ × FileArray
unfolding open_with table_of
open_found none fd files = (minus_one, files)
open_found (some dentry) fd files =
    open_with (table_of dentry.file_type) fd
      (update files fd (record (files fd) { inode_idx = dentry.inode_idx; flags = 1 }))

-- `stack` is what the local `dentry` holds before.
unfoldable pub open_in : FileSystem → (stack : Dentry) → Option (List ℕ) → FileArray → ℤ × FileArray
unfolding free_loop open_found
open_in fs stack filename files =
    let fd = free_loop files 6 2 in
    let found = read_dentry_by_name fs filename (some stack) in
    if fd == file_limit
    then (minus_one, files)
    else if is_minus_one found.0
    then (minus_one, files)
    else open_found found.1 fd files

-- A result on the files, put back into the kernel.
abbrev pub returned : Kernel → ℤ × FileArray → ℤ × Kernel
returned k r = (r.0, set_files r.1 k)

-- Reading through a null `file_array` faults.
unfoldable pub sys_open : (stack : Dentry) → Option (List ℕ) → Kernel → Outcome (ℤ × Kernel)
unfolding open_in
sys_open stack filename k = elim (open_files k) [
  | none ↦ fault
  | some files ↦ done (returned k (open_in k.fs stack filename files))
]

-- The array after a call that takes a pointer to it, which it does not change.
abbrev pub or_else : Option FileArray → FileArray → FileArray
or_else none files = files
or_else (some files') files = files'

-- `op_ptr->close`; a call through a null pointer faults.
unfoldable pub op_close : Option OpTable → ℤ → FileArray → Outcome (ℤ × FileArray)
unfolding rtc_close directory_close terminal_close
op_close none fd files = fault
op_close (some terminal_op_table) fd files = done (terminal_close fd, files)
op_close (some rtc_op_table) fd files = done (rtc_close fd, files)
op_close (some dirt_op_table) fd files = done (directory_close fd, files)
op_close (some regular_file_op_table) fd files =
    let r = file_close fd (some files) in done (r.0, or_else r.1 files)

unfoldable pub close_in : ℤ → FileArray → Outcome (ℤ × FileArray)
unfolding op_close
close_in fd files =
    let e = files (pos_part fd) in
    if ltb_ℤ fd (pos 2) || not (ltb_ℤ fd (pos file_limit)) || e.flags == 0
    then done (minus_one, files)
    else op_close e.op_ptr fd (update files (pos_part fd) (record e { flags = 0 }))

abbrev pub returned_outcome : Kernel → Outcome (ℤ × FileArray) → Outcome (ℤ × Kernel)
returned_outcome k (done r) = done (returned k r)
returned_outcome k fault = fault
returned_outcome k blocked = blocked

abbrev pub after_close : Outcome (ℤ × FileArray) → Outcome FileArray
after_close (done r) = done r.1
after_close fault = fault
after_close blocked = blocked

-- A null `file_array` is refused.
unfoldable pub sys_close : ℤ → Kernel → Outcome (ℤ × Kernel)
unfolding close_in
sys_close fd k = elim (open_files k) [
  | none ↦ done (minus_one, k)
  | some files ↦ returned_outcome k (close_in fd files)
]

-- The results of the terminal and of the clock, put back.
abbrev pub terminal_result :
    Machine → Outcome ((ℤ × List ℕ × List ℕ) × KeyFlags × Console) → Outcome (ℤ × List ℕ × Machine)
terminal_result m (done r) =
    done (r.0.0, r.0.1, record m { keys = r.1; kernel = record m.kernel { console = r.2 } })
terminal_result m fault = fault
terminal_result m blocked = blocked

abbrev pub rtc_result : Machine → Outcome (ℤ × ℕ × Rtc) → Outcome (ℤ × List ℕ × Machine)
rtc_result m (done r) = done (r.0, [], record m { rtc = r.2 })
rtc_result m fault = fault
rtc_result m blocked = blocked

-- `op_ptr->read`: what is returned, and what goes to `buf`.
unfoldable pub op_read :
    Option OpTable
    → (scancodes : List ℕ) (interrupts : ℕ) (fd nbytes : ℤ) → FileArray
    → Machine
    → Outcome (ℤ × List ℕ × Machine)
op_read none scancodes interrupts fd nbytes files m = fault
op_read (some terminal_op_table) scancodes interrupts fd nbytes files m =
    terminal_result m (terminal_read fd false nbytes scancodes m.keys m.kernel.console)
op_read (some rtc_op_table) scancodes interrupts fd nbytes files m =
    rtc_result m (rtc_read fd files interrupts m.rtc)
op_read (some dirt_op_table) scancodes interrupts fd nbytes files m =
    let r = directory_read m.kernel.fs fd false files in
    done (r.0, r.1, record m { kernel = set_files r.2 m.kernel })
op_read (some regular_file_op_table) scancodes interrupts fd nbytes files m =
    let r = file_read m.kernel.fs fd false nbytes (some files) in
    done (r.0, r.1, record m { kernel = set_files (or_else r.2 files) m.kernel })

-- `scancodes` and `interrupts` are the keys and the clock interrupts that arrive during the call;
-- `null` is `buf == 0`.
unfoldable pub sys_read :
    (scancodes : List ℕ) (interrupts : ℕ) (fd : ℤ) (null : Bool) (nbytes : ℤ)
    → Machine
    → Outcome (ℤ × List ℕ × Machine)
sys_read scancodes interrupts fd null nbytes m = elim (open_files m.kernel) [
  | none ↦ done (minus_one, [], m)
  | some files ↦
      let e = files (pos_part fd) in
      if ltb_ℤ fd (pos 0) || not (ltb_ℤ fd (pos file_limit)) || null || ltb_ℤ nbytes (pos 0)
      then done (minus_one, [], m)
      else if e.flags == 0
      then done (minus_one, [], m)
      else op_read e.op_ptr scancodes interrupts fd nbytes files m
]

-- `op_ptr->write`; `word` is the 32-bit word at `buf`, which the clock takes.
unfoldable pub op_write :
    Option OpTable
    → (fd : ℤ) (buf : List ℕ) (word : ℕ) (nbytes : ℤ) → FileArray
    → Kernel
    → Outcome (ℤ × Kernel)
unfolding file_write directory_write
op_write none fd buf word nbytes files k = fault
op_write (some terminal_op_table) fd buf word nbytes files k =
    let r = terminal_write fd false buf nbytes k.console in done (r.0, record k { console = r.1 })
op_write (some rtc_op_table) fd buf word nbytes files k =
    returned_outcome k (rtc_write fd false word nbytes files)
op_write (some dirt_op_table) fd buf word nbytes files k = done (directory_write fd, k)
op_write (some regular_file_op_table) fd buf word nbytes files k = done (file_write fd, k)

unfoldable pub sys_write :
    (fd : ℤ) (null : Bool) (buf : List ℕ) (word : ℕ) (nbytes : ℤ) → Kernel → Outcome (ℤ × Kernel)
sys_write fd null buf word nbytes k = elim (open_files k) [
  | none ↦ done (minus_one, k)
  | some files ↦
      let e = files (pos_part fd) in
      if ltb_ℤ fd (pos 0)
        || not (ltb_ℤ fd (pos file_limit))
        || null
        || ltb_ℤ nbytes (pos 0)
        || e.flags == 0
      then done (minus_one, k)
      else op_write e.op_ptr fd buf word nbytes files k
]
