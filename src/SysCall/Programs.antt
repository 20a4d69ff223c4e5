-- ===== src/SysCall/Programs.antt =====
-- student-distrib/system_call.c: starting and ending programs, their arguments and their video page.
pub mod Args
pub mod Halt
use ece391_kernel.Base.{
  ℕ, zero, suc, ◌+◌, ◌-◌, ◌*◌, ◌%◌, ◌^◌, Bool, true, false, not, ◌||◌, ◌==◌, ltb, leb,
  if◌then◌else◌, List, [], ◌∷◌, ◌++◌, Option, none, some, update, take, drop, length,
}
use ece391_kernel.Base.Int.{ℤ, pos, negsuc, ltb_ℤ, pos_part, neg_part}
use ece391_kernel.Text.{byte, strlen, strcpy}
use ece391_kernel.FileSystem.{
  read_dentry_by_name, parse_command, check_validity, program_loader, store,
}
use ece391_kernel.FileSystem.Layout.{Dentry, minus_one, is_minus_one}
use ece391_kernel.State.{Kernel, Pcb, Terminal, FileArray, Outcome, done, fault, blocked}
use ece391_kernel.Console.{clear, puts}
use ece391_kernel.Paging.{setup_paging, enable_prog_vid_page, disable_prog_vid_page}
use ece391_kernel.Process.{scheduled, set_scheduled, set_pcb, last_pid, create_pcb, context_switch}
use ece391_kernel.SysCall.{file_limit, open_files, close_in, set_files, after_close}

-- How a call ends: it returns, enters a new program at `eip`, goes on where `execute` was called with its
-- frame pointer and result, or is stopped by a fault or by a write past the end of a local array, behind which
-- nothing is known.
pub data Transfer : Type 0 where
  returns : ℤ → Kernel → Transfer
  enters : ℕ → Kernel → Transfer
  resumes : (ebp result : ℕ) → Kernel → Transfer
  faults : Transfer

abbrev pub max_prog_num_per_term : ℕ
max_prog_num_per_term = 4

abbrev pub max_program_count : ℕ
max_program_count = 6

-- `PARAM_LENGTH`
abbrev pub param_length : ℕ
param_length = 128

-- What the locals of `_execute` and of `check_validity` hold before they are set.
pub record Locals : Type 0 where
  pub params : List ℕ
  pub exec_dentry : Dentry
  pub magic_buf : List ℕ

-- The 32-bit word at the head of a list.
abbrev pub word : List ℕ → ℕ
word (a ∷ b ∷ c ∷ d ∷ rest) = a + 2 ^ 8 * b + 2 ^ 16 * c + 2 ^ 24 * d
word _ = 0

-- What the program's page holds from 0x08048000 on, once the file is copied there.
abbrev pub loaded_bytes : ℕ → Dentry → Kernel → List ℕ
loaded_bytes pid dentry k = store (program_loader k.fs dentry).1 (k.loaded pid)

-- The state in which the new program starts.
unfoldable pub launched : (ebp pid : ℕ) → Locals → Dentry → (params : List ℕ) → Kernel → Kernel
unfolding context_switch
launched ebp pid locals dentry params k =
    let pcb = record (k.pcbs pid) {
      params = take param_length (store params locals.params);
      ebp = ebp;
    } in
    context_switch (record (set_pcb k pid pcb) {
      tables = setup_paging pid k.tables;
      loaded = update k.loaded pid (loaded_bytes pid dentry k);
    })

-- `_execute` from `create_pcb` on, with the block's number.
unfoldable pub launch : (ebp pid : ℕ) → Locals → Dentry → (params : List ℕ) → Kernel → Transfer
unfolding launched
launch ebp pid locals dentry params k =
    enters (word (drop 24 (loaded_bytes pid dentry k))) (launched ebp pid locals dentry params k)

-- `_execute` behind the lookup and the check.
unfoldable pub allocate : (ebp : ℕ) → Locals → Dentry → (params : List ℕ) → ℤ × Kernel → Transfer
unfolding launch
allocate ebp locals dentry params (negsuc n, k) = returns minus_one k
allocate ebp locals dentry params (pos pid, k) = launch ebp pid locals dentry params k

-- `_execute` behind the lookup.
unfoldable pub check_and_load :
    (ebp : ℕ) → Locals → (params : List ℕ) → ℤ × Option Dentry → Kernel → Transfer
unfolding allocate
check_and_load ebp locals params (r, none) k = returns minus_one k
check_and_load ebp locals params (r, some dentry) k =
    if is_minus_one r
    then returns minus_one k
    else if is_minus_one (check_validity k.fs locals.magic_buf dentry)
    then returns minus_one k
    else allocate ebp locals dentry params (create_pcb k)

-- The two messages that `_execute` prints, which have no `%`.
abbrev pub terminal_limit_message : List ℕ
terminal_limit_message =
    70 ∷ 65 ∷ 73 ∷ 76 ∷ 58 ∷ 32 ∷ 99 ∷ 97 ∷ 110 ∷ 110 ∷ 111 ∷ 116 ∷ 32 ∷ 101 ∷ 120 ∷ 101 ∷ 99 ∷ 117
    ∷ 116 ∷ 101 ∷ 32 ∷ 109 ∷ 111 ∷ 114 ∷ 101 ∷ 32 ∷ 116 ∷ 104 ∷ 97 ∷ 110 ∷ 32 ∷ 52 ∷ 32 ∷ 116 ∷ 97
    ∷ 115 ∷ 107 ∷ 115 ∷ 32 ∷ 105 ∷ 110 ∷ 32 ∷ 97 ∷ 32 ∷ 116 ∷ 101 ∷ 114 ∷ 109 ∷ 105 ∷ 110 ∷ 97 ∷ 108
    ∷ 33 ∷ 10 ∷ []

abbrev pub program_limit_message : List ℕ
program_limit_message =
    70 ∷ 65 ∷ 73 ∷ 76 ∷ 58 ∷ 32 ∷ 99 ∷ 97 ∷ 110 ∷ 110 ∷ 111 ∷ 116 ∷ 32 ∷ 101 ∷ 120 ∷ 101 ∷ 99 ∷ 117
    ∷ 116 ∷ 101 ∷ 32 ∷ 109 ∷ 111 ∷ 114 ∷ 101 ∷ 32 ∷ 116 ∷ 104 ∷ 97 ∷ 110 ∷ 32 ∷ 54 ∷ 32 ∷ 116 ∷ 97
    ∷ 115 ∷ 107 ∷ 115 ∷ 33 ∷ 10 ∷ []

abbrev pub shell : List ℕ
shell = 115 ∷ 104 ∷ 101 ∷ 108 ∷ 108 ∷ 0 ∷ []

abbrev pub say : List ℕ → Kernel → Kernel
say message k = record k { console = puts message k.console }

-- `execute` and `_execute`. `ebp` is the frame pointer of the call. `parse_command` writes past the end of
-- `params` when the arguments and their NUL are more than 128 bytes.
unfoldable pub execute : (ebp : ℕ) → Locals → Option (List ℕ) → Kernel → Transfer
unfolding check_and_load
execute ebp locals none k = returns minus_one k
execute ebp locals (some command) k =
    let words = parse_command command in
    if leb max_prog_num_per_term (scheduled k).term_prog_counter
    then returns (pos 1) (say terminal_limit_message k)
    else if leb max_program_count k.prog_counter
    then returns (pos 1) (say program_limit_message k)
    else if ltb param_length (length words.1)
    then faults
    else check_and_load ebp locals words.1
        (read_dentry_by_name k.fs (some words.0) (some locals.exec_dentry)) k

-- `tss.esp0` for the program that is last in the scheduled terminal's list.
abbrev pub with_stack : Kernel → Kernel
with_stack k = record k { tss_esp0 = 0x800000 - 0x2000 * last_pid (scheduled k) }

-- The new last program's kernel stack, then the jump with the frame pointer and the result.
unfoldable pub jump_to_exec_ret : (ebp status : ℕ) → Kernel → Transfer
jump_to_exec_ret ebp status k = resumes ebp status (with_stack k)

abbrev pub close_if_open : ℕ → FileArray → Outcome FileArray
close_if_open fd files =
    if (files fd).flags == 0 then done files else after_close (close_in (pos fd) files)

-- The loop of `halt` that closes the descriptors from 0 to n - 1.
unfoldable pub close_loop : ℕ → FileArray → Outcome FileArray
close_loop zero files = done files
close_loop (suc n) files = elim (close_loop n files) [
  | done files' ↦ close_if_open n files'
  | fault ↦ fault
  | blocked ↦ blocked
]

-- What `halt` makes of the state before it starts the shell again.
unfoldable pub emptied : Kernel → Kernel
emptied k =
    let k' =
      set_scheduled (record k { prog_counter = k.prog_counter - 1 })
        (record (scheduled k) { term_prog_counter = 0 }) in
    record k' { console = clear k'.console }

-- When `execute` returns, the code reads the parent's number through NULL.
abbrev pub without_parent : Transfer → Transfer
without_parent (returns r k) = faults
without_parent (enters eip k) = enters eip k
without_parent (resumes ebp r k) = resumes ebp r k
without_parent faults = faults

-- `halt` once the descriptors are closed, for a program whose parent is NULL: the shell starts again.
unfoldable pub relaunch : (ebp : ℕ) → Locals → Kernel → Transfer
unfolding execute emptied
relaunch ebp locals k = without_parent (execute ebp locals (some shell) (emptied k))

-- What `halt` makes of the state once the descriptors are closed, for a program with a parent.
unfoldable pub removed : (child parent : ℕ) → Kernel → Kernel
removed child parent k =
    let t = scheduled k in
    let k' = set_pcb k child (record (k.pcbs child) { video_mem_flag = 0 }) in
    set_scheduled
      (record k' {
        tables = setup_paging (k'.pcbs parent).pid (disable_prog_vid_page k.tables);
        file_array = some parent;
        prog_counter = k.prog_counter - 1;
        program_exception_flag = false;
      })
      (record t { term_prog_counter = t.term_prog_counter - 1 })

unfoldable pub return_to : (child parent status : ℕ) → Kernel → Transfer
unfolding jump_to_exec_ret removed
return_to child parent status k =
    jump_to_exec_ret (k.pcbs child).ebp (if k.program_exception_flag then 256 else status)
      (removed child parent k)

-- `halt` behind the loop.
abbrev pub halted :
    (ebp child : ℕ) → (parent : Option ℕ) → Locals → (status : ℕ) → Kernel → Transfer
halted ebp child none locals status k = relaunch ebp locals k
halted ebp child (some parent) locals status k = return_to child parent status k

-- What follows the loop: it cannot fail to return, unless a table of operations is missing.
abbrev pub after_closing : (FileArray → Transfer) → Outcome FileArray → Transfer
after_closing next (done files) = next files
after_closing next fault = faults
after_closing next blocked = faults

-- Reading through a null `file_array` faults.
abbrev pub with_open_files : (FileArray → Transfer) → Option FileArray → Transfer
with_open_files next none = faults
with_open_files next (some files) = next files

unfoldable pub halt : (ebp : ℕ) → Locals → (status : ℕ) → Kernel → Transfer
halt ebp locals status k =
    let child = last_pid (scheduled k) in
    let pcb = k.pcbs child in
    let k' = set_pcb k child (record pcb { status = 0; parent_pcb_pointer = none }) in
    let next = λ (files : FileArray).
      halted ebp child pcb.parent_pcb_pointer locals status (set_files files k') in
    with_open_files (λ files. after_closing next (close_loop file_limit files)) (open_files k')

-- `int32_t` as `uint32_t`
abbrev pub unsigned32 : ℤ → ℕ
unsigned32 z = (pos_part z + 2 ^ 32 - neg_part z) % 2 ^ 32

-- What goes to `buf` is the second part; `nbytes` is compared as `uint32_t`.
unfoldable pub getargs : (nbytes : ℤ) → Kernel → ℤ × List ℕ
getargs nbytes k =
    let params = (k.pcbs (last_pid (scheduled k))).params in
    if ltb (unsigned32 nbytes) (strlen params + 1) || byte params == 0
    then (minus_one, [])
    else (pos 0, strcpy params)

-- The second part is what `*screen_start` is set to.
unfoldable pub vidmap : (screen_start : ℕ) → Kernel → ℤ × Option ℕ × Kernel
vidmap screen_start k =
    let pid = last_pid (scheduled k) in
    if ltb screen_start 0x08000000 || leb 0x08400000 screen_start then (minus_one, none, k) else (
      pos 0,
      some 0x08400000,
      record (set_pcb k pid (record (k.pcbs pid) { video_mem_flag = 1 })) {
        tables = enable_prog_vid_page k.tables;
      },
    )

unfoldable pub set_handler : (signum : ℤ) (handler_address : ℕ) → ℤ
set_handler signum handler_address = minus_one

unfoldable pub sigreturn : ℤ
sigreturn = minus_one
