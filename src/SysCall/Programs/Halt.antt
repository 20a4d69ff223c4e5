-- ===== src/SysCall/Programs/Halt.antt =====
-- `halt` of a program that has a parent: its descriptors are closed, and the parent goes on.
use mathlib.Core.Path.{subst}
use ece391_kernel.Base.{
  ℕ, zero, suc, ◌-◌, ◌<◌, ◌≡◌, refl, sym, ap, ◌∙◌, ◌==◌, if◌then◌else◌, if_ind, none, some, update,
  update_self, arith,
}
use ece391_kernel.State.{Kernel, Terminal, FileArray, done}
use ece391_kernel.Process.{scheduled, set_pcb, last_pid, pid_at}
use ece391_kernel.Process.Table.{count, IsConsistent}
use ece391_kernel.Process.Remove.{IsRemoved, removed-IsConsistent}
use ece391_kernel.SysCall.{set_files, store_files, files_at}
use ece391_kernel.SysCall.Ops.{AllOps, close_in-Closed}
use ece391_kernel.SysCall.Programs.{
  Locals, resumes, halt, halted, after_closing, with_open_files, with_stack, removed, return_to,
  close_if_open, close_loop,
}

close_if_open-done :
    (fd : ℕ) (files : FileArray)
    → AllOps files
    → (files' : FileArray) × (close_if_open fd files ≡ done files') × AllOps files'
close_if_open-done fd files all =
    if_ind (λ o. (files' : FileArray) × (o ≡ done files') × AllOps files') ((files fd).flags == 0)
      (λ _. (files, refl, all)) (λ _. close_in-Closed fd files all)

-- Closing the descriptors from 0 to n - 1 returns.
close_loop-done :
    (n : ℕ) (files : FileArray)
    → AllOps files
    → (files' : FileArray) × (close_loop n files ≡ done files') × AllOps files'
unfolding close_loop
close_loop-done zero files all = (files, refl, all)
close_loop-done (suc n) files all =
    let before = close_loop-done n files all in
    let now = close_if_open-done n before.0 before.2 in (now.0, rw before.1 now.1, now.2)

pub pid_at-pos : (t : Terminal) (n : ℕ) → 0 < n → pid_at t n ≡ t.prog_pids (n - 1)
pid_at-pos t zero lt = absurd (omega arith)
pid_at-pos t (suc n) lt = ap t.prog_pids (omega arith)

module _ (k : Kernel) where
  abbrev pub child : ℕ
  child = last_pid (scheduled k)

  -- A program runs that has a parent, its files are the open ones, and each descriptor in use has a table of
  -- operations.
  pub record CanHalt (parent : ℕ) : Type 0 where
    pub tables : IsConsistent k
    pub terminal : k.console.cur_term_id < 3
    pub runs : 0 < count k k.console.cur_term_id
    pub has_parent : (k.pcbs child).parent_pcb_pointer ≡ some parent
    pub files : k.file_array ≡ some child
    pub ops : AllOps (k.pcbs child).file_array

  -- The state when the program is marked as dead, and with given files.
  abbrev marked : Kernel
  marked = set_pcb k child (record (k.pcbs child) { status = 0; parent_pcb_pointer = none })

  abbrev pub closed : FileArray → Kernel
  closed files = store_files (some child) files marked

  abbrev pub after : FileArray → ℕ → Kernel
  after files parent = removed child parent (closed files)

  pub closing :
      AllOps (k.pcbs child).file_array
      → (files : FileArray) × (close_loop 8 (marked.pcbs child).file_array ≡ done files)
        × AllOps files
  closing all = close_loop-done 8 (marked.pcbs child).file_array (
      subst (λ b. AllOps b.file_array)
        (sym (
          update_self k.pcbs child
            (record (k.pcbs child) { status = 0; parent_pcb_pointer = none })))
        all)

  -- The loop returns, and `halt` goes on by whether the program has a parent.
  pub halt-halted :
      (ebp status : ℕ) (locals : Locals)
      → k.file_array ≡ some child
      → (all : AllOps (k.pcbs child).file_array)
      → halt ebp locals status k
        ≡ halted ebp child (k.pcbs child).parent_pcb_pointer locals status (closed (closing all).0)
  unfolding halt
  halt-halted ebp status locals pointer all =
      let parent = (k.pcbs child).parent_pcb_pointer in
      let next =
        λ (files : FileArray). halted ebp child parent locals status (set_files files marked) in
      let files = (closing all).0 in
      ap
        (λ f.
          with_open_files (λ files. after_closing next (close_loop 8 files)) (files_at marked f))
        pointer
      ∙ ap (after_closing next) (closing all).1
      ∙ ap (λ f. halted ebp child parent locals status (store_files f files marked)) pointer

  pub closed_ebp : (files : FileArray) → ((closed files).pcbs child).ebp ≡ (k.pcbs child).ebp
  closed_ebp files =
      ap (λ b. b.ebp)
        (update_self marked.pcbs child (record (marked.pcbs child) { file_array = files }))
      ∙ ap (λ b. b.ebp)
          (update_self k.pcbs child
            (record (k.pcbs child) { status = 0; parent_pcb_pointer = none }))

  pub after-IsRemoved :
      {parent : ℕ} (files : FileArray)
      → CanHalt parent
      → IsRemoved k (with_stack (after files parent)) child
  unfolding removed update
  after-IsRemoved files h = record {
    tables = h.tables;
    terminal = h.terminal;
    some_run = h.runs;
    last = pid_at-pos (scheduled k) (scheduled k).term_prog_counter h.runs;
    counts = λ t. ground arith;
    lists = λ t i. ground arith;
    number = refl;
    others = λ p ne. ground arith;
  }

  -- With consistent tables and one of the three terminals scheduled, for a running program that has a
  -- parent, whose descriptors are the open ones and have a table of operations where they are in use:
  -- `halt` goes on where `execute` was called for the program, with the status, or with 256 if an
  -- exception ended it. The parent's descriptors are the open ones, and the tables are consistent again.
  pub halt-IsConsistent :
      (ebp status : ℕ) (locals : Locals) (parent : ℕ)
      → CanHalt parent
      → (k' : Kernel) × (halt ebp locals status k
          ≡ resumes (k.pcbs child).ebp (if k.program_exception_flag then 256 else status) k')
        × (k'.file_array ≡ some parent)
        × IsConsistent k'
  unfolding return_to removed
  halt-IsConsistent ebp status locals parent h =
      let files = (closing h.ops).0 in
      (
        with_stack (after files parent),
        halt-halted ebp status locals h.files h.ops
            ∙ ap (λ p. halted ebp child p locals status (closed files)) h.has_parent
            ∙ ap
                (λ b.
                  resumes b (if k.program_exception_flag then 256 else status)
                    (with_stack (after files parent)))
                (closed_ebp files),
        refl,
        removed-IsConsistent k (with_stack (after files parent)) child (after-IsRemoved files h),
      )
