-- ===== src/System/Return.antt =====
-- A program that is started and ends gives its status to the program that started it.
use ece391_kernel.Base.{
  ℕ, ◌+◌, ◌≡◌, ◌==◌, refl, sym, ap, ◌∙◌, false, if◌then◌else◌, some, List, arith,
}
use ece391_kernel.State.{Kernel}
use ece391_kernel.Process.{last_pid, scheduled, parent_of}
use ece391_kernel.SysCall.Programs.{
  Transfer, returns, enters, resumes, faults, Locals, execute, halt,
}
use ece391_kernel.System.Sound.{IsSound, IsProgram, SameTerminal}
use ece391_kernel.System.Files.{IsRunning}
use ece391_kernel.System.Programs.{HasRoom, Fits, execute-enters}
use ece391_kernel.System.Ended.{pointer-child}
use ece391_kernel.System.Halt.{Halted, halt-IsSound}

-- When the program has a parent, `halt` goes on there.
Halted-resumes :
    (k : Kernel) (status p : ℕ) (r : Transfer)
    → (k.pcbs (last_pid (scheduled k))).parent_pcb_pointer ≡ some p
    → k.program_exception_flag ≡ false
    → Halted k status r
    → (k' : Kernel) × (r ≡ resumes (k.pcbs (last_pid (scheduled k))).ebp status k')
      × IsSound k'
      × (k'.prog_counter + 1 ≡ k.prog_counter)
      × (k'.file_array ≡ some p)
      × SameTerminal k k'
Halted-resumes k status p (returns z k') parent flag h = absurd h
Halted-resumes k status p (enters eip k') parent flag h = absurd (ground (arith, parent, h.5))
Halted-resumes k status p (resumes frame r k') parent flag h =
    let g = h.6 in
    let value : r ≡ status = h.1 ∙ ap (λ b. if b then 256 else status) flag in
    (
      k',
      ap (λ f. resumes f r k') g.0
          ∙ ap (λ v. resumes (k.pcbs (last_pid (scheduled k))).ebp v k') value,
      h.0,
      h.2,
      g.3 ∙ sym g.2 ∙ parent,
      h.4,
    )
Halted-resumes k status p faults parent flag h = absurd h

parent_of-running :
    (k : Kernel) → IsRunning k → parent_of (scheduled k) ≡ some (last_pid (scheduled k))
parent_of-running k run =
    let test : ((scheduled k).term_prog_counter == 0) ≡ false = ground (arith, run) in rw test refl

-- In a sound state in which a program runs, with at most three programs in its terminal, at most five in all and
-- no exception pending: `execute` of a program's name with at most 127 bytes of arguments enters the program, and
-- `halt` of it goes on at the frame pointer of the call of `execute`, with the status. The state then is sound, with
-- as many programs, the same terminal scheduled, and the descriptors of the caller.
pub execute-halt :
    (ebp frame status : ℕ) (locals locals' : Locals) (command : List ℕ) (k : Kernel)
    → IsSound k
    → IsRunning k
    → HasRoom k
    → Fits command
    → IsProgram locals command k.fs
    → k.program_exception_flag ≡ false
    → (eip : ℕ) × (k1 : Kernel) × (k2 : Kernel) × (execute ebp locals (some command) k
        ≡ enters eip k1)
      × (halt frame locals' status k1 ≡ resumes ebp status k2)
      × IsSound k2
      × (k2.prog_counter ≡ k.prog_counter)
      × SameTerminal k k2
      × (k2.file_array ≡ k.file_array)
execute-halt ebp frame status locals locals' command k h run room fits program flag =
    let new = execute-enters ebp locals command k h room fits program in
    let k1 = new.1 in
    let e = new.3 in
    let ended =
      Halted-resumes k1 status (last_pid (scheduled k)) (halt frame locals' status k1)
        (e.6 ∙ parent_of-running k run) (e.4 ∙ flag)
        (halt-IsSound k1 e.0 e.2 frame status locals') in
    (
      new.0,
      k1,
      ended.0,
      new.2,
      ended.1 ∙ ap (λ f. resumes f status ended.0) e.5,
      ended.2,
      omega (arith, ended.3, e.1),
      ended.5 ∙ e.3,
      ended.4 ∙ sym (pointer-child k h run),
    )
