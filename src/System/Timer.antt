-- ===== src/System/Timer.antt =====
-- The timer's interrupt keeps the kernel sound and goes on with the next terminal.
use mathlib.Core.Path.{subst}
use ece391_kernel.Base.{
  ℕ, ◌+◌, ◌-◌, ◌%◌, ◌<◌, ◌≤◌, ◌≡◌, refl, sym, ap, ◌∙◌, ◌==◌, true, false, if◌then◌else◌, if_ind,
  leb, some, update, update-keeps, arith, Bool-cases, inl, inr,
}
use ece391_kernel.Base.Int.{pos}
use ece391_kernel.State.{Kernel}
use ece391_kernel.Pic.{send_eoi}
use ece391_kernel.Process.{last_pid, scheduled}
use ece391_kernel.Process.Table.{count, listed}
use ece391_kernel.Process.Remove.{facts}
use ece391_kernel.SysCall.Ops.{AllOps}
use ece391_kernel.SysCall.Programs.{
  Transfer, returns, enters, resumes, faults, Locals, shell, execute, say, program_limit_message,
}
use ece391_kernel.Console.Programs.{puts-SamePrograms}
use ece391_kernel.SysCall.Programs.Halt.{pid_at-pos}
use ece391_kernel.Scheduling.{
  next_terminal, leave_process, restored, resume_process, switch_process, pit_handler,
}
use ece391_kernel.System.Sound.{IsStable, IsSound, same-IsStable, same-IsSound}
use ece391_kernel.System.Programs.{KeepsPrograms, Executed, execute-IsSound, shell-Fits}

-- Every program that runs in k still does in k', at its place in its list. The frame pointer of the interrupt stands
-- in the block of the number that the code takes for the running program; every other program's is as before.
abbrev pub Interrupted : Kernel → (ebp : ℕ) → Kernel → Type 0
Interrupted k ebp k' =
    (t i : ℕ)
    → t < 3
    → i < count k t
    → (i < count k' t)
      × (listed k' t i ≡ listed k t i)
      × ((k'.pcbs (listed k t i)).term_ebp ≡ (
          if listed k t i == last_pid (scheduled k) then ebp else (k.pcbs (listed k t i)).term_ebp))

-- What an interrupt of the timer in state k, at a frame pointer, may do: the state after it is sound, `cur` is
-- scheduled, and no program is lost.
abbrev pub Ticked : Kernel → (ebp cur : ℕ) → Kernel → Type 0
Ticked k ebp cur k' =
    IsSound k'
    × (k'.console.cur_term_id ≡ cur)
    × (k.prog_counter ≤ k'.prog_counter)
    × Interrupted k ebp k'

abbrev pub Timed : Kernel → (ebp cur : ℕ) → Transfer → Type 0
Timed k ebp cur (returns z k') = Ticked k ebp cur k'
Timed k ebp cur (enters eip k') = Ticked k ebp cur k'
Timed k ebp cur (resumes frame r k') = Ticked k ebp cur k'
Timed k ebp cur faults = ⊥

-- The shell is started behind the switch.
keeps-Interrupted :
    (k left k' : Kernel) (ebp : ℕ)
    → Interrupted k ebp left
    → KeepsPrograms left k'
    → Interrupted k ebp k'
keeps-Interrupted k left k' ebp before keeps t i tl lt =
    let b = before t i tl lt in
    let n = keeps t i tl b.0 in
    (n.0, n.1 ∙ b.1, subst (λ p. (k'.pcbs p).term_ebp ≡ (left.pcbs p).term_ebp) b.1 n.2 ∙ b.2)

Executed-Timed :
    (ebp frame : ℕ) (k left : Kernel) (cur : ℕ) (r : Transfer)
    → Executed frame left r
    → left.console.cur_term_id ≡ cur
    → k.prog_counter ≤ left.prog_counter
    → Interrupted k ebp left
    → Timed k ebp cur r
Executed-Timed ebp frame k left cur (returns z k') e c n b =
    (e.0.0, e.0.2 ∙ c, omega (arith, n, e.0.1), keeps-Interrupted k left k' ebp b e.1)
Executed-Timed ebp frame k left cur (enters eip k') e c n b =
    (e.0, e.3 ∙ c, omega (arith, n, e.1), keeps-Interrupted k left k' ebp b e.7)
Executed-Timed ebp frame k left cur (resumes f r k') e c n b = absurd e
Executed-Timed ebp frame k left cur faults e c n b = absurd e

-- Restoring a terminal's running program makes its files the open ones.
restored-IsSound :
    (term : ℕ) (k : Kernel)
    → IsStable k
    → k.console.cur_term_id ≡ term
    → 0 < count k term
    → IsSound (restored term k)
unfolding restored
restored-IsSound term k h here run = record {
  stable =
      same-IsStable k (restored term k)
        (record { counts = λ t. refl; lists = λ t i. refl; number = refl; blocks = λ p. refl })
        h.terminal (λ p all. all) refl h;
  current = λ lt. ap some (
      pid_at-pos (k.console.terminals term) (count k term) run
      ∙ ap (λ t. listed k t (count k t - 1)) (sym here));
}

module _ (ebp : ℕ) (locals : Locals) (k : Kernel) (h : IsSound k) where
  abbrev next : ℕ
  next = (k.console.cur_term_id + 1) % 3

  abbrev left : Kernel
  left = leave_process ebp k.console.cur_term_id next (next_terminal k)

  left-IsStable : IsStable left
  unfolding leave_process next_terminal
  left-IsStable =
      let prev = last_pid (k.console.terminals k.console.cur_term_id) in
      let b = record (k.pcbs prev) { term_ebp = ebp } in
      same-IsStable k left
        (record {
          counts = λ t. refl;
          lists = λ t i. refl;
          number = refl;
          blocks = update-keeps k.pcbs prev b facts refl;
        })
        (omega arith)
        (λ p old. subst AllOps (sym (update-keeps k.pcbs prev b (λ b. b.file_array) refl p)) old)
        refl h.stable

  left_next : left.console.cur_term_id ≡ next
  unfolding leave_process next_terminal
  left_next = refl

  left_number : k.prog_counter ≤ left.prog_counter
  unfolding leave_process next_terminal
  left_number = omega arith

  left-Interrupted : Interrupted k ebp left
  unfolding leave_process next_terminal update
  left-Interrupted t i tl lt = (lt, refl, ground arith)

  resumed-Timed : 0 < count left next → Timed k ebp next (resume_process next left)
  unfolding resume_process restored
  resumed-Timed run =
      let sound = restored-IsSound next left left-IsStable left_next run in
      if_ind (Timed k ebp next) ((left.pcbs (last_pid (left.console.terminals next))).term_ebp == 0)
        (λ _. (sound, left_next, left_number, left-Interrupted))
        (λ _. (sound, left_next, left_number, left-Interrupted))

  switched-Timed :
      Timed k ebp next (switch_process ebp k.console.cur_term_id next locals (next_terminal k))
  unfolding switch_process leave_process next_terminal
  switched-Timed =
      if_ind (Timed k ebp next) ((left.console.terminals next).term_prog_counter == 0)
        (λ idle.
          let sound : IsSound left = record {
            stable = left-IsStable;
            current = λ lt. absurd (ground (arith, idle, lt, ap (count left) left_next));
          } in
          Executed-Timed ebp ebp k left next (execute ebp locals (some shell) left)
            (execute-IsSound ebp locals (some shell) left sound shell-Fits) left_next left_number
            left-Interrupted)
        (λ run. resumed-Timed (ground (arith, run)))

  -- In a sound state, the interrupt of the timer does not fault, and the state after it is sound. The
  -- scheduled terminal is the next of the three, or the same one when no program runs at all. Every
  -- program that runs still does, at its place in its terminal, with the frame pointer at which it was left; only the
  -- block whose number the code takes for the running program has that of the interrupt. That is the program that
  -- the interrupt came to, when one runs in the scheduled terminal.
  pub pit_handler-IsSound :
      Timed k ebp
        (if k.prog_counter == 0 then k.console.cur_term_id else next)
        (pit_handler ebp locals k)
  unfolding pit_handler
  pit_handler-IsSound = elim (Bool-cases (k.prog_counter == 0)) [
    | inl none_run ↦ rw none_run (
      same-IsSound k (record k { console = record k.console { sent = send_eoi 0 k.console.sent } })
          (record { counts = λ t. refl; lists = λ t i. refl; number = refl; blocks = λ p. refl })
          refl refl (λ p all. all) refl h,
      refl,
      omega arith,
      λ t i tl lt. absurd (
          ground (
            arith,
            none_run,
            h.stable.tables.counted,
            tl,
            lt,
            ap (count k) {x = t} {y = 0},
            ap (count k) {x = t} {y = 1},
            ap (count k) {x = t} {y = 2},
          )),
    )
    | inr run ↦ rw run switched-Timed
  ]

-- When no program runs in the next terminal and six run in the others, the interrupt of the timer returns to
-- the interrupted program, but the next terminal stays the scheduled one, though no program runs in it;
-- `file_array` is still that of the interrupted program.
pub pit_handler-starved :
    (ebp : ℕ) (locals : Locals) (k : Kernel)
    → let next = (k.console.cur_term_id + 1) % 3 in
      count k next ≡ 0
      → k.prog_counter ≡ 6
      → (k' : Kernel) × (pit_handler ebp locals k ≡ returns (pos 1) k')
        × (k'.console.cur_term_id ≡ next)
        × (count k' next ≡ 0)
        × (k'.file_array ≡ k.file_array)
unfolding pit_handler next_terminal switch_process leave_process execute
pit_handler-starved ebp locals k idle full =
    let next = (k.console.cur_term_id + 1) % 3 in
    let k1 = leave_process ebp k.console.cur_term_id next (next_terminal k) in
    let same = puts-SamePrograms program_limit_message k1.console in
    let some_run : (k.prog_counter == 0) ≡ false = rw full refl in
    let none_here : ((k.console.terminals next).term_prog_counter == 0) ≡ true = rw idle refl in
    let room : leb 4 (k.console.terminals next).term_prog_counter ≡ false = rw idle refl in
    let no_room : leb 6 k.prog_counter ≡ true = rw full refl in
    (
      say program_limit_message k1,
      rw (some_run, none_here, room, no_room) refl,
      same.schedules,
      ap (λ p. p.1) (same.programs next) ∙ idle,
      refl,
    )
