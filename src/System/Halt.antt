-- ===== src/System/Halt.antt =====
-- `halt` keeps the kernel sound: the parent goes on, or the shell starts again.
use mathlib.Core.Path.{subst}
use ece391_kernel.Base.{
  ℕ, zero, suc, ◌+◌, ◌-◌, ◌*◌, ◌<◌, ◌≡◌, ◌⊎◌, inl, inr, refl, sym, ap, ◌∙◌, false, if◌then◌else◌,
  none, some, update, update-keeps, arith,
}
use ece391_kernel.State.{Kernel, FileArray}
use ece391_kernel.Paging.{setup_paging, disable_prog_vid_page}
use ece391_kernel.Process.{last_pid, scheduled}
use ece391_kernel.Process.Table.{count, listed}
use ece391_kernel.SysCall.Ops.{AllOps}
use ece391_kernel.SysCall.Programs.{
  Transfer, returns, enters, resumes, faults, Locals, shell, emptied, without_parent, relaunch,
  removed, return_to, halt, halted, with_stack,
}
use ece391_kernel.SysCall.Programs.Halt.{
  child, closed, after, pid_at-pos, closing, CanHalt, halt-halted,
}
use ece391_kernel.System.Sound.{SameTerminal, IsSound}
use ece391_kernel.System.Files.{IsRunning}
use ece391_kernel.System.Programs.{execute-enters, shell-Fits}
use ece391_kernel.System.Ended.{
  ended-IsStable, child-AllOps, pointer-child, child-running, after-IsEnded, emptied-IsEnded,
  closed_ebp, closed_pid,
}

-- The parent p of an ended program goes on with its own files, page and kernel stack, at the frame pointer that
-- is stored in the block of the program that ended.
abbrev pub GoesOn : Kernel → (ended ebp : ℕ) → Kernel → Type 0
GoesOn k ended ebp k' =
    (ebp ≡ (k.pcbs ended).ebp)
    × (p : ℕ) × ((k.pcbs ended).parent_pcb_pointer ≡ some p)
    × (k'.file_array ≡ some p)
    × (k'.tables ≡ setup_paging p (disable_prog_vid_page k.tables))
    × (k'.tss_esp0 ≡ 0x800000 - 0x2000 * p)

-- What `halt` may do in state k: go on behind the `execute` of the program's parent, with the status, or 256
-- after an exception, and with one program less, or enter the shell in the program's place. It neither returns
-- nor faults.
abbrev pub Halted : Kernel → (status : ℕ) → Transfer → Type 0
Halted k status (returns z k') = ⊥
Halted k status (enters eip k') =
    IsSound k'
    × (k'.prog_counter ≡ k.prog_counter)
    × IsRunning k'
    × SameTerminal k k'
    × (k'.program_exception_flag ≡ k.program_exception_flag)
    × ((k.pcbs (last_pid (scheduled k))).parent_pcb_pointer ≡ none)
Halted k status (resumes ebp r k') =
    IsSound k'
    × (r ≡ (if k.program_exception_flag then 256 else status))
    × (k'.prog_counter + 1 ≡ k.prog_counter)
    × IsRunning k'
    × SameTerminal k k'
    × (k'.program_exception_flag ≡ false)
    × GoesOn k (last_pid (scheduled k)) ebp k'
Halted k status faults = ⊥

first_or_later : (n : ℕ) → 0 < n → (n ≡ 1) ⊎ ((i : ℕ) × (n ≡ suc (suc i)))
first_or_later zero lt = absurd (omega arith)
first_or_later (suc zero) lt = inl refl
first_or_later (suc (suc i)) lt = inr (i, refl)

module _ (k : Kernel) (h : IsSound k) (run : IsRunning k) where
  abbrev cur : ℕ
  cur = k.console.cur_term_id

  pub number_pos : 0 < k.prog_counter
  number_pos = ground (
    arith,
    run,
    h.stable.terminal,
    h.stable.tables.counted,
    ap (count k) {x = cur} {y = 0},
    ap (count k) {x = cur} {y = 1},
    ap (count k) {x = cur} {y = 2},
  )

  -- The program is the first of its terminal, or its parent is the one before it.
  parent_cases :
      ((k.pcbs (child k)).parent_pcb_pointer ≡ none) × (count k cur ≡ 1)
      ⊎ (1 < count k cur)
        × ((k.pcbs (child k)).parent_pcb_pointer ≡ some (listed k cur (count k cur - 2)))
  parent_cases =
      let last = child-running k h run in
      let place : (i : ℕ) → count k cur ≡ suc i → child k ≡ listed k cur i =
        λ i e. last ∙ ap (listed k cur) (omega (arith, e)) in
      elim (first_or_later (count k cur) run) [
        | inl one ↦ inl (
          ap (λ p. (k.pcbs p).parent_pcb_pointer) (place 0 one)
              ∙ h.stable.tables.first_parent cur h.stable.terminal run,
          one,
        )
        | inr later ↦ inr (
          omega (arith, later.1),
          ap (λ p. (k.pcbs p).parent_pcb_pointer) (place (suc later.0) later.1)
              ∙ h.stable.tables.next_parent cur later.0 h.stable.terminal (omega (arith, later.1))
              ∙ ap (λ i. some (listed k cur i)) (omega (arith, later.1)),
        )
      ]

  resumed-Halted :
      (files : FileArray)
      → AllOps files
      → (status : ℕ) → 1 < count k cur
      → (k.pcbs (child k)).parent_pcb_pointer ≡ some (listed k cur (count k cur - 2))
      → Halted k status
          (return_to (child k) (listed k cur (count k cur - 2)) status (closed k files))
  unfolding return_to removed update
  resumed-Halted files all status many parent =
      let p = listed k cur (count k cur - 2) in
      let can : CanHalt k p = record {
        tables = h.stable.tables;
        terminal = h.stable.terminal;
        runs = run;
        has_parent = parent;
        files = pointer-child k h run;
        ops = child-AllOps k h run;
      } in
      let e = after-IsEnded k h run files all p can in
      let k' = with_stack (after k files p) in
      let counts : count k' k'.console.cur_term_id ≡ count k cur - 1 = ground arith in
      let current_p : p ≡ listed k' k'.console.cur_term_id (count k' k'.console.cur_term_id - 1) =
        ap (listed k cur) {y = count k' k'.console.cur_term_id - 1} (omega (arith, counts))
        ∙ sym (e.removed.lists cur _) in
      let last_parent : last_pid (scheduled k') ≡ p =
        pid_at-pos (scheduled k') (count k' k'.console.cur_term_id) (omega (arith, counts, many))
        ∙ sym current_p in
      let b = record ((closed k files).pcbs (child k)) { video_mem_flag = 0 } in
      let parent_pid =
        update-keeps (closed k files).pcbs (child k) b (λ b. b.pid) refl p
        ∙ closed_pid k h run files all p
        ∙ h.stable.tables.listed_pid cur (count k cur - 2) h.stable.terminal
            (omega (arith, many)) in
      (
        record {
          stable = ended-IsStable k k' (child k) e h.stable;
          current = λ _. ap some current_p;
        },
        refl,
        omega (arith, h.stable.tables.counted, run, many, e.removed.number),
        omega (arith, counts, many),
        e.terminal,
        refl,
        (
          closed_ebp k h run files all,
          p,
          parent,
          refl,
          ap (λ q. setup_paging q (disable_prog_vid_page k.tables)) parent_pid,
          ap (λ q. 0x800000 - 0x2000 * q) last_parent,
        ),
      )

  -- The flag stays as it is.
  emptied_flag :
      (files : FileArray)
      → (emptied (closed k files)).program_exception_flag ≡ k.program_exception_flag
  unfolding emptied
  emptied_flag files = refl

  relaunched-Halted :
      (files : FileArray)
      → AllOps files
      → (ebp status : ℕ) (locals : Locals) → count k cur ≡ 1
      → (k.pcbs (child k)).parent_pcb_pointer ≡ none
      → Halted k status (relaunch ebp locals (closed k files))
  unfolding relaunch
  relaunched-Halted files all ebp status locals single first =
      let k1 = emptied (closed k files) in
      let e = emptied-IsEnded k h run files all single in
      let stable = ended-IsStable k k1 (child k) e h.stable in
      let none_run : count k1 k1.console.cur_term_id ≡ 0 =
        ap (count k1) e.terminal ∙ ground (arith, e.removed.counts cur, single) in
      let sound : IsSound k1 = record {
        stable = stable;
        current = λ lt. absurd (omega (arith, lt, none_run));
      } in
      let new =
        execute-enters ebp locals shell k1 sound
          (omega (arith, none_run), omega (arith, e.removed.number, h.stable.total)) shell-Fits
          (stable.has_shell locals) in
      subst (λ r. Halted k status (without_parent r)) (sym new.2)
        (
          new.3.0,
          omega (arith, new.3.1, e.removed.number, number_pos),
          new.3.2,
          new.3.3 ∙ e.terminal,
          new.3.4 ∙ emptied_flag files,
          first,
        )

  pub halt-IsSound : (ebp status : ℕ) (locals : Locals) → Halted k status (halt ebp locals status k)
  halt-IsSound ebp status locals =
      let all = child-AllOps k h run in
      let files = closing k all in
      subst (Halted k status) (sym (halt-halted k ebp status locals (pointer-child k h run) all))
        (elim parent_cases [
          | inl first ↦
              subst (λ p. Halted k status (halted ebp (child k) p locals status (closed k files.0)))
                (sym first.0) (relaunched-Halted files.0 files.2 ebp status locals first.1 first.0)
          | inr later ↦
              subst (λ p. Halted k status (halted ebp (child k) p locals status (closed k files.0)))
                (sym later.1) (resumed-Halted files.0 files.2 status later.0 later.1)
        ])
