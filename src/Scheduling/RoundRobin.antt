-- ===== src/Scheduling/RoundRobin.antt =====
-- What the timer's interrupt switches to.
use ece391_kernel.Base.{
  ℕ, ◌+◌, ◌-◌, ◌*◌, ◌%◌, ◌<◌, ◌≤◌, ◌≡◌, ◌≢◌, refl, sym, ap, ◌∙◌, true, false, ◌==◌, if_ind, some,
  update, update_self, update-ne, arith,
}
use ece391_kernel.State.{Kernel}
use ece391_kernel.Paging.{setup_paging, enable_prog_vid_page, change_prog_vid_mapping}
use ece391_kernel.Paging.Entries.{Tables}
use ece391_kernel.Paging.Walk.{Placed, translate, translate-large}
use ece391_kernel.Process.{last_pid}
use ece391_kernel.SysCall.Programs.{resumes, Locals}
use ece391_kernel.Scheduling.{
  next_terminal, leave_process, restored, resume_process, switch_process, pit_handler,
}

module _ (at : Placed) (t : Tables) (pid v : ℕ) (few : pid < 6) (lo : 0x8000000 ≤ v)
    (hi : v < 0x8400000) where
  pub own_page :
      translate at (setup_paging pid t) true v ≡ some (0x800000 + pid * 0x400000 + (v - 0x8000000))
  unfolding setup_paging update
  own_page =
      translate-large at (setup_paging pid t) true v 32 (omega arith) refl refl refl ∙ ground arith

  own_page-video :
      (active term : ℕ)
      → translate at
          (change_prog_vid_mapping active term (enable_prog_vid_page (setup_paging pid t)))
          true
          v
        ≡ some (0x800000 + pid * 0x400000 + (v - 0x8000000))
  unfolding setup_paging enable_prog_vid_page change_prog_vid_mapping update
  own_page-video active term =
      translate-large at
        (change_prog_vid_mapping active term (enable_prog_vid_page (setup_paging pid t))) true v 32
        (omega arith) refl refl refl
      ∙ ground arith

-- `resume_process` for a program with a stored frame pointer.
resume_process_lem :
    (term : ℕ) (k : Kernel) (at : Placed)
    → let pid = last_pid (k.console.terminals term) in
      pid < 6
      → (k.pcbs pid).term_ebp ≢ 0
      → (k' : Kernel) × (resume_process term k ≡ resumes (k.pcbs pid).term_ebp 0 k')
        × (k'.console ≡ k.console)
        × (k'.pcbs ≡ k.pcbs)
        × (k'.file_array ≡ some pid)
        × (k'.tss_esp0 ≡ 0x800000 - 0x2000 * pid)
        × (translate at k'.tables true 0x8048000 ≡ some (0x848000 + pid * 0x400000))
unfolding resume_process restored
resume_process_lem term k at few saved =
    let pid = last_pid (k.console.terminals term) in
    let stored : ((k.pcbs pid).term_ebp == 0) ≡ false = ground arith in
    (
      restored term k,
      rw stored refl,
      refl,
      refl,
      refl,
      refl,
      if_ind (λ T. translate at T true 0x8048000 ≡ some (0x848000 + pid * 0x400000))
          ((k.pcbs pid).video_mem_flag == 0)
          (λ _.
            own_page at k.tables pid 0x8048000 few (omega arith) (omega arith)
            ∙ ap some (omega arith))
          (λ _.
            own_page-video at k.tables pid 0x8048000 few (omega arith) (omega arith)
              k.console.active_term_idx term
            ∙ ap some (omega arith)),
    )

module _ (k : Kernel) where
  -- The terminal that is scheduled, the one after it, and the running programs of the two.
  abbrev pub cur : ℕ
  cur = k.console.cur_term_id

  abbrev pub next : ℕ
  next = (cur + 1) % 3

  abbrev pub leaving : ℕ
  leaving = last_pid (k.console.terminals cur)

  abbrev pub entering : ℕ
  entering = last_pid (k.console.terminals next)

  -- Programs run, also in the next terminal; its program was switched away from before, and is another
  -- one than the one that runs now.
  pub record CanResume : Type 0 where
    pub some_run : k.prog_counter ≢ 0
    pub next_runs : (k.console.terminals next).term_prog_counter ≢ 0
    pub saved : (k.pcbs entering).term_ebp ≢ 0
    pub other : entering ≢ leaving
    pub few : entering < 6

  abbrev left : ℕ → Kernel
  left ebp = leave_process ebp cur next (next_terminal k)

  pit_handler-left :
      (ebp : ℕ) (locals : Locals)
      → CanResume
      → pit_handler ebp locals k ≡ resume_process next (left ebp)
  unfolding pit_handler next_terminal switch_process leave_process
  pit_handler-left ebp locals h =
      let some_run : (k.prog_counter == 0) ≡ false = ground (arith, h.some_run) in
      let next_runs : ((k.console.terminals next).term_prog_counter == 0) ≡ false =
        ground (arith, h.next_runs) in
      rw (some_run, next_runs) refl

  left_other : (ebp : ℕ) → CanResume → (left ebp).pcbs entering ≡ k.pcbs entering
  unfolding leave_process next_terminal
  left_other ebp h = update-ne k.pcbs (record (k.pcbs leaving) { term_ebp = ebp }) h.other

  left_ebp : (ebp : ℕ) → ((left ebp).pcbs leaving).term_ebp ≡ ebp
  unfolding leave_process next_terminal
  left_ebp ebp =
      ap (λ b. b.term_ebp) (update_self k.pcbs leaving (record (k.pcbs leaving) { term_ebp = ebp }))

  -- On a timer interrupt the kernel goes on with the running program of the next of the three terminals,
  -- from the frame pointer that was stored when that program was left. The frame pointer of the program
  -- that is left is stored, `file_array` is the new program's, and user mode sees its page at 128 MB.
  pub pit_handler-resumes :
      (ebp : ℕ) (locals : Locals) (at : Placed)
      → CanResume
      → (k' : Kernel) × (pit_handler ebp locals k ≡ resumes (k.pcbs entering).term_ebp 0 k')
        × (k'.console.cur_term_id ≡ next)
        × (k'.file_array ≡ some entering)
        × ((k'.pcbs leaving).term_ebp ≡ ebp)
        × (k'.tss_esp0 ≡ 0x800000 - 0x2000 * entering)
        × (translate at k'.tables true 0x8048000 ≡ some (0x848000 + entering * 0x400000))
  unfolding leave_process next_terminal
  pit_handler-resumes ebp locals at h =
      let kept = left_other ebp in
      let r =
        resume_process_lem next (left ebp) at h.few
          (λ e. h.saved (ap (λ b. b.term_ebp) (sym (kept h)) ∙ e)) in
      (
        r.0,
        pit_handler-left ebp locals h ∙ r.1 ∙ ap (λ b. resumes b.term_ebp 0 r.0) (kept h),
        ap (λ c. c.cur_term_id) r.2,
        r.4,
        ap (λ p. (p leaving).term_ebp) r.3 ∙ left_ebp ebp,
        r.5,
        r.6,
      )
