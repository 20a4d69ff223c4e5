-- ===== src/System/Strict/Refusals.antt =====
-- Reading, writing, closing and vidmap where only the terminal's descriptors are open, for a process that
-- asks for what the kernel must refuse (student-distrib/system_call.c).
use ece391_kernel.Base.{
  ℕ, zero, suc, ltb, leb, ◌⊎◌, inl, inr, if_ind, [], ◌<◌, ◌≡◌, ◌≢◌, refl, true, false, not, ◌||◌,
  ◌==◌, List, some, arith,
}
use ece391_kernel.Base.Int.{ℤ, pos, negsuc, ltb_ℤ, pos_part}
use ece391_kernel.FileSystem.Layout.{FileSystem, minus_one}
use ece391_kernel.State.{Kernel, Console, FileArray, terminal_op_table, Outcome, done}
use ece391_kernel.Keyboard.{terminal_read, terminal_write}
use ece391_kernel.SysCall.{
  Machine, close_in, sys_close, sys_read, sys_write, op_read, op_write, terminal_result,
  returned_outcome,
}
use ece391_kernel.SysCall.Programs.{vidmap}
use ece391_kernel.User.Calls.{M, Returns}
use ece391_kernel.System.Calls.{on_kernel, with_bytes, dispatch_syscall}
use ece391_kernel.System.Descriptors.{IsOpenIn, Descriptors, set_files-IsOpen}

-- A descriptor in use is one of the terminal's.
in_use :
    (files : FileArray) (fd : ℤ)
    → Descriptors files 2 2
    → ltb_ℤ fd (pos 0) ≡ false
    → ltb_ℤ fd (pos 8) ≡ true
    → ((files (pos_part fd)).flags == 0) ≡ false
    → (fd ≡ pos 0) ⊎ (fd ≡ pos 1)
in_use files (negsuc j) d lo hi used = absurd (ground (arith, lo))
in_use files (pos zero) d lo hi used = inl refl
in_use files (pos (suc zero)) d lo hi used = inr refl
in_use files (pos (suc (suc j))) d lo hi used =
    absurd (ground (arith, used, hi, d.free_above (suc (suc j)) (omega arith) (ground (arith, hi))))

module _ (fs : FileSystem) (scancodes : List ℕ) (interrupts : ℕ) (handlers : ℤ → M Machine ℤ) where
  pub write_says :
      (buf : List ℕ) (word n a b : ℕ) (m : Machine)
      → IsOpenIn fs a b m
      → Returns
          (on_kernel m (sys_write (pos 1) false buf word (pos n) m.kernel))
          (λ r m'. IsOpenIn fs a b m')
  unfolding sys_write op_write
  write_says buf word n a b m h =
      let P = λ (o : Outcome (ℤ × Kernel)). Returns (on_kernel m o) (λ r m'. IsOpenIn fs a b m') in
      let d = h.descriptors in
      rw (sys_write, h.current)
        (if_ind P
          (ltb_ℤ (pos 1) (pos 0)
            || not (ltb_ℤ (pos 1) (pos 8))
            || false
            || ltb_ℤ (pos n) (pos 0)
            || ((h.files 1).flags == 0))
          {x = done (minus_one, m.kernel)} (λ _. h)
          (λ ok.
            rw d.stdout
              (record { files = h.files; current = h.current; disk = h.disk; descriptors = d })))

  -- Reading from the other descriptor of the terminal.
  read_stdout :
      (n : ℕ) (files : FileArray) (m : Machine)
      → IsOpenIn fs 2 2 m
      → Returns
          (with_bytes
            (op_read (some terminal_op_table) scancodes interrupts (pos 1) (pos n) files m))
          (λ r m'. (r.0 ≡ minus_one) × IsOpenIn fs 2 2 m')
  unfolding op_read terminal_read
  read_stdout n files m h =
      if_ind
        (λ o.
          Returns (with_bytes (terminal_result m o))
            (λ r m'. (r.0 ≡ minus_one) × IsOpenIn fs 2 2 m'))
        (false || ltb_ℤ (pos n) (pos 0) || true)
        {x = done ((minus_one, [], []), m.keys, m.kernel.console)} (λ _. (refl, h))
        (λ no_guard. absurd (ground (arith, no_guard)))

  pub read_refused :
      (fd : ℤ) (n : ℕ) (m : Machine)
      → fd ≢ pos 0
      → IsOpenIn fs 2 2 m
      → Returns
          (with_bytes (sys_read scancodes interrupts fd false (pos n) m))
          (λ r m'. (r.0 ≡ minus_one) × IsOpenIn fs 2 2 m')
  unfolding sys_read
  read_refused fd n m ne h =
      let P = λ (o : Outcome (ℤ × List ℕ × Machine)).
        Returns (with_bytes o) (λ r m'. (r.0 ≡ minus_one) × IsOpenIn fs 2 2 m') in
      rw (sys_read, h.current)
        (if_ind P (ltb_ℤ fd (pos 0) || not (ltb_ℤ fd (pos 8)) || false || ltb_ℤ (pos n) (pos 0))
          {x = done (minus_one, [], m)} (λ _. (refl, h))
          (λ ok.
            if_ind P ((h.files (pos_part fd)).flags == 0) {x = done (minus_one, [], m)}
              (λ _. (refl, h))
              (λ used.
                elim (in_use h.files fd h.descriptors (ground (arith, ok)) (ground (arith, ok))
                  used) [
                    | inl e ↦ absurd (ne e)
                    | inr e ↦ rw (e, h.descriptors.stdout) (read_stdout n h.files m h)
                  ])))

  write_stdin :
      (buf : List ℕ) (word n : ℕ) (files : FileArray) (m : Machine)
      → IsOpenIn fs 2 2 m
      → Returns
          (on_kernel m (op_write (some terminal_op_table) (pos 0) buf word (pos n) files m.kernel))
          (λ r m'. (r ≡ minus_one) × IsOpenIn fs 2 2 m')
  unfolding op_write terminal_write
  write_stdin buf word n files m h =
      if_ind {A = ℤ × Console}
        (λ r.
          (r.0 ≡ minus_one)
          × IsOpenIn fs 2 2 (record m { kernel = record m.kernel { console = r.1 } }))
        (false || ltb_ℤ (pos n) (pos 0) || true) {x = (minus_one, m.kernel.console)}
        (λ _. (
          refl,
          record {
            files = h.files;
            current = h.current;
            disk = h.disk;
            descriptors = h.descriptors;
          },
        ))
        (λ no_guard. absurd (ground (arith, no_guard)))

  pub write_refused :
      (fd : ℤ) (buf : List ℕ) (word n : ℕ) (m : Machine)
      → fd ≢ pos 1
      → IsOpenIn fs 2 2 m
      → Returns
          (on_kernel m (sys_write fd false buf word (pos n) m.kernel))
          (λ r m'. (r ≡ minus_one) × IsOpenIn fs 2 2 m')
  unfolding sys_write
  write_refused fd buf word n m ne h =
      let P = λ (o : Outcome (ℤ × Kernel)).
        Returns (on_kernel m o) (λ r m'. (r ≡ minus_one) × IsOpenIn fs 2 2 m') in
      rw (sys_write, h.current)
        (if_ind P
          (ltb_ℤ fd (pos 0)
            || not (ltb_ℤ fd (pos 8))
            || false
            || ltb_ℤ (pos n) (pos 0)
            || ((h.files (pos_part fd)).flags == 0))
          {x = done (minus_one, m.kernel)} (λ _. (refl, h))
          (λ ok.
            elim (in_use h.files fd h.descriptors (ground (arith, ok)) (ground (arith, ok))
              (ground (arith, ok))) [
                | inl e ↦ rw (e, h.descriptors.stdin) (write_stdin buf word n h.files m h)
                | inr e ↦ absurd (ne e)
              ]))

  pub close_refused :
      (fd : ℤ) (m : Machine)
      → IsOpenIn fs 2 2 m
      → Returns (on_kernel m (sys_close fd m.kernel)) (λ r m'. (r ≡ minus_one) × IsOpenIn fs 2 2 m')
  unfolding sys_close close_in
  close_refused fd m h =
      let P = λ (o : Outcome (ℤ × FileArray)).
        Returns (on_kernel m (returned_outcome m.kernel o))
          (λ r m'. (r ≡ minus_one) × IsOpenIn fs 2 2 m') in
      let same = set_files-IsOpen fs 2 2 2 2 m.kernel h.files h h.descriptors in
      rw (sys_close, h.current)
        (if_ind P
          (ltb_ℤ fd (pos 2) || not (ltb_ℤ fd (pos 8)) || ((h.files (pos_part fd)).flags == 0))
          {x = done (minus_one, h.files)} (λ _. (refl, same))
          (λ ok.
            elim (in_use h.files fd h.descriptors (ground (arith, ok)) (ground (arith, ok))
              (ground (arith, ok))) [
                | inl e ↦ absurd (ground (arith, ok, e))
                | inr e ↦ absurd (ground (arith, ok, e))
              ]))

  pub vidmap_refused :
      (screen_start : ℕ) (m : Machine)
      → screen_start < 0x08000000
      → IsOpenIn fs 2 2 m
      → ((vidmap screen_start m.kernel).0 ≡ minus_one)
        × IsOpenIn fs 2 2 (record m { kernel = (vidmap screen_start m.kernel).2 })
  unfolding vidmap
  vidmap_refused screen_start m low h =
      let test : (ltb screen_start 0x08000000 || leb 0x08400000 screen_start) ≡ true =
        ground (arith, low) in
      rw test (refl, h)

  pub call_refused :
      (num : ℤ) (m : Machine)
      → (ltb_ℤ num (pos 1) || ltb_ℤ (pos 10) num) ≡ true
      → IsOpenIn fs 2 2 m
      → Returns (dispatch_syscall handlers num m) (λ r m'. (r ≡ minus_one) × IsOpenIn fs 2 2 m')
  unfolding dispatch_syscall
  call_refused num m out h = rw (dispatch_syscall, out) (refl, h)
