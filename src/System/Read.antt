-- ===== src/System/Read.antt =====
-- `read` of the running program keeps the kernel sound, and does not fault.
use mathlib.Core.Path.{subst}
use ece391_kernel.Base.{
  ℕ, sym, List, [], Bool, false, not, ◌||◌, ◌==◌, if_ind, Option, some, inl, inr, arith,
  Option-cases,
}
use ece391_kernel.Base.Int.{ℤ, pos, ltb_ℤ, pos_part}
use ece391_kernel.FileSystem.{read_data}
use ece391_kernel.FileSystem.Layout.{FileSystem, minus_one, is_zero}
use ece391_kernel.State.{
  Kernel, Console, KeyFlags, FileArray, OpTable, terminal_op_table, rtc_op_table, dirt_op_table,
  regular_file_op_table, Outcome, done, fault, blocked,
}
use ece391_kernel.Keyboard.{terminal_read}
use ece391_kernel.Keyboard.Programs.{Waits, terminal_read-SamePrograms}
use ece391_kernel.Rtc.{Rtc, rtc_read, rtc_waits, wait_flag, wait_multiple, divider}
use ece391_kernel.Files.{entry_of, outside_files, file_read, directory_read}
use ece391_kernel.SysCall.{
  Machine, terminal_result, rtc_result, op_read, or_else, sys_read, set_files,
}
use ece391_kernel.SysCall.Ops.{AllOps, AllOps-update}
use ece391_kernel.System.Sound.{IsSound, Kept}
use ece391_kernel.System.Files.{IsRunning, running, running-AllOps, files_open, set_files-Kept}
use ece391_kernel.System.Devices.{Kept-refl, console-IsSound}
use ece391_kernel.System.Write.{low_descriptor}

-- What `read` may do: wait for ever, or give a sound state.
abbrev pub Received : Kernel → Outcome (ℤ × List ℕ × Machine) → Type 0
Received k (done r) = Kept k r.2.kernel
Received k fault = ⊥
Received k blocked = Unit

directory_read-AllOps :
    (fs : FileSystem) (fd : ℤ) (files : FileArray)
    → AllOps files
    → AllOps (directory_read fs fd false files).2
unfolding directory_read
directory_read-AllOps fs fd files all =
    let e = entry_of files fd in
    if_ind {A = ℤ × List ℕ × FileArray} (λ r. AllOps r.2)
      (e.file_position == fs.dentry_num || false) (λ _. all)
      (λ _. AllOps-update files (pos_part fd) _ all (all (pos_part fd)))

file_read-AllOps :
    (fs : FileSystem) (fd nbytes : ℤ) (files : FileArray)
    → AllOps files
    → AllOps (or_else (file_read fs fd false nbytes (some files)).2 files)
unfolding file_read
file_read-AllOps fs fd nbytes files all =
    let P = λ (r : ℤ × List ℕ × Option FileArray). AllOps (or_else r.2 files) in
    let e = entry_of files fd in
    let r = read_data fs e.inode_idx e.file_position false nbytes in
    if_ind P (outside_files fd) (λ _. all)
      (λ _.
        if_ind P (ltb_ℤ nbytes (pos 0)) (λ _. all)
          (λ _.
            if_ind P (is_zero r.0) (λ _. all)
              (λ _. AllOps-update files (pos_part fd) _ all (all (pos_part fd)))))

-- Whatever the clock counts, its part of `read` does not fault.
abbrev NoFault : {A : Type 0} → Outcome A → Type 0
NoFault (done r) = Unit
NoFault fault = ⊥
NoFault blocked = Unit

rtc_read-NoFault :
    (fd : ℤ) (files : FileArray) (interrupts : ℕ) (r : Rtc)
    → NoFault (rtc_read fd files interrupts r)
unfolding rtc_read rtc_waits
rtc_read-NoFault fd files interrupts r =
    let ratio = (entry_of files fd).file_position in
    if_ind NoFault (outside_files fd) (λ _. tt)
      (λ _. elim (Option-cases (wait_flag interrupts r)) [
        | inl never ↦ rw never tt
        | inr first ↦ elim (Option-cases (wait_multiple (divider ratio) first.0.0 first.0.1)) [
          | inl never ↦ rw (first.1, never) tt
          | inr second ↦ rw (first.1, second.1) tt
        ]
      ])

module _ (m : Machine) (h : IsSound m.kernel) (run : IsRunning m.kernel) where
  abbrev k : Kernel
  k = m.kernel

  terminal-Received :
      (o : Outcome ((ℤ × List ℕ × List ℕ) × KeyFlags × Console))
      → Waits k.console (λ r. r.2) o
      → Received k (terminal_result m o)
  terminal-Received (done r) s = console-IsSound k r.2 s h
  terminal-Received fault s = s
  terminal-Received blocked s = tt

  rtc-Received : (o : Outcome (ℤ × ℕ × Rtc)) → NoFault o → Received k (rtc_result m o)
  rtc-Received (done r) s = Kept-refl k h
  rtc-Received fault s = s
  rtc-Received blocked s = tt

  stored : (files : FileArray) → AllOps files → Kept k (set_files files k)
  stored files all = set_files-Kept k h run files all

  op_read-Received :
      (table : OpTable) (scancodes : List ℕ) (interrupts : ℕ) (fd nbytes : ℤ) (files : FileArray)
      → AllOps files
      → Received k (op_read (some table) scancodes interrupts fd nbytes files m)
  unfolding op_read
  op_read-Received terminal_op_table scancodes interrupts fd nbytes files all =
      terminal-Received (terminal_read fd false nbytes scancodes m.keys k.console)
        (terminal_read-SamePrograms fd false nbytes scancodes m.keys k.console)
  op_read-Received rtc_op_table scancodes interrupts fd nbytes files all =
      rtc-Received (rtc_read fd files interrupts m.rtc) (rtc_read-NoFault fd files interrupts m.rtc)
  op_read-Received dirt_op_table scancodes interrupts fd nbytes files all =
      stored (directory_read k.fs fd false files).2 (directory_read-AllOps k.fs fd files all)
  op_read-Received regular_file_op_table scancodes interrupts fd nbytes files all =
      stored (or_else (file_read k.fs fd false nbytes (some files)).2 files)
        (file_read-AllOps k.fs fd nbytes files all)

  -- In a sound state in which a program runs, `read` does not fault: it waits for ever when too few keys or
  -- clock interrupts come, and otherwise the state after it is sound.
  pub sys_read-IsSound :
      (scancodes : List ℕ) (interrupts : ℕ) (fd : ℤ) (null : Bool) (nbytes : ℤ)
      → Received k (sys_read scancodes interrupts fd null nbytes m)
  unfolding sys_read
  sys_read-IsSound scancodes interrupts fd null nbytes =
      let files = (k.pcbs (running k h run)).file_array in
      let e = files (pos_part fd) in
      let all = running-AllOps k h run in
      rw (sys_read, files_open k h run)
        (if_ind (Received k)
          (ltb_ℤ fd (pos 0) || not (ltb_ℤ fd (pos 8)) || null || ltb_ℤ nbytes (pos 0))
          {x = done (minus_one, [], m)} (λ _. Kept-refl k h)
          (λ ok.
            if_ind (Received k) (e.flags == 0) {x = done (minus_one, [], m)} (λ _. Kept-refl k h)
              (λ used. elim (Option-cases e.op_ptr) [
                | inl absent ↦ absurd (
                    ground (
                      arith,
                      used,
                      all (pos_part fd) (low_descriptor fd (ground (arith, ok))) absent,
                    ))
                | inr table ↦
                    subst (λ o. Received k (op_read o scancodes interrupts fd nbytes files m))
                      (sym table.1)
                      (op_read-Received table.0 scancodes interrupts fd nbytes files all)
              ])))
