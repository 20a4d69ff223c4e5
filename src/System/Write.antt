-- ===== src/System/Write.antt =====
-- `write` of the running program keeps the kernel sound.
use mathlib.Core.Path.{subst}
use Prim.Native.Nat.{bit_and}
use ece391_kernel.Base.{
  ℕ, ◌+◌, ◌-◌, ◌<◌, ◌/◌, ◌^◌, ◌%◌, ◌≡◌, sym, List, Bool, true, false, not, ◌||◌, ◌==◌, ltb, if_ind,
  some, inl, inr, arith, Option-cases,
}
use ece391_kernel.Base.Int.{ℤ, pos, negsuc, ltb_ℤ, pos_part}
use ece391_kernel.FileSystem.Layout.{minus_one}
use ece391_kernel.State.{
  Kernel, FileArray, OpTable, terminal_op_table, rtc_op_table, dirt_op_table, regular_file_op_table,
  Outcome, done, fault, blocked,
}
use ece391_kernel.Keyboard.{terminal_write}
use ece391_kernel.Keyboard.Programs.{terminal_write-SamePrograms}
use ece391_kernel.Rtc.{rtc_write, max_rtc_freq}
use ece391_kernel.Files.{entry_of, outside_files}
use ece391_kernel.SysCall.{returned_outcome, op_write, sys_write}
use ece391_kernel.SysCall.Ops.{AllOps, AllOps-update}
use ece391_kernel.System.Sound.{IsSound, Kept}
use ece391_kernel.System.Files.{IsRunning, running, running-AllOps, files_open, set_files-Kept}
use ece391_kernel.System.Devices.{Kept-refl, console-IsSound}

-- What `write` may do with the word at `buf`: the state is sound, or the clock divides by 0.
abbrev pub Written : Kernel → (word : ℕ) → Outcome (ℤ × Kernel) → Type 0
Written k word (done r) = Kept k r.1
Written k word fault = word ≡ 0
Written k word blocked = ⊥

-- Descriptors that can be called, or a division by 0.
abbrev Divided : (word : ℕ) → Outcome (ℤ × FileArray) → Type 0
Divided word (done r) = AllOps r.1
Divided word fault = word ≡ 0
Divided word blocked = ⊥

rtc_write-Divided :
    (fd : ℤ) (word : ℕ) (nbytes : ℤ) (files : FileArray)
    → AllOps files
    → Divided word (rtc_write fd false word nbytes files)
unfolding rtc_write
rtc_write-Divided fd word nbytes files all =
    if_ind (Divided word) (not (ltb_ℤ (pos 1) nbytes)) (λ _. all)
      (λ _.
        if_ind (Divided word) (outside_files fd) (λ _. all)
          (λ _.
            if_ind (Divided word)
              (not (bit_and word ((word + (2 ^ 32 - 1)) % 2 ^ 32) == 0) || ltb max_rtc_freq word)
              (λ _. all)
              (λ _.
                if_ind (Divided word) (word == 0) (λ zero. ground (arith, zero))
                  (λ _.
                    AllOps-update files (pos_part fd)
                      (record (entry_of files fd) { file_position = max_rtc_freq / word }) all
                      (all (pos_part fd))))))

pub low_descriptor : (fd : ℤ) → ltb_ℤ fd (pos 8) ≡ true → pos_part fd < 8
low_descriptor (pos n) e = ground (arith, e)
low_descriptor (negsuc n) e = omega arith

module _ (k : Kernel) (h : IsSound k) (run : IsRunning k) where
  Written-files :
      (word : ℕ) (o : Outcome (ℤ × FileArray))
      → Divided word o
      → Written k word (returned_outcome k o)
  Written-files word (done r) all = set_files-Kept k h run r.1 all
  Written-files word fault zero = zero
  Written-files word blocked never = never

  op_write-Written :
      (table : OpTable) (fd : ℤ) (buf : List ℕ) (word : ℕ) (nbytes : ℤ) (files : FileArray)
      → AllOps files
      → Written k word (op_write (some table) fd buf word nbytes files k)
  unfolding op_write
  op_write-Written terminal_op_table fd buf word nbytes files all =
      console-IsSound k (terminal_write fd false buf nbytes k.console).1
        (terminal_write-SamePrograms fd false buf nbytes k.console) h
  op_write-Written rtc_op_table fd buf word nbytes files all =
      Written-files word (rtc_write fd false word nbytes files)
        (rtc_write-Divided fd word nbytes files all)
  op_write-Written dirt_op_table fd buf word nbytes files all = Kept-refl k h
  op_write-Written regular_file_op_table fd buf word nbytes files all = Kept-refl k h

  -- In a sound state in which a program runs, `write` does not wait, and it faults at most for the word 0;
  -- otherwise the state after it is sound.
  pub sys_write-IsSound :
      (fd : ℤ) (null : Bool) (buf : List ℕ) (word : ℕ) (nbytes : ℤ)
      → Written k word (sys_write fd null buf word nbytes k)
  unfolding sys_write
  sys_write-IsSound fd null buf word nbytes =
      let files = (k.pcbs (running k h run)).file_array in
      let e = files (pos_part fd) in
      let all = running-AllOps k h run in
      rw (sys_write, files_open k h run)
        (if_ind (Written k word)
          (ltb_ℤ fd (pos 0)
            || not (ltb_ℤ fd (pos 8))
            || null
            || ltb_ℤ nbytes (pos 0)
            || e.flags == 0)
          {x = done (minus_one, k)} (λ _. Kept-refl k h)
          (λ ok. elim (Option-cases e.op_ptr) [
            | inl absent ↦ absurd (
                ground
                  (arith, ok, all (pos_part fd) (low_descriptor fd (ground (arith, ok))) absent))
            | inr table ↦
                subst (λ o. Written k word (op_write o fd buf word nbytes files k)) (sym table.1)
                  (op_write-Written table.0 fd buf word nbytes files all)
          ]))
