-- ===== src/System/Descriptors.antt =====
-- Which descriptors of the running program are open.
use ece391_kernel.Base.{
  ℕ, ◌+◌, ◌<◌, ◌≤◌, ◌≡◌, ◌≢◌, refl, sym, ap, ◌∙◌, Option, none, some, update, update_self, fill_lem,
  ltb, true, false, List, update-ne, arith, ℕ_discrete,
}
use ece391_kernel.FileSystem.Layout.{FileSystem, Dentry}
use ece391_kernel.State.{Kernel, FileArray, FileEntry, terminal_op_table, dirt_op_table}
use ece391_kernel.Process.{new_pcb, fresh_entry, create_at}
use ece391_kernel.Process.Create.{created}
use ece391_kernel.SysCall.Programs.{Locals, launched}
use ece391_kernel.SysCall.{Machine, files_at, open_files, store_files, set_files}

-- The terminal stands at 0 and 1, directories at a to b - 1, and nothing at the others.
pub record Descriptors (files : FileArray) (a b : ℕ) : Type 0 where
  pub stdin : (files 0).op_ptr ≡ some terminal_op_table
  pub stdin_used : (files 0).flags ≢ 0
  pub stdout : (files 1).op_ptr ≡ some terminal_op_table
  pub stdout_used : (files 1).flags ≢ 0
  pub opened : (j : ℕ) → a ≤ j → j < b → (files j).op_ptr ≡ some dirt_op_table
  pub used : (j : ℕ) → a ≤ j → j < b → (files j).flags ≢ 0
  pub free_below : (j : ℕ) → 2 ≤ j → j < a → (files j).flags ≡ 0
  pub free_above : (j : ℕ) → b ≤ j → j < 8 → (files j).flags ≡ 0

-- The running program's descriptors, and the disk.
pub record IsOpen (fs : FileSystem) (a b : ℕ) (k : Kernel) : Type 0 where
  pub files : FileArray
  pub current : open_files k ≡ some files
  pub disk : k.fs ≡ fs
  pub descriptors : Descriptors files a b

store_files-current :
    (p : Option ℕ) (k : Kernel) (files old : FileArray)
    → k.file_array ≡ p
    → files_at k p ≡ some old
    → open_files (store_files p files k) ≡ some files
store_files-current none k files old e h = absurd (ground (arith, h))
store_files-current (some pid) k files old e h = rw e (
    ap (λ b. some b.file_array)
      (update_self k.pcbs pid (record (k.pcbs pid) { file_array = files })))

store_files-disk :
    (p : Option ℕ) (k : Kernel) (files : FileArray) → (store_files p files k).fs ≡ k.fs
store_files-disk none k files = refl
store_files-disk (some pid) k files = refl

-- The same of the kernel in a machine.
abbrev pub IsOpenIn : FileSystem → (a b : ℕ) → Machine → Type 0
IsOpenIn fs a b m = IsOpen fs a b m.kernel

-- New descriptors of the running program.
pub set_files-IsOpen :
    (fs : FileSystem) (a b a' b' : ℕ) (k : Kernel) (files : FileArray)
    → IsOpen fs a b k
    → Descriptors files a' b'
    → IsOpen fs a' b' (set_files files k)
set_files-IsOpen fs a b a' b' k files h d = record {
  files = files;
  current = store_files-current k.file_array k files h.files refl h.current;
  disk = store_files-disk k.file_array k files ∙ h.disk;
  descriptors = d;
}

-- A directory is opened behind the others.
pub Descriptors-open :
    (files : FileArray) (b : ℕ) (e : FileEntry)
    → 2 ≤ b
    → e.op_ptr ≡ some dirt_op_table
    → e.flags ≢ 0
    → Descriptors files 2 b
    → Descriptors (update files b e) 2 (b + 1)
Descriptors-open files b e lo table marked d =
    let here = update_self files b e in
    let low : (j : ℕ) → j ≢ b → update files b e j ≡ files j = λ j ne. update-ne files e ne in
    record {
      stdin = ap (λ x. x.op_ptr) (low 0 (omega (arith, lo))) ∙ d.stdin;
      stdin_used = λ z. d.stdin_used (ap (λ x. x.flags) (sym (low 0 (omega (arith, lo)))) ∙ z);
      stdout = ap (λ x. x.op_ptr) (low 1 (omega (arith, lo))) ∙ d.stdout;
      stdout_used = λ z. d.stdout_used (ap (λ x. x.flags) (sym (low 1 (omega (arith, lo)))) ∙ z);
      opened = λ j le lt. elim (ℕ_discrete j b) [
        | yes same ↦ ap (λ i. (update files b e i).op_ptr) same ∙ ap (λ x. x.op_ptr) here ∙ table
        | no ne ↦ ap (λ x. x.op_ptr) (low j ne) ∙ d.opened j le (omega (arith, lt, ne))
      ];
      used = λ j le lt z. elim (ℕ_discrete j b) [
        | yes same ↦
            marked (sym (ap (λ i. (update files b e i).flags) same ∙ ap (λ x. x.flags) here) ∙ z)
        | no ne ↦ d.used j le (omega (arith, lt, ne)) (ap (λ x. x.flags) (sym (low j ne)) ∙ z)
      ];
      free_below = λ j le lt. absurd (omega (arith, le, lt));
      free_above = λ j le lt.
          ap (λ x. x.flags) (low j (omega (arith, le))) ∙ d.free_above j (omega (arith, le)) lt;
    }

-- The first of the open ones is closed.
pub Descriptors-close :
    (files : FileArray) (a b : ℕ) (e : FileEntry)
    → 2 ≤ a
    → a < b
    → e.flags ≡ 0
    → Descriptors files a b
    → Descriptors (update files a e) (a + 1) b
Descriptors-close files a b e lo lt unmarked d =
    let here = update_self files a e in
    let other : (j : ℕ) → j ≢ a → update files a e j ≡ files j = λ j ne. update-ne files e ne in
    record {
      stdin = ap (λ x. x.op_ptr) (other 0 (omega (arith, lo))) ∙ d.stdin;
      stdin_used = λ z. d.stdin_used (ap (λ x. x.flags) (sym (other 0 (omega (arith, lo)))) ∙ z);
      stdout = ap (λ x. x.op_ptr) (other 1 (omega (arith, lo))) ∙ d.stdout;
      stdout_used = λ z. d.stdout_used (ap (λ x. x.flags) (sym (other 1 (omega (arith, lo)))) ∙ z);
      opened = λ j le jt.
          ap (λ x. x.op_ptr) (other j (omega (arith, le))) ∙ d.opened j (omega (arith, le)) jt;
      used = λ j le jt z.
          d.used j (omega (arith, le)) jt
            (ap (λ x. x.flags) (sym (other j (omega (arith, le)))) ∙ z);
      free_below = λ j le jt. elim (ℕ_discrete j a) [
        | yes same ↦ ap (λ i. (update files a e i).flags) same ∙ ap (λ x. x.flags) here ∙ unmarked
        | no ne ↦ ap (λ x. x.flags) (other j ne) ∙ d.free_below j le (omega (arith, jt, ne))
      ];
      free_above =
          λ j le jt. ap (λ x. x.flags) (other j (omega (arith, le, lt))) ∙ d.free_above j le jt;
    }

-- With all closed, nothing is open.
pub Descriptors-closed : (files : FileArray) → Descriptors files 8 8 → Descriptors files 2 2
Descriptors-closed files d = record {
  stdin = d.stdin;
  stdin_used = d.stdin_used;
  stdout = d.stdout;
  stdout_used = d.stdout_used;
  opened = λ j le lt. absurd (omega (arith, le, lt));
  used = λ j le lt z. absurd (omega (arith, le, lt));
  free_below = λ j le lt. absurd (omega (arith, le, lt));
  free_above = λ j le lt. d.free_below j le lt;
}

-- The loop of `create_pcb` leaves the two descriptors of the terminal.
new_pcb-Descriptors : (k : Kernel) (pid : ℕ) → Descriptors (new_pcb k pid).file_array 2 2
new_pcb-Descriptors k pid =
    let old = (k.pcbs pid).file_array in
    let entry = fill_lem 8 (fresh_entry old) old in
    record {
      stdin = ap (λ x. x.op_ptr) (entry 0);
      stdin_used = λ z. absurd (omega (arith, sym (ap (λ x. x.flags) (entry 0)) ∙ z));
      stdout = ap (λ x. x.op_ptr) (entry 1);
      stdout_used = λ z. absurd (omega (arith, sym (ap (λ x. x.flags) (entry 1)) ∙ z));
      opened = λ j le lt. absurd (omega (arith, le, lt));
      used = λ j le lt z. absurd (omega (arith, le, lt));
      free_below = λ j le lt. absurd (omega (arith, le, lt));
      free_above = λ j le lt.
          let low : ltb j 8 ≡ true = ground (arith, lt) in
          let high : ltb j 2 ≡ false = ground (arith, le) in
          ap (λ x. x.flags) (entry j) ∙ rw (low, high) refl;
    }

-- A program that was just started has only the two descriptors of the terminal open.
pub launched-IsOpen :
    (ebp pid : ℕ) (locals : Locals) (dentry : Dentry) (params : List ℕ) (k : Kernel)
    → IsOpen k.fs 2 2 (launched ebp pid locals dentry params (created k pid))
unfolding launched create_at
launched-IsOpen ebp pid locals dentry params k =
    let k1 = created k pid in
    let started = launched ebp pid locals dentry params k1 in
    let block : (started.pcbs pid).file_array ≡ (k1.pcbs pid).file_array =
      ap (λ b. b.file_array) (update_self k1.pcbs pid _) in
    let fresh : (k1.pcbs pid).file_array ≡ (new_pcb k pid).file_array =
      ap (λ b. b.file_array) (update_self k.pcbs pid (new_pcb k pid)) in
    record {
      files = (new_pcb k pid).file_array;
      current = ap (λ f. some f) (block ∙ fresh);
      disk = refl;
      descriptors = new_pcb-Descriptors k pid;
    }
