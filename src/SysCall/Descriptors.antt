-- ===== src/SysCall/Descriptors.antt =====
-- `open` and `close` on the array of descriptors.
use ece391_kernel.Base.{
  ℕ, zero, suc, ◌+◌, ◌-◌, ◌<◌, ◌≤◌, ◌≡◌, ◌≢◌, refl, sym, ap, ◌∙◌, false, ◌==◌, not, List, Option,
  none, some, update, update_self, update-update, update-change, update-ne, arith,
}
use ece391_kernel.Base.Int.{pos, ltb_ℤ}
use ece391_kernel.FileSystem.{read_dentry_by_name}
use ece391_kernel.FileSystem.Layout.{FileSystem, Dentry, minus_one}
use ece391_kernel.State.{
  FileArray, FileEntry, OpTable, terminal_op_table, rtc_op_table, dirt_op_table,
  regular_file_op_table, done,
}
use ece391_kernel.Files.{outside_files, file_open, file_close, directory_open, directory_close}
use ece391_kernel.Rtc.{rtc_open, rtc_close}
use ece391_kernel.Keyboard.{terminal_close}
use ece391_kernel.SysCall.{
  free_loop, table_of, op_open, open_with, open_found, open_in, op_close, close_in,
}

-- Descriptors from a to b - 1 are in use.
abbrev pub InUse : FileArray → ℕ → ℕ → Type 0
InUse files a b = (j : ℕ) → a ≤ j → j < b → (files j).flags ≢ 0

free_loop_lem :
    (files : FileArray) (rounds fd i : ℕ)
    → i < rounds
    → InUse files fd (fd + i)
    → (files (fd + i)).flags ≡ 0
    → free_loop files rounds fd ≡ fd + i
unfolding free_loop
free_loop_lem files zero fd i lt used free = absurd (omega arith)
free_loop_lem files (suc rounds) fd zero lt used free =
    ground (arith, ap (λ j. (files j).flags) {x = fd + 0} {y = fd} (omega arith))
free_loop_lem files (suc rounds) fd (suc i) lt used free =
    let here : ((files fd).flags == 0) ≡ false =
      ground (arith, used fd (omega arith) (omega arith)) in
    rw here (
      free_loop_lem files rounds (fd + 1) i (omega arith)
        (λ j le lt. used j (omega arith) (omega arith))
        (ap (λ j. (files j).flags) {x = fd + 1 + i} {y = fd + suc i} (omega arith) ∙ free)
      ∙ omega arith)

free_loop-full :
    (files : FileArray) (rounds fd : ℕ)
    → InUse files fd (fd + rounds)
    → free_loop files rounds fd ≡ fd + rounds
unfolding free_loop
free_loop-full files zero fd used = omega arith
free_loop-full files (suc rounds) fd used =
    let here : ((files fd).flags == 0) ≡ false =
      ground (arith, used fd (omega arith) (omega arith)) in
    rw here (
      free_loop-full files rounds (fd + 1) (λ j le lt. used j (omega arith) (omega arith))
      ∙ omega arith)

first_free :
    (files : FileArray) (fd : ℕ)
    → 2 ≤ fd
    → fd ≤ 7
    → InUse files 2 fd
    → (files fd).flags ≡ 0
    → free_loop files 6 2 ≡ fd
first_free files fd lo hi used free =
    free_loop_lem files 6 2 (fd - 2) (omega arith) (λ j le lt. used j le (omega arith))
      (ap (λ j. (files j).flags) {y = fd} (omega arith) ∙ free)
    ∙ omega arith

-- What a descriptor for a directory entry holds: the clock starts at ratio 256, the others at position 0, and
-- only a regular file keeps its inode.
abbrev pub opened_entry : OpTable → ℕ → FileEntry
opened_entry table inode = record {
  op_ptr = some table;
  inode_idx = elim table [ regular_file_op_table ↦ inode | _ ↦ 0 ];
  file_position = elim table [ rtc_op_table ↦ 256 | _ ↦ 0 ];
  flags = 1;
}

-- Two changes of a marked descriptor are one.
marked_twice :
    (files : FileArray) (fd inode : ℕ) (f g : FileEntry → FileEntry)
    → let e = record (files fd) { inode_idx = inode; flags = 1 } in
      let m = update files fd e in
      let m' = update m fd (f (m fd)) in update m' fd (g (m' fd)) ≡ update files fd (g (f e))
marked_twice files fd inode f g =
    let e = record (files fd) { inode_idx = inode; flags = 1 } in
    rw (update-change files fd e f) (update-change files fd (f e) g)

no_terminal : (file_type : ℕ) → table_of file_type ≢ some terminal_op_table
unfolding table_of
no_terminal file_type = ground arith

open_with_lem :
    (files : FileArray) (fd inode file_type : ℕ) (table : OpTable)
    → 2 ≤ fd
    → fd ≤ 7
    → table_of file_type ≡ some table
    → open_with
        (some table)
        fd
        (update files fd (record (files fd) { inode_idx = inode; flags = 1 }))
      ≡ (pos fd, update files fd (opened_entry table inode))
unfolding open_with op_open rtc_open file_open directory_open
open_with_lem files fd inode file_type terminal_op_table lo hi known =
    absurd (no_terminal file_type known)
open_with_lem files fd inode file_type rtc_op_table lo hi known =
    let in_range : outside_files (pos fd) ≡ false = ground arith in
    rw in_range (
      ap (λ m. (pos fd, m))
        (marked_twice files fd inode (λ e. record e { op_ptr = some rtc_op_table })
          (λ e. record e { inode_idx = 0; file_position = 256 })))
open_with_lem files fd inode file_type dirt_op_table lo hi known =
    ap (λ m. (pos fd, m))
      (marked_twice files fd inode (λ e. record e { op_ptr = some dirt_op_table })
        (λ e. record e { file_position = 0; inode_idx = 0 }))
open_with_lem files fd inode file_type regular_file_op_table lo hi known =
    ap (λ m. (pos fd, m))
      (marked_twice files fd inode (λ e. record e { op_ptr = some regular_file_op_table })
        (λ e. record e { file_position = 0 }))

op_close_opened :
    (files : FileArray) (fd inode : ℕ) (table : OpTable)
    → 2 ≤ fd
    → fd ≤ 7
    → op_close
        (some table)
        (pos fd)
        (update files fd (record (opened_entry table inode) { flags = 0 }))
      ≡ done (pos 0, update files fd (record (opened_entry table inode) { flags = 0 }))
unfolding op_close file_close rtc_close directory_close terminal_close
op_close_opened files fd inode terminal_op_table lo hi = refl
op_close_opened files fd inode rtc_op_table lo hi = refl
op_close_opened files fd inode dirt_op_table lo hi = refl
op_close_opened files fd inode regular_file_op_table lo hi =
    let e = record (opened_entry regular_file_op_table inode) { flags = 0 } in
    let in_range : outside_files (pos fd) ≡ false = ground arith in
    rw in_range
      (ap (λ m. done (pos 0, m)) (update-change files fd e (λ x. record x { file_position = 0 })))

close_opened :
    (files : FileArray) (fd inode : ℕ) (table : OpTable)
    → 2 ≤ fd
    → fd ≤ 7
    → close_in (pos fd) (update files fd (opened_entry table inode))
      ≡ done (pos 0, update files fd (record (opened_entry table inode) { flags = 0 }))
unfolding close_in
close_opened files fd inode table lo hi =
    let e = opened_entry table inode in
    let low : ltb_ℤ (pos fd) (pos 2) ≡ false = ground arith in
    let high : not (ltb_ℤ (pos fd) (pos 8)) ≡ false = ground arith in
    rw (update_self files fd e, low, high, update-update files fd e)
      (op_close_opened files fd inode table lo hi)

module _ (fs : FileSystem) (stack dentry : Dentry) (filename : Option (List ℕ)) (files : FileArray)
    (table : OpTable) (fd : ℕ) where
  -- The name is found, its type is one of the three, and fd is the first free descriptor.
  pub record CanOpen : Type 0 where
    pub found : read_dentry_by_name fs filename (some stack) ≡ (pos 0, some dentry)
    pub known : table_of dentry.file_type ≡ some table
    pub low : 2 ≤ fd
    pub high : fd ≤ 7
    pub used : InUse files 2 fd
    pub free : (files fd).flags ≡ 0

  pub open_in-first_free :
      CanOpen
      → open_in fs stack filename files
        ≡ (pos fd, update files fd (opened_entry table dentry.inode_idx))
  unfolding open_in open_found
  open_in-first_free h =
      let first = first_free files fd h.low h.high h.used h.free in
      let open_fd : (fd == 8) ≡ false = ground (arith, h.high) in
      rw (first, open_fd, h.found, h.known)
        (open_with_lem files fd dentry.inode_idx dentry.file_type table h.low h.high h.known)

  -- Closing what was opened returns 0 and leaves the descriptor free, so that it is the first free one
  -- again; no other one is changed.
  pub close_in-open_in :
      CanOpen
      → (close_in (pos fd) (open_in fs stack filename files).1
          ≡ done
              (pos 0, update files fd (record (opened_entry table dentry.inode_idx) { flags = 0 })))
        × (free_loop
              (update files fd (record (opened_entry table dentry.inode_idx) { flags = 0 }))
              6
              2
            ≡ fd)
  close_in-open_in h =
      let e = record (opened_entry table dentry.inode_idx) { flags = 0 } in
      (
        rw (open_in-first_free h) (close_opened files fd dentry.inode_idx table h.low h.high),
        first_free (update files fd e) fd h.low h.high
            (λ j le lt z.
              h.used j le lt (ap (λ x. x.flags) (sym (update-ne files e (omega arith))) ∙ z))
            (ap (λ x. x.flags) (update_self files fd e)),
      )

-- With the descriptors 2 to 7 in use `open` returns -1 and changes nothing, whatever the name.
pub open_in-full :
    (fs : FileSystem) (stack : Dentry) (filename : Option (List ℕ)) (files : FileArray)
    → InUse files 2 8
    → open_in fs stack filename files ≡ (minus_one, files)
unfolding open_in
open_in-full fs stack filename files used = rw (free_loop-full files 6 2 used) refl

-- For a name that is found and whose type is none of the three, `open` returns -1 and leaves the first
-- free descriptor in use: its flags are 1.
pub open_in-unknown :
    (fs : FileSystem) (stack dentry : Dentry) (filename : Option (List ℕ)) (files : FileArray)
    (fd : ℕ)
    → read_dentry_by_name fs filename (some stack) ≡ (pos 0, some dentry)
    → table_of dentry.file_type ≡ none
    → 2 ≤ fd
    → fd ≤ 7
    → InUse files 2 fd
    → (files fd).flags ≡ 0
    → let r = open_in fs stack filename files in (r.0 ≡ minus_one) × ((r.1 fd).flags ≡ 1)
unfolding open_in open_found open_with
open_in-unknown fs stack dentry filename files fd found unknown lo hi used free =
    let open_fd : (fd == 8) ≡ false = ground arith in
    rw (first_free files fd lo hi used free, open_fd, found, unknown)
      (
        refl,
        ap (λ x. x.flags)
            (update_self files fd (record (files fd) { inode_idx = dentry.inode_idx; flags = 1 })),
      )
