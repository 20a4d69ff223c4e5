-- ===== src/SysCall/Ops.antt =====
-- Descriptors in use that can be called: `open` and `close` keep them so, and `close` always returns.
use mathlib.Core.Path.{subst}
use ece391_kernel.Base.{
  ℕ, zero, suc, ◌+◌, ◌<◌, ◌≤◌, ◌≡◌, ◌≢◌, ◌⊎◌, refl, sym, ap, ◌∙◌, true, not, ◌||◌, ◌==◌, ltb,
  if_ind, List, Option, none, some, update, update_self, update-change, update-ne, arith,
  ℕ_discrete, Bool-cases, Option-cases, inl, inr,
}
use ece391_kernel.Base.Int.{ℤ, pos, negsuc, ltb_ℤ}
use ece391_kernel.Text.{strlen, strncmp}
use ece391_kernel.FileSystem.{dentry_loop, read_dentry_by_name}
use ece391_kernel.FileSystem.Layout.{FileSystem, Dentry, minus_one, is_minus_one, is_zero}
use ece391_kernel.FileSystem.Lookup.{entry}
use ece391_kernel.State.{
  FileArray, FileEntry, OpTable, terminal_op_table, rtc_op_table, dirt_op_table,
  regular_file_op_table, Outcome, done,
}
use ece391_kernel.Files.{file_close, file_open, directory_open, outside_files}
use ece391_kernel.Rtc.{rtc_open}
use ece391_kernel.SysCall.{
  op_close, close_in, after_close, op_open, table_of, open_with, open_found, open_in, free_loop,
}

-- Every descriptor in use has a table of operations.
abbrev pub AllOps : FileArray → Type 0
AllOps files = (j : ℕ) → j < 8 → (files j).op_ptr ≡ none → (files j).flags ≡ 0

-- A change of one descriptor that keeps its table.
pub AllOps-update :
    (files : FileArray) (fd : ℕ) (e : FileEntry)
    → AllOps files
    → (fd < 8 → e.op_ptr ≡ none → e.flags ≡ 0)
    → AllOps (update files fd e)
AllOps-update files fd e all own j lt absent = elim (ℕ_discrete j fd) [
  | yes same ↦
      let now : update files fd e j ≡ e = ap (update files fd e) same ∙ update_self files fd e in
      ap (λ x. x.flags) now ∙ own (rw (sym same) lt) (sym (ap (λ x. x.op_ptr) now) ∙ absent)
  | no other ↦
      let now = update-ne files e other in
      ap (λ x. x.flags) now ∙ all j lt (sym (ap (λ x. x.op_ptr) now) ∙ absent)
]

-- A closing that returns, with files that keep their tables of operations.
abbrev pub Closed : Outcome (ℤ × FileArray) → Type 0
Closed o = (files : FileArray) × (after_close o ≡ done files) × AllOps files

op_close-Closed :
    (table : OpTable) (fd : ℕ) (files : FileArray)
    → AllOps files
    → Closed (op_close (some table) (pos fd) files)
unfolding op_close file_close
op_close-Closed terminal_op_table fd files all = (files, refl, all)
op_close-Closed rtc_op_table fd files all = (files, refl, all)
op_close-Closed dirt_op_table fd files all = (files, refl, all)
op_close-Closed regular_file_op_table fd files all = elim (Bool-cases (outside_files (pos fd))) [
  | inl out ↦ (files, rw out refl, all)
  | inr within ↦
      let e = record (files fd) { file_position = 0 } in
      (update files fd e, rw within refl, AllOps-update files fd e all (all fd))
]

pub close_in-Closed : (fd : ℕ) (files : FileArray) → AllOps files → Closed (close_in (pos fd) files)
unfolding close_in
close_in-Closed fd files all =
    let e = record (files fd) { flags = 0 } in
    if_ind Closed (ltb_ℤ (pos fd) (pos 2) || not (ltb_ℤ (pos fd) (pos 8)) || (files fd).flags == 0)
      (λ _. (files, refl, all))
      (λ in_use. elim (Option-cases (files fd).op_ptr) [
        | inl absent ↦ absurd (ground (arith, in_use, all fd (ground (arith, in_use)) absent))
        | inr table ↦
            subst (λ o. Closed (op_close o (pos fd) (update files fd e))) (sym table.1)
              (op_close-Closed table.0 fd (update files fd e)
                (AllOps-update files fd e all (λ _ _. refl)))
      ])

-- Any descriptor, in range or not.
pub close_in-AllOps : (fd : ℤ) (files : FileArray) → AllOps files → Closed (close_in fd files)
unfolding close_in
close_in-AllOps (pos fd) files all = close_in-Closed fd files all
close_in-AllOps (negsuc n) files all =
    let low : ltb_ℤ (negsuc n) (pos 2) ≡ true = ground arith in rw low (files, refl, all)

-- What a lookup gives: a failure, or an entry of the boot block.
abbrev pub IsLookup : FileSystem → ℤ × Option Dentry → Type 0
IsLookup fs r =
    (is_minus_one r.0 ≡ true) ⊎ ((k : ℕ) × (k < fs.dentry_num) × (r ≡ (pos 0, some (entry fs k))))

dentry_loop-IsLookup :
    (fs : FileSystem) (fname : List ℕ) (rounds at : ℕ) (d : Dentry)
    → at + rounds ≤ fs.dentry_num
    → IsLookup fs (dentry_loop fs fname rounds at d)
unfolding dentry_loop
dentry_loop-IsLookup fs fname zero at d le = inl refl
dentry_loop-IsLookup fs fname (suc rounds) at d le =
    if_ind (IsLookup fs) (is_zero (strncmp fname (entry fs at).file_name 32))
      (λ _. inr (at, omega arith, refl))
      (λ _. dentry_loop-IsLookup fs fname rounds (at + 1) d (omega arith))

pub read_dentry_by_name-IsLookup :
    (fs : FileSystem) (fname : Option (List ℕ)) (d : Dentry)
    → IsLookup fs (read_dentry_by_name fs fname (some d))
unfolding read_dentry_by_name
read_dentry_by_name-IsLookup fs none d = inl refl
read_dentry_by_name-IsLookup fs (some fname) d =
    if_ind (IsLookup fs) (ltb 32 (strlen fname)) {x = (minus_one, some d)} (λ _. inl refl)
      (λ _. dentry_loop-IsLookup fs fname fs.dentry_num 0 d (omega arith))

-- Every entry of the boot block is a clock, a directory or a regular file.
abbrev pub KnownTypes : FileSystem → Type 0
KnownTypes fs = (k : ℕ) → k < fs.dentry_num → table_of (entry fs k).file_type ≢ none

op_open-AllOps :
    (table : OpTable) (fd : ℕ) (files : FileArray)
    → AllOps files
    → AllOps (op_open table (pos fd) files).1
unfolding op_open file_open directory_open rtc_open
op_open-AllOps terminal_op_table fd files all = all
op_open-AllOps rtc_op_table fd files all =
    if_ind {A = ℤ × FileArray} (λ r. AllOps r.1) (outside_files (pos fd)) (λ _. all)
      (λ _.
        AllOps-update files fd (record (files fd) { inode_idx = 0; file_position = 256 }) all
          (all fd))
op_open-AllOps dirt_op_table fd files all =
    AllOps-update files fd (record (files fd) { file_position = 0; inode_idx = 0 }) all (all fd)
op_open-AllOps regular_file_op_table fd files all =
    AllOps-update files fd (record (files fd) { file_position = 0 }) all (all fd)

open_found-AllOps :
    (fs : FileSystem) (k fd : ℕ) (files : FileArray)
    → table_of (entry fs k).file_type ≢ none
    → AllOps files
    → AllOps (open_found (some (entry fs k)) fd files).1
unfolding open_found open_with
open_found-AllOps fs k fd files known all = elim (Option-cases (table_of (entry fs k).file_type)) [
  | inl unknown ↦ absurd (known unknown)
  | inr table ↦
      let e = record (files fd) { inode_idx = (entry fs k).inode_idx; flags = 1 } in
      let set = λ (x : FileEntry). record x { op_ptr = some table.0 } in
      rw table.1 (
        op_open-AllOps table.0 fd (update (update files fd e) fd (set (update files fd e fd))) (
          subst AllOps (sym (update-change files fd e set))
            (AllOps-update files fd (set e) all (λ _ absent. cc))))
]

pub open_in-AllOps :
    (fs : FileSystem) (stack : Dentry) (filename : Option (List ℕ)) (files : FileArray)
    → KnownTypes fs
    → AllOps files
    → AllOps (open_in fs stack filename files).1
unfolding open_in
open_in-AllOps fs stack filename files known all =
    let fd = free_loop files 6 2 in
    let found = read_dentry_by_name fs filename (some stack) in
    if_ind {A = ℤ × FileArray} (λ r. AllOps r.1) (fd == 8) (λ _. all)
      (λ _.
        if_ind {A = ℤ × FileArray} (λ r. AllOps r.1) (is_minus_one found.0) (λ _. all)
          (λ there. elim (read_dentry_by_name-IsLookup fs filename stack) [
            | inl gone ↦ absurd (ground (arith, there, gone))
            | inr k ↦ rw k.2 (open_found-AllOps fs k.0 fd files (known k.0 k.1) all)
          ]))
