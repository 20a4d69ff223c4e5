-- ===== src/Files.antt =====
-- The operations of regular files and of directories in student-distrib/file_system.c, on the array that
-- `file_array` points to, and the loops of the programs that use them.
pub mod Read
pub mod Cat
use ece391_kernel.Base.{
  ℕ, zero, suc, ◌+◌, ◌-◌, ◌%◌, ◌^◌, Bool, true, false, not, ◌||◌, ◌&&◌, List, [], ◌∷◌, ◌++◌, Option,
  none, some, ltb, ◌==◌, if◌then◌else◌, update, min, take,
}
use ece391_kernel.Base.Int.{ℤ, pos, negsuc, ltb_ℤ, pos_part, neg_part}
use ece391_kernel.Text.{strlen, strncpy}
use ece391_kernel.FileSystem.{read_data}
use ece391_kernel.FileSystem.Layout.{FileSystem, minus_one, is_zero, is_minus_one}
use ece391_kernel.State.{FileEntry, FileArray}

-- `fd < 2 || fd > 7`
abbrev pub outside_files : ℤ → Bool
outside_files fd = ltb_ℤ fd (pos 2) || ltb_ℤ (pos 7) fd

-- `file_array[fd]`
abbrev pub entry_of : FileArray → ℤ → FileEntry
entry_of files fd = files (pos_part fd)

abbrev pub set_entry : FileArray → ℤ → FileEntry → FileArray
set_entry files fd e = update files (pos_part fd) e

unfoldable pub file_open : ℤ → FileArray → ℤ × FileArray
file_open fd files = (pos 0, set_entry files fd (record (entry_of files fd) { file_position = 0 }))

-- `none` is a null `file_array`.
unfoldable pub file_close : ℤ → Option FileArray → ℤ × Option FileArray
file_close fd none = (minus_one, none)
file_close fd (some files) =
    if outside_files fd
    then (minus_one, some files)
    else (pos 0, some (set_entry files fd (record (entry_of files fd) { file_position = 0 })))

-- `position += r` on `uint32_t`
abbrev pub advance : ℕ → ℤ → ℕ
advance position r = (position + 2 ^ 32 + pos_part r - neg_part r) % 2 ^ 32

-- The second part is what goes to `buf`.
unfoldable pub file_read :
    FileSystem
    → (fd : ℤ) (null : Bool) (nbytes : ℤ) → Option FileArray
    → ℤ × List ℕ × Option FileArray
file_read fs fd null nbytes none = (minus_one, [], none)
file_read fs fd null nbytes (some files) =
    let e = entry_of files fd in
    let r = read_data fs e.inode_idx e.file_position null nbytes in
    if outside_files fd
    then (minus_one, [], some files)
    else if null || ltb_ℤ nbytes (pos 0)
    then (pos 0, [], some files)
    else if is_zero r.0
    then (r.0, r.1, some files)
    else (
      r.0,
      r.1,
      some (set_entry files fd (record e { file_position = advance e.file_position r.0 })),
    )

unfoldable pub file_write : ℤ → ℤ
file_write fd = minus_one

unfoldable pub directory_open : ℤ → FileArray → ℤ × FileArray
directory_open fd files =
    (pos 0, set_entry files fd (record (entry_of files fd) { file_position = 0; inode_idx = 0 }))

unfoldable pub directory_close : ℤ → ℤ
directory_close fd = pos 0

unfoldable pub directory_read :
    FileSystem → (fd : ℤ) (null : Bool) → FileArray → ℤ × List ℕ × FileArray
directory_read fs fd null files =
    let e = entry_of files fd in
    let name = (fs.image.dentry_at (e.file_position + 1)).file_name in
    if e.file_position == fs.dentry_num || null then (pos 0, [], files) else (
      pos (if ltb 32 (strlen name) then 32 else strlen name),
      strncpy name 32,
      set_entry files fd (record e { file_position = (e.file_position + 1) % 2 ^ 32 }),
    )

unfoldable pub directory_write : ℤ → ℤ
directory_write fd = minus_one

-- One more part of the output, before what a later round adds.
abbrev pub output : List ℕ → Option (List ℕ) → Option (List ℕ)
output bytes none = none
output bytes (some more) = some (bytes ++ more)

abbrev pub with_files : (FileArray → Option (List ℕ)) → Option FileArray → Option (List ℕ)
with_files next none = none
with_files next (some files) = next files

-- The loop of syscalls/ece391cat.c on a regular file: the bytes that it passes to `write`, or `none`
-- when a read fails or the fuel runs out.
unfoldable pub cat_loop : FileSystem → ℤ → ℕ → FileArray → Option (List ℕ)
cat_loop fs fd zero files = none
cat_loop fs fd (suc fuel) files =
    let r = file_read fs fd false (pos 1024) (some files) in
    let more = with_files (cat_loop fs fd fuel) r.2 in
    if is_zero r.0
    then some []
    else if is_minus_one r.0
    then none
    else output (take (pos_part r.0) r.1) more

-- The loop of syscalls/ece391ls.c: each name with a newline behind it.
unfoldable pub ls_loop : FileSystem → ℤ → ℕ → FileArray → Option (List ℕ)
ls_loop fs fd zero files = none
ls_loop fs fd (suc fuel) files =
    let r = directory_read fs fd false files in
    let more = ls_loop fs fd fuel r.2 in
    if is_zero r.0
    then some []
    else if is_minus_one r.0
    then none
    else output (take (pos_part r.0) r.1 ++ 10 ∷ []) more
