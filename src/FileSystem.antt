-- ===== src/FileSystem.antt =====
-- The read-only file system of student-distrib/file_system.c: the image that the boot loader leaves
-- in memory, the lookups in its boot block, `read_data`, and the helpers of `execute`.
pub mod Layout
pub mod Lookup
pub mod Slice
pub mod ReadData
pub mod Command
pub mod Program
use ece391_kernel.Base.{
  ℕ, zero, suc, ◌+◌, ◌-◌, ◌*◌, ◌/◌, ◌%◌, ◌^◌, Bool, true, false, not, ◌||◌, ◌&&◌, List, [], ◌∷◌,
  ◌++◌, Option, none, some, ltb, leb, ◌==◌, if◌then◌else◌, drop, length,
}
use ece391_kernel.Base.Int.{ℤ, pos, negsuc, sub_ℕ, ltb_ℤ, pos_part}
use ece391_kernel.Text.{byte, strlen, strncmp}
use ece391_kernel.FileSystem.Layout.{
  Image, Dentry, Inode, FileSystem, name_length_max, data_length, minus_one, is_zero, is_minus_one,
  signed32,
}

-- `init_file_system`: the three counts are read from the boot block. (`file_array = NULL` is in
-- the process state.)
unfoldable pub init_file_system : Image → FileSystem
init_file_system img = record {
  image = img;
  dentry_num = img.word_at 0;
  inode_num = img.word_at 1;
  block_num = img.word_at 2;
}

-- The loop of `read_dentry_by_name`: `rounds` entries are left, `at` is `dentry_addr`.
unfoldable pub dentry_loop : FileSystem → List ℕ → ℕ → ℕ → Dentry → ℤ × Option Dentry
dentry_loop fs fname zero at dentry = (minus_one, some dentry)
dentry_loop fs fname (suc rounds) at dentry =
    let here = fs.image.dentry_at (at + 1) in
    let next = dentry_loop fs fname rounds (at + 1) dentry in
    if is_zero (strncmp fname here.file_name name_length_max) then (pos 0, some here) else next

-- `none` is NULL. The second part is what the out-parameter `dentry` points to afterwards.
unfoldable pub read_dentry_by_name :
    FileSystem → Option (List ℕ) → Option Dentry → ℤ × Option Dentry
unfolding dentry_loop
read_dentry_by_name fs none dentry = (minus_one, dentry)
read_dentry_by_name fs (some fname) none = (minus_one, none)
read_dentry_by_name fs (some fname) (some dentry) =
    if ltb 32 (strlen fname)
    then (minus_one, some dentry)
    else dentry_loop fs fname fs.dentry_num 0 dentry

unfoldable pub read_dentry_by_index : FileSystem → ℕ → Option Dentry → ℤ × Option Dentry
read_dentry_by_index fs index none = (minus_one, none)
read_dentry_by_index fs index (some dentry) =
    if leb fs.dentry_num index
    then (minus_one, some dentry)
    else (pos 0, some (fs.image.dentry_at (index + 1)))

unfoldable pub get_file_size : FileSystem → Option Dentry → ℤ
get_file_size fs none = minus_one
get_file_size fs (some dentry) =
    if leb fs.inode_num dentry.inode_idx
    then minus_one
    else signed32 (fs.image.inode_at (dentry.inode_idx + 1)).length

-- The loop of `read_data`: `rounds` is `offset + length - i`. The list is what goes to `buf`.
unfoldable pub read_loop : FileSystem → Inode → (offset rounds i : ℕ) → ℤ × List ℕ
read_loop fs node offset zero i = (pos (i - offset), [])
read_loop fs node offset (suc rounds) i =
    let block_idx = node.block_idx (i / data_length) in
    let stored = fs.image.block_at (1 + fs.inode_num + block_idx) (i % data_length) in
    let more = read_loop fs node offset rounds (i + 1) in
    if leb fs.block_num block_idx
    then (sub_ℕ (i - offset) 1, [])
    else if i == node.length
    then (pos (i - offset), stored ∷ [])
    else (more.0, stored ∷ more.1)

-- `null` is `buf == NULL`. The bound of the loop wraps as the C sum does.
unfoldable pub read_data :
    FileSystem → (inode offset : ℕ) → (null : Bool) → (length : ℤ) → ℤ × List ℕ
unfolding read_loop
read_data fs inode offset null length =
    if leb fs.inode_num inode || null || ltb_ℤ length (pos 0)
    then (minus_one, [])
    else read_loop fs (fs.image.inode_at (inode + 1)) offset
        ((offset + pos_part length) % 2 ^ 32 - offset) offset

-- What memory at `dst` holds after the bytes are stored there.
unfoldable pub store : List ℕ → List ℕ → List ℕ
store bytes dst = bytes ++ drop (length bytes) dst

-- The list is what goes to the program's page.
unfoldable pub program_loader : FileSystem → Dentry → ℤ × List ℕ
unfolding get_file_size read_data
program_loader fs prog_dentry =
    let length = get_file_size fs (some prog_dentry) in
    let loaded = read_data fs prog_dentry.inode_idx 0 false length in
    if is_minus_one length
    then (minus_one, [])
    else if is_zero loaded.0
    then (pos 0, loaded.1)
    else (minus_one, loaded.1)

-- `while (*command == ' ') command++;`
unfoldable pub skip_spaces : List ℕ → List ℕ
skip_spaces [] = []
skip_spaces (c ∷ s) = if c == b' ' then skip_spaces s else c ∷ s

-- The second loop of `parse_command`: what it stores in `filename`, and where `command` stands.
unfoldable pub name_loop : List ℕ → ℕ → List ℕ × List ℕ
name_loop [] char_count = ([], [])
name_loop (c ∷ s) char_count =
    let more = name_loop s (char_count + 1) in
    if c == b' ' || (c == 10) || (c == 0)
    then ([], c ∷ s)
    else if ltb char_count name_length_max
    then (c ∷ more.0, more.1)
    else more

-- The last loop: what it stores in `params`.
unfoldable pub params_loop : List ℕ → List ℕ
params_loop [] = []
params_loop (c ∷ s) = let more = params_loop s in if c == 10 || (c == 0) then [] else c ∷ more

-- What is stored in `filename` and in `params`, the final NULs included.
unfoldable pub parse_command : List ℕ → List ℕ × List ℕ
unfolding skip_spaces name_loop params_loop
parse_command command =
    let name = name_loop (skip_spaces command) 0 in
    (name.0 ++ 0 ∷ [], params_loop (skip_spaces name.1) ++ 0 ∷ [])

abbrev pub exec_head : List ℕ
exec_head = 0x7f ∷ 0x45 ∷ 0x4c ∷ 0x46 ∷ []

-- `stack` is what `magic_buf` holds before it is filled.
unfoldable pub check_validity : FileSystem → (stack : List ℕ) → Dentry → ℤ
unfolding read_data store
check_validity fs stack prog_dentry =
    let magic_buf = store (read_data fs prog_dentry.inode_idx 0 false (pos 4)).1 stack in
    if not (prog_dentry.file_type == 2)
    then minus_one
    else if is_zero (strncmp magic_buf exec_head 4)
    then pos 0
    else minus_one
