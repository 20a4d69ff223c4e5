-- ===== src/FileSystem/Layout.antt =====
-- The structures of student-distrib/file_system.h, read from the image at any index: what lies
-- behind the image is any value.
use ece391_kernel.Base.{ℕ, zero, suc, ◌^◌, Bool, true, false, List, ltb, if◌then◌else◌}
use ece391_kernel.Base.Int.{ℤ, pos, negsuc, sub_ℕ}

abbrev pub name_length_max : ℕ
name_length_max = 32

abbrev pub data_length : ℕ
data_length = 4096

pub record Dentry : Type 0 where
  pub file_name : List ℕ
  pub file_type : ℕ
  pub inode_idx : ℕ
  pub reserved : List ℕ

pub record Inode : Type 0 where
  pub length : ℕ
  pub block_idx : ℕ → ℕ

-- Memory at `file_system_addr`, as an array of words, of entries, of inodes and of data blocks.
pub record Image : Type 0 where
  pub word_at : ℕ → ℕ
  pub dentry_at : ℕ → Dentry
  pub inode_at : ℕ → Inode
  pub block_at : ℕ → ℕ → ℕ

-- The globals of file_system.c.
pub record FileSystem : Type 0 where
  pub image : Image
  pub dentry_num : ℕ
  pub inode_num : ℕ
  pub block_num : ℕ

abbrev pub minus_one : ℤ
minus_one = negsuc 0

-- `!r`
abbrev pub is_zero : ℤ → Bool
is_zero (pos zero) = true
is_zero (pos (suc n)) = false
is_zero (negsuc n) = false

-- `r == -1`
abbrev pub is_minus_one : ℤ → Bool
is_minus_one (pos n) = false
is_minus_one (negsuc zero) = true
is_minus_one (negsuc (suc n)) = false

-- A `uint32_t` returned as `int32_t`.
abbrev pub signed32 : ℕ → ℤ
signed32 w = if ltb w (2 ^ 31) then pos w else sub_ℕ w (2 ^ 32)
