-- ===== src/Paging/Entries.antt =====
-- The entries of student-distrib/paging.h and its constants. A bit field is a number.
use ece391_kernel.Base.{ℕ}

abbrev pub num_entry : ℕ
num_entry = 1024

abbrev pub four_mb : ℕ
four_mb = 0x400000

abbrev pub eight_mb : ℕ
eight_mb = 0x800000

abbrev pub video : ℕ
video = 0xb8000

abbrev pub prog_vid_entry : ℕ
prog_vid_entry = 33

-- `PROGRAM_DIRECTORY_VIRTUAL_ADDR >> SHIFT_4M`
abbrev pub program_directory_index : ℕ
program_directory_index = 32

pub record PageDirEntry : Type 0 where
  pub present : ℕ
  pub r_w : ℕ
  pub u_s : ℕ
  pub write_t : ℕ
  pub cache_dis : ℕ
  pub access : ℕ
  pub reserve_0 : ℕ
  pub page_size : ℕ
  pub ignored : ℕ
  pub reserve_1 : ℕ
  pub page_table_addr : ℕ

pub record PageTableEntry : Type 0 where
  pub present : ℕ
  pub r_w : ℕ
  pub u_s : ℕ
  pub write_t : ℕ
  pub cache_dis : ℕ
  pub access : ℕ
  pub dirty : ℕ
  pub ptai : ℕ
  pub global : ℕ
  pub reserve_1 : ℕ
  pub page_base_addr : ℕ

-- The three arrays.
pub record Tables : Type 0 where
  pub page_directory : ℕ → PageDirEntry
  pub page_table_0 : ℕ → PageTableEntry
  pub page_table_video : ℕ → PageTableEntry
