-- ===== src/Tests/Data.antt =====
-- A small disk image, a terminal and a kernel.
use ece391_kernel.Base.{ℕ, ◌==◌, false, if◌then◌else◌, List, [], ◌∷◌, none}
use ece391_kernel.FileSystem.Layout.{FileSystem, Image, Dentry, Inode}
use ece391_kernel.State.{Kernel, Pcb, Terminal, FileEntry, FileArray, Console, KeyFlags}
use ece391_kernel.Paging.Entries.{Tables, PageDirEntry, PageTableEntry}
use ece391_kernel.Paging.Walk.{Placed}

abbrev pub cat_name : List ℕ
cat_name = 99 ∷ 97 ∷ 116 ∷ []

abbrev pub dot_entry : Dentry
dot_entry = record { file_name = 46 ∷ []; file_type = 1; inode_idx = 0; reserved = [] }

abbrev pub cat_entry : Dentry
cat_entry = record { file_name = cat_name; file_type = 2; inode_idx = 1; reserved = [] }

-- A program of six bytes.
abbrev pub cat_byte : ℕ → ℕ
cat_byte i =
    if i == 0
    then 0x7f
    else if i == 1
    then 0x45
    else if i == 2
    then 0x4c
    else if i == 3
    then 0x46
    else 7

abbrev pub inode_of_length : ℕ → Inode
inode_of_length n = record { length = n; block_idx = λ _. 1 }

abbrev pub small_image : Image
small_image = record {
  word_at = λ i. if i == 0 then 2 else if i == 1 then 2 else 3;
  dentry_at = λ k. if k == 1 then dot_entry else cat_entry;
  inode_at = λ k. if k == 1 then inode_of_length 0 else inode_of_length 6;
  block_at = λ b i. cat_byte i;
}

abbrev pub small_fs : FileSystem
small_fs = record { image = small_image; dentry_num = 2; inode_num = 2; block_num = 3 }

-- The same disk with no second block.
abbrev pub short_fs : FileSystem
short_fs = record {
  image = record small_image { inode_at = λ k. record { length = 6; block_idx = λ b. 3 } };
  dentry_num = 2;
  inode_num = 2;
  block_num = 3;
}

abbrev pub shell_entry : Dentry
shell_entry = record cat_entry { file_name = 115 ∷ 104 ∷ 101 ∷ 108 ∷ 108 ∷ [] }

-- A disk with a shell.
abbrev pub shell_fs : FileSystem
shell_fs = record small_fs {
  image = record small_image { dentry_at = λ k. if k == 1 then dot_entry else shell_entry };
}

abbrev pub closed_entry : FileEntry
closed_entry = record { op_ptr = none; inode_idx = 0; file_position = 0; flags = 0 }

abbrev pub no_files : FileArray
no_files _ = closed_entry

abbrev pub dead_pcb : Pcb
dead_pcb = record {
  ebp = 0;
  file_array = no_files;
  status = 0;
  pid = 0;
  parent_pcb_pointer = none;
  params = [];
  term_idx = 0;
  term_ebp = 0;
  video_mem_flag = 0;
}

abbrev pub idle_terminal : Terminal
idle_terminal = record {
  active = 1;
  keyboard_buf = λ _. 0;
  buf_index = 0;
  cursor_x = 0;
  cursor_y = 0;
  prog_pids = λ _. 0;
  term_prog_counter = 0;
  terminal_read_flag = false;
}

abbrev pub blank_console : Console
blank_console = record {
  mem = λ _. 0;
  terminals = λ _. idle_terminal;
  cur_term_id = 0;
  active_term_idx = 0;
  sent = [];
}

abbrev pub no_directory : PageDirEntry
no_directory = record {
  present = 0;
  r_w = 0;
  u_s = 0;
  write_t = 0;
  cache_dis = 0;
  access = 0;
  reserve_0 = 0;
  page_size = 0;
  ignored = 0;
  reserve_1 = 0;
  page_table_addr = 0;
}

abbrev pub no_page : PageTableEntry
no_page = record {
  present = 0;
  r_w = 0;
  u_s = 0;
  write_t = 0;
  cache_dis = 0;
  access = 0;
  dirty = 0;
  ptai = 0;
  global = 0;
  reserve_1 = 0;
  page_base_addr = 0;
}

abbrev pub zero_tables : Tables
zero_tables = record {
  page_directory = λ _. no_directory;
  page_table_0 = λ _. no_page;
  page_table_video = λ _. no_page;
}

abbrev pub linked_at : Placed
linked_at = record { addr_0 = 0x401000; addr_video = 0x402000 }

abbrev pub boot_kernel : Kernel
boot_kernel = record {
  console = blank_console;
  fs = small_fs;
  tables = zero_tables;
  pcbs = λ _. dead_pcb;
  file_array = none;
  prog_counter = 0;
  program_exception_flag = false;
  prev_term_id = 0;
  tss_esp0 = 0;
  video_mem = 0xb8000;
  loaded = λ _. [];
}

abbrev pub no_keys : KeyFlags
no_keys = record {
  caps_flag = false;
  l_shift_flag = false;
  r_shift_flag = false;
  shift_flag = false;
  ctrl_flag = false;
  alt_flag = false;
}
