-- ===== src/Paging.antt =====
-- student-distrib/paging.c: the page directory and the two page tables, and the functions that set
-- their entries. Loading cr3, setting cr0 and cr4 and flushing the TLB are left to the processor.
pub mod Entries
pub mod Walk
pub mod Boot
pub mod Switch
use ece391_kernel.Base.{ℕ, ◌+◌, ◌*◌, ◌/◌, ◌%◌, ◌^◌, ◌==◌, if◌then◌else◌, update, fill}
use ece391_kernel.Paging.Entries.{
  PageDirEntry, PageTableEntry, Tables, num_entry, video, eight_mb, four_mb, prog_vid_entry,
  program_directory_index,
}

-- The value that `init_directory` gives to every entry.
abbrev absent_directory : ℕ → PageDirEntry
absent_directory _ = record {
  present = 0;
  r_w = 1;
  u_s = 0;
  write_t = 0;
  cache_dis = 0;
  access = 0;
  reserve_0 = 0;
  page_size = 0;
  ignored = 0;
  reserve_1 = 0;
  page_table_addr = 0;
}

unfoldable pub init_directory : Tables → Tables
init_directory t = record t {
  page_directory = update (fill num_entry absent_directory t.page_directory) 1 (record {
    present = 1;
    r_w = 1;
    u_s = 0;
    write_t = 0;
    cache_dis = 0;
    access = 0;
    reserve_0 = 0;
    page_size = 1;
    ignored = 1;
    reserve_1 = 0;
    page_table_addr = 0x400;
  });
}

-- The value that `init_table_0` gives to entry i.
abbrev absent_page : ℕ → PageTableEntry
absent_page i = record {
  present = 0;
  r_w = 1;
  u_s = 0;
  write_t = 0;
  cache_dis = 0;
  access = 0;
  dirty = 0;
  ptai = 0;
  global = 0;
  reserve_1 = 0;
  page_base_addr = i;
}

abbrev set_present : (ℕ → PageTableEntry) → ℕ → ℕ → PageTableEntry
set_present t i = update t i (record (t i) { present = 1 })

-- `addr` is the address of `page_table_0`.
unfoldable pub init_table_0 : ℕ → Tables → Tables
init_table_0 addr t =
    let v = video / 2 ^ 12 in
    let filled = fill num_entry absent_page t.page_table_0 in
    record t {
      page_table_0 =
          set_present (set_present (set_present (set_present filled v) (v + 1)) (v + 2)) (v + 3);
      page_directory = update t.page_directory 0 (record (t.page_directory 0) {
        present = 1;
        r_w = 1;
        page_table_addr = addr / 2 ^ 12 % 2 ^ 20;
      });
    }

-- The value that `init_prog_vid` gives to entry i.
abbrev user_page : ℕ → PageTableEntry
user_page i = record {
  present = 0;
  r_w = 1;
  u_s = 1;
  write_t = 0;
  cache_dis = 0;
  access = 0;
  dirty = 0;
  ptai = 0;
  global = 0;
  reserve_1 = 0;
  page_base_addr = i;
}

-- `addr` is the address of `page_table_video`.
unfoldable pub init_prog_vid : ℕ → Tables → Tables
init_prog_vid addr t =
    let filled = fill num_entry user_page t.page_table_video in
    record t {
      page_directory =
          update t.page_directory prog_vid_entry (record (t.page_directory prog_vid_entry) {
            present = 0;
            r_w = 1;
            u_s = 1;
            page_table_addr = addr / 2 ^ 12 % 2 ^ 20;
          });
      page_table_video = update filled 0 (record (filled 0) { page_base_addr = video / 2 ^ 12 });
    }

unfoldable pub init_paging : (addr_0 addr_video : ℕ) → Tables → Tables
unfolding init_directory init_table_0 init_prog_vid
init_paging addr_0 addr_video t = init_prog_vid addr_video (init_table_0 addr_0 (init_directory t))

unfoldable pub enable_program_page : ℕ → Tables → Tables
enable_program_page prog_counter t = record t {
  page_directory = update t.page_directory program_directory_index (record {
    present = 1;
    r_w = 1;
    u_s = 1;
    write_t = 0;
    cache_dis = 0;
    access = 0;
    reserve_0 = 0;
    page_size = 1;
    ignored = 1;
    reserve_1 = 0;
    page_table_addr = (prog_counter * four_mb + eight_mb) / 2 ^ 12 % 2 ^ 20;
  });
}

unfoldable pub setup_paging : ℕ → Tables → Tables
unfolding enable_program_page
setup_paging prog_counter t = enable_program_page prog_counter t

unfoldable pub enable_prog_vid_page : Tables → Tables
enable_prog_vid_page t = record t {
  page_directory =
      update t.page_directory prog_vid_entry
        (record (t.page_directory prog_vid_entry) { present = 1 });
  page_table_video = update t.page_table_video 0 (record (t.page_table_video 0) { present = 1 });
}

unfoldable pub disable_prog_vid_page : Tables → Tables
disable_prog_vid_page t = record t {
  page_directory =
      update t.page_directory prog_vid_entry
        (record (t.page_directory prog_vid_entry) { present = 0 });
  page_table_video = update t.page_table_video 0 (record (t.page_table_video 0) { present = 0 });
}

-- `active_term_idx` is the terminal that is displayed.
unfoldable pub change_prog_vid_mapping : (active_term_idx term_id : ℕ) → Tables → Tables
change_prog_vid_mapping active_term_idx term_id t =
    let base =
      if term_id == active_term_idx then video / 2 ^ 12 else video / 2 ^ 12 + term_id + 1 in
    record t {
      page_table_video =
          update t.page_table_video 0 (record (t.page_table_video 0) { page_base_addr = base });
    }
