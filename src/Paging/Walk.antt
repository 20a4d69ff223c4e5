-- ===== src/Paging/Walk.antt =====
-- The address translation of the x86 manual for 32-bit paging with pages of 4 MB and of 4 KB: what
-- the processor makes of the tables.
use ece391_kernel.Base.{
  ℕ, ◌+◌, ◌*◌, ◌/◌, ◌%◌, ◌^◌, ◌<◌, ◌≡◌, Bool, true, false, ◌&&◌, Option, none, some, arith, ◌==◌,
  if◌then◌else◌,
}
use ece391_kernel.Paging.Entries.{Tables, PageDirEntry, PageTableEntry}

-- The addresses of the two page tables, which the linker chooses.
pub record Placed : Type 0 where
  pub addr_0 : ℕ
  pub addr_video : ℕ

pub record IsPlaced (at : Placed) : Type 0 where
  pub in_memory_0 : at.addr_0 < 2 ^ 32
  pub in_memory_video : at.addr_video < 2 ^ 32
  pub apart : (at.addr_0 / 2 ^ 12 == at.addr_video / 2 ^ 12) ≡ false

module _ (at : Placed) (t : Tables) where
  -- The page table at a frame number, if it is one of the two.
  abbrev table_at : ℕ → Option (ℕ → PageTableEntry)
  table_at frame =
      if frame == at.addr_0 / 2 ^ 12
      then some t.page_table_0
      else if frame == at.addr_video / 2 ^ 12
      then some t.page_table_video
      else none

  -- `user` asks for access from ring 3.
  abbrev pub page_walk : Bool → PageDirEntry → PageTableEntry → ℕ → Option ℕ
  page_walk user d p v =
      if p.present == 1 && (if user then d.u_s == 1 && (p.u_s == 1) else true)
      then some (p.page_base_addr * 2 ^ 12 + v % 2 ^ 12)
      else none

  abbrev small_page : Bool → PageDirEntry → Option (ℕ → PageTableEntry) → ℕ → Option ℕ
  small_page user d none v = none
  small_page user d (some table) v = page_walk user d (table (v / 2 ^ 12 % 2 ^ 10)) v

  -- The physical address of a virtual address, or `none` for a page fault.
  unfoldable pub translate : Bool → ℕ → Option ℕ
  translate user v =
      let d = t.page_directory (v / 2 ^ 22) in
      if d.present == 1
      then if d.page_size == 1
        then if (if user then d.u_s == 1 else true)
          then some (d.page_table_addr / 2 ^ 10 * 2 ^ 22 + v % 2 ^ 22)
          else none
        else small_page user d (table_at d.page_table_addr) v
      else none

  -- A page of 4 MB.
  pub translate-large :
      (user : Bool) (v k : ℕ)
      → v / 2 ^ 22 ≡ k
      → (t.page_directory k).present ≡ 1
      → (t.page_directory k).page_size ≡ 1
      → (if user then (t.page_directory k).u_s == 1 else true) ≡ true
      → translate user v
        ≡ some ((t.page_directory k).page_table_addr / 2 ^ 10 * 2 ^ 22 + v % 2 ^ 22)
  unfolding translate
  translate-large user v k e present large allowed = rw e (ground (arith, present, large, allowed))

  -- An entry that is not present.
  pub translate-absent :
      (user : Bool) (v k : ℕ)
      → v / 2 ^ 22 ≡ k
      → (t.page_directory k).present ≡ 0
      → translate user v ≡ none
  unfolding translate
  translate-absent user v k e absent = rw e (ground (arith, absent))

  -- A page of 4 MB that user mode may not use.
  pub translate-denied :
      (v k : ℕ)
      → v / 2 ^ 22 ≡ k
      → (t.page_directory k).page_size ≡ 1
      → (t.page_directory k).u_s ≡ 0
      → translate true v ≡ none
  unfolding translate
  translate-denied v k e large denied = rw e (ground (arith, large, denied))

  -- A page of 4 KB of the table for the first 4 MB.
  pub translate-low :
      (user : Bool) (v : ℕ)
      → v < 2 ^ 22
      → (t.page_directory 0).present ≡ 1
      → (t.page_directory 0).page_size ≡ 0
      → (t.page_directory 0).page_table_addr ≡ at.addr_0 / 2 ^ 12
      → translate user v
        ≡ page_walk user (t.page_directory 0) (t.page_table_0 (v / 2 ^ 12 % 2 ^ 10)) v
  unfolding translate
  translate-low user v low present small frame =
      let e : v / 2 ^ 22 ≡ 0 = omega arith in rw e (ground (arith, present, small, frame))

  -- A page of 4 KB of the table for user access to the video memory.
  pub translate-video :
      (user : Bool) (v : ℕ)
      → IsPlaced at
      → v / 2 ^ 22 ≡ 33
      → (t.page_directory 33).present ≡ 1
      → (t.page_directory 33).page_size ≡ 0
      → (t.page_directory 33).page_table_addr ≡ at.addr_video / 2 ^ 12
      → translate user v
        ≡ page_walk user (t.page_directory 33) (t.page_table_video (v / 2 ^ 12 % 2 ^ 10)) v
  unfolding translate
  translate-video user v placed e present small frame =
      rw e (ground (arith, present, small, frame, placed.apart))
