-- ===== src/Boot.antt =====
-- student-distrib/kernel.c: from the boot loader's information to the first shell.
pub mod Formats
pub mod Start
use Prim.Native.Nat.{bit_and, bit_or}
use ece391_kernel.Base.{
  ℕ, zero, suc, ◌+◌, ◌%◌, ◌^◌, Bool, true, false, not, ◌&&◌, ◌==◌, if◌then◌else◌, List, [], ◌∷◌,
  Option, none, some,
}
use ece391_kernel.Ports.{Ports, outb}
use ece391_kernel.Pic.{Pic, i8259_init, enable_irq}
use ece391_kernel.State.{Kernel, Console}
use ece391_kernel.Console.{clear, video_mem_addr}
use ece391_kernel.Console.Printf.{printf}
use ece391_kernel.FileSystem.{init_file_system}
use ece391_kernel.FileSystem.Layout.{Image}
use ece391_kernel.Paging.{init_paging}
use ece391_kernel.Paging.Entries.{Tables}
use ece391_kernel.Paging.Walk.{Placed, translate}
use ece391_kernel.Rtc.{rtc_init}
use ece391_kernel.Process.{init_prog}
use ece391_kernel.SysCall.Programs.{Transfer, faults, Locals}
use ece391_kernel.Scheduling.{init_terminals, pit_init, start_terminal0}
use ece391_kernel.Boot.Formats.{
  magic_format, flags_format, mem_format, boot_device_format, cmdline_format, module_start_format,
  module_end_format, first_bytes_format, byte_format, newline_format, both_format, elf_format,
  mmap_format, entry_format, paging_format,
}

-- `module_t`, with the words that the first 16 bytes behind `mod_start` are passed as.
pub record Module : Type 0 where
  pub mod_start : ℕ
  pub mod_end : ℕ
  pub first_bytes : List ℕ

-- `memory_map_t`
pub record MemoryMap : Type 0 where
  pub size : ℕ
  pub base_addr_low : ℕ
  pub base_addr_high : ℕ
  pub length_low : ℕ
  pub length_high : ℕ
  pub type : ℕ

-- `multiboot_info_t`. `first_start` is the word `mod_start` at `mods_addr`; `mods` and `mmap` are the entries
-- that the loops go through.
pub record MultibootInfo : Type 0 where
  pub flags : ℕ
  pub mem_lower : ℕ
  pub mem_upper : ℕ
  pub boot_device : ℕ
  pub cmdline : ℕ
  pub first_start : ℕ
  pub mods : List Module
  pub elf_num : ℕ
  pub elf_size : ℕ
  pub elf_addr : ℕ
  pub elf_shndx : ℕ
  pub mmap_addr : ℕ
  pub mmap_length : ℕ
  pub mmap : List MemoryMap

abbrev pub multiboot_bootloader_magic : ℕ
multiboot_bootloader_magic = 0x2badb002

-- `CHECK_FLAG`
abbrev pub check_flag : (flags bit : ℕ) → Bool
check_flag flags bit = not (bit_and flags (2 ^ bit) == 0)

-- What the hardware and the linker answer: the ports that are read, and where the page tables are.
pub record Board : Type 0 where
  pub rtc_b : ℕ
  pub rtc_a : ℕ
  pub cursor_start : ℕ
  pub cursor_end : ℕ
  pub page_table_0 : ℕ
  pub page_table_video : ℕ

unfoldable pub enable_cursor : (start end : ℕ) → Ports → Ports
enable_cursor start end sent =
    outb (bit_or (bit_and end 0xe0) 15) 0x3d5
      (outb 0x0b 0x3d4 (outb (bit_or (bit_and start 0xc0) 14) 0x3d5 (outb 0x0a 0x3d4 sent)))

-- The controllers and devices up to `enable_cursor`.
unfoldable pub init_devices : Board → Pic → Pic
unfolding enable_cursor
init_devices board pic =
    let p = enable_irq 1 (i8259_init pic) in
    let q = enable_irq 8 (record p { sent = rtc_init board.rtc_b board.rtc_a p.sent }) in
    record q { sent = enable_cursor board.cursor_start board.cursor_end q.sent }

abbrev is_none : Option ℕ → Bool
is_none none = true
is_none (some a) = false

module _ (strings : ℕ → List ℕ) (stack : ℕ → ℕ) where
  abbrev print : (format words : List ℕ) → Console → Console
  print format words k = (printf strings stack format words k).1

  unfoldable pub bytes_loop : List ℕ → Console → Console
  bytes_loop [] k = k
  bytes_loop (c ∷ more) k = bytes_loop more (print byte_format (c ∷ []) k)

  -- The `while` loop over the modules, from `mod_count` on.
  unfoldable pub modules_loop : (mod_count : ℕ) → List Module → Console → Console
  unfolding bytes_loop
  modules_loop mod_count [] k = k
  modules_loop mod_count (mod' ∷ mods) k =
      let k1 = print module_start_format (mod_count ∷ mod'.mod_start ∷ []) k in
      let k2 = print module_end_format (mod_count ∷ mod'.mod_end ∷ []) k1 in
      let k3 = bytes_loop mod'.first_bytes (print first_bytes_format [] k2) in
      modules_loop (mod_count + 1) mods (print newline_format [] k3)

  unfoldable pub mmap_loop : List MemoryMap → Console → Console
  mmap_loop [] k = k
  mmap_loop (m ∷ mmap) k = mmap_loop mmap (
      print entry_format
        (m.size ∷ m.base_addr_high ∷ m.base_addr_low ∷ m.type ∷ m.length_high ∷ m.length_low ∷ [])
        k)

  -- A report that is printed if a flag is set.
  abbrev if_flag : MultibootInfo → (bit : ℕ) → (Console → Console) → Console → Console
  if_flag mbi bit show k = if check_flag mbi.flags bit then show k else k

  -- The reports up to the modules.
  unfoldable pub first_reports : MultibootInfo → Console → Console
  unfolding modules_loop
  first_reports mbi k =
      let k1 = print flags_format (mbi.flags ∷ []) k in
      let k2 = if_flag mbi 0 (print mem_format (mbi.mem_lower ∷ mbi.mem_upper ∷ [])) k1 in
      let k3 = if_flag mbi 1 (print boot_device_format (mbi.boot_device ∷ [])) k2 in
      let k4 = if_flag mbi 2 (print cmdline_format (mbi.cmdline ∷ [])) k3 in
      if_flag mbi 3 (modules_loop 0 mbi.mods) k4

  -- Those behind the test of bits 4 and 5.
  unfoldable pub last_reports : MultibootInfo → Console → Console
  unfolding mmap_loop
  last_reports mbi k =
      let k1 =
        if_flag mbi 5
          (print elf_format (mbi.elf_num ∷ mbi.elf_size ∷ mbi.elf_addr ∷ mbi.elf_shndx ∷ [])) k in
      if_flag mbi 6
        (λ c. mmap_loop mbi.mmap (print mmap_format (mbi.mmap_addr ∷ mbi.mmap_length ∷ []) c)) k1

  -- `entry` up to the descriptors: the value of `FS_ADDR`, or `none` if it returns.
  unfoldable pub check_boot : (magic : ℕ) → MultibootInfo → Console → Option ℕ × Console
  unfolding first_reports last_reports
  check_boot magic mbi k =
      let k1 = clear k in
      let k2 = first_reports mbi k1 in
      if not (magic == multiboot_bootloader_magic)
      then (none, print magic_format (magic ∷ []) k1)
      else if check_flag mbi.flags 4 && check_flag mbi.flags 5
      then (none, print both_format [] k2)
      else (some (if check_flag mbi.flags 3 then mbi.first_start else 0), last_reports mbi k2)

  -- `entry` from `init_paging` to the last `clear`, with `tss.esp0`. The tables of operations hold what
  -- `OpTable` stands for.
  unfoldable pub init_kernel : Board → Image → Pic → Kernel → Pic × Kernel
  unfolding init_devices
  init_kernel board image pic k =
      let console = print paging_format [] k.console in
      let devices = init_devices board (record pic { sent = console.sent }) in
      let k1 = init_prog (record k {
        tables = init_paging board.page_table_0 board.page_table_video k.tables;
        video_mem = video_mem_addr;
        tss_esp0 = 0x800000;
        fs = init_file_system image;
        file_array = none;
      }) in
      let terminals = init_terminals console in
      let timer = enable_irq 0 (record devices { sent = pit_init devices.sent }) in
      (timer, record k1 { console = clear (record terminals { sent = timer.sent }) })

  -- Where the three words are that `init_file_system` reads at `fs_addr` behind `init_paging`: `none` for a page
  -- fault.
  unfoldable pub disk_at : Board → Tables → (fs_addr : ℕ) → Option ℕ
  disk_at board tables fs_addr =
      let at : Placed = record {
        addr_0 = board.page_table_0;
        addr_video = board.page_table_video;
      } in
      let paged = init_paging board.page_table_0 board.page_table_video tables in
      if is_none (translate at paged false (fs_addr + 11))
      then none
      else translate at paged false fs_addr

  -- From `init_paging` on, with the disk found or not.
  abbrev pub start_with :
      (image_at : ℕ → Image) → Board → (ebp : ℕ) → Locals → Pic → Kernel → Option ℕ → Transfer
  start_with image_at board ebp locals pic k none = faults
  start_with image_at board ebp locals pic k (some addr) =
      start_terminal0 ebp locals (init_kernel board (image_at addr) pic k).1

  -- `entry` behind the reports; `none` if it returns. `image_at` is what the memory at a physical address holds, as
  -- a disk.
  abbrev pub boot_with :
      (image_at : ℕ → Image)
      → Board
      → (ebp : ℕ) → Locals
      → Pic
      → Kernel
      → Option ℕ × Console
      → Option Transfer
  boot_with image_at board ebp locals pic k (none, console) = none
  boot_with image_at board ebp locals pic k (some fs_addr, console) = some (
      start_with image_at board ebp locals pic (record k { console = console })
        (disk_at board k.tables fs_addr))

  unfoldable pub entry :
      (image_at : ℕ → Image) (magic : ℕ)
      → MultibootInfo
      → Board
      → (ebp : ℕ) → Locals
      → Pic
      → Kernel
      → Option Transfer
  unfolding check_boot init_kernel disk_at
  entry image_at magic mbi board ebp locals pic k =
      boot_with image_at board ebp locals pic k (check_boot magic mbi k.console)
