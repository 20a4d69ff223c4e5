-- ===== src/Paging/Boot.antt =====
-- The address space that `init_paging` sets up.
use ece391_kernel.Base.{
  ℕ, ◌/◌, ◌%◌, ◌^◌, ◌<◌, ◌≡◌, Bool, true, false, none, some, leb, ltb, ◌&&◌, if◌then◌else◌, update,
  fill_lem, arith, refl, ap, dec_lt, Option, ◌∙◌,
}
use ece391_kernel.Paging.{init_paging, absent_directory, absent_page}
use ece391_kernel.Paging.Entries.{Tables, num_entry}
use ece391_kernel.Paging.Walk.{
  Placed, IsPlaced, translate, translate-large, translate-absent, translate-denied, translate-low,
}

module _ (at : Placed) (placed : IsPlaced at) (t : Tables) where
  abbrev booted : Tables
  booted = init_paging at.addr_0 at.addr_video t

  -- What is known of the directory, entry by entry.
  record Directory : Type 0 where
    low : (booted.page_directory 0).present ≡ 1
    low_small : (booted.page_directory 0).page_size ≡ 0
    low_kernel : (booted.page_directory 0).u_s ≡ 0
    low_table : (booted.page_directory 0).page_table_addr ≡ at.addr_0 / 2 ^ 12
    kernel : (booted.page_directory 1).present ≡ 1
    kernel_large : (booted.page_directory 1).page_size ≡ 1
    kernel_only : (booted.page_directory 1).u_s ≡ 0
    kernel_at : (booted.page_directory 1).page_table_addr ≡ 0x400
    video_off : (booted.page_directory 33).present ≡ 0
    video_small : (booted.page_directory 33).page_size ≡ 0
    video_user : (booted.page_directory 33).u_s ≡ 1
    video_table : (booted.page_directory 33).page_table_addr ≡ at.addr_video / 2 ^ 12
    others : (k : ℕ) → 1 < k → k < 1024 → (booted.page_directory k).present ≡ 0

  directory : Directory
  unfolding init_paging update
  directory = record {
    low = refl;
    low_small = (ap (λ e. e.page_size) (fill_lem num_entry absent_directory t.page_directory 0));
    low_kernel = (ap (λ e. e.u_s) (fill_lem num_entry absent_directory t.page_directory 0));
    low_table = omega (arith, placed);
    kernel = refl;
    kernel_large = refl;
    kernel_only = refl;
    kernel_at = refl;
    video_off = refl;
    video_small = (ap (λ e. e.page_size) (fill_lem num_entry absent_directory t.page_directory 33));
    video_user = refl;
    video_table = omega (arith, placed);
    others = λ k lo hi. ground (arith, fill_lem num_entry absent_directory t.page_directory k);
  }

  low_page :
      (i : ℕ)
      → i < 1024
      → ((booted.page_table_0 i).present ≡ (if leb 184 i && leb i 187 then 1 else 0))
        × ((booted.page_table_0 i).page_base_addr ≡ i)
  unfolding init_paging update
  low_page i lt = ground (
    arith,
    fill_lem num_entry absent_page t.page_table_0 i,
    fill_lem num_entry absent_page t.page_table_0 184,
    fill_lem num_entry absent_page t.page_table_0 185,
    fill_lem num_entry absent_page t.page_table_0 186,
    fill_lem num_entry absent_page t.page_table_0 187,
  )

  -- What the kernel sees after boot: the video memory with its three backup pages, and the kernel.
  abbrev pub boot_map : ℕ → Option ℕ
  boot_map v =
      if leb 0xb8000 v && ltb v 0xbc000
      then some v
      else if leb 0x400000 v && ltb v 0x800000
      then some v
      else none

  -- After `init_paging` the kernel reaches the four video pages and its own 4 MB page at their physical
  -- addresses, and every other address faults. From user mode every address faults.
  pub init_paging-translate :
      (v : ℕ)
      → v < 2 ^ 32
      → (translate at booted false v ≡ boot_map v) × (translate at booted true v ≡ none)
  init_paging-translate v lt = elim (dec_lt v (2 ^ 22)) [
    | yes low ↦
        let entry = low_page (v / 2 ^ 12 % 2 ^ 10) (omega arith) in
        let walk = λ (user : Bool).
          translate-low at booted user v low directory.low directory.low_small
            directory.low_table in
        (walk false ∙ ground (arith, entry), walk true ∙ ground (arith, directory.low_kernel))
    | no high ↦ elim (dec_lt v (2 ^ 23)) [
      | yes kernel ↦ (
        translate-large at booted false v 1 (omega arith) directory.kernel directory.kernel_large
              refl
            ∙ ground (arith, directory.kernel_at),
        translate-denied at booted v 1 (omega arith) directory.kernel_large directory.kernel_only,
      )
      | no above ↦
          let absent = directory.others (v / 2 ^ 22) (omega arith) (omega arith) in
          (
            translate-absent at booted false v (v / 2 ^ 22) refl absent ∙ ground arith,
            translate-absent at booted true v (v / 2 ^ 22) refl absent,
          )
    ]
  ]
