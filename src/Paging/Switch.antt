-- ===== src/Paging/Switch.antt =====
-- The program's page and the video page, which change with the process.
use ece391_kernel.Base.{
  ℕ, ◌+◌, ◌-◌, ◌*◌, ◌/◌, ◌%◌, ◌^◌, ◌<◌, ◌≤◌, ◌≡◌, ◌≢◌, true, none, some, ◌==◌, if◌then◌else◌,
  update, arith, refl, ◌∙◌,
}
use ece391_kernel.Paging.{
  setup_paging, enable_prog_vid_page, disable_prog_vid_page, change_prog_vid_mapping,
}
use ece391_kernel.Paging.Entries.{Tables, video}
use ece391_kernel.Paging.Walk.{
  Placed, IsPlaced, translate, translate-large, translate-absent, translate-video,
}

module _ (at : Placed) (t : Tables) where
  -- After `setup_paging(pid)` for one of the six processes, user mode reaches the 4 MB at 128 MB in the
  -- physical memory at 8 MB + pid * 4 MB.
  pub setup_paging-translate :
      (pid v : ℕ)
      → pid < 6
      → 0x8000000 ≤ v
      → v < 0x8400000
      → translate at (setup_paging pid t) true v
        ≡ some (0x800000 + pid * 0x400000 + (v - 0x8000000))
  unfolding setup_paging update
  setup_paging-translate pid v few lo hi =
      translate-large at (setup_paging pid t) true v 32 (omega arith) refl refl refl ∙ ground arith

  -- Two processes never share a byte of their program pages.
  pub setup_paging-apart :
      (pid pid' v v' : ℕ)
      → pid < 6
      → pid' < 6
      → pid ≢ pid'
      → 0x8000000 ≤ v
      → v < 0x8400000
      → 0x8000000 ≤ v'
      → v' < 0x8400000
      → translate at (setup_paging pid t) true v ≢ translate at (setup_paging pid' t) true v'
  setup_paging-apart pid pid' v v' few few' ne lo hi lo' hi' same =
      ground
        (arith, setup_paging-translate pid v few lo hi, setup_paging-translate pid' v' few' lo' hi')

  -- The directory entry that `init_prog_vid` made.
  pub record HasVideoTable : Type 0 where
    pub small : (t.page_directory 33).page_size ≡ 0
    pub user : (t.page_directory 33).u_s ≡ 1
    pub table : (t.page_directory 33).page_table_addr ≡ at.addr_video / 2 ^ 12
    pub page_user : (t.page_table_video 0).u_s ≡ 1

module _ (at : Placed) (placed : IsPlaced at) (t : Tables) (h : HasVideoTable at t) where
  -- Once the video page is enabled and mapped for a terminal, user mode reaches at 132 MB the video memory
  -- if the terminal is displayed, and the terminal's backup page if not.
  pub change_prog_vid_mapping-translate :
      (active term v : ℕ)
      → 0x8400000 ≤ v
      → v < 0x8401000
      → translate at (change_prog_vid_mapping active term (enable_prog_vid_page t)) true v
        ≡ some ((if term == active then video else video + (term + 1) * 0x1000) + (v - 0x8400000))
  unfolding change_prog_vid_mapping enable_prog_vid_page update
  change_prog_vid_mapping-translate active term v lo hi =
      let page : v / 2 ^ 12 % 2 ^ 10 ≡ 0 = omega arith in
      translate-video at (change_prog_vid_mapping active term (enable_prog_vid_page t)) true v
        placed (omega arith) refl h.small h.table
      ∙ rw page (ground (arith, h.user, h.page_user))

  -- After `disable_prog_vid_page` user mode faults there.
  pub disable_prog_vid_page-translate :
      (v : ℕ) → 0x8400000 ≤ v → v < 0x8800000 → translate at (disable_prog_vid_page t) true v ≡ none
  unfolding disable_prog_vid_page update
  disable_prog_vid_page-translate v lo hi =
      translate-absent at (disable_prog_vid_page t) true v 33 (omega arith) refl
