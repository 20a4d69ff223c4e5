-- ===== src/Console/Backup.antt =====
-- Changing the displayed terminal: `save_video_to_backup` and `restore_backup_to_video` of
-- student-distrib/paging.c, and `switch_terminal` of student-distrib/scheduling.c.
use ece391_kernel.Base.{
  ℕ, zero, suc, ◌+◌, ◌^◌, ◌<◌, ◌≤◌, ◌≡◌, ◌⊎◌, ◌∙◌, refl, ◌==◌, if◌then◌else◌, update, update_self,
  update-ne, arith, ℕ_discrete,
}
use ece391_kernel.State.{Console}
use ece391_kernel.Console.{video_mem_addr, backup_addr, update_cursor}

-- `memcpy(dst, src, n)`, lowest byte first.
unfoldable pub memcpy : (dst src : ℕ) → ℕ → (ℕ → ℕ) → ℕ → ℕ
memcpy dst src zero mem = mem
memcpy dst src (suc n) mem = let m = memcpy dst src n mem in update m (dst + n) (m (src + n))

unfoldable pub save_video_to_backup : ℕ → (ℕ → ℕ) → ℕ → ℕ
save_video_to_backup prev_id = memcpy (backup_addr prev_id) video_mem_addr (2 ^ 12)

unfoldable pub restore_backup_to_video : ℕ → (ℕ → ℕ) → ℕ → ℕ
restore_backup_to_video next_id = memcpy video_mem_addr (backup_addr next_id) (2 ^ 12)

unfoldable pub switch_terminal : (prev_id term_id : ℕ) → Console → Console
switch_terminal prev_id term_id k =
    let t = k.terminals term_id in
    record k {
      mem = restore_backup_to_video term_id (save_video_to_backup prev_id k.mem);
      active_term_idx = term_id;
      sent = update_cursor t.cursor_x t.cursor_y k.sent;
    }

-- Nothing is written outside the destination.
pub memcpy-outside :
    (dst src n : ℕ) (mem : ℕ → ℕ) (a : ℕ)
    → (a < dst) ⊎ (dst + n ≤ a)
    → memcpy dst src n mem a ≡ mem a
unfolding memcpy
memcpy-outside dst src zero mem a out = refl
memcpy-outside dst src (suc n) mem a out =
    let m = memcpy dst src n mem in
    update-ne m (m (src + n)) (omega arith) ∙ memcpy-outside dst src n mem a (omega arith)

-- A copy between places that do not overlap.
pub memcpy-inside :
    (dst src n : ℕ) (mem : ℕ → ℕ) (i : ℕ)
    → (dst + n ≤ src) ⊎ (src + n ≤ dst)
    → i < n
    → memcpy dst src n mem (dst + i) ≡ mem (src + i)
unfolding memcpy
memcpy-inside dst src zero mem i apart lt = absurd (omega arith)
memcpy-inside dst src (suc n) mem i apart lt =
    let m = memcpy dst src n mem in
    elim (ℕ_discrete i n) [
      | yes e ↦ rw e (
          update_self m (dst + n) (m (src + n))
          ∙ memcpy-outside dst src n mem (src + n) (omega arith))
      | no ne ↦
          update-ne m (m (src + n)) (omega arith)
          ∙ memcpy-inside dst src n mem i (omega arith) (omega arith)
    ]

-- Byte i of the displayed screen, and of a terminal's backup page.
abbrev pub screen_byte : Console → ℕ → ℕ
screen_byte k i = k.mem (video_mem_addr + i)

abbrev pub backup_byte : Console → ℕ → ℕ → ℕ
backup_byte k term i = k.mem (backup_addr term + i)

module _ (k : Console) (i : ℕ) (in_page : i < 2 ^ 12) where
  saved-screen : (p : ℕ) → save_video_to_backup p k.mem (video_mem_addr + i) ≡ screen_byte k i
  unfolding save_video_to_backup
  saved-screen p = memcpy-outside (backup_addr p) video_mem_addr 4096 k.mem _ (omega arith)

  saved-backup :
      (p q : ℕ)
      → save_video_to_backup p k.mem (backup_addr q + i)
        ≡ (if q == p then screen_byte k i else backup_byte k q i)
  unfolding save_video_to_backup
  saved-backup p q = elim (ℕ_discrete q p) [
    | yes e ↦ rw e (
        memcpy-inside (backup_addr p) video_mem_addr 4096 k.mem i (omega arith) in_page
        ∙ ground arith)
    | no ne ↦
        memcpy-outside (backup_addr p) video_mem_addr 4096 k.mem (backup_addr q + i) (omega arith)
        ∙ ground arith
  ]

  -- `switch_terminal` shows the backup page of the new terminal, saves the screen in the backup page of
  -- the old one, and leaves the backup pages of all others alone. Switching to the terminal that is displayed
  -- leaves its screen as it is.
  pub switch_terminal_lem :
      (prev_id term_id other : ℕ)
      → let k' = switch_terminal prev_id term_id k in
        (screen_byte k' i
          ≡ (if term_id == prev_id then screen_byte k i else backup_byte k term_id i))
        × (backup_byte k' other i
            ≡ (if other == prev_id then screen_byte k i else backup_byte k other i))
  unfolding switch_terminal restore_backup_to_video
  switch_terminal_lem prev_id term_id other =
      let m = save_video_to_backup prev_id k.mem in
      (
        memcpy-inside video_mem_addr (backup_addr term_id) 4096 m i (omega arith) in_page
            ∙ saved-backup prev_id term_id,
        memcpy-outside video_mem_addr (backup_addr term_id) 4096 m (backup_addr other + i)
              (omega arith)
            ∙ saved-backup prev_id other,
      )

-- Switching away and back restores the screen, if nothing is printed in between.
pub switch_terminal_back :
    (k : Console) (prev_id term_id i : ℕ)
    → i < 2 ^ 12
    → screen_byte (switch_terminal term_id prev_id (switch_terminal prev_id term_id k)) i
      ≡ screen_byte k i
switch_terminal_back k prev_id term_id i in_page = ground (
  arith,
  switch_terminal_lem k i in_page prev_id term_id prev_id,
  switch_terminal_lem (switch_terminal prev_id term_id k) i in_page term_id prev_id prev_id,
)
