-- ===== src/Files/Read.antt =====
-- `file_read` reads a file from its position on, and moves the position by what it returns.
use mathlib.Core.Path.{fun_ext}
use ece391_kernel.Base.{
  ℕ, zero, suc, ◌+◌, ◌-◌, ◌^◌, ◌<◌, ◌≤◌, ◌≡◌, ◌≢◌, refl, ap, false, some, min, arith, update_self,
  update-ne, ℕ_discrete, ◌∙◌,
}
use ece391_kernel.Base.Int.{pos, ltb_ℤ}
use ece391_kernel.State.{FileArray}
use ece391_kernel.FileSystem.Layout.{FileSystem, Inode, is_zero}
use ece391_kernel.FileSystem.Slice.{slice, BlockInRange}
use ece391_kernel.FileSystem.ReadData.{read_data-inside}
use ece391_kernel.Files.{file_read, set_entry, outside_files}

pub is_zero-pos : (n : ℕ) → n ≢ 0 → is_zero (pos n) ≡ false
is_zero-pos zero h = absurd (h refl)
is_zero-pos (suc n) h = refl

module _ (fs : FileSystem) (fd n : ℕ) (files : FileArray) where
  abbrev pub opened : Inode
  opened = fs.image.inode_at ((files fd).inode_idx + 1)

  -- The files with descriptor fd moved by m bytes.
  abbrev pub moved : ℕ → FileArray
  moved m =
      set_entry files (pos fd) (record (files fd) { file_position = (files fd).file_position + m })

  set_entry-same : set_entry files (pos fd) (files fd) ≡ files
  set_entry-same = fun_ext (λ j. elim (ℕ_discrete j fd) [
    | yes e ↦ rw e (update_self files fd (files fd))
    | no ne ↦ update-ne files (files fd) ne
  ])

  moved-zero : moved 0 ≡ files
  moved-zero =
      ap (λ p. set_entry files (pos fd) (record (files fd) { file_position = p }))
        {y = (files fd).file_position} (omega arith)
      ∙ set_entry-same

  in_range : 2 ≤ fd → fd ≤ 7 → outside_files (pos fd) ≡ false
  in_range lo hi = ground arith

  nonneg : ltb_ℤ (pos n) (pos 0) ≡ false
  nonneg = ground arith

  -- On an open descriptor from 2 to 7 of an inode in range, whose position is within the file, where the request
  -- ends below 2^32 and each of its bytes, also those behind the end of the file, is in a block whose number is in
  -- range, `file_read` returns
  -- the number of the bytes asked for that the file still has, stores them (and one byte more when the
  -- request goes past the end), and moves the position forward by the number that it returns.
  pub file_read-inside :
      2 ≤ fd
      → fd ≤ 7
      → (files fd).inode_idx < fs.inode_num
      → (files fd).file_position + n < 2 ^ 32
      → (files fd).file_position ≤ opened.length
      → ((j : ℕ)
          → (files fd).file_position ≤ j
          → j < (files fd).file_position + n
          → BlockInRange fs opened j)
      → let position = (files fd).file_position in
        let left = min n (opened.length - position) in
        file_read fs (pos fd) false (pos n) (some files) ≡ (
          pos left,
          slice fs opened position (min n (opened.length - position + 1)),
          some (moved left),
        )
  unfolding file_read
  file_read-inside lo hi node wrap inside good =
      let position = (files fd).file_position in
      let left = min n (opened.length - position) in
      rw
        (
          in_range lo hi,
          nonneg,
          read_data-inside fs (files fd).inode_idx position n node wrap inside good,
        )
        (elim (ℕ_discrete left 0) [
          | yes none_left ↦ rw (none_left, moved-zero)
          | no some_left ↦ rw (is_zero-pos left some_left) (
              ap
                (λ p. (
                  pos left,
                  slice fs opened position (min n (opened.length - position + 1)),
                  some (set_entry files (pos fd) (record (files fd) { file_position = p })),
                ))
                {y = position + left} (omega arith))
        ])
