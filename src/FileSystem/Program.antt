-- ===== src/FileSystem/Program.antt =====
-- The helpers of `execute`: `check_validity` and `program_loader`.
use ece391_kernel.Base.{
  ℕ, ◌+◌, ◌<◌, ◌≤◌, ◌^◌, ◌≡◌, ◌↔◌, sym, ◌∙◌, ap, false, [], ◌∷◌, ◌==◌, if◌then◌else◌, arith, inl,
  inr, Bool-cases,
}
use ece391_kernel.Base.Int.{pos}
use ece391_kernel.Text.{strncmp}
use ece391_kernel.Text.Spec.{AllBytes, c_str}
use ece391_kernel.Text.Compare.{strncmp-zero_iff}
use ece391_kernel.FileSystem.{store, check_validity, program_loader, exec_head, read_data}
use ece391_kernel.FileSystem.Layout.{FileSystem, Inode, Dentry, minus_one}
use ece391_kernel.FileSystem.Slice.{slice, slice_four, length-slice, file_byte, BlockInRange}
use ece391_kernel.FileSystem.ReadData.{read_data-inside}

magic_iff :
    (a b c d : ℕ)
    → AllBytes (a ∷ b ∷ c ∷ d ∷ [])
    → (strncmp (a ∷ b ∷ c ∷ d ∷ []) exec_head 4 ≡ pos 0) ↔ (a ∷ b ∷ c ∷ d ∷ [] ≡ exec_head)
magic_iff a b c d h =
    let (to, from) = strncmp-zero_iff (a ∷ b ∷ c ∷ d ∷ []) exec_head 4 h (omega arith) in
    (λ e. c_str_four (to e), λ e. from (ap (c_str 4) e))
  where
    c_str_four : c_str 4 (a ∷ b ∷ c ∷ d ∷ []) ≡ exec_head → a ∷ b ∷ c ∷ d ∷ [] ≡ exec_head
    c_str_four e = ground arith

module _ (fs : FileSystem) (d : Dentry) where
  abbrev pub its_inode : Inode
  its_inode = fs.image.inode_at (d.inode_idx + 1)

  -- For a file whose bytes all lie in blocks of the image, `program_loader` stores exactly the bytes of
  -- the file. It returns 0 if the file is empty and -1 otherwise.
  pub program_loader_lem :
      d.inode_idx < fs.inode_num
      → its_inode.length < 2 ^ 31
      → ((j : ℕ) → j < its_inode.length → BlockInRange fs its_inode j)
      → program_loader fs d ≡ (
        (if its_inode.length == 0 then pos 0 else minus_one),
        slice fs its_inode 0 its_inode.length,
      )
  unfolding program_loader
  program_loader_lem in_range small good = ground (
    arith,
    read_data-inside fs d.inode_idx 0 its_inode.length in_range (omega arith) (omega arith)
        (λ j a b. good j (omega arith)),
  )

  -- For a file of at least 4 bytes, `check_validity` accepts the entry exactly when it is a regular
  -- file that starts with the magic number, whatever the stack held before.
  pub check_validity_iff :
      (s0 s1 s2 s3 : ℕ)
      → d.inode_idx < fs.inode_num
      → 4 ≤ its_inode.length
      → ((j : ℕ) → j < 4 → BlockInRange fs its_inode j)
      → ((j : ℕ) → file_byte fs its_inode j < 256)
      → (check_validity fs (s0 ∷ s1 ∷ s2 ∷ s3 ∷ []) d ≡ pos 0)
        ↔ ((d.file_type ≡ 2) × (slice fs its_inode 0 4 ≡ exec_head))
  unfolding check_validity
  check_validity_iff s0 s1 s2 s3 in_range size good bytes =
      rw got (elim (Bool-cases (d.file_type == 2)) [
        | inl regular ↦ rw regular (
            let (to, from) =
              magic_iff (byte_at 0) (byte_at 1) (byte_at 2) (byte_at 3)
                (bytes 0, (bytes 1, (bytes 2, (bytes 3, tt)))) in
            (
              λ e. (ground arith, four ∙ to (ground (arith, four))),
              λ e. rw four (ground (arith, from (sym four ∙ e.1))),
            ))
        | inr other ↦ rw other (λ e. cc, λ e. absurd (ground arith))
      ])
    where
      byte_at : ℕ → ℕ
      byte_at = file_byte fs its_inode

      four : slice fs its_inode 0 4 ≡ byte_at 0 ∷ byte_at 1 ∷ byte_at 2 ∷ byte_at 3 ∷ []
      four = slice_four fs its_inode

      got :
          store (read_data fs d.inode_idx 0 false (pos 4)).1 (s0 ∷ s1 ∷ s2 ∷ s3 ∷ [])
          ≡ slice fs its_inode 0 4
      got = ground (
        arith,
        read_data-inside fs d.inode_idx 0 4 in_range (omega arith) (omega arith)
            (λ j a b. good j (omega arith)),
        length-slice fs its_inode 0 4,
        four,
      )
