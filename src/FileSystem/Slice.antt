-- ===== src/FileSystem/Slice.antt =====
-- What a file holds: its bytes in the order of the inode's block list.
use ece391_kernel.Base.{
  ℕ, zero, suc, ◌+◌, ◌/◌, ◌%◌, ◌≤◌, ◌<◌, ◌≡◌, refl, ◌∙◌, ap, ap₂, List, [], ◌∷◌, ◌++◌, length, take,
  arith,
}
use ece391_kernel.FileSystem.Layout.{FileSystem, Inode, data_length}

module _ (fs : FileSystem) (node : Inode) where
  abbrev pub file_byte : ℕ → ℕ
  file_byte i =
      fs.image.block_at (1 + fs.inode_num + node.block_idx (i / data_length)) (i % data_length)

  -- The n bytes from i on.
  unfoldable pub slice : ℕ → ℕ → List ℕ
  slice i zero = []
  slice i (suc n) = file_byte i ∷ slice (i + 1) n

  pub length-slice : (i n : ℕ) → length (slice i n) ≡ n
  unfolding slice
  length-slice i zero = refl
  length-slice i (suc n) = ap suc (length-slice (i + 1) n)

  pub take-slice : (i n m : ℕ) → n ≤ m → take n (slice i m) ≡ slice i n
  unfolding slice
  take-slice i zero m h = refl
  take-slice i (suc n) zero h = absurd (omega arith)
  take-slice i (suc n) (suc m) h = ap (λ r. file_byte i ∷ r) (take-slice (i + 1) n m (omega arith))

  pub slice_four : slice 0 4 ≡ file_byte 0 ∷ file_byte 1 ∷ file_byte 2 ∷ file_byte 3 ∷ []
  unfolding slice
  slice_four = refl

  pub slice-cons : (i n m : ℕ) → n ≡ suc m → file_byte i ∷ slice (i + 1) m ≡ slice i n
  unfolding slice
  slice-cons i n m e = rw e

  pub slice-append : (i n m : ℕ) → slice i n ++ slice (i + n) m ≡ slice i (n + m)
  unfolding slice
  slice-append i zero m = ap₂ slice (omega arith) (omega arith)
  slice-append i (suc n) m =
      ap (λ r. file_byte i ∷ r)
        (ap (λ k. slice (i + 1) n ++ slice k m) (omega arith) ∙ slice-append (i + 1) n m)
      ∙ slice-cons i (suc n + m) (n + m) (omega arith)

  -- Byte i lies in a block of the image.
  abbrev pub BlockInRange : ℕ → Type 0
  BlockInRange i = node.block_idx (i / data_length) < fs.block_num
