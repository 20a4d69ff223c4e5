-- ===== src/FileSystem/ReadData.antt =====
-- `read_data` against the file's bytes: within the file, past its end, and at a bad block.
use native.Mathlib.Nat.{add-zero}
use mathlib.Core.Path.{subst}
use ece391_kernel.Base.{
  ℕ, zero, suc, ◌+◌, ◌-◌, ◌%◌, ◌^◌, ◌<◌, ◌≤◌, ◌≡◌, false, arith, min, ℕ_discrete,
}
use ece391_kernel.Base.Int.{pos, sub_ℕ}
use ece391_kernel.FileSystem.{read_loop, read_data}
use ece391_kernel.FileSystem.Layout.{FileSystem, Inode}
use ece391_kernel.FileSystem.Slice.{slice, slice-cons, BlockInRange}

module _ (fs : FileSystem) (node : Inode) (offset : ℕ) where
  -- `i` has not passed the end.
  read_loop-inside :
      (rounds i : ℕ)
      → offset ≤ i
      → i ≤ node.length
      → ((j : ℕ) → i ≤ j → j < i + rounds → BlockInRange fs node j)
      → read_loop fs node offset rounds i ≡ (
        pos (min (i + rounds) node.length - offset),
        slice fs node i (min rounds (node.length - i + 1)),
      )
  unfolding read_loop slice
  read_loop-inside zero i from inside good = ground arith
  read_loop-inside (suc r) i from inside good = elim (ℕ_discrete i node.length) [
    | yes last ↦ ground (arith, good i, slice-cons fs node i (min (suc r) (node.length - i + 1)) 0)
    | no more ↦ ground (
      arith,
      good i,
      slice-cons fs node i (min (suc r) (node.length - i + 1)) (min r (node.length - (i + 1) + 1)),
      read_loop-inside r (i + 1) (omega arith) (omega arith)
          (λ j a b. good j (omega arith) (omega arith)),
    )
  ]

  read_loop-past :
      (rounds i : ℕ)
      → offset ≤ i
      → node.length < i
      → ((j : ℕ) → i ≤ j → j < i + rounds → BlockInRange fs node j)
      → read_loop fs node offset rounds i ≡ (pos (i + rounds - offset), slice fs node i rounds)
  unfolding read_loop slice
  read_loop-past zero i from past good = ground arith
  read_loop-past (suc r) i from past good = ground (
    arith,
    good i,
    read_loop-past r (i + 1) (omega arith) (omega arith)
        (λ j a b. good j (omega arith) (omega arith)),
  )

  -- The first k bytes are good, and byte i + k is not.
  read_loop-bad_block :
      (rounds i k : ℕ)
      → offset ≤ i
      → i + k ≤ node.length
      → k < rounds
      → ((j : ℕ) → i ≤ j → j < i + k → BlockInRange fs node j)
      → ¬ BlockInRange fs node (i + k)
      → read_loop fs node offset rounds i ≡ (sub_ℕ (i + k - offset) 1, slice fs node i k)
  unfolding read_loop slice
  read_loop-bad_block zero i k from inside lt good bad = absurd (omega arith)
  read_loop-bad_block (suc r) i zero from inside lt good bad =
      let here : ¬ BlockInRange fs node i = rw add-zero at bad in ground arith
  read_loop-bad_block (suc r) i (suc k) from inside lt good bad =
      let same : i + suc k ≡ i + 1 + k = omega arith in
      let there : ¬ BlockInRange fs node (i + 1 + k) =
        subst (λ j. ¬ BlockInRange fs node j) same bad in
      ground (
        arith,
        good i,
        read_loop-bad_block r (i + 1) k (omega arith) (omega arith) (omega arith)
            (λ j a b. good j (omega arith) (omega arith)) there,
      )

module _ (fs : FileSystem) (inode offset n : ℕ) (in_range : inode < fs.inode_num)
    (no_wrap : offset + n < 2 ^ 32) where
  abbrev pub node : Inode
  node = fs.image.inode_at (inode + 1)

  -- From an offset within the file, over blocks of the image, `read_data` returns the number of
  -- the bytes asked for that the file still has. It stores those bytes of the file, and one byte more
  -- when the request goes past the end.
  pub read_data-inside :
      offset ≤ node.length
      → ((j : ℕ) → offset ≤ j → j < offset + n → BlockInRange fs node j)
      → read_data fs inode offset false (pos n) ≡ (
        pos (min n (node.length - offset)),
        slice fs node offset (min n (node.length - offset + 1)),
      )
  unfolding read_data
  read_data-inside inside good =
      ground
        (arith, rounds_left, read_loop-inside fs node offset n offset (omega arith) inside good)
    where
      rounds_left : (offset + n) % 2 ^ 32 - offset ≡ n
      rounds_left = omega arith

  -- From an offset past the end of the file, over blocks of the image, `read_data` does not see the
  -- end: it stores and returns as many bytes as were asked for.
  pub read_data-past :
      node.length < offset
      → ((j : ℕ) → offset ≤ j → j < offset + n → BlockInRange fs node j)
      → read_data fs inode offset false (pos n) ≡ (pos n, slice fs node offset n)
  unfolding read_data
  read_data-past past good =
      ground (arith, rounds_left, read_loop-past fs node offset n offset (omega arith) past good)
    where
      rounds_left : (offset + n) % 2 ^ 32 - offset ≡ n
      rounds_left = omega arith

  -- When the k-th byte asked for lies in a block that the image does not have, and the bytes before
  -- it lie in blocks that it has, all within the file, `read_data` stores those k bytes and returns
  -- k - 1.
  pub read_data-bad_block :
      (k : ℕ)
      → offset + k ≤ node.length
      → k < n
      → ((j : ℕ) → offset ≤ j → j < offset + k → BlockInRange fs node j)
      → ¬ BlockInRange fs node (offset + k)
      → read_data fs inode offset false (pos n) ≡ (sub_ℕ k 1, slice fs node offset k)
  unfolding read_data
  read_data-bad_block k inside lt good bad = ground (
    arith,
    rounds_left,
    read_loop-bad_block fs node offset n offset k (omega arith) inside lt good bad,
  )
    where
      rounds_left : (offset + n) % 2 ^ 32 - offset ≡ n
      rounds_left = omega arith
