-- ===== src/Files/Cat.antt =====
-- `cat` prints the whole file.
use ece391_kernel.Base.{
  ℕ, zero, suc, ◌+◌, ◌-◌, ◌^◌, ◌<◌, ◌≤◌, ◌≡◌, ap, ◌∙◌, sym, List, some, min, arith, update_self, [],
  ◌++◌, ℕ_discrete,
}
use ece391_kernel.Base.Int.{pos}
use mathlib.Core.Path.{subst}
use ece391_kernel.State.{FileArray, FileEntry}
use ece391_kernel.FileSystem.Layout.{FileSystem, Inode}
use ece391_kernel.FileSystem.Slice.{slice, take-slice, slice-append, BlockInRange}
use ece391_kernel.Files.{cat_loop}
use ece391_kernel.Files.Read.{file_read-inside, moved, is_zero-pos}

module _ (fs : FileSystem) (fd : ℕ) (lo : 2 ≤ fd) (hi : fd ≤ 7) where
  abbrev inode_of : FileEntry → Inode
  inode_of e = fs.image.inode_at (e.inode_idx + 1)

  -- The descriptor reads a file of the image, from a position within it, whose size leaves room for one
  -- more request.
  pub record CanRead (e : FileEntry) : Type 0 where
    pub node : e.inode_idx < fs.inode_num
    pub within : e.file_position ≤ (inode_of e).length
    pub small : (inode_of e).length + 1024 < 2 ^ 32
    pub blocks : (j : ℕ) → j ≤ (inode_of e).length + 1024 → BlockInRange fs (inode_of e) j

  -- The rest of the file, from the position on.
  abbrev pub remainder : FileEntry → List ℕ
  remainder e = slice fs (inode_of e) e.file_position ((inode_of e).length - e.file_position)

  remainder-split :
      (e : FileEntry) (m : ℕ)
      → m ≤ (inode_of e).length - e.file_position
      → slice fs (inode_of e) e.file_position m
          ++ remainder (record e { file_position = e.file_position + m })
        ≡ remainder e
  remainder-split e m le =
      slice-append fs (inode_of e) e.file_position m ((inode_of e).length - (e.file_position + m))
      ∙ ap (slice fs (inode_of e) e.file_position) (omega arith)

  remainder-end : (e : FileEntry) → (inode_of e).length - e.file_position ≡ 0 → remainder e ≡ []
  unfolding slice
  remainder-end e z = ap (slice fs (inode_of e) e.file_position) z

  advanced :
      (e : FileEntry) (m : ℕ)
      → CanRead e
      → m ≤ (inode_of e).length - e.file_position
      → CanRead (record e { file_position = e.file_position + m })
  advanced e m h le = record {
    node = h.node;
    within = ground (arith, h.within);
    small = h.small;
    blocks = h.blocks;
  }

  -- On a descriptor from 2 to 7 of an inode in range, from a position within the file, where the file's size is at
  -- least 1024 below 2^32 and every byte up to 1024 bytes behind its end is in a block whose number is in range:
  -- with more fuel than bytes that are left, `cat` passes to `write` exactly the rest of the file.
  pub cat_loop_lem :
      (fuel : ℕ) (files : FileArray)
      → CanRead (files fd)
      → (inode_of (files fd)).length - (files fd).file_position < fuel
      → cat_loop fs (pos fd) fuel files ≡ some (remainder (files fd))
  unfolding cat_loop
  cat_loop_lem zero files h enough = absurd (omega arith)
  cat_loop_lem (suc fuel) files h enough =
      let e = files fd in
      let node = inode_of e in
      let position = e.file_position in
      let rest = node.length - position in
      let left = min 1024 rest in
      let next = record e { file_position = position + left } in
      let same = update_self files fd next in
      rw
        (file_read-inside fs fd 1024 files lo hi h.node (ground (arith, h.within, h.small)) h.within
          (λ j _ lt. h.blocks j (ground (arith, h.within))))
        (elim (ℕ_discrete left 0) [
          | yes z ↦ rw z (ap some (sym (remainder-end e (omega arith))))
          | no nz ↦
              rw
                (
                  is_zero-pos left nz,
                  cat_loop_lem fuel (moved fs fd 1024 files left)
                      (subst CanRead (sym same) (advanced e left h (omega arith)))
                      (subst (λ x. (inode_of x).length - x.file_position < fuel) (sym same)
                        (omega arith)),
                  take-slice fs node position left (min 1024 (rest + 1)) (omega arith),
                )
                (ap some (
                  subst (λ x. slice fs node position left ++ remainder x ≡ remainder e) (sym same)
                    (remainder-split e left (omega arith))))
        ])
