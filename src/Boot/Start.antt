-- ===== src/Boot/Start.antt =====
-- The kernel is sound when the first shell starts.
use ece391_kernel.Base.{ℕ, ◌+◌, ◌*◌, ◌≤◌, List}
use ece391_kernel.FileSystem.{init_file_system}
use ece391_kernel.FileSystem.Layout.{Image}
use ece391_kernel.Pic.{Pic}
use ece391_kernel.State.{Kernel, Console}
use ece391_kernel.SysCall.Ops.{KnownTypes}
use ece391_kernel.SysCall.Programs.{Locals, shell}
use ece391_kernel.Boot.{Board, init_kernel}
use ece391_kernel.System.Sound.{IsProgram}

-- A disk that the kernel can start from.
pub record IsBootable (image : Image) : Type 0 where
  pub types : KnownTypes (init_file_system image)
  pub has_shell : (locals : Locals) → IsProgram locals shell (init_file_system image)

module _ (strings : ℕ → List ℕ) (stack : ℕ → ℕ) (board : Board) (image : Image) (pic : Pic)
    (k : Kernel) where
  abbrev ready : Kernel
  ready = (init_kernel strings stack board image pic k).1

-- A disk at an address lies in the kernel's page of 4 MB, the boot block with the inodes and the data blocks.
pub record InKernelPage (fs_addr : ℕ) (image : Image) : Type 0 where
  pub low : 0x400000 ≤ fs_addr
  pub high : fs_addr + 4096 * (1 + image.word_at 1 + image.word_at 2) ≤ 0x800000
