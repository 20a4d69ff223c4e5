-- ===== src/System/Strict/Openings.antt =====
-- Opening the directory until no descriptor is free, and names that are not on the disk.
use ece391_kernel.Base.{
  ℕ, if_ind, ◌+◌, ◌<◌, ◌≤◌, ◌≡◌, refl, ap, ◌∙◌, true, false, not, ◌||◌, ◌==◌, List, some, update,
  arith,
}
use ece391_kernel.Base.Int.{pos, ltb_ℤ}
use ece391_kernel.FileSystem.{read_dentry_by_name}
use ece391_kernel.FileSystem.Layout.{FileSystem, Dentry, minus_one, is_minus_one}
use ece391_kernel.State.{FileArray, dirt_op_table}
use ece391_kernel.SysCall.{
  Machine, free_loop, open_in, close_in, sys_open, sys_close, table_of, op_close,
}
use ece391_kernel.SysCall.Descriptors.{open_in-first_free, open_in-full, opened_entry}
use ece391_kernel.User.Errors.Texts
use ece391_kernel.User.Calls.{Returns}
use ece391_kernel.System.Calls.{on_kernel}
use ece391_kernel.System.Descriptors.{
  IsOpenIn, set_files-IsOpen, Descriptors-open, Descriptors-close,
}

-- The directory is on the disk, and three names that are not quite those of files are not.
pub record HasNames (fs : FileSystem) (stack : Dentry) : Type 0 where
  pub dentry : Dentry
  pub dot : read_dentry_by_name fs (some Texts.dot) (some stack) ≡ (pos 0, some dentry)
  pub directory : dentry.file_type ≡ 1
  pub no_helloo : (read_dentry_by_name fs (some Texts.helloo) (some stack)).0 ≡ minus_one
  pub no_shel : (read_dentry_by_name fs (some Texts.shel) (some stack)).0 ≡ minus_one
  pub no_empty : (read_dentry_by_name fs (some Texts.empty) (some stack)).0 ≡ minus_one

-- For a name that is not found `open` returns -1 and changes nothing.
open_in-missing :
    (fs : FileSystem) (stack : Dentry) (name : List ℕ) (files : FileArray)
    → (read_dentry_by_name fs (some name) (some stack)).0 ≡ minus_one
    → open_in fs stack (some name) files ≡ (minus_one, files)
unfolding open_in
open_in-missing fs stack name files missing =
    let lost : is_minus_one (read_dentry_by_name fs (some name) (some stack)).0 ≡ true =
      ap is_minus_one missing in
    rw (open_in, lost)
      (if_ind (λ r. r ≡ (minus_one, files)) (free_loop files 6 2 == 8) {x = (minus_one, files)}
        (λ _. refl) (λ _. refl))

module _ (fs : FileSystem) (stack : Dentry) (names : HasNames fs stack) where
  pub open_refused :
      (name : List ℕ) (m : Machine)
      → (read_dentry_by_name fs (some name) (some stack)).0 ≡ minus_one
      → IsOpenIn fs 2 2 m
      → Returns
          (on_kernel m (sys_open stack (some name) m.kernel))
          (λ r m'. (r ≡ minus_one) × IsOpenIn fs 2 2 m')
  unfolding sys_open open_in
  open_refused name m missing h =
      let same = set_files-IsOpen fs 2 2 2 2 m.kernel h.files h h.descriptors in
      let opened =
        ap (λ d. open_in d stack (some name) h.files) h.disk
        ∙ open_in-missing fs stack name h.files missing in
      rw (sys_open, h.current, opened) (refl, same)

  pub opens_dot :
      (b : ℕ) (m : Machine)
      → 2 ≤ b
      → b < 8
      → IsOpenIn fs 2 b m
      → Returns
          (on_kernel m (sys_open stack (some Texts.dot) m.kernel))
          (λ r m'. (r ≡ pos b) × IsOpenIn fs 2 (b + 1) m')
  unfolding sys_open
  opens_dot b m lo hi h =
      let entry = opened_entry dirt_op_table names.dentry.inode_idx in
      let known : table_of names.dentry.file_type ≡ some dirt_op_table =
        ap table_of names.directory in
      let opened =
        open_in-first_free fs stack names.dentry (some Texts.dot) h.files dirt_op_table b (record {
          found = names.dot;
          known = known;
          low = lo;
          high = omega (arith, hi);
          used = h.descriptors.used;
          free = h.descriptors.free_above b (omega arith) hi;
        }) in
      let d = Descriptors-open h.files b entry lo refl (omega arith) h.descriptors in
      rw (sys_open, h.current, ap (λ d. open_in d stack (some Texts.dot) h.files) h.disk ∙ opened)
        (refl, set_files-IsOpen fs 2 b 2 (b + 1) m.kernel (update h.files b entry) h d)

  pub full_refused :
      (m : Machine)
      → IsOpenIn fs 2 8 m
      → Returns
          (on_kernel m (sys_open stack (some Texts.dot) m.kernel))
          (λ r m'. (r ≡ minus_one) × IsOpenIn fs 2 8 m')
  unfolding sys_open
  full_refused m h =
      rw
        (
          sys_open,
          h.current,
          ap (λ d. open_in d stack (some Texts.dot) h.files) h.disk
              ∙ open_in-full fs stack (some Texts.dot) h.files h.descriptors.used,
        )
        (refl, set_files-IsOpen fs 2 8 2 8 m.kernel h.files h h.descriptors)

  pub closes_first :
      (a b : ℕ) (m : Machine)
      → 2 ≤ a
      → a < b
      → b ≤ 8
      → IsOpenIn fs a b m
      → Returns (on_kernel m (sys_close (pos a) m.kernel)) (λ r m'. IsOpenIn fs (a + 1) b m')
  unfolding sys_close close_in op_close
  closes_first a b m lo lt hi h =
      let e = record (h.files a) { flags = 0 } in
      let open_a : (ltb_ℤ (pos a) (pos 2)
            || not (ltb_ℤ (pos a) (pos 8))
            || ((h.files a).flags == 0))
          ≡ false =
        ground (arith, lo, lt, hi, h.descriptors.used a (omega arith) lt) in
      let closed =
        ap (λ t. op_close t (pos a) (update h.files a e))
          (h.descriptors.opened a (omega arith) lt) in
      let d = Descriptors-close h.files a b e lo lt refl h.descriptors in
      rw (sys_close, h.current, close_in, open_a, closed)
        (set_files-IsOpen fs a b (a + 1) b m.kernel (update h.files a e) h d)
