-- ===== src/System/Files.antt =====
-- `open` and `close` of the running program keep the kernel sound and do not fault.
use mathlib.Core.Path.{subst}
use ece391_kernel.Base.{
  ℕ, ◌-◌, ◌<◌, ◌≡◌, refl, sym, ap, List, Option, some, update-keeps, update-rest, arith,
}
use ece391_kernel.Base.Int.{ℤ}
use ece391_kernel.FileSystem.Layout.{Dentry}
use ece391_kernel.State.{Kernel, FileArray, Outcome, done, fault, blocked}
use ece391_kernel.Process.Table.{count, listed}
use ece391_kernel.Process.Remove.{facts}
use ece391_kernel.SysCall.{
  store_files, set_files, files_at, open_files, returned, open_in, close_in, after_close, sys_open,
  sys_close,
}
use ece391_kernel.SysCall.Ops.{AllOps, open_in-AllOps, close_in-AllOps}
use ece391_kernel.System.Sound.{IsSound, Kept, same-Kept}

-- A program runs in the scheduled terminal.
abbrev pub IsRunning : Kernel → Type 0
IsRunning k = 0 < count k k.console.cur_term_id

after_close-done :
    (o : Outcome (ℤ × FileArray)) (files : FileArray)
    → after_close o ≡ done files
    → (z : ℤ) × (o ≡ done (z, files))
after_close-done (done r) files e = (r.0, cc)
after_close-done fault files e = absurd (ground (arith, e))
after_close-done blocked files e = absurd (ground (arith, e))

module _ (k : Kernel) (h : IsSound k) (run : IsRunning k) where
  abbrev pub running : ℕ
  running = listed k k.console.cur_term_id (count k k.console.cur_term_id - 1)

  pub running-AllOps : AllOps (k.pcbs running).file_array
  running-AllOps = h.stable.ops k.console.cur_term_id _ h.stable.terminal (omega (arith, run))

  store_files-Kept :
      (files : FileArray) → AllOps files → Kept k (store_files (some running) files k)
  store_files-Kept files all =
      let e = record (k.pcbs running) { file_array = files } in
      let k' = store_files (some running) files k in
      same-Kept k k'
        (record {
          counts = λ t. refl;
          lists = λ t i. refl;
          number = refl;
          blocks = λ p. update-keeps k.pcbs running e facts refl p;
        })
        refl refl (λ p old. update-rest k.pcbs running e (λ b. AllOps b.file_array) all p old) refl
        h

  -- New descriptors of the running program, all of which can be called.
  pub set_files-Kept : (files : FileArray) → AllOps files → Kept k (set_files files k)
  set_files-Kept files all =
      subst (λ p. Kept k (store_files p files k)) (sym (h.current run)) (store_files-Kept files all)

  pub files_open : open_files k ≡ some (k.pcbs running).file_array
  files_open = ap (files_at k) (h.current run)

  -- In a sound state in which a program runs, `open` returns, and the state after it is sound,
  -- with as many programs and the same terminal scheduled.
  pub sys_open-IsSound :
      (stack : Dentry) (filename : Option (List ℕ))
      → (r : ℤ × Kernel) × (sys_open stack filename k ≡ done r) × Kept k r.1
  unfolding sys_open
  sys_open-IsSound stack filename =
      let files = (k.pcbs running).file_array in
      let r = open_in k.fs stack filename files in
      (
        returned k r,
        rw (sys_open, files_open) refl,
        set_files-Kept r.1 (open_in-AllOps k.fs stack filename files h.stable.types running-AllOps),
      )

  -- In a sound state in which a program runs, `close` of any descriptor returns, and the state after it
  -- is sound, with as many programs and the same terminal scheduled.
  pub sys_close-IsSound : (fd : ℤ) → (r : ℤ × Kernel) × (sys_close fd k ≡ done r) × Kept k r.1
  unfolding sys_close
  sys_close-IsSound fd =
      let files = (k.pcbs running).file_array in
      let closed = close_in-AllOps fd files running-AllOps in
      let r = after_close-done (close_in fd files) closed.0 closed.1 in
      (
        returned k (r.0, closed.0),
        rw (sys_close, files_open, r.1) refl,
        set_files-Kept closed.0 closed.2,
      )
