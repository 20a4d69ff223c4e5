-- ===== src/User/Errors.antt =====
-- The user program syscalls/ece391syserr.c, the tests of the errors of system calls.
pub mod Texts
pub mod Strict
pub mod Passed
use ece391_kernel.Base.{
  ℕ, zero, suc, ◌+◌, ◌-◌, ◌==◌, if◌then◌else◌, List, [], ◌∷◌, ◌++◌, drop, length,
}
use ece391_kernel.Base.Int.{ℤ, pos, negsuc, ◌-ℤ◌, pos_part, neg_part, ltb_ℤ}
use ece391_kernel.Text.{byte}
use ece391_kernel.FileSystem.Layout.{is_minus_one}
use ece391_kernel.User.Errors.Texts
use ece391_kernel.User.Calls.{M, ◌>>=◌, ◌>>◌, pure, Calls, fdputs}

-- `NEG_FD` and `NEG_NUM`, `BIG_FD` and `BIG_NUM`
abbrev pub negative : ℤ
negative = negsuc 1073741822

abbrev pub big : ℤ
big = pos 1073741823

-- What is read to the beginning of a buffer.
abbrev pub overwrite : (bytes buf : List ℕ) → List ℕ
overwrite bytes buf = bytes ++ drop (length bytes) buf

module _ {S : Type 0} (os : Calls S) where
  -- `if (-1 != result) { fail = 2; ece391_fdputs (1, message); }`
  unfoldable pub check : (result : ℤ) (fail : ℕ) (message : List ℕ) → M S ℕ
  unfolding fdputs
  check result fail message =
      if is_minus_one result then pure fail else do fdputs os (pos 1) message; pure 2

  -- `if (fail) ece391_fdputs (1, failed); else ece391_fdputs (1, passed); return fail;`
  unfoldable pub verdict : (failed passed : List ℕ) (fail : ℕ) → M S ℕ
  unfolding fdputs
  verdict failed passed fail = do
    fdputs os (pos 1) (if fail == 0 then passed else failed)
    pure fail

  -- What `err_neg_fd` and `err_big_fd` do with their descriptor.
  unfoldable pub err_fd : (fd : ℤ) (failed passed buf : List ℕ) → M S ℕ
  unfolding check verdict
  err_fd fd failed passed buf = do
    r ← os.read fd 31
    fail ← check r.0 0 Texts.read_fail
    w ← os.write fd (overwrite r.1 buf) 31
    fail ← check w fail Texts.write_fail
    c ← os.close fd
    fail ← check c fail Texts.close_fail
    verdict failed passed fail

  unfoldable pub err_neg_fd : (buf : List ℕ) → M S ℕ
  unfolding err_fd
  err_neg_fd = err_fd negative Texts.neg_fd_failed Texts.neg_fd_passed

  unfoldable pub err_big_fd : (buf : List ℕ) → M S ℕ
  unfolding err_fd
  err_big_fd = err_fd big Texts.big_fd_failed Texts.big_fd_passed

  -- The loops of `err_open_lots`.
  unfoldable pub open_loop : (rounds cnt : ℕ) → M S ℕ
  open_loop zero cnt = pure cnt
  open_loop (suc rounds) cnt = do
    r ← os.open_file Texts.dot
    open_loop rounds (if is_minus_one r then cnt + 1 else cnt)

  unfoldable pub close_each : (rounds i : ℕ) → M S (Unit {0})
  close_each zero i = pure tt
  close_each (suc rounds) i = do os.close (pos i); close_each rounds (i + 1)

  unfoldable pub err_open_lots : M S ℕ
  unfolding open_loop close_each fdputs
  err_open_lots = do
    cnt ← open_loop 7 0
    close_each 6 2
    fdputs os (pos 1) (if cnt == 1 then Texts.open_lots_passed else Texts.open_lots_failed)
    pure (if cnt == 1 then 0 else 2)

  unfoldable pub err_open : M S ℕ
  unfolding check verdict
  err_open = do
    r ← os.open_file Texts.helloo
    fail ← check r 0 Texts.helloo_fail
    r ← os.open_file Texts.shel
    fail ← check r fail Texts.shel_fail
    r ← os.open_file Texts.empty
    fail ← check r fail Texts.empty_fail
    verdict Texts.open_failed Texts.open_passed fail

  -- The loops of `err_unopened`, from descriptor i on.
  unfoldable pub close_checks : (rounds i fail : ℕ) → M S ℕ
  unfolding check
  close_checks zero i fail = pure fail
  close_checks (suc rounds) i fail = do
    c ← os.close (pos i)
    fail ← check c fail Texts.close_unopened_fail
    close_checks rounds (i + 1) fail

  unfoldable pub read_checks : (rounds i fail : ℕ) → (buf : List ℕ) → M S (ℕ × List ℕ)
  unfolding check
  read_checks zero i fail buf = pure (fail, buf)
  read_checks (suc rounds) i fail buf = do
    r ← os.read (pos i) 31
    fail ← check r.0 fail Texts.read_unopened_fail
    read_checks rounds (i + 1) fail (overwrite r.1 buf)

  unfoldable pub write_checks : (rounds i fail : ℕ) → (buf : List ℕ) → M S ℕ
  unfolding check
  write_checks zero i fail buf = pure fail
  write_checks (suc rounds) i fail buf = do
    w ← os.write (pos i) buf 31
    fail ← check w fail Texts.write_unopened_fail
    write_checks rounds (i + 1) fail buf

  unfoldable pub err_unopened : (buf : List ℕ) → M S ℕ
  unfolding close_checks read_checks write_checks verdict
  err_unopened buf = do
    fail ← close_checks 8 0 0
    r ← read_checks 6 2 fail buf
    fail ← write_checks 6 2 r.0 r.1
    verdict Texts.unopened_failed Texts.unopened_passed fail

  unfoldable pub err_vidmap : M S ℕ
  unfolding check verdict
  err_vidmap = do
    r ← os.vidmap 0
    fail ← check r 0 Texts.null_pointer_fail
    r ← os.vidmap 0x400000
    fail ← check r fail Texts.kernel_pointer_fail
    verdict Texts.vidmap_failed Texts.vidmap_passed fail

  unfoldable pub err_stdin_out : (buf : List ℕ) → M S ℕ
  unfolding check verdict
  err_stdin_out buf = do
    w ← os.write (pos 0) buf 31
    fail ← check w 0 Texts.write_stdin_fail
    r ← os.read (pos 1) 31
    fail ← check r.0 fail Texts.read_stdout_fail
    verdict Texts.stdin_out_failed Texts.stdin_out_passed fail

  unfoldable pub err_syscall_num : M S ℕ
  unfolding check verdict
  err_syscall_num = do
    r ← os.call big
    fail ← check r 0 Texts.syscall_0_fail
    r ← os.call negative
    fail ← check r fail Texts.big_syscall_fail
    r ← os.call (pos 0)
    fail ← check r fail Texts.neg_syscall_fail
    verdict Texts.syscall_num_failed Texts.syscall_num_passed fail

  -- Case 0 of `main`. `buf n` is what the array of the n-th test holds before.
  unfoldable pub err_all : (buf : ℕ → List ℕ) → M S ℕ
  unfolding err_neg_fd err_big_fd err_open_lots err_open err_unopened err_vidmap err_stdin_out
      err_syscall_num fdputs
  err_all buf = do
    f1 ← err_neg_fd (buf 1)
    f2 ← err_big_fd (buf 2)
    f3 ← err_open_lots
    f4 ← err_open
    f5 ← err_unopened (buf 5)
    f6 ← err_vidmap
    f7 ← err_stdin_out (buf 7)
    f8 ← err_syscall_num
    let fail = f1 + f2 + f3 + f4 + f5 + f6 + f7 + f8
    fdputs os (pos 1) (if fail == 0 then Texts.overall_passed else Texts.overall_failed)
    pure fail

  -- The `switch` of `main`.
  unfoldable pub run_test : (buf : ℕ → List ℕ) (select : ℤ) → M S ℕ
  unfolding err_all
  run_test buf select =
      let n = pos_part select in
      if ltb_ℤ select (pos 0)
      then fdputs os (pos 1) Texts.invalid_number >> pure 0
      else if n == 0
      then err_all buf
      else if n == 1
      then err_neg_fd (buf 1)
      else if n == 2
      then err_big_fd (buf 2)
      else if n == 3
      then err_open_lots
      else if n == 4
      then err_open
      else if n == 5
      then err_unopened (buf 5)
      else if n == 6
      then err_vidmap
      else if n == 7
      then err_stdin_out (buf 7)
      else if n == 8
      then err_syscall_num
      else fdputs os (pos 1) Texts.invalid_number >> pure 0

  unfoldable pub errors_main : (buf : ℕ → List ℕ) → M S ℕ
  unfolding run_test fdputs
  errors_main buf = do
    fdputs os (pos 1) Texts.choose
    r ← os.read (pos 0) 127
    if is_minus_one r.0
        then fdputs os (pos 1) Texts.no_number >> pure 2
        else run_test buf (pos (byte (overwrite r.1 (buf 0))) -ℤ pos 48)
