-- ===== src/User.antt =====
-- The user programs syscalls/ece391shell.c, ece391hello.c, ece391cat.c and ece391ls.c with what they use of
-- syscalls/ece391support.c, over any system that answers their calls.
pub mod Messages
pub mod Shell
pub mod Copy
pub mod Support
pub mod Grep
pub mod Calls
pub mod Counter
pub mod Pingpong
pub mod Errors
use ece391_kernel.Base.{
  ℕ, zero, suc, ◌+◌, ◌-◌, Bool, not, ◌&&◌, ◌==◌, ltb, if◌then◌else◌, List, [], ◌∷◌, ◌++◌, Option,
  none, some, get_or, take,
}
use ece391_kernel.Base.Int.{ℤ, pos, negsuc, ◌-ℤ◌, pos_part, ltb_ℤ}
use ece391_kernel.Text.{byte, rest, strlen}
use ece391_kernel.FileSystem.Layout.{is_zero, is_minus_one}
use ece391_kernel.User.Messages.{
  shell_start, prompt, read_failed, no_such_command, by_exception, abnormally, ask_name, no_name,
  hello, no_arguments, file_not_found, file_read_failed, directory_open_failed, entry_read_failed,
}

-- The system calls that the programs make. `read` and `getargs` give the bytes that they store.
pub record Os (S : Type 0) : Type 0 where
  pub execute : List ℕ → S → ℤ × S
  pub open_file : List ℕ → S → ℤ × S
  pub read : (fd : ℤ) (nbytes : ℕ) → S → ℤ × List ℕ × S
  pub write : (fd : ℤ) (buf : List ℕ) (nbytes : ℕ) → S → ℤ × S
  pub getargs : (nbytes : ℕ) → S → ℤ × List ℕ × S
  pub close : (fd : ℤ) → S → ℤ × S

-- `ece391_strcmp`
unfoldable pub strcmp : List ℕ → List ℕ → ℤ
unfolding byte rest
strcmp [] s2 = pos 0 -ℤ pos (byte s2)
strcmp (c ∷ s1) s2 =
    let more = strcmp s1 (rest s2) in
    if c == byte s2 then if c == 0 then pos 0 else more else pos c -ℤ pos (byte s2)

abbrev pub bufsize : ℕ
bufsize = 1024

abbrev sbufsize : ℕ
sbufsize = 33

-- Whether a loop ends, with the result of `main`.
pub data Round (S : Type 0) : Type 0 where
  ends : ℤ → S → Round S
  goes_on : S → Round S

module _ {S : Type 0} (os : Os S) where
  -- `ece391_fdputs`
  unfoldable pub fdputs : ℤ → List ℕ → S → S
  fdputs fd s state = (os.write fd s (strlen s) state).1

  abbrev pub next_round : (S → Option (ℤ × S)) → Round S → Option (ℤ × S)
  next_round more (ends result state) = some (result, state)
  next_round more (goes_on state) = more state

  -- `rounds` rounds at most; `none` when they are not enough.
  unfoldable pub repeat : (S → Round S) → (rounds : ℕ) → S → Option (ℤ × S)
  repeat body zero state = none
  repeat body (suc rounds) state = next_round (repeat body rounds) (body state)

  -- What the shell says about the result of a command.
  unfoldable pub tell : ℤ → S → S
  unfolding fdputs
  tell rval state =
      if is_minus_one rval
      then fdputs (pos 1) no_such_command state
      else if pos_part rval == 256
      then fdputs (pos 1) by_exception state
      else if not (is_zero rval)
      then fdputs (pos 1) abnormally state
      else state

  -- The line that was read, without its newline, as a string.
  unfoldable pub command_of : (cnt : ℕ) → List ℕ → List ℕ
  command_of cnt buf =
      let n = if ltb 0 cnt && (get_or buf (cnt - 1) 0 == 10) then cnt - 1 else cnt in
      take n buf ++ 0 ∷ []

  -- The loop of the shell behind the read.
  unfoldable pub shell_command : List ℕ → S → Round S
  unfolding strcmp tell
  shell_command command state =
      let r = os.execute command state in
      if is_zero (strcmp command (101 ∷ 120 ∷ 105 ∷ 116 ∷ 0 ∷ []))
      then ends (pos 0) state
      else if byte command == 0
      then goes_on state
      else goes_on (tell r.0 r.1)

  unfoldable pub shell_round : S → Round S
  unfolding shell_command command_of
  shell_round state =
      let r = os.read (pos 0) (bufsize - 1) (fdputs (pos 1) prompt state) in
      if is_minus_one r.0
      then ends (pos 3) (fdputs (pos 1) read_failed r.2)
      else shell_command (command_of (pos_part r.0) r.1) r.2

  unfoldable pub shell_main : (rounds : ℕ) → S → Option (ℤ × S)
  unfolding shell_round repeat
  shell_main rounds state = repeat shell_round rounds (fdputs (pos 1) shell_start state)

  unfoldable pub hello_main : S → ℤ × S
  hello_main state =
      let r = os.read (pos 0) (bufsize - 1) (fdputs (pos 1) ask_name state) in
      if is_minus_one r.0
      then (pos 3, fdputs (pos 1) no_name r.2)
      else (pos 0, fdputs (pos 1) (take (pos_part r.0) r.1 ++ 0 ∷ []) (fdputs (pos 1) hello r.2))

  -- The end of a round that writes.
  abbrev after_write : ℤ × S → Round S
  after_write w = if is_minus_one w.0 then ends (pos 3) w.1 else goes_on w.1

  unfoldable pub cat_round : (fd : ℤ) → S → Round S
  cat_round fd state =
      let r = os.read fd bufsize state in
      if is_zero r.0
      then ends (pos 0) r.2
      else if is_minus_one r.0
      then ends (pos 3) (fdputs (pos 1) file_read_failed r.2)
      else after_write (os.write (pos 1) r.1 (pos_part r.0) r.2)

  unfoldable pub cat_main : (rounds : ℕ) → S → Option (ℤ × S)
  unfolding cat_round repeat
  cat_main rounds state =
      let args = os.getargs bufsize state in
      let file = os.open_file args.1 args.2 in
      if not (is_zero args.0)
      then some (pos 3, fdputs (pos 1) no_arguments args.2)
      else if is_minus_one file.0
      then some (pos 2, fdputs (pos 1) file_not_found file.1)
      else repeat (cat_round file.0) rounds file.1

  unfoldable pub ls_round : (fd : ℤ) → S → Round S
  ls_round fd state =
      let r = os.read fd (sbufsize - 1) state in
      if is_zero r.0
      then ends (pos 0) r.2
      else if is_minus_one r.0
      then ends (pos 3) (fdputs (pos 1) entry_read_failed r.2)
      else after_write
          (os.write (pos 1) (take (pos_part r.0) r.1 ++ 10 ∷ []) (pos_part r.0 + 1) r.2)

  unfoldable pub ls_main : (rounds : ℕ) → S → Option (ℤ × S)
  unfolding ls_round repeat
  ls_main rounds state =
      let file = os.open_file (46 ∷ 0 ∷ []) state in
      if is_minus_one file.0
      then some (pos 2, fdputs (pos 1) directory_open_failed file.1)
      else repeat (ls_round file.0) rounds file.1
