-- ===== src/User/Grep.antt =====
-- The user program syscalls/ece391grep.c.
pub mod Lines
pub mod Buffer
pub mod Match
pub mod Shift
pub mod Disk
pub mod Scan
pub mod Pass
pub mod Passes
pub mod Search
pub mod Directory
use ece391_kernel.Base.{
  ℕ, zero, suc, ◌+◌, ◌-◌, Bool, true, false, not, ◌&&◌, ◌==◌, ltb, leb, if◌then◌else◌, List, [],
  ◌∷◌, ◌++◌, Option, none, some, get_or, set, take, drop, length,
}
use ece391_kernel.Base.Int.{ℤ, pos, pos_part}
use ece391_kernel.Text.{byte, strlen}
use ece391_kernel.FileSystem.Layout.{is_zero, is_minus_one, minus_one}
use ece391_kernel.User.Messages.{
  file_open_failed, file_read_failed, file_close_failed, no_argument, directory_open_failed,
  directory_read_failed,
}
use ece391_kernel.User.{Os, Round, ends, goes_on, fdputs, repeat}
use ece391_kernel.User.Support.{strncmp, strcpy_within}

-- `ece391_read (fd, data + at, ...)` stores bytes.
abbrev pub store_at : (at : ℕ) → (bytes : List ℕ) → List ℕ → List ℕ
store_at at bytes buf = take at buf ++ (bytes ++ drop (at + length bytes) buf)

-- The loop that looks for the end of a line.
unfoldable pub find_end : (rounds : ℕ) → List ℕ → (line_end : ℕ) → ℕ
find_end zero buf line_end = line_end
find_end (suc rounds) buf line_end =
    let more = find_end rounds buf (line_end + 1) in
    if get_or buf line_end 0 == 10 then line_end else more

-- Whether the loop over `check` prints the line. `s[0]` is a signed `char`, `data[check]` is not: from 128 on
-- they are not equal.
unfoldable pub search_line : (rounds : ℕ) → (s buf : List ℕ) → (check : ℕ) → Bool
unfolding byte strlen strncmp
search_line zero s buf check = false
search_line (suc rounds) s buf check =
    let more = search_line rounds s buf (check + 1) in
    if (ltb (byte s) 128 && (byte s == get_or buf check 0))
      && is_zero (strncmp (drop check buf) s (strlen s))
    then true
    else more

module _ {S : Type 0} (os : Os S) (s fname : List ℕ) where
  unfoldable pub print_line : (line : List ℕ) → S → S
  unfolding fdputs
  print_line line state =
      fdputs os (pos 1) (10 ∷ 0 ∷ [])
        (fdputs os (pos 1) line (fdputs os (pos 1) (58 ∷ 0 ∷ []) (fdputs os (pos 1) fname state)))

  -- The loop over the lines in the buffer: `data` and `last` after it.
  unfoldable pub scan_lines :
      (rounds cnt : ℕ) → List ℕ → (last line_start : ℕ) → S → Option (List ℕ × ℕ × S)
  unfolding find_end search_line print_line strcpy_within
  scan_lines zero cnt buf last line_start state = none
  scan_lines (suc rounds) cnt buf last line_start state =
      let line_end = find_end (last - line_start) buf line_start in
      let cut = set buf line_end 0 in
      let state' =
        if search_line (line_end - line_start) s cut line_start
        then print_line (drop line_start cut) state
        else state in
      let more = scan_lines rounds cnt cut last (line_end + 1) state' in
      if not (get_or buf line_end 0 == 10) && (not (cnt == 0) && not (line_start == 0))
      then some (strcpy_within line_start cut, last - line_start, state)
      else if leb last (line_end + 1)
      then some (cut, 0, state')
      else more

  unfoldable pub close_file : (fd : ℤ) → S → ℤ × S
  unfolding fdputs
  close_file fd state =
      let r = os.close fd state in
      if is_minus_one r.0
      then (minus_one, fdputs os (pos 1) file_close_failed r.1)
      else (pos 0, r.1)

  -- The end of a round of the reading loop.
  abbrev pub after_scan :
      (next : List ℕ → ℕ → S → Option (ℤ × S))
      → (fd : ℤ) (cnt : ℕ) → Option (List ℕ × ℕ × S)
      → Option (ℤ × S)
  after_scan next fd cnt none = none
  after_scan next fd zero (some (buf, last, state)) = some (close_file fd state)
  after_scan next fd (suc cnt) (some (buf, last, state)) = next buf last state

  unfoldable pub read_lines : (rounds : ℕ) (fd : ℤ) → List ℕ → (last : ℕ) → S → Option (ℤ × S)
  unfolding scan_lines close_file
  read_lines zero fd buf last state = none
  read_lines (suc rounds) fd buf last state =
      let r = os.read fd (1024 - last) state in
      let cnt = pos_part r.0 in
      let scanned = scan_lines (suc (last + cnt)) cnt (store_at last r.1 buf) (last + cnt) 0 r.2 in
      if is_minus_one r.0
      then some (minus_one, fdputs os (pos 1) file_read_failed r.2)
      else after_scan (read_lines rounds fd) fd cnt scanned

  -- `stack` is what the array `data` holds before; at most `rounds` reads.
  unfoldable pub do_one_file : (rounds : ℕ) (stack : List ℕ) → S → Option (ℤ × S)
  unfolding read_lines
  do_one_file rounds stack state =
      let r = os.open_file fname state in
      if is_minus_one r.0
      then some (minus_one, fdputs os (pos 1) file_open_failed r.1)
      else read_lines rounds r.0 stack 0 r.1

module _ {S : Type 0} (os : Os S) where
  -- What `main` does with the result of `do_one_file`.
  abbrev pub after_file : (next : S → Option (ℤ × S)) → Option (ℤ × S) → Option (ℤ × S)
  after_file next none = none
  after_file next (some r) = if not (is_zero r.0) then some (pos 3, r.1) else next r.1

  -- The loop over the directory; `stack n` is the array `data` of the round before which n are left.
  unfoldable pub search_files :
      (rounds reads : ℕ) (stack : ℕ → List ℕ) (search : List ℕ) (fd : ℤ) → S → Option (ℤ × S)
  unfolding do_one_file
  search_files zero reads stack search fd state = none
  search_files (suc rounds) reads stack search fd state =
      let r = os.read fd 32 state in
      let name = take (pos_part r.0) r.1 ++ 0 ∷ [] in
      let next = search_files rounds reads stack search fd in
      let skip = next r.2 in
      if is_zero r.0
      then some (pos 0, r.2)
      else if is_minus_one r.0
      then some (pos 3, fdputs os (pos 1) directory_read_failed r.2)
      else if byte r.1 == 46
      then skip
      else after_file next (do_one_file os search name reads (stack rounds) r.2)

  unfoldable pub grep_main : (rounds reads : ℕ) (stack : ℕ → List ℕ) → S → Option (ℤ × S)
  unfolding search_files fdputs
  grep_main rounds reads stack state =
      let args = os.getargs 1024 state in
      let r = os.open_file (46 ∷ 0 ∷ []) args.2 in
      if not (is_zero args.0)
      then some (pos 3, fdputs os (pos 1) no_argument args.2)
      else if is_minus_one r.0
      then some (pos 2, fdputs os (pos 1) directory_open_failed r.1)
      else search_files rounds reads stack args.1 r.0 r.1
