-- ===== src/User/Counter.antt =====
-- The user programs syscalls/ece391counter.c and ece391testprint.c; `ece391_itoa` has the text of `itoa` of the
-- kernel's library.
pub mod Output
use ece391_kernel.Base.{
  ℕ, zero, suc, ◌+◌, ◌-◌, Bool, ◌&&◌, ◌||◌, ◌==◌, ltb, if◌then◌else◌, List, [], ◌∷◌, ◌++◌, take,
}
use ece391_kernel.Base.Int.{ℤ, pos, pos_part}
use ece391_kernel.Text.{byte, strlen, itoa}
use ece391_kernel.FileSystem.Layout.{is_minus_one}
use ece391_kernel.User.Messages.{ask_number, no_number, wrong_number, it_ran}
use ece391_kernel.User.{Os, fdputs}

unfoldable pub wrong_choice : List ℕ → Bool
unfolding strlen byte
wrong_choice buf =
    ltb 2 (strlen buf) || ((strlen buf == 2) && (ltb (byte buf) 48 || ltb 50 (byte buf)))

-- The `switch`, with `max` 0 before.
unfoldable pub max_of : ℕ → ℕ
max_of c = if c == 48 then 100 else if c == 49 then 10000 else if c == 50 then 100000 else 0

module _ {S : Type 0} (os : Os S) where
  -- The loop, from i on; `rounds` is `max - i`.
  unfoldable pub count_loop : (rounds i : ℕ) → S → S
  unfolding fdputs itoa
  count_loop zero i state = state
  count_loop (suc rounds) i state =
      count_loop rounds (i + 1)
        (fdputs os (pos 1) (10 ∷ 0 ∷ []) (fdputs os (pos 1) (itoa (i + 1) 10 ++ 0 ∷ []) state))

  unfoldable pub counter_main : S → ℤ × S
  unfolding wrong_choice max_of count_loop
  counter_main state =
      let r = os.read (pos 0) 1023 (fdputs os (pos 1) ask_number state) in
      let buf = take (pos_part r.0) r.1 ++ 0 ∷ [] in
      if is_minus_one r.0
      then (pos 3, fdputs os (pos 1) no_number r.2)
      else if wrong_choice buf
      then (pos 0, fdputs os (pos 1) wrong_number r.2)
      else (pos 0, count_loop (max_of (byte buf)) 0 r.2)

  unfoldable pub testprint_main : S → ℤ × S
  unfolding fdputs
  testprint_main state = (pos 0, fdputs os (pos 1) it_ran state)
