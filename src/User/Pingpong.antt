-- ===== src/User/Pingpong.antt =====
-- The user program syscalls/ece391pingpong.c.
pub mod Frames
use ece391_kernel.Base.{
  ℕ, zero, suc, ◌+◌, ◌%◌, ◌^◌, ◌==◌, if◌then◌else◌, List, [], ◌∷◌, update, fill,
}
use ece391_kernel.Base.Int.{ℤ, pos}
use ece391_kernel.User.Messages.{rtc_name}
use ece391_kernel.User.{Os, fdputs}

-- Bytes i to i + n - 1 of an array.
unfoldable pub segment : (n i : ℕ) → (ℕ → ℕ) → List ℕ
segment zero i buf = []
segment (suc n) i buf = buf i ∷ segment n (i + 1) buf

-- The inner part of the array, from i on.
unfoldable pub clear_inner : (n i : ℕ) → (ℕ → ℕ) → ℕ → ℕ
clear_inner zero i buf = buf
clear_inner (suc n) i buf = clear_inner n (i + 1) (update buf i 32)

unfoldable pub draw : (curchar j : ℕ) → (ℕ → ℕ) → ℕ → ℕ
unfolding clear_inner
draw curchar j buf = update (clear_inner 76 2 buf) j curchar

unfoldable pub walls : (ℕ → ℕ) → ℕ → ℕ
walls buf = update (update (update (update (fill 81 (λ i. 32) buf) 80 0) 79 10) 78 124) 1 124

unfoldable pub next_char : ℕ → ℕ
next_char curchar = if curchar == 90 then 65 else (curchar + 1) % 2 ^ 8

module _ {S : Type 0} (os : Os S) where
  -- One round of either inner loop: a drawing, and a tick of the clock.
  unfoldable pub show : (rtc_fd : ℤ) (curchar j : ℕ) → (ℕ → ℕ) × S → (ℕ → ℕ) × S
  unfolding draw segment fdputs
  show rtc_fd curchar j p =
      let drawn = draw curchar j p.0 in
      (drawn, (os.read rtc_fd 4 (fdputs os (pos 1) (segment 81 0 drawn) p.1)).2)

  unfoldable pub move_out : (rtc_fd : ℤ) (curchar n j : ℕ) → (ℕ → ℕ) × S → (ℕ → ℕ) × S
  unfolding show
  move_out rtc_fd curchar zero j p = p
  move_out rtc_fd curchar (suc n) j p = move_out rtc_fd curchar n (j + 1) (show rtc_fd curchar j p)

  -- From j = n + 1 down to 2.
  unfoldable pub bounce_back : (rtc_fd : ℤ) (curchar n : ℕ) → (ℕ → ℕ) × S → (ℕ → ℕ) × S
  unfolding show
  bounce_back rtc_fd curchar zero p = p
  bounce_back rtc_fd curchar (suc n) p =
      bounce_back rtc_fd curchar n (show rtc_fd curchar (n + 2) p)

  -- `rounds` rounds of the endless loop.
  unfoldable pub bounces : (rtc_fd : ℤ) (rounds curchar : ℕ) → (ℕ → ℕ) × S → (ℕ → ℕ) × S
  unfolding move_out bounce_back next_char
  bounces rtc_fd zero curchar p = p
  bounces rtc_fd (suc rounds) curchar p =
      bounces rtc_fd rounds (next_char curchar)
        (bounce_back rtc_fd curchar 76 (move_out rtc_fd curchar 76 2 p))

  -- `buf` is what the local array holds before.
  unfoldable pub pingpong_main : (rounds : ℕ) (buf : ℕ → ℕ) → S → (ℕ → ℕ) × S
  unfolding bounces walls
  pingpong_main rounds buf state =
      let opened = os.open_file rtc_name state in
      let set = os.write opened.0 (32 ∷ 0 ∷ 0 ∷ 0 ∷ []) 4 opened.1 in
      bounces opened.0 rounds 65 (walls buf, set.1)
