-- ===== src/User/Pingpong/Frames.antt =====
-- The frames that pingpong writes.
use ece391_kernel.Base.{
  ℕ, zero, suc, ◌+◌, ◌%◌, ◌<◌, ◌≤◌, ◌≡◌, refl, sym, ap, ◌∙◌, true, ◌==◌, ◌||◌, Bool-cases, inl, inr,
  ltb, leb, if◌then◌else◌, List, [], ◌∷◌, ◌++◌, update, fill_lem, arith,
}
use mathlib.Core.Path.{subst}
use mathlib.Core.List.{append_assoc, append-nil}
use ece391_kernel.Base.Int.{ℤ, pos}
use ece391_kernel.Text.Spec.{NonNul}
use ece391_kernel.User.Messages.{rtc_name}
use ece391_kernel.User.Counter.Output.{IsTerminal, fdputs-shows}
use ece391_kernel.User.Pingpong.{
  segment, clear_inner, draw, walls, next_char, show, move_out, bounce_back, bounces, pingpong_main,
}
use ece391_kernel.User.{Os, fdputs}

-- The array without the character.
abbrev wall : ℕ → ℕ
wall i = if i == 80 then 0 else if i == 79 then 10 else if i == 78 || (i == 1) then 124 else 32

abbrev pub cell : (c j i : ℕ) → ℕ
cell c j i = if i == j then c else wall i

abbrev HasWalls : (ℕ → ℕ) → Type 0
HasWalls buf = (i : ℕ) → i < 81 → (ltb i 2 || leb 78 i) ≡ true → buf i ≡ wall i

clear_inner_lem :
    (n i : ℕ) (buf : ℕ → ℕ) (k : ℕ)
    → clear_inner n i buf k ≡ (if leb i k then if ltb k (i + n) then 32 else buf k else buf k)
unfolding clear_inner update
clear_inner_lem zero i buf k = ground arith
clear_inner_lem (suc n) i buf k = ground (arith, clear_inner_lem n (i + 1) (update buf i 32) k)

draw-cell :
    (c j : ℕ) (buf : ℕ → ℕ) (i : ℕ)
    → HasWalls buf
    → 2 ≤ j
    → j < 78
    → i < 81
    → draw c j buf i ≡ cell c j i
unfolding draw update
draw-cell c j buf i h lo hi lt =
    ap (λ d. if i == j then c else d)
      (clear_inner_lem 76 2 buf i ∙ elim (Bool-cases (ltb i 2 || leb 78 i)) [
        | inl outer ↦ rw (h i lt outer) (ground (arith, outer))
        | inr inner ↦ ground (arith, inner)
      ])

walls-HasWalls : (buf : ℕ → ℕ) → HasWalls (walls buf)
unfolding walls update
walls-HasWalls buf i lt outer = ground (arith, lt, outer, fill_lem 81 (λ i. 32) buf i)

segment-ext :
    (n i : ℕ) (f g : ℕ → ℕ)
    → ((k : ℕ) → i ≤ k → k < i + n → f k ≡ g k)
    → segment n i f ≡ segment n i g
unfolding segment
segment-ext zero i f g same = refl
segment-ext (suc n) i f g same = rw (same i (omega arith) (omega arith)) (
    ap (λ l. g i ∷ l)
      (segment-ext n (i + 1) f g (λ k lo hi. same k (omega (arith, lo)) (omega (arith, hi)))))

segment-last : (n i : ℕ) (f : ℕ → ℕ) → segment (suc n) i f ≡ segment n i f ++ f (i + n) ∷ []
unfolding segment
segment-last zero i f = ap (λ k. f k ∷ []) (omega arith)
segment-last (suc n) i f =
    ap (λ l. f i ∷ l)
      (segment-last n (i + 1) f ∙ ap (λ k. segment n (i + 1) f ++ f k ∷ []) (omega arith))

segment-NonNul :
    (n i : ℕ) (f : ℕ → ℕ) → ((k : ℕ) → i ≤ k → k < i + n → 0 < f k) → NonNul (segment n i f)
unfolding segment
segment-NonNul zero i f h = tt
segment-NonNul (suc n) i f h = (
  h i (omega arith) (omega arith),
  segment-NonNul n (i + 1) f (λ k lo hi. h k (omega (arith, lo)) (omega (arith, hi))),
)

-- A whole frame: the walls, and the character c at j.
abbrev pub frame : (c j : ℕ) → List ℕ
frame c j = segment 80 0 (cell c j)

unfoldable pub out_frames : (c n j : ℕ) → List ℕ
out_frames c zero j = []
out_frames c (suc n) j = frame c j ++ out_frames c n (j + 1)

unfoldable pub back_frames : (c n : ℕ) → List ℕ
back_frames c zero = []
back_frames c (suc n) = frame c (n + 2) ++ back_frames c n

-- Letters from the k-th on, each going from column 2 to 77 and back.
unfoldable pub animation : (rounds k : ℕ) → List ℕ
animation zero k = []
animation (suc rounds) k =
    let c = 65 + k % 26 in out_frames c 76 2 ++ (back_frames c 76 ++ animation rounds (k + 1))

next_char-letter : (k : ℕ) → next_char (65 + k % 26) ≡ 65 + (k + 1) % 26
unfolding next_char
next_char-letter k = ground arith

cell-pos : (c j i : ℕ) → 0 < c → i < 80 → 0 < cell c j i
cell-pos c j i h lt = ground (arith, h, lt)

module _ {S : Type 0} (os : Os S) (typed shown : S → List ℕ)
    (terminal : IsTerminal os typed shown) where
  -- What the descriptor of the clock is asked for shows nothing.
  pub record IsQuiet (fd : ℤ) : Type 0 where
    pub quiet_read : (n : ℕ) (s : S) → shown (os.read fd n s).2 ≡ shown s
    pub quiet_write : (buf : List ℕ) (n : ℕ) (s : S) → shown (os.write fd buf n s).1 ≡ shown s

  -- After it the array still has its walls, and the frame is shown.
  Shows : (before : List ℕ) → (ℕ → ℕ) × S → Type 0
  Shows text p = HasWalls p.0 × (shown p.1 ≡ text)

  show-frame :
      (fd : ℤ) (c j : ℕ) (p : (ℕ → ℕ) × S) (text : List ℕ)
      → IsQuiet fd
      → 0 < c
      → 2 ≤ j
      → j < 78
      → Shows text p
      → Shows (text ++ frame c j) (show os fd c j p)
  unfolding show Shows
  show-frame fd c j p text quiet pos_c lo hi h =
      let drawn = draw c j p.0 in
      let same : (i : ℕ) → i < 81 → drawn i ≡ cell c j i =
        λ i lt. draw-cell c j p.0 i h.0 lo hi lt in
      let string : segment 81 0 drawn ≡ frame c j ++ 0 ∷ [] =
        segment-ext 81 0 drawn (cell c j) (λ k _ lt. same k lt)
        ∙ segment-last 80 0 (cell c j)
        ∙ ap (λ x. frame c j ++ x ∷ []) (ground (arith, hi)) in
      let said =
        fdputs-shows os typed shown terminal (frame c j) p.1
          (segment-NonNul 80 0 (cell c j) (λ k _ lt. cell-pos c j k pos_c lt)) in
      (
        λ i lt outer. same i lt ∙ ground (arith, outer, lo, hi),
        quiet.quiet_read 4 _
            ∙ ap (λ l. shown (fdputs os (pos 1) l p.1)) string
            ∙ said.0
            ∙ ap (λ l. l ++ frame c j) h.1,
      )

  move_out-frames :
      (fd : ℤ) (c n j : ℕ) (p : (ℕ → ℕ) × S) (text : List ℕ)
      → IsQuiet fd
      → 0 < c
      → 2 ≤ j
      → j + n ≡ 78
      → Shows text p
      → Shows (text ++ out_frames c n j) (move_out os fd c n j p)
  unfolding move_out out_frames
  move_out-frames fd c zero j p text quiet pos_c lo e h =
      subst (λ l. Shows l p) (sym (append-nil text)) h
  move_out-frames fd c (suc n) j p text quiet pos_c lo e h =
      subst (λ l. Shows l (move_out os fd c n (j + 1) (show os fd c j p)))
        (append_assoc text (frame c j) (out_frames c n (j + 1)))
        (move_out-frames fd c n (j + 1) _ _ quiet pos_c (omega (arith, lo)) (omega (arith, e))
          (show-frame fd c j p text quiet pos_c lo (omega (arith, e)) h))

  bounce_back-frames :
      (fd : ℤ) (c n : ℕ) (p : (ℕ → ℕ) × S) (text : List ℕ)
      → IsQuiet fd
      → 0 < c
      → n ≤ 76
      → Shows text p
      → Shows (text ++ back_frames c n) (bounce_back os fd c n p)
  unfolding bounce_back back_frames
  bounce_back-frames fd c zero p text quiet pos_c le h =
      subst (λ l. Shows l p) (sym (append-nil text)) h
  bounce_back-frames fd c (suc n) p text quiet pos_c le h =
      subst (λ l. Shows l (bounce_back os fd c n (show os fd c (n + 2) p)))
        (append_assoc text (frame c (n + 2)) (back_frames c n))
        (bounce_back-frames fd c n _ _ quiet pos_c (omega (arith, le))
          (show-frame fd c (n + 2) p text quiet pos_c (omega arith) (omega (arith, le)) h))

  bounces-animation :
      (fd : ℤ) (rounds k : ℕ) (p : (ℕ → ℕ) × S) (text : List ℕ)
      → IsQuiet fd
      → Shows text p
      → Shows (text ++ animation rounds k) (bounces os fd rounds (65 + k % 26) p)
  unfolding bounces animation
  bounces-animation fd zero k p text quiet h = subst (λ l. Shows l p) (sym (append-nil text)) h
  bounces-animation fd (suc rounds) k p text quiet h =
      let c = 65 + k % 26 in
      let out = move_out-frames fd c 76 2 p text quiet (omega arith) (omega arith) refl h in
      let back = bounce_back-frames fd c 76 _ _ quiet (omega arith) (omega arith) out in
      let p' = bounce_back os fd c 76 (move_out os fd c 76 2 p) in
      subst (λ x. Shows (text ++ animation (suc rounds) k) (bounces os fd rounds x p'))
        (sym (next_char-letter k))
        (subst (λ l. Shows l (bounces os fd rounds (65 + (k + 1) % 26) p'))
          (append_assoc (text ++ out_frames c 76 2) (back_frames c 76) (animation rounds (k + 1))
            ∙ append_assoc text (out_frames c 76 2) (back_frames c 76 ++ animation rounds (k + 1)))
          (bounces-animation fd rounds (k + 1) p' _ quiet back))

  -- After any number of rounds pingpong has written nothing but the frames of its letters, which go from A to Z
  -- and then from A again, each from column 2 to 77 and back, where opening the clock and what its descriptor is
  -- asked for shows nothing. What the array holds before does not matter.
  pub pingpong_main_lem :
      (rounds : ℕ) (buf : ℕ → ℕ) (s : S)
      → let opened = os.open_file rtc_name s in
        IsQuiet opened.0
        → shown opened.1 ≡ shown s
        → shown (pingpong_main os rounds buf s).1 ≡ shown s ++ animation rounds 0
  unfolding pingpong_main Shows
  pingpong_main_lem rounds buf s quiet same =
      let opened = os.open_file rtc_name s in
      let set = os.write opened.0 (32 ∷ 0 ∷ 0 ∷ 0 ∷ []) 4 opened.1 in
      (bounces-animation opened.0 rounds 0 (walls buf, set.1) (shown s) quiet
        (walls-HasWalls buf, quiet.quiet_write _ 4 opened.1 ∙ same)).1
