-- ===== src/Keyboard/Programs.antt =====
-- The keyboard's interrupt, `terminal_read` and `terminal_write` leave the lists of programs and the scheduled
-- terminal as they are.
use ece391_kernel.Base.{
  ℕ, zero, suc, ◌-◌, List, [], ◌∷◌, ◌≡◌, refl, Bool, false, not, ◌&&◌, ◌||◌, ◌==◌, ltb,
  if◌then◌else◌, if_ind, update, update-keeps, arith,
}
use ece391_kernel.Base.Int.{ℤ, pos, negsuc, ltb_ℤ, pos_part, neg_part}
use ece391_kernel.State.{Console, Terminal, KeyFlags, Outcome, done, fault, blocked}
use ece391_kernel.Console.{backspace, putc}
use ece391_kernel.Console.Direct.{scroll_direct, putc_direct_cell, putc_direct}
use ece391_kernel.Console.Backup.{switch_terminal}
use ece391_kernel.Console.Programs.{
  programs_of, SamePrograms, same_refl, same_trans, clear-SamePrograms, putc-SamePrograms,
}
use ece391_kernel.Keyboard.{
  displayed, set_displayed, store_char, tab_loop, tab_echo, enter_char, reading_char, echo_char,
  next_flags, scancode_char, handle_char, scancode_handler, keyboard_handler, terminal_read_begin,
  terminal_read_wait, write_loop, terminal_write, after_wait, terminal_read,
}
use ece391_kernel.FileSystem.Layout.{minus_one}

-- A change of one terminal that keeps its programs.
set-SamePrograms :
    (k : Console) (i : ℕ) (t : Terminal)
    → programs_of t ≡ programs_of (k.terminals i)
    → SamePrograms k (record k { terminals = update k.terminals i t })
set-SamePrograms k i t same = record {
  schedules = refl;
  programs = update-keeps k.terminals i t programs_of same;
}

backspace-SamePrograms : (k : Console) → SamePrograms k (backspace k)
unfolding backspace update
backspace-SamePrograms k = record { schedules = ground arith; programs = λ t. ground arith }

scroll_direct-SamePrograms : (k : Console) → SamePrograms k (scroll_direct k)
unfolding scroll_direct update
scroll_direct-SamePrograms k = record { schedules = refl; programs = λ t. ground arith }

putc_direct_cell-SamePrograms : (c : ℕ) (k : Console) → SamePrograms k (putc_direct_cell c k)
unfolding putc_direct_cell update
putc_direct_cell-SamePrograms c k = record {
  schedules = ground arith;
  programs = λ t. ground arith;
}

putc_direct-SamePrograms : (c : ℕ) (k : Console) → SamePrograms k (putc_direct c k)
unfolding putc_direct
putc_direct-SamePrograms c k =
    let k1 = putc_direct_cell c k in
    let s1 = putc_direct_cell-SamePrograms c k in
    let s2 = scroll_direct-SamePrograms k1 in
    record {
      schedules = ground (arith, s1.schedules, s2.schedules);
      programs = λ t. ground (arith, s1.programs t, s2.programs t);
    }

-- A step that keeps the programs, then a character.
then_putc : (c : ℕ) (k k' : Console) → SamePrograms k k' → SamePrograms k (putc_direct c k')
then_putc c k k' s = same_trans k k' (putc_direct c k') s (putc_direct-SamePrograms c k')

tab_loop-SamePrograms : (rounds : ℕ) (k : Console) → SamePrograms k (tab_loop rounds k)
unfolding tab_loop
tab_loop-SamePrograms zero k = same_refl k
tab_loop-SamePrograms (suc rounds) k =
    let stored = set_displayed k (store_char b' ' (displayed k)) in
    if_ind (SamePrograms k) (ltb (displayed k).buf_index (128 - 1))
      (λ _.
        same_trans k (putc_direct b' ' stored) _
          (then_putc b' ' k stored (set-SamePrograms k k.active_term_idx _ refl))
          (tab_loop-SamePrograms rounds _))
      (λ _. same_refl k)

tab_echo-SamePrograms : (rounds : ℕ) (k : Console) → SamePrograms k (tab_echo rounds k)
unfolding tab_echo
tab_echo-SamePrograms zero k = same_refl k
tab_echo-SamePrograms (suc rounds) k =
    same_trans k (putc_direct b' ' k) _ (putc_direct-SamePrograms b' ' k)
      (tab_echo-SamePrograms rounds (putc_direct b' ' k))

enter_char-SamePrograms : (k : Console) → SamePrograms k (enter_char k)
unfolding enter_char
enter_char-SamePrograms k =
    let ended = record (displayed k) {
      terminal_read_flag = false;
      keyboard_buf = update (displayed k).keyboard_buf (displayed k).buf_index 10;
    } in
    let k1 = putc_direct 10 (set_displayed k ended) in
    same_trans k k1 (enter_char k)
      (then_putc 10 k (set_displayed k ended) (set-SamePrograms k k.active_term_idx ended refl))
      (set-SamePrograms k1 k1.active_term_idx _ refl)

reading_char-SamePrograms : (c : ℕ) (k : Console) → SamePrograms k (reading_char c k)
unfolding reading_char
reading_char-SamePrograms c k =
    if_ind (SamePrograms k) (c == 10) (λ _. enter_char-SamePrograms k)
      (λ _.
        if_ind (SamePrograms k) (c == 0x0f) (λ _. tab_loop-SamePrograms 4 k)
          (λ _.
            if_ind (SamePrograms k) (ltb (displayed k).buf_index (128 - 1))
              (λ _. then_putc c k _ (set-SamePrograms k k.active_term_idx _ refl))
              (λ _. same_refl k)))

echo_char-SamePrograms : (c : ℕ) (k : Console) → SamePrograms k (echo_char c k)
unfolding echo_char
echo_char-SamePrograms c k =
    if_ind (SamePrograms k) (c == 0x0f) (λ _. tab_echo-SamePrograms 4 k)
      (λ _. putc_direct-SamePrograms c k)

handle_char-SamePrograms : (z : ℤ) (f : KeyFlags) (k : Console) → SamePrograms k (handle_char z f k)
unfolding handle_char switch_terminal
handle_char-SamePrograms (negsuc zero) f k = same_refl k
handle_char-SamePrograms (negsuc (suc n)) f k =
    if_ind (SamePrograms k) (displayed k).terminal_read_flag
      (λ _. set-SamePrograms k k.active_term_idx _ refl) (λ _. same_refl k)
handle_char-SamePrograms (pos c) f k =
    if_ind (SamePrograms k) ((c == 0x3b) || (c == 0x3c) || (c == 0x3d))
      (λ _.
        if_ind (SamePrograms k) f.alt_flag (λ _. record { schedules = refl; programs = λ t. refl })
          (λ _. same_refl k))
      (λ _.
        if_ind (SamePrograms k) (displayed k).terminal_read_flag
          (λ _. reading_char-SamePrograms c k) (λ _. echo_char-SamePrograms c k))

scancode_char-SamePrograms :
    (f : KeyFlags) (scancode : ℕ) (k : Console) → SamePrograms k (scancode_char f scancode k).1
unfolding scancode_char
scancode_char-SamePrograms f scancode k =
    let back = record (displayed k) { buf_index = (displayed k).buf_index - 1 } in
    let s1 = clear-SamePrograms k in
    let s2 = backspace-SamePrograms k in
    let s3 =
      same_trans k (set_displayed k back) _ (set-SamePrograms k k.active_term_idx back refl)
        (backspace-SamePrograms (set_displayed k back)) in
    record {
      schedules = ground (arith, s1.schedules, s2.schedules, s3.schedules);
      programs = λ t. ground (arith, s1.programs t, s2.programs t, s3.programs t);
    }

pub keyboard_handler-SamePrograms :
    (scancode : ℕ) (f : KeyFlags) (k : Console) → SamePrograms k (keyboard_handler scancode f k).1
unfolding keyboard_handler scancode_handler
keyboard_handler-SamePrograms scancode f k =
    let r = scancode_char (next_flags scancode f) scancode k in
    let s =
      same_trans k r.1 _ (scancode_char-SamePrograms (next_flags scancode f) scancode k)
        (handle_char-SamePrograms r.0 (next_flags scancode f) r.1) in
    record { schedules = s.schedules; programs = s.programs }

pub begin-SamePrograms : (k : Console) → SamePrograms k (terminal_read_begin k)
unfolding terminal_read_begin
begin-SamePrograms k = set-SamePrograms k k.cur_term_id _ refl

-- A call that waits for ever or gives a console with the same programs.
abbrev pub Waits : Console → {B : Type 0} → (B → Console) → Outcome B → Type 0
Waits k at (done r) = SamePrograms k (at r)
Waits k at fault = ⊥
Waits k at blocked = Unit

wait-SamePrograms :
    (k0 : Console) (scancodes : List ℕ) (f : KeyFlags) (k : Console)
    → SamePrograms k0 k
    → Waits k0 (λ r. r.1) (terminal_read_wait scancodes f k)
unfolding terminal_read_wait
wait-SamePrograms k0 [] f k s =
    if_ind (Waits k0 (λ r. r.1)) (k.terminals k.cur_term_id).terminal_read_flag (λ _. tt) (λ _. s)
wait-SamePrograms k0 (scancode ∷ more) f k s =
    let r = keyboard_handler scancode f k in
    if_ind (Waits k0 (λ r. r.1)) (k.terminals k.cur_term_id).terminal_read_flag
      (λ _.
        wait-SamePrograms k0 more r.0 r.1
          (same_trans k0 k r.1 s (keyboard_handler-SamePrograms scancode f k)))
      (λ _. s)

module _ (k : Console) (nbytes : ℕ) where
  waited :
      (o : Outcome (KeyFlags × Console))
      → Waits k (λ r. r.1) o
      → Waits k (λ r. r.2) (after_wait nbytes o)
  waited (done r) s = s
  waited fault s = s
  waited blocked s = s

pub terminal_read-SamePrograms :
    (fd : ℤ) (null : Bool) (nbytes : ℤ) (scancodes : List ℕ) (f : KeyFlags) (k : Console)
    → Waits k (λ r. r.2) (terminal_read fd null nbytes scancodes f k)
unfolding terminal_read
terminal_read-SamePrograms fd null nbytes scancodes f k =
    if_ind (Waits k (λ r. r.2))
      (null || ltb_ℤ nbytes (pos 0) || not (pos_part fd == 0 && (neg_part fd == 0)))
      {x = done ((minus_one, [], []), f, k)} (λ _. same_refl k)
      (λ _.
        waited k (pos_part nbytes) (terminal_read_wait scancodes f (terminal_read_begin k))
          (wait-SamePrograms k scancodes f (terminal_read_begin k) (begin-SamePrograms k)))

write_loop-SamePrograms : (buf : List ℕ) (k : Console) → SamePrograms k (write_loop buf k)
unfolding write_loop
write_loop-SamePrograms [] k = same_refl k
write_loop-SamePrograms (c ∷ buf) k =
    let k1 = if c == 0 then k else putc c k in
    same_trans k k1 (write_loop buf k1)
      (if_ind (SamePrograms k) (c == 0) (λ _. same_refl k) (λ _. putc-SamePrograms c k))
      (write_loop-SamePrograms buf k1)

pub terminal_write-SamePrograms :
    (fd : ℤ) (null : Bool) (buf : List ℕ) (nbytes : ℤ) (k : Console)
    → SamePrograms k (terminal_write fd null buf nbytes k).1
unfolding terminal_write
terminal_write-SamePrograms fd null buf nbytes k =
    if_ind {A = ℤ × Console} (λ r. SamePrograms k r.1)
      (null || ltb_ℤ nbytes (pos 0) || not (pos_part fd == 1)) (λ _. same_refl k)
      (λ _. write_loop-SamePrograms buf k)
