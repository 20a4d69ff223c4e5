-- ===== src/Keyboard/Buffer.antt =====
-- The keyboard buffer: what the output functions leave alone, and that it never overflows.
use ece391_kernel.Base.{
  ℕ, zero, suc, ◌-◌, ◌<◌, ◌≤◌, ◌≡◌, ◌∙◌, refl, Bool, true, false, ◌&&◌, ◌||◌, ltb, ◌==◌,
  if◌then◌else◌, arith, update, update_self, ap, ℕ_discrete, Bool-cases, if_ind, ltb→lt, inl, inr,
}
use ece391_kernel.Base.Int.{ℤ, pos, negsuc}
use ece391_kernel.State.{Console, Terminal, KeyFlags}
use ece391_kernel.Console.{clear, backspace}
use ece391_kernel.Console.Direct.{putc_direct, putc_direct_cell, scroll_direct}
use ece391_kernel.Console.Backup.{switch_terminal}
use ece391_kernel.Keyboard.{
  displayed, set_displayed, store_char, tab_loop, tab_echo, enter_char, reading_char, echo_char,
  scancode_char, scancode_handler, next_flags, chosen_terminal, handle_char, keyboard_handler,
}

-- The part of a terminal that the keyboard uses.
abbrev pub buffer_of : Terminal → (ℕ → ℕ) × ℕ × Bool
buffer_of t = (t.keyboard_buf, t.buf_index, t.terminal_read_flag)

-- Two states have the same displayed terminal and the same buffers.
pub record SameBuffers (k k' : Console) : Type 0 where
  pub displays : k'.active_term_idx ≡ k.active_term_idx
  pub schedules : k'.cur_term_id ≡ k.cur_term_id
  pub buffers : (j : ℕ) → buffer_of (k'.terminals j) ≡ buffer_of (k.terminals j)

putc_direct_cell-SameBuffers : (c : ℕ) (k : Console) → SameBuffers k (putc_direct_cell c k)
unfolding putc_direct_cell update
putc_direct_cell-SameBuffers c k = record {
  displays = ground arith;
  schedules = ground arith;
  buffers = λ j. ground arith;
}

scroll_direct-SameBuffers : (k : Console) → SameBuffers k (scroll_direct k)
unfolding scroll_direct update
scroll_direct-SameBuffers k = record {
  displays = refl;
  schedules = refl;
  buffers = λ j. ground arith;
}

pub putc_direct-SameBuffers : (c : ℕ) (k : Console) → SameBuffers k (putc_direct c k)
unfolding putc_direct
putc_direct-SameBuffers c k =
    let k1 = putc_direct_cell c k in
    let s1 = putc_direct_cell-SameBuffers c k in
    let s2 = scroll_direct-SameBuffers k1 in
    record {
      displays = ground (arith, s1.displays, s2.displays);
      schedules = ground (arith, s1.schedules, s2.schedules);
      buffers = λ j. ground (arith, s1.buffers j, s2.buffers j);
    }

pub clear-SameBuffers : (k : Console) → SameBuffers k (clear k)
unfolding clear update
clear-SameBuffers k = record { displays = refl; schedules = refl; buffers = λ j. ground arith }

pub backspace-SameBuffers : (k : Console) → SameBuffers k (backspace k)
unfolding backspace update
backspace-SameBuffers k = record {
  displays = ground arith;
  schedules = ground arith;
  buffers = λ j. ground arith;
}

-- At most 127 bytes are stored while a program reads, and at most 128 in all.
abbrev pub Fits : Terminal → Type 0
Fits t = t.buf_index ≤ (if t.terminal_read_flag then 127 else 128)

abbrev pub AllFit : Console → Type 0
AllFit k = (j : ℕ) → Fits (k.terminals j)

Fits-same : (t t' : Terminal) → buffer_of t' ≡ buffer_of t → Fits t → Fits t'
Fits-same t t' e h = ground arith

pub AllFit-same : {k k' : Console} → SameBuffers k k' → AllFit k → AllFit k'
AllFit-same {k} {k'} s h j = Fits-same (k.terminals j) (k'.terminals j) (s.buffers j) (h j)

AllFit-set : (k : Console) (t : Terminal) → AllFit k → Fits t → AllFit (set_displayed k t)
unfolding update
AllFit-set k t h fits j = elim (ℕ_discrete j k.active_term_idx) [
  | yes e ↦ ground (arith, fits)
  | no ne ↦ ground (arith, h j)
]

pub displayed-set : (k : Console) (t : Terminal) → displayed (set_displayed k t) ≡ t
displayed-set k t = update_self k.terminals k.active_term_idx t

pub displayed-same :
    {k k' : Console} → SameBuffers k k' → buffer_of (displayed k') ≡ buffer_of (displayed k)
displayed-same {k} {k'} s = rw s.displays (s.buffers k.active_term_idx)

-- After a character is stored and echoed, the displayed terminal's buffer is that of the store.
pub stored :
    (c : ℕ) (k : Console) (t : Terminal)
    → buffer_of (displayed (putc_direct c (set_displayed k t))) ≡ buffer_of t
stored c k t =
    displayed-same (putc_direct-SameBuffers c (set_displayed k t))
    ∙ ap buffer_of (displayed-set k t)

-- Storing a character below index 127 keeps the bounds.
store-AllFit :
    (c : ℕ) (k : Console)
    → (displayed k).terminal_read_flag ≡ true
    → (displayed k).buf_index < 127
    → AllFit k
    → AllFit (putc_direct c (set_displayed k (store_char c (displayed k))))
store-AllFit c k f lt h =
    let t = store_char c (displayed k) in
    AllFit-same (putc_direct-SameBuffers c (set_displayed k t))
      (AllFit-set k t h (ground (arith, f, lt)))

tab_loop-AllFit :
    (n : ℕ) (k : Console)
    → (displayed k).terminal_read_flag ≡ true
    → AllFit k
    → AllFit (tab_loop n k)
unfolding tab_loop
tab_loop-AllFit zero k f h = h
tab_loop-AllFit (suc n) k f h =
    let t = displayed k in
    elim (Bool-cases (ltb t.buf_index 127)) [
      | inl lt ↦ rw lt (
          tab_loop-AllFit n (putc_direct b' ' (set_displayed k (store_char b' ' t)))
            (ground (arith, stored b' ' k (store_char b' ' t), f))
            (store-AllFit b' ' k f (ground arith) h))
      | inr full ↦ rw full h
    ]

tab_echo-AllFit : (n : ℕ) (k : Console) → AllFit k → AllFit (tab_echo n k)
unfolding tab_echo
tab_echo-AllFit zero k h = h
tab_echo-AllFit (suc n) k h =
    tab_echo-AllFit n (putc_direct b' ' k) (AllFit-same (putc_direct-SameBuffers b' ' k) h)

-- The terminal that ENTER leaves before the index moves.
abbrev pub entered : Terminal → Terminal
entered t = record t {
  terminal_read_flag = false;
  keyboard_buf = update t.keyboard_buf t.buf_index 10;
}

enter_char-AllFit :
    (k : Console) → (displayed k).terminal_read_flag ≡ true → AllFit k → AllFit (enter_char k)
unfolding enter_char
enter_char-AllFit k f h =
    let t = entered (displayed k) in
    let fits : Fits (displayed k) = h k.active_term_idx in
    let k1 = putc_direct 10 (set_displayed k t) in
    AllFit-set k1 _
      (AllFit-same (putc_direct-SameBuffers 10 (set_displayed k t))
        (AllFit-set k t h (ground (arith, fits, f))))
      (ground (arith, stored 10 k t, fits, f))

reading_char-AllFit :
    (c : ℕ) (k : Console)
    → (displayed k).terminal_read_flag ≡ true
    → AllFit k
    → AllFit (reading_char c k)
unfolding reading_char
reading_char-AllFit c k f h =
    if_ind AllFit (c == 10) (λ _. enter_char-AllFit k f h)
      λ _.
        if_ind AllFit (c == 0x0f) (λ _. tab_loop-AllFit 4 k f h)
          λ _.
            if_ind AllFit (ltb (displayed k).buf_index 127)
              (λ lt. store-AllFit c k f (ltb→lt _ _ lt) h) (λ _. h)

echo_char-AllFit : (c : ℕ) (k : Console) → AllFit k → AllFit (echo_char c k)
unfolding echo_char
echo_char-AllFit c k h =
    if_ind AllFit (c == 0x0f) (λ _. tab_echo-AllFit 4 k h)
      (λ _. AllFit-same (putc_direct-SameBuffers c k) h)

-- BACKSPACE while a program reads.
erase-AllFit :
    (k : Console)
    → AllFit k
    → AllFit (set_displayed k (record (displayed k) { buf_index = (displayed k).buf_index - 1 }))
erase-AllFit k h =
    let fits : Fits (displayed k) = h k.active_term_idx in
    AllFit-set k (record (displayed k) { buf_index = (displayed k).buf_index - 1 }) h
      (omega (arith, fits))

scancode_char-AllFit :
    (f : KeyFlags) (scancode : ℕ) (k : Console) → AllFit k → AllFit (scancode_char f scancode k).1
unfolding scancode_char
scancode_char-AllFit f scancode k h =
    let t = displayed k in
    let P = λ (r : ℤ × Console). AllFit r.1 in
    if_ind P (scancode == 0x3b) (λ _. h)
      λ _.
        if_ind P (scancode == 0x3c) (λ _. h)
          λ _.
            if_ind P (scancode == 0x3d) (λ _. h)
              λ _.
                if_ind P (f.ctrl_flag && (scancode == 0x26))
                  (λ _. AllFit-same (clear-SameBuffers k) h)
                  λ _.
                    if_ind P (scancode == 0x0e)
                      (λ _.
                        if_ind P t.terminal_read_flag
                          (λ _.
                            if_ind P (t.buf_index == 0) (λ _. h)
                              λ _. AllFit-same (backspace-SameBuffers _) (erase-AllFit k h))
                          (λ _. AllFit-same (backspace-SameBuffers k) h))
                      (λ _. h)

switch_terminal-AllFit : (p t : ℕ) (k : Console) → AllFit k → AllFit (switch_terminal p t k)
unfolding switch_terminal
switch_terminal-AllFit p t k h = h

handle_char-AllFit : (c : ℤ) (f : KeyFlags) (k : Console) → AllFit k → AllFit (handle_char c f k)
unfolding handle_char
handle_char-AllFit (negsuc zero) f k h = h
handle_char-AllFit (negsuc (suc n)) f k h =
    if_ind AllFit (displayed k).terminal_read_flag
      (λ _. AllFit-set k (record (displayed k) { buf_index = 0 }) h (omega arith)) (λ _. h)
handle_char-AllFit (pos c) f k h =
    let next = chosen_terminal c k.active_term_idx in
    if_ind AllFit ((c == 0x3b) || (c == 0x3c) || (c == 0x3d))
      (λ _.
        if_ind AllFit f.alt_flag
          (λ _.
            switch_terminal-AllFit k.active_term_idx next (record k { active_term_idx = next }) h)
          (λ _. h))
      (λ _.
        if_ind AllFit (displayed k).terminal_read_flag
          (λ reading. reading_char-AllFit c k reading h) (λ _. echo_char-AllFit c k h))

-- Whatever key is pressed, the handler keeps every buffer index within bounds: at most 127 while a
-- program reads from the terminal, and at most 128 otherwise.
pub keyboard_handler-AllFit :
    (scancode : ℕ) (f : KeyFlags) (k : Console)
    → AllFit k
    → AllFit (keyboard_handler scancode f k).1
unfolding keyboard_handler scancode_handler
keyboard_handler-AllFit scancode f k h =
    let f' = next_flags scancode f in
    let r = scancode_char f' scancode k in
    handle_char-AllFit r.0 f' r.1 (scancode_char-AllFit f' scancode k h)
