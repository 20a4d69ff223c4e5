-- ===== src/Keyboard/Typing.antt =====
-- What a program reads is the line that a small line editor would make of the keys.
use mathlib.Core.List.{append-nil, append_assoc}
use ece391_kernel.Base.{
  ℕ, zero, suc, ◌+◌, ◌-◌, ◌<◌, ◌≤◌, ◌≡◌, ◌∙◌, refl, sym, ap, ap₂, Bool, false, ltb, ◌==◌, List, [],
  ◌∷◌, ◌++◌, if◌then◌else◌, arith, update, update_self, update-ne, Bool-cases, inl, inr, length,
  min, take, replicate, length-append, length-take,
}
use ece391_kernel.Base.Int.{ℤ, pos}
use ece391_kernel.State.{Console, Terminal}
use ece391_kernel.Console.Direct.{putc_direct}
use ece391_kernel.Keyboard.{
  displayed, set_displayed, store_char, tab_loop, enter_char, reading_char, prefix,
  terminal_read_end,
}
use ece391_kernel.Keyboard.Buffer.{entered, stored, displayed-set}

-- The bytes that the terminal holds.
abbrev pub line_of : Terminal → List ℕ
line_of t = prefix t.keyboard_buf 0 t.buf_index

-- The line editor: a line of at most 127 bytes, TAB as four spaces as far as they fit, and a
-- newline that always fits.
abbrev pub edit : ℕ → List ℕ → List ℕ
edit c line =
    if c == 10
    then line ++ 10 ∷ []
    else if c == 0x0f
    then line ++ replicate (min 4 (127 - length line)) b' '
    else if ltb (length line) 127
    then line ++ c ∷ []
    else line

pub prefix-suc : (buf : ℕ → ℕ) (i n : ℕ) → prefix buf i (suc n) ≡ prefix buf i n ++ buf (i + n) ∷ []
prefix-suc buf i zero = ap (λ k. buf k ∷ []) (omega arith)
prefix-suc buf i (suc n) =
    ap (λ r. buf i ∷ r)
      (prefix-suc buf (i + 1) n ∙ ap (λ k. prefix buf (i + 1) n ++ buf k ∷ []) (omega arith))

pub length-prefix : (buf : ℕ → ℕ) (i n : ℕ) → length (prefix buf i n) ≡ n
length-prefix buf i zero = refl
length-prefix buf i (suc n) = ap suc (length-prefix buf (i + 1) n)

prefix-update :
    (buf : ℕ → ℕ) (i n m c : ℕ) → i + n ≤ m → prefix (update buf m c) i n ≡ prefix buf i n
prefix-update buf i zero m c h = refl
prefix-update buf i (suc n) m c h =
    ap₂ ◌∷◌ (update-ne buf c (omega arith)) (prefix-update buf (i + 1) n m c (omega arith))

prefix-store :
    (buf : ℕ → ℕ) (n c : ℕ) → prefix (update buf n c) 0 (n + 1) ≡ prefix buf 0 n ++ c ∷ []
prefix-store buf n c =
    ap (prefix (update buf n c) 0) {y = suc n} (omega arith)
    ∙ prefix-suc (update buf n c) 0 n
    ∙ ap₂ (λ r x. r ++ x ∷ []) (prefix-update buf 0 n n c (omega arith))
        (ap (update buf n c) {y = n} (omega arith) ∙ update_self buf n c)

abbrev buffer_line : (ℕ → ℕ) × ℕ × Bool → List ℕ
buffer_line b = prefix b.0 0 b.1

-- Storing and echoing a character appends it.
line_of-store :
    (c : ℕ) (k : Console)
    → line_of (displayed (putc_direct c (set_displayed k (store_char c (displayed k)))))
      ≡ line_of (displayed k) ++ c ∷ []
line_of-store c k =
    let t = displayed k in
    ap buffer_line (stored c k (store_char c t)) ∙ prefix-store t.keyboard_buf t.buf_index c

length-line : (k : Console) → length (line_of (displayed k)) ≡ (displayed k).buf_index
length-line k = length-prefix (displayed k).keyboard_buf 0 (displayed k).buf_index

line_of-enter :
    (k : Console) → line_of (displayed (enter_char k)) ≡ line_of (displayed k) ++ 10 ∷ []
unfolding enter_char
line_of-enter k =
    let t = displayed k in
    let k1 = putc_direct 10 (set_displayed k (entered t)) in
    ap line_of
      (displayed-set k1 (record (displayed k1) { buf_index = (displayed k1).buf_index + 1 }))
    ∙ ap (λ (b : (ℕ → ℕ) × ℕ × Bool). prefix b.0 0 (b.1 + 1)) (stored 10 k (entered t))
    ∙ prefix-store t.keyboard_buf t.buf_index 10

line_of-tab :
    (n : ℕ) (k : Console)
    → line_of (displayed (tab_loop n k))
      ≡ line_of (displayed k) ++ replicate (min n (127 - (displayed k).buf_index)) b' '
unfolding tab_loop
line_of-tab zero k =
    sym (append-nil _) ∙ ap (λ n. line_of (displayed k) ++ replicate n b' ') {x = 0} (omega arith)
line_of-tab (suc n) k =
    let t = displayed k in
    let line = line_of t in
    let k1 = putc_direct b' ' (set_displayed k (store_char b' ' t)) in
    elim (Bool-cases (ltb t.buf_index 127)) [
      | inl lt ↦ rw lt (
          line_of-tab n k1
          ∙ ap₂ (λ l i. l ++ replicate (min n (127 - i)) b' ') (line_of-store b' ' k)
              (ap (λ (b : (ℕ → ℕ) × ℕ × Bool). b.1) (stored b' ' k (store_char b' ' t)))
          ∙ append_assoc line (b' ' ∷ []) (replicate (min n (127 - (t.buf_index + 1))) b' ')
          ∙ ap (λ m. line ++ replicate m b' ') {x = suc (min n (127 - (t.buf_index + 1)))}
              (ground arith))
      | inr full ↦
          rw full
            (sym (append-nil line) ∙ ap (λ m. line ++ replicate m b' ') {x = 0} (ground arith))
    ]

-- While a program reads, each character changes the terminal's line as the line editor would.
pub reading_char-edit :
    (c : ℕ) (k : Console) → line_of (displayed (reading_char c k)) ≡ edit c (line_of (displayed k))
unfolding reading_char
reading_char-edit c k = elim (Bool-cases (c == 10)) [
  | inl e ↦ rw e (line_of-enter k)
  | inr e ↦ rw e (elim (Bool-cases (c == 0x0f)) [
    | inl tab ↦ rw tab (
        line_of-tab 4 k
        ∙ ap (λ n. line_of (displayed k) ++ replicate (min 4 (127 - n)) b' ') (sym (length-line k)))
    | inr other ↦
        rw (other, length-line k)
          (elim (Bool-cases (ltb (displayed k).buf_index 127)) [
            | inl lt ↦ rw lt (line_of-store c k)
            | inr full ↦ rw full
          ])
  ])
]

-- Keys pressed one after another while a program reads.
abbrev pub type_keys : List ℕ → Console → Console
type_keys [] k = k
type_keys (c ∷ keys) k = type_keys keys (reading_char c k)

abbrev pub edit_keys : List ℕ → List ℕ → List ℕ
edit_keys [] line = line
edit_keys (c ∷ keys) line = edit_keys keys (edit c line)

-- The characters that arrive during a read leave in the terminal the line that the line editor makes of
-- them.
pub type_keys-edit :
    (keys : List ℕ) (k : Console)
    → line_of (displayed (type_keys keys k)) ≡ edit_keys keys (line_of (displayed k))
type_keys-edit [] k = refl
type_keys-edit (c ∷ keys) k =
    type_keys-edit keys (reading_char c k) ∙ ap (edit_keys keys) (reading_char-edit c k)

take-prefix : (buf : ℕ → ℕ) (i m n : ℕ) → m ≤ n → take m (prefix buf i n) ≡ prefix buf i m
take-prefix buf i zero n h = refl
take-prefix buf i (suc m) zero h = absurd (omega arith)
take-prefix buf i (suc m) (suc n) h =
    ap (λ r. buf i ∷ r) (take-prefix buf (i + 1) m n (omega arith))

-- The bytes that a read of at most n bytes gets from a terminal's line: the line cut at n bytes, with
-- a newline for its last byte.
abbrev pub cut : ℕ → List ℕ → List ℕ
cut n line = take (min n (length line) - 1) line ++ 10 ∷ []

cut-prefix :
    (t : Terminal) (n : ℕ)
    → cut n (line_of t) ≡ prefix t.keyboard_buf 0 (min n t.buf_index - 1) ++ 10 ∷ []
cut-prefix t n = rw (length-prefix t.keyboard_buf 0 t.buf_index) (
    ap (λ l. l ++ 10 ∷ [])
      (take-prefix t.keyboard_buf 0 (min n t.buf_index - 1) t.buf_index (omega arith)))

length-cut :
    (n : ℕ) (line : List ℕ) → 0 < n → 0 < length line → length (cut n line) ≡ min n (length line)
length-cut n line hn hl = omega (
  arith,
  length-append (take (min n (length line) - 1) line) (10 ∷ []),
  length-take (min n (length line) - 1) line,
)

-- A read of n bytes from a terminal's line, neither of them empty, returns the smaller of n and the
-- line's length, and stores that many bytes: the start of the line, and a newline.
pub terminal_read_end_lem :
    (n : ℕ) (k : Console)
    → 0 < n
    → 0 < (k.terminals k.cur_term_id).buf_index
    → let line = line_of (k.terminals k.cur_term_id) in
      (terminal_read_end n k ≡ (pos (min n (length line)), cut n line, []))
      × (length (cut n line) ≡ min n (length line))
unfolding terminal_read_end
terminal_read_end_lem n k hn hl =
    let t = k.terminals k.cur_term_id in
    let len = length-prefix t.keyboard_buf 0 t.buf_index in
    let least : (if ltb n t.buf_index then n else t.buf_index) ≡ min n t.buf_index = ground arith in
    let some_byte : (min n t.buf_index == 0) ≡ false = ground arith in
    (
      rw (least, some_byte)
          (ap₂ {C = ℤ × List ℕ × List ℕ} (λ m b. (pos m, b, [])) (ap (min n) (sym len))
            (sym (cut-prefix t n))),
      length-cut n (line_of t) hn (omega (arith, len)),
    )
