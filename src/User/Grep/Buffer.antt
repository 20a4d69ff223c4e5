-- ===== src/User/Grep/Buffer.antt =====
-- The array `data`: what lies before a place and behind it, and its last byte.
use mathlib.Core.List.{append_assoc}
use mathlib.Core.Path.{subst}
use ece391_kernel.Base.{
  ℕ, zero, suc, ◌+◌, ◌<◌, ◌≤◌, ◌≡◌, ◌≢◌, refl, sym, ap, ◌∙◌, false, ◌==◌, List, [], ◌∷◌, ◌++◌,
  length, length-append, length-take, length-drop, take-append-drop, get_or, set, take, drop, arith,
}
use ece391_kernel.User.Grep.Lines.{NoNewline}
use ece391_kernel.User.Grep.{store_at, find_end}

pub regroup :
    (before : List ℕ) (c : ℕ) (behind : List ℕ)
    → (before ++ c ∷ []) ++ behind ≡ before ++ c ∷ behind
regroup before c behind = append_assoc before (c ∷ []) behind

pub length-next : (before : List ℕ) (c : ℕ) → length (before ++ c ∷ []) ≡ length before + 1
length-next before c = length-append before (c ∷ [])

pub get_or-here :
    (before : List ℕ) (c : ℕ) (behind : List ℕ)
    → get_or (before ++ c ∷ behind) (length before) 0 ≡ c
get_or-here [] c behind = refl
get_or-here (x ∷ before) c behind = get_or-here before c behind

pub set-here :
    (before : List ℕ) (c d : ℕ) (behind : List ℕ)
    → set (before ++ c ∷ behind) (length before) d ≡ before ++ d ∷ behind
set-here [] c d behind = refl
set-here (x ∷ before) c d behind = ap (λ l. x ∷ l) (set-here before c d behind)

pub drop-here : (before behind : List ℕ) → drop (length before) (before ++ behind) ≡ behind
drop-here [] behind = refl
drop-here (x ∷ before) behind = drop-here before behind

pub take-here : (before behind : List ℕ) → take (length before) (before ++ behind) ≡ before
take-here [] behind = refl
take-here (x ∷ before) behind = ap (λ l. x ∷ l) (take-here before behind)

-- The last byte of the array.
abbrev pub last_byte : List ℕ → ℕ
last_byte [] = 0
last_byte (c ∷ []) = c
last_byte (c ∷ d ∷ behind) = last_byte (d ∷ behind)

pub last_byte-append :
    (before : List ℕ) (c : ℕ) (behind : List ℕ)
    → last_byte (before ++ c ∷ behind) ≡ last_byte (c ∷ behind)
last_byte-append [] c behind = refl
last_byte-append (x ∷ []) c behind = refl
last_byte-append (x ∷ y ∷ before) c behind = last_byte-append (y ∷ before) c behind

-- 1025 bytes, of which the last one, where no text is read to, is not a newline.
pub record IsBuffer (buf : List ℕ) : Type 0 where
  pub size : length buf ≡ 1025
  pub guarded : last_byte buf ≢ 10

last_byte-nul :
    (c : ℕ) (behind : List ℕ) → last_byte (c ∷ behind) ≢ 10 → last_byte (0 ∷ behind) ≢ 10
last_byte-nul c [] h = omega arith
last_byte-nul c (d ∷ behind) h = h

-- A NUL is written.
pub cut-IsBuffer :
    (before : List ℕ) (c : ℕ) (behind : List ℕ)
    → IsBuffer (before ++ c ∷ behind)
    → IsBuffer (before ++ 0 ∷ behind)
cut-IsBuffer before c behind h = record {
  size = length-append before (0 ∷ behind) ∙ sym (length-append before (c ∷ behind)) ∙ h.size;
  guarded = λ e.
      last_byte-nul c behind (λ f. h.guarded (last_byte-append before c behind ∙ f))
        (sym (last_byte-append before 0 behind) ∙ e);
}

-- Another beginning of the same length.
pub front-IsBuffer :
    (before other : List ℕ) (c : ℕ) (behind : List ℕ)
    → length other ≡ length before
    → IsBuffer (before ++ c ∷ behind)
    → IsBuffer (other ++ c ∷ behind)
front-IsBuffer before other c behind same h = record {
  size = omega (arith, h.size, length-append before (c ∷ behind), length-append other (c ∷ behind));
  guarded =
      λ e. h.guarded (last_byte-append before c behind ∙ sym (last_byte-append other c behind) ∙ e);
}

-- The last byte is not a newline.
pub end_guarded :
    (before : List ℕ) (c : ℕ) (behind : List ℕ)
    → length before ≡ 1024
    → IsBuffer (before ++ c ∷ behind)
    → c ≢ 10
end_guarded before c [] full h = λ e. h.guarded (last_byte-append before c [] ∙ e)
end_guarded before c (x ∷ behind) full h =
    absurd (omega (arith, h.size, length-append before (c ∷ (x ∷ behind))))

-- Bytes are read to a place before the last one.
behind_read :
    (n : ℕ) (buf : List ℕ)
    → n < length buf
    → (c : ℕ) × (behind : List ℕ) × (drop n buf ≡ c ∷ behind)
behind_read zero (c ∷ buf) h = (c, buf, refl)
behind_read (suc n) (c ∷ buf) h = behind_read n buf (omega arith)
behind_read n [] h = elim h [ ]

pub store_at-IsBuffer :
    (at : ℕ) (bytes buf : List ℕ)
    → at + length bytes ≤ 1024
    → IsBuffer buf
    → IsBuffer (store_at at bytes buf)
store_at-IsBuffer at bytes buf fits h = record {
  size = omega (
    arith,
    h.size,
    length-append (take at buf) (bytes ++ drop (at + length bytes) buf),
    length-append bytes (drop (at + length bytes) buf),
    length-take at buf,
    length-drop (at + length bytes) buf,
  );
  guarded =
      let n = at + length bytes in
      let more = behind_read n buf (omega (arith, h.size)) in
      let new : last_byte (store_at at bytes buf) ≡ last_byte (more.0 ∷ more.1) = rw more.2 (
        ap last_byte (sym (append_assoc (take at buf) bytes (more.0 ∷ more.1)))
        ∙ last_byte-append (take at buf ++ bytes) more.0 more.1) in
      let old : last_byte buf ≡ last_byte (more.0 ∷ more.1) =
        ap last_byte (sym (take-append-drop n buf) ∙ ap (λ l. take n buf ++ l) more.2)
        ∙ last_byte-append (take n buf) more.0 more.1 in
      λ e. h.guarded (old ∙ sym new ∙ e);
}

-- The search for the end passes over a part without a newline.
find_end-pass :
    (line : List ℕ) (m : ℕ) (before behind : List ℕ)
    → NoNewline line
    → find_end (length line + m) (before ++ (line ++ behind)) (length before)
      ≡ find_end m (before ++ (line ++ behind)) (length before + length line)
unfolding find_end
find_end-pass [] m before behind h =
    let e : length before + 0 ≡ length before = omega arith in
    let f : 0 + m ≡ m = omega arith in rw (e, f) refl
find_end-pass (c ∷ line) m before behind h =
    let count : suc (length line) + m ≡ suc (length line + m) = omega arith in
    let test : (get_or (before ++ c ∷ (line ++ behind)) (length before) 0 == 10) ≡ false =
      rw (get_or-here before c (line ++ behind)) (ground (arith, h.0)) in
    let more = find_end-pass line m (before ++ c ∷ []) behind h.1 in
    let here = regroup before c (line ++ behind) in
    let next = length-next before c in
    let sum : length before + 1 + length line ≡ length before + suc (length line) = omega arith in
    let more' : find_end (length line + m) (before ++ c ∷ (line ++ behind)) (length before + 1)
        ≡ find_end m (before ++ c ∷ (line ++ behind)) (length before + suc (length line)) =
      rw (← sum, ← here, ← next) more in
    rw (count, test) more'

pub find_end-last :
    (line before behind : List ℕ)
    → NoNewline line
    → find_end (length line) (before ++ (line ++ behind)) (length before)
      ≡ length before + length line
unfolding find_end
find_end-last line before behind h =
    let e : length line + 0 ≡ length line = omega arith in
    ap (λ n. find_end n (before ++ (line ++ behind)) (length before)) (sym e)
    ∙ find_end-pass line 0 before behind h

pub find_end-newline :
    (line : List ℕ) (m : ℕ) (before behind : List ℕ)
    → NoNewline line
    → find_end (length line + suc m) (before ++ (line ++ 10 ∷ behind)) (length before)
      ≡ length before + length line
unfolding find_end
find_end-newline line m before behind h =
    let here : get_or (before ++ (line ++ 10 ∷ behind)) (length before + length line) 0 ≡ 10 =
      rw (← append_assoc before line (10 ∷ behind), ← length-append before line)
        (get_or-here (before ++ line) 10 behind) in
    find_end-pass line (suc m) before (10 ∷ behind) h ∙ rw here refl

-- The same behind a line.
pub get_or-inner :
    (before line : List ℕ) (c : ℕ) (behind : List ℕ)
    → get_or (before ++ (line ++ c ∷ behind)) (length before + length line) 0 ≡ c
get_or-inner before line c behind =
    rw (← append_assoc before line (c ∷ behind), ← length-append before line)
      (get_or-here (before ++ line) c behind)

pub cut_inner-IsBuffer :
    (before line : List ℕ) (c : ℕ) (behind : List ℕ)
    → IsBuffer (before ++ (line ++ c ∷ behind))
    → IsBuffer (before ++ (line ++ 0 ∷ behind))
cut_inner-IsBuffer before line c behind h = subst IsBuffer (append_assoc before line (0 ∷ behind)) (
    cut-IsBuffer (before ++ line) c behind
      (subst IsBuffer (sym (append_assoc before line (c ∷ behind))) h))
