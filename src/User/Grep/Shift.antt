-- ===== src/User/Grep/Shift.antt =====
-- The rest of the buffer, copied to its front by `ece391_strcpy` within one array.
use mathlib.Core.List.{append_assoc}
use mathlib.Core.Path.{subst}
use ece391_kernel.Base.{
  ℕ, zero, suc, ◌+◌, ◌<◌, ◌≡◌, ◌≢◌, refl, sym, ap, ◌∙◌, false, ◌==◌, List, [], ◌∷◌, ◌++◌, length,
  length-append, get_or, arith,
}
use ece391_kernel.Text.Spec.{NonNul}
use ece391_kernel.User.Support.{strcpy_loop, strcpy_within}
use ece391_kernel.User.Grep.Buffer.{
  IsBuffer, cut-IsBuffer, front-IsBuffer, regroup, length-next, get_or-here, set-here,
}

-- The array before and after one byte is copied: `c` and `mid` lie between what is copied and what is not.
abbrev gap : (front : List ℕ) (c : ℕ) (mid behind : List ℕ) → List ℕ
gap front c mid behind = front ++ c ∷ (mid ++ behind)

strcpy_loop-same :
    (rounds : ℕ) {dst dst' src src' : ℕ} {buf buf' : List ℕ}
    → dst ≡ dst'
    → src ≡ src'
    → buf ≡ buf'
    → strcpy_loop rounds dst src buf ≡ strcpy_loop rounds dst' src' buf'
strcpy_loop-same rounds d s b = cc (d, s, b)

get_or-behind :
    (front : List ℕ) (c : ℕ) (mid : List ℕ) (d : ℕ) (behind : List ℕ)
    → get_or (gap front c mid (d ∷ behind)) (length front + suc (length mid)) 0 ≡ d
get_or-behind front c mid d behind =
    rw (← length-append front (c ∷ mid), ← append_assoc front (c ∷ mid) (d ∷ behind))
      (get_or-here (front ++ c ∷ mid) d behind)

shift_byte :
    (rounds : ℕ) (front : List ℕ) (c : ℕ) (mid : List ℕ) (d : ℕ) (behind : List ℕ)
    → 0 < d
    → strcpy_loop
        (suc rounds)
        (length front)
        (length front + suc (length mid))
        (gap front c mid (d ∷ behind))
      ≡ strcpy_loop rounds
          (length front + 1)
          (length front + suc (length mid) + 1)
          (gap front d mid (d ∷ behind))
unfolding strcpy_loop
shift_byte rounds front c mid d behind h =
    let test : (d == 0) ≡ false = ground (arith, h) in
    rw (get_or-behind front c mid d behind, test, set-here front c d (mid ++ d ∷ behind)) refl

shift_rest :
    (left : List ℕ) (rounds : ℕ) (front : List ℕ) (c : ℕ) (mid tail : List ℕ)
    → NonNul left
    → length left < rounds
    → (mid' : List ℕ) × (length mid' ≡ length mid)
      × (strcpy_loop rounds
            (length front)
            (length front + suc (length mid))
            (gap front c mid (left ++ 0 ∷ tail))
          ≡ front ++ (left ++ 0 ∷ (mid' ++ 0 ∷ tail)))
unfolding strcpy_loop
shift_rest left zero front c mid tail h lt = absurd (omega (arith, lt))
shift_rest [] (suc rounds) front c mid tail h lt =
    (mid, refl, rw (get_or-behind front c mid 0 tail) (set-here front c 0 (mid ++ 0 ∷ tail)))
shift_rest (d ∷ left) (suc rounds) front c [] tail h lt =
    let more = shift_rest left rounds (front ++ d ∷ []) d [] tail h.1 (omega (arith, lt)) in
    let next = length-next front d in
    (
      more.0,
      more.1,
      shift_byte rounds front c [] d (left ++ 0 ∷ tail) h.0
          ∙ strcpy_loop-same rounds (sym next) (omega (arith, next))
              (sym (regroup front d (d ∷ (left ++ 0 ∷ tail))))
          ∙ more.2
          ∙ regroup front d (left ++ 0 ∷ (more.0 ++ 0 ∷ tail)),
    )
shift_rest (d ∷ left) (suc rounds) front c (m ∷ mid) tail h lt =
    let more =
      shift_rest left rounds (front ++ d ∷ []) m (mid ++ d ∷ []) tail h.1 (omega (arith, lt)) in
    let next = length-next front d in
    (
      more.0,
      omega (arith, more.1, length-next mid d),
      shift_byte rounds front c (m ∷ mid) d (left ++ 0 ∷ tail) h.0
          ∙ strcpy_loop-same rounds (sym next) (omega (arith, next, length-next mid d)) (
              ap (λ l. front ++ d ∷ (m ∷ l)) (sym (regroup mid d (left ++ 0 ∷ tail)))
              ∙ sym (regroup front d (m ∷ ((mid ++ d ∷ []) ++ (left ++ 0 ∷ tail)))))
          ∙ more.2
          ∙ regroup front d (left ++ 0 ∷ (more.0 ++ 0 ∷ tail)),
    )

-- The rest, up to its NUL, comes to the front; what stands behind its NUL stays.
pub strcpy_within-shift :
    (c : ℕ) (before left tail : List ℕ)
    → NonNul left
    → (mid : List ℕ) × (length mid ≡ length before)
      × (strcpy_within (suc (length before)) (c ∷ (before ++ (left ++ 0 ∷ tail)))
          ≡ left ++ 0 ∷ (mid ++ 0 ∷ tail))
unfolding strcpy_within
strcpy_within-shift c before left tail h =
    let size = length-append before (left ++ 0 ∷ tail) in
    let size' = length-append left (0 ∷ tail) in
    let whole = c ∷ (before ++ (left ++ 0 ∷ tail)) in
    let r = shift_rest left (suc (length whole)) [] c before tail h (omega (arith, size, size')) in
    let e : suc (length before) ≡ 0 + suc (length before) = omega arith in
    (r.0, r.1, ap (λ src. strcpy_loop (suc (length whole)) 0 src whole) e ∙ r.2)

-- The line that is not complete is moved to the front.
pub shifted :
    (before todo : List ℕ) (c : ℕ) (behind : List ℕ)
    → NonNul todo
    → length before ≢ 0
    → IsBuffer (before ++ (todo ++ c ∷ behind))
    → (tail : List ℕ) × (strcpy_within (length before) (before ++ (todo ++ 0 ∷ behind))
        ≡ todo ++ tail)
      × IsBuffer (strcpy_within (length before) (before ++ (todo ++ 0 ∷ behind)))
shifted [] todo c behind h ne good = absurd (ne refl)
shifted (b ∷ before) todo c behind h ne good =
    let r = strcpy_within-shift b before todo behind h in
    let cut : IsBuffer (((b ∷ before) ++ todo) ++ 0 ∷ behind) =
      cut-IsBuffer ((b ∷ before) ++ todo) c behind
        (rw (append_assoc (b ∷ before) todo (c ∷ behind)) good) in
    let size = r.1 in
    let place = append_assoc todo (0 ∷ r.0) (0 ∷ behind) in
    let same : length (todo ++ 0 ∷ r.0) ≡ length ((b ∷ before) ++ todo) =
      omega (arith, r.1, length-append todo (0 ∷ r.0), length-append (b ∷ before) todo) in
    let moved = front-IsBuffer ((b ∷ before) ++ todo) (todo ++ 0 ∷ r.0) 0 behind same cut in
    (0 ∷ (r.0 ++ 0 ∷ behind), r.2, subst IsBuffer (place ∙ sym r.2) moved)
