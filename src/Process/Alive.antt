-- ===== src/Process/Alive.antt =====
-- The number of live blocks, and the search for a dead one.
use ece391_kernel.Base.{
  ℕ, zero, suc, ◌+◌, ◌<◌, ◌≤◌, ◌≡◌, ◌⊎◌, inl, inr, refl, ap, ap₂, ◌∙◌, ◌==◌, if◌then◌else◌, none,
  some, update, update_self, update-ne, arith, Bool-cases, ℕ_discrete,
}
use ece391_kernel.State.{Pcb}
use ece391_kernel.Process.{find_loop}

-- 1 for a live block, 0 for a dead one.
abbrev pub live : Pcb → ℕ
live b = if b.status == 0 then 0 else 1

-- The live ones of `rounds` blocks from `at` on.
unfoldable pub alive : (ℕ → Pcb) → (rounds at : ℕ) → ℕ
alive pcbs zero at = 0
alive pcbs (suc rounds) at = live (pcbs at) + alive pcbs rounds (at + 1)

pub alive-same :
    (pcbs pcbs' : ℕ → Pcb) (rounds at : ℕ)
    → ((p : ℕ) → (pcbs' p).status ≡ (pcbs p).status)
    → alive pcbs' rounds at ≡ alive pcbs rounds at
unfolding alive
alive-same pcbs pcbs' zero at same = refl
alive-same pcbs pcbs' (suc rounds) at same =
    ap₂ (λ s n. (if s == 0 then 0 else 1) + n) (same at)
      (alive-same pcbs pcbs' rounds (at + 1) same)

-- Dead blocks do not count.
pub alive-dead :
    (pcbs : ℕ → Pcb) (rounds at : ℕ)
    → ((p : ℕ) → at ≤ p → p < at + rounds → (pcbs p).status ≡ 0)
    → alive pcbs rounds at ≡ 0
unfolding alive
alive-dead pcbs zero at dead = refl
alive-dead pcbs (suc rounds) at dead =
    let here : live (pcbs at) ≡ 0 =
      ap (λ s. if s == 0 then 0 else 1) (dead at (omega arith) (omega arith)) in
    omega
      (arith, here, alive-dead pcbs rounds (at + 1) (λ p le lt. dead p (omega arith) (omega arith)))

-- A block below the range does not count.
alive-update_below :
    (pcbs : ℕ → Pcb) (b : Pcb) (p rounds at : ℕ)
    → p < at
    → alive (update pcbs p b) rounds at ≡ alive pcbs rounds at
unfolding alive
alive-update_below pcbs b p zero at lt = refl
alive-update_below pcbs b p (suc rounds) at lt =
    ap₂ (λ x n. live x + n) (update-ne pcbs b (omega arith))
      (alive-update_below pcbs b p rounds (at + 1) (omega arith))

-- Changing one block of the range changes the number by what it changes that block.
pub alive-update :
    (pcbs : ℕ → Pcb) (b : Pcb) (p rounds at : ℕ)
    → at ≤ p
    → p < at + rounds
    → alive (update pcbs p b) rounds at + live (pcbs p) ≡ alive pcbs rounds at + live b
unfolding alive
alive-update pcbs b p zero at le lt = absurd (omega arith)
alive-update pcbs b p (suc rounds) at le lt = elim (ℕ_discrete at p) [
  | yes e ↦
      let here : live (update pcbs p b at) ≡ live b =
        ap live (ap (update pcbs p b) e ∙ update_self pcbs p b) in
      let was : live (pcbs at) ≡ live (pcbs p) = ap (λ x. live (pcbs x)) e in
      omega (arith, here, was, alive-update_below pcbs b p rounds (at + 1) (omega arith))
  | no ne ↦
      let here : live (update pcbs p b at) ≡ live (pcbs at) = ap live (update-ne pcbs b ne) in
      omega (arith, here, alive-update pcbs b p rounds (at + 1) (omega arith) (omega arith))
]

-- The search finds a dead block, unless all are live.
pub find_loop_cases :
    (pcbs : ℕ → Pcb) (rounds at : ℕ)
    → (find_loop pcbs rounds at ≡ none) × (alive pcbs rounds at ≡ rounds)
      ⊎ ((p : ℕ) × (find_loop pcbs rounds at ≡ some p)
          × (at ≤ p)
          × (p < at + rounds)
          × ((pcbs p).status ≡ 0))
unfolding find_loop alive
find_loop_cases pcbs zero at = inl (refl, refl)
find_loop_cases pcbs (suc rounds) at = elim (Bool-cases ((pcbs at).status == 0)) [
  | inl dead ↦ inr (at, rw dead refl, omega arith, omega arith, ground (arith, dead))
  | inr here ↦ elim (find_loop_cases pcbs rounds (at + 1)) [
    | inl full ↦ inl (rw here full.0, rw here (omega (arith, full.1)))
    | inr found ↦
        inr (found.0, rw here found.1, omega (arith, found.2), omega (arith, found.3), found.4)
  ]
]
