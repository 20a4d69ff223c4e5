-- ===== src/Process/Create.antt =====
-- `create_pcb` takes the lowest dead block and keeps the tables consistent.
use mathlib.Core.Path.{subst}
use ece391_kernel.Base.{
  ℕ, zero, suc, ◌+◌, ◌<◌, ◌≤◌, ◌≡◌, ◌≢◌, ◌⊎◌, inl, inr, refl, sym, ap, ◌∙◌, true, false, ltb, ◌==◌,
  if◌then◌else◌, none, some, update, update_self, update-ne, arith,
}
use ece391_kernel.Base.Int.{pos}
use ece391_kernel.State.{Kernel, Pcb, Terminal}
use ece391_kernel.Process.{
  find_loop, get_active_pcb, create_at, create_pcb, scheduled, new_pcb, parent_of,
}
use ece391_kernel.Process.Table.{count, listed, IsConsistent}

find_loop_lem :
    (pcbs : ℕ → Pcb) (rounds n i : ℕ)
    → i < rounds
    → ((j : ℕ) → n ≤ j → j < n + i → (pcbs j).status ≢ 0)
    → (pcbs (n + i)).status ≡ 0
    → find_loop pcbs rounds n ≡ some (n + i)
unfolding find_loop
find_loop_lem pcbs zero n i lt used free = absurd (omega arith)
find_loop_lem pcbs (suc rounds) n zero lt used free =
    let here : ((pcbs n).status == 0) ≡ true =
      ground (arith, ap (λ j. (pcbs j).status) {x = n + 0} {y = n} (omega arith)) in
    rw here (ap some (omega arith))
find_loop_lem pcbs (suc rounds) n (suc i) lt used free =
    let here : ((pcbs n).status == 0) ≡ false =
      ground (arith, used n (omega arith) (omega arith)) in
    rw here (
      find_loop_lem pcbs rounds (n + 1) i (omega arith)
        (λ j le lt. used j (omega arith) (omega arith))
        (ap (λ j. (pcbs j).status) {x = n + 1 + i} {y = n + suc i} (omega arith) ∙ free)
      ∙ ap some (omega arith))

no_parent : (t : Terminal) → t.term_prog_counter ≡ 0 → parent_of t ≡ none
no_parent t e = rw e refl

has_parent :
    (t : Terminal) (i : ℕ) → t.term_prog_counter ≡ suc i → parent_of t ≡ some (t.prog_pids i)
has_parent t i e = let test : (suc i == 0) ≡ false = ground arith in rw (e, test) refl

module _ (k : Kernel) (pid : ℕ) where
  abbrev pub created : Kernel
  created = (create_at k (some pid)).1

  -- The block is dead, it is one of the six, and the scheduled terminal is one of the three.
  pub record CanCreate : Type 0 where
    pub tables : IsConsistent k
    pub terminal : k.console.cur_term_id < 3
    pub low : pid < 6
    pub free : (k.pcbs pid).status ≡ 0

  abbrev cur : ℕ
  cur = k.console.cur_term_id

  pcb_new : created.pcbs pid ≡ new_pcb k pid
  unfolding create_at
  pcb_new = update_self k.pcbs pid (new_pcb k pid)

  pub pcb_other : (p : ℕ) → p ≢ pid → created.pcbs p ≡ k.pcbs p
  unfolding create_at
  pcb_other p ne = update-ne k.pcbs (new_pcb k pid) ne

  -- A listed program is the new one, at the end of the scheduled terminal's list, or an old one.
  pub listed_cases :
      (t i : ℕ)
      → i < count created t
      → (t ≡ cur) × (i ≡ count k cur) × (listed created t i ≡ pid)
        ⊎ (i < count k t) × (listed created t i ≡ listed k t i)
  unfolding create_at update
  listed_cases t i lt = ground arith

  pub listed_old : (t i : ℕ) → i < count k t → listed created t i ≡ listed k t i
  unfolding create_at update
  listed_old t i lt = ground arith

  pub count_new : (t : ℕ) → count created t ≡ (if t == cur then count k t + 1 else count k t)
  unfolding create_at update
  count_new t = ground arith

  pub old_ne : CanCreate → (t i : ℕ) → t < 3 → i < count k t → listed k t i ≢ pid
  old_ne h t i tl lt e =
      let live = h.tables.listed_live t i tl lt in
      absurd (ground (arith, h.free, ap (λ p. (k.pcbs p).status) e))

  -- A property of the block of a listed program: of the new block, or of an old one.
  pub by_block :
      (P : Pcb → Type 0)
      → CanCreate
      → (t i : ℕ) → t < 3
      → i < count created t
      → (t ≡ cur → i ≡ count k cur → P (new_pcb k pid))
      → (i < count k t → P (k.pcbs (listed k t i)))
      → P (created.pcbs (listed created t i))
  by_block P h t i tl lt new old = elim (listed_cases t i lt) [
    | inl c ↦ subst (λ p. P (created.pcbs p)) (sym c.2) (subst P (sym pcb_new) (new c.0 c.1))
    | inr c ↦
        subst (λ p. P (created.pcbs p)) (sym c.1)
          (subst P (sym (pcb_other (listed k t i) (old_ne h t i tl c.0))) (old c.0))
  ]

  counted_new :
      CanCreate → created.prog_counter ≡ count created 0 + count created 1 + count created 2
  unfolding create_at
  counted_new h =
      rw (count_new 0, count_new 1, count_new 2) (ground (arith, h.terminal, h.tables.counted))

  once_new :
      CanCreate
      → (t i j : ℕ) → t < 3
      → i < count created t
      → j < count created t
      → listed created t i ≡ listed created t j
      → i ≡ j
  once_new h t i j tl li lj e = ground (
    arith,
    listed_cases t i li,
    listed_cases t j lj,
    old_ne h t i tl,
    old_ne h t j tl,
    h.tables.listed_once t i j tl,
  )

  pid_new :
      CanCreate
      → (t i : ℕ) → t < 3
      → i < count created t
      → (created.pcbs (listed created t i)).pid ≡ listed created t i
  pid_new h t i tl lt = elim (listed_cases t i lt) [
    | inl c ↦ ap (λ p. (created.pcbs p).pid) c.2 ∙ ap (λ b. b.pid) pcb_new ∙ sym c.2
    | inr c ↦
        ap (λ p. (created.pcbs p).pid) c.1
        ∙ ap (λ b. b.pid) (pcb_other (listed k t i) (old_ne h t i tl c.0))
        ∙ h.tables.listed_pid t i tl c.0
        ∙ sym c.1
  ]

  first_new :
      CanCreate
      → (t : ℕ) → t < 3
      → 0 < count created t
      → (created.pcbs (listed created t 0)).parent_pcb_pointer ≡ none
  first_new h t tl lt =
      by_block (λ b. b.parent_pcb_pointer ≡ none) h t 0 tl lt
        (λ _ e. no_parent (scheduled k) (sym e)) (h.tables.first_parent t tl)

  next_new :
      CanCreate
      → (t i : ℕ) → t < 3
      → suc i < count created t
      → (created.pcbs (listed created t (suc i))).parent_pcb_pointer ≡ some (listed created t i)
  next_new h t i tl lt =
      let kept : listed created t i ≡ listed k t i = listed_old t i (ground (arith, count_new t)) in
      by_block (λ b. b.parent_pcb_pointer ≡ some (listed created t i)) h t (suc i) tl lt
        (λ te ie.
          has_parent (scheduled k) i (sym ie)
          ∙ ap some (ap (λ x. listed k x i) (sym te) ∙ sym kept))
        (λ old. h.tables.next_parent t i tl old ∙ ap some (sym kept))

  -- With a dead block at hand, filling it in for the scheduled terminal keeps the tables consistent.
  pub create_at-IsConsistent : CanCreate → IsConsistent created
  create_at-IsConsistent h = record {
    counted = counted_new h;
    listed_low =
        λ t i tl lt. ground (arith, listed_cases t i lt, h.low, h.tables.listed_low t i tl);
    listed_live = λ t i tl lt.
        by_block (λ b. b.status ≡ 1) h t i tl lt (λ _ _. refl) (h.tables.listed_live t i tl);
    listed_own = λ t i tl lt.
        by_block (λ b. b.term_idx ≡ t) h t i tl lt (λ e _. sym e) (h.tables.listed_own t i tl);
    listed_pid = pid_new h;
    listed_once = once_new h;
    first_parent = first_new h;
    next_parent = next_new h;
  }

created_number : (k : Kernel) (pid : ℕ) → (create_at k (some pid)).0 ≡ pos pid
unfolding create_at
created_number k pid = refl

-- With consistent tables, one of the three terminals scheduled, `prog_counter` at most 5, and pid the
-- lowest dead block, one of the six: `create_pcb` returns pid, and the tables are consistent again.
pub create_pcb_lem :
    (k : Kernel) (pid : ℕ)
    → CanCreate k pid
    → k.prog_counter ≤ 5
    → ((j : ℕ) → j < pid → (k.pcbs j).status ≢ 0)
    → ((create_pcb k).0 ≡ pos pid) × IsConsistent (create_pcb k).1
unfolding create_pcb get_active_pcb
create_pcb_lem k pid h room used =
    let full : ltb 5 k.prog_counter ≡ false = ground arith in
    let found : find_loop k.pcbs 6 0 ≡ some pid =
      find_loop_lem k.pcbs 6 0 pid h.low (λ j _ lt. used j (omega arith))
        (ap (λ j. (k.pcbs j).status) {y = pid} (omega arith) ∙ h.free)
      ∙ ap some (omega arith) in
    let same : create_pcb k ≡ create_at k (some pid) = rw (full, found) refl in
    subst (λ r. (r.0 ≡ pos pid) × IsConsistent r.1) (sym same)
      (created_number k pid, create_at-IsConsistent k pid h)
