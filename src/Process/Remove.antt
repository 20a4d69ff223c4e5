-- ===== src/Process/Remove.antt =====
-- Taking the last program of the scheduled terminal off its list keeps the tables consistent.
use mathlib.Core.Path.{subst}
use ece391_kernel.Base.{
  ℕ, suc, ◌-◌, ◌<◌, ◌≡◌, ◌≢◌, sym, ap, ◌∙◌, ◌==◌, if◌then◌else◌, Option, none, some, arith,
  ℕ_discrete,
}
use ece391_kernel.State.{Kernel, Pcb}
use ece391_kernel.Process.Table.{count, listed, IsConsistent}

-- What the tables tell about a block.
abbrev pub facts : Pcb → ℕ × ℕ × Option ℕ × ℕ
facts b = (b.status, b.term_idx, b.parent_pcb_pointer, b.pid)

module _ (k k' : Kernel) where
  abbrev cur : ℕ
  cur = k.console.cur_term_id

  -- `child` is the last program of the scheduled terminal; after, it is off the list and counted no more, and
  -- every other block tells the same.
  pub record IsRemoved (child : ℕ) : Type 0 where
    pub tables : IsConsistent k
    pub terminal : cur < 3
    pub some_run : 0 < count k cur
    pub last : child ≡ listed k cur (count k cur - 1)
    pub counts : (t : ℕ) → count k' t ≡ (if t == cur then count k t - 1 else count k t)
    pub lists : (t i : ℕ) → listed k' t i ≡ listed k t i
    pub number : k'.prog_counter ≡ k.prog_counter - 1
    pub others : (p : ℕ) → p ≢ child → facts (k'.pcbs p) ≡ facts (k.pcbs p)

  module _ (child : ℕ) (h : IsRemoved child) where
    still : (t i : ℕ) → i < count k' t → i < count k t
    still t i lt = ground (arith, h.counts t)

    not_child : (t i : ℕ) → t < 3 → i < count k' t → listed k t i ≢ child
    not_child t i tl lt e = elim (ℕ_discrete t cur) [
      | yes same ↦ absurd (
          ground (
            arith,
            h.last,
            h.tables.listed_once t i (count k cur - 1) tl (still t i lt),
            h.counts t,
            h.some_run,
            ap (count k) same,
            ap (λ x. listed k x i) same,
          ))
      | no other ↦
          let here = h.tables.listed_own t i tl (still t i lt) in
          let there =
            h.tables.listed_own cur (count k cur - 1) h.terminal (ground (arith, h.some_run)) in
          absurd (other (sym here ∙ ap (λ p. (k.pcbs p).term_idx) (e ∙ h.last) ∙ there))
    ]

    kept :
        (P : ℕ × ℕ × Option ℕ × ℕ → Type 0) (t i : ℕ)
        → t < 3
        → i < count k' t
        → P (facts (k.pcbs (listed k t i)))
        → P (facts (k'.pcbs (listed k' t i)))
    kept P t i tl lt p =
        subst (λ x. P (facts (k'.pcbs x))) (sym (h.lists t i))
          (subst P (sym (h.others (listed k t i) (not_child t i tl lt))) p)

    pub removed-IsConsistent : IsConsistent k'
    removed-IsConsistent = record {
      counted =
          rw (h.number, h.counts 0, h.counts 1, h.counts 2)
            (ground (
              arith,
              h.terminal,
              h.some_run,
              h.tables.counted,
              ap (count k) {x = cur} {y = 0},
              ap (count k) {x = cur} {y = 1},
              ap (count k) {x = cur} {y = 2},
            ));
      listed_low = λ t i tl lt.
          subst (λ x. x < 6) (sym (h.lists t i)) (h.tables.listed_low t i tl (still t i lt));
      listed_live =
          λ t i tl lt. kept (λ f. f.0 ≡ 1) t i tl lt (h.tables.listed_live t i tl (still t i lt));
      listed_own =
          λ t i tl lt. kept (λ f. f.1 ≡ t) t i tl lt (h.tables.listed_own t i tl (still t i lt));
      listed_pid = λ t i tl lt.
          kept (λ f. f.3 ≡ listed k' t i) t i tl lt
            (h.tables.listed_pid t i tl (still t i lt) ∙ sym (h.lists t i));
      listed_once = λ t i j tl li lj e.
          h.tables.listed_once t i j tl (still t i li) (still t j lj)
            (sym (h.lists t i) ∙ e ∙ h.lists t j);
      first_parent =
          λ t tl lt. kept (λ f. f.2 ≡ none) t 0 tl lt (h.tables.first_parent t tl (still t 0 lt));
      next_parent = λ t i tl lt.
          kept (λ f. f.2 ≡ some (listed k' t i)) t (suc i) tl lt
            (h.tables.next_parent t i tl (still t (suc i) lt) ∙ ap some (sym (h.lists t i)));
    }
