-- ===== src/Process/Same.antt =====
-- Steps that leave the tables of processes as they are.
use mathlib.Core.Path.{subst}
use ece391_kernel.Base.{ℕ, suc, ◌<◌, ◌≡◌, sym, ap, ◌∙◌, Option, none, some}
use ece391_kernel.State.{Kernel}
use ece391_kernel.Process.Table.{count, listed, IsConsistent}
use ece391_kernel.Process.Remove.{facts}

pub record SameTables (k k' : Kernel) : Type 0 where
  pub counts : (t : ℕ) → count k' t ≡ count k t
  pub lists : (t i : ℕ) → listed k' t i ≡ listed k t i
  pub number : k'.prog_counter ≡ k.prog_counter
  pub blocks : (p : ℕ) → facts (k'.pcbs p) ≡ facts (k.pcbs p)

module _ (k k' : Kernel) (same : SameTables k k') (h : IsConsistent k) where
  fewer : (t i : ℕ) → i < count k' t → i < count k t
  fewer t i = subst (λ n. i < n) (same.counts t)

  kept :
      (P : ℕ × ℕ × Option ℕ × ℕ → Type 0) (t i : ℕ)
      → P (facts (k.pcbs (listed k t i)))
      → P (facts (k'.pcbs (listed k' t i)))
  kept P t i p =
      subst (λ x. P (facts (k'.pcbs x))) (sym (same.lists t i))
        (subst P (sym (same.blocks (listed k t i))) p)

  pub same-IsConsistent : IsConsistent k'
  same-IsConsistent = record {
    counted = rw (same.number, same.counts 0, same.counts 1, same.counts 2) h.counted;
    listed_low =
        λ t i tl lt. subst (λ x. x < 6) (sym (same.lists t i)) (h.listed_low t i tl (fewer t i lt));
    listed_live = λ t i tl lt. kept (λ f. f.0 ≡ 1) t i (h.listed_live t i tl (fewer t i lt));
    listed_own = λ t i tl lt. kept (λ f. f.1 ≡ t) t i (h.listed_own t i tl (fewer t i lt));
    listed_pid = λ t i tl lt.
        kept (λ f. f.3 ≡ listed k' t i) t i
          (h.listed_pid t i tl (fewer t i lt) ∙ sym (same.lists t i));
    listed_once = λ t i j tl li lj e.
        h.listed_once t i j tl (fewer t i li) (fewer t j lj)
          (sym (same.lists t i) ∙ e ∙ same.lists t j);
    first_parent = λ t tl lt. kept (λ f. f.2 ≡ none) t 0 (h.first_parent t tl (fewer t 0 lt));
    next_parent = λ t i tl lt.
        kept (λ f. f.2 ≡ some (listed k' t i)) t (suc i)
          (h.next_parent t i tl (fewer t (suc i) lt) ∙ ap some (sym (same.lists t i)));
  }
