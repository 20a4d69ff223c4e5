-- ===== src/Console/Programs.antt =====
-- Output and input leave the lists of programs and the scheduled terminal as they are.
use ece391_kernel.Base.{ℕ, List, [], ◌∷◌, ◌≡◌, ◌∙◌, refl, ◌==◌, if_ind, update, arith}
use ece391_kernel.State.{Console, Terminal}
use ece391_kernel.Console.{clear, scroll, putc_cell, putc, puts}

-- The part of a terminal that lists its programs.
abbrev pub programs_of : Terminal → (ℕ → ℕ) × ℕ
programs_of t = (t.prog_pids, t.term_prog_counter)

pub record SamePrograms (k k' : Console) : Type 0 where
  pub schedules : k'.cur_term_id ≡ k.cur_term_id
  pub programs : (t : ℕ) → programs_of (k'.terminals t) ≡ programs_of (k.terminals t)

pub same_refl : (k : Console) → SamePrograms k k
same_refl k = record { schedules = refl; programs = λ t. refl }

pub same_trans : (a b c : Console) → SamePrograms a b → SamePrograms b c → SamePrograms a c
same_trans a b c p q = record {
  schedules = q.schedules ∙ p.schedules;
  programs = λ t. q.programs t ∙ p.programs t;
}

putc_cell-SamePrograms : (c : ℕ) (k : Console) → SamePrograms k (putc_cell c k)
unfolding putc_cell update
putc_cell-SamePrograms c k = record { schedules = ground arith; programs = λ t. ground arith }

scroll-SamePrograms : (k : Console) → SamePrograms k (scroll k)
unfolding scroll update
scroll-SamePrograms k = record { schedules = refl; programs = λ t. ground arith }

pub clear-SamePrograms : (k : Console) → SamePrograms k (clear k)
unfolding clear update
clear-SamePrograms k = record { schedules = refl; programs = λ t. ground arith }

pub putc-SamePrograms : (c : ℕ) (k : Console) → SamePrograms k (putc c k)
unfolding putc
putc-SamePrograms c k =
    let k1 = putc_cell c k in
    let s1 = putc_cell-SamePrograms c k in
    let s2 = scroll-SamePrograms k1 in
    record {
      schedules = ground (arith, s1.schedules, s2.schedules);
      programs = λ t. ground (arith, s1.programs t, s2.programs t);
    }

pub puts-SamePrograms : (s : List ℕ) (k : Console) → SamePrograms k (puts s k)
unfolding puts
puts-SamePrograms [] k = same_refl k
puts-SamePrograms (c ∷ s) k =
    if_ind (SamePrograms k) (c == 0) (λ _. same_refl k)
      (λ _.
        same_trans k (putc c k) (puts s (putc c k)) (putc-SamePrograms c k)
          (puts-SamePrograms s (putc c k)))
