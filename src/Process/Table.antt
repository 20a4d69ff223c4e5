-- ===== src/Process/Table.antt =====
-- When the process blocks, the lists of the terminals and the counters agree.
use ece391_kernel.Base.{ℕ, suc, ◌+◌, ◌<◌, ◌≡◌, none, some}
use ece391_kernel.State.{Kernel}

module _ (k : Kernel) where
  abbrev pub count : ℕ → ℕ
  count t = (k.console.terminals t).term_prog_counter

  abbrev pub listed : ℕ → ℕ → ℕ
  listed t i = (k.console.terminals t).prog_pids i

  -- `prog_counter` is the number of listed programs; each listed number is that of a live block of its
  -- terminal, once, and stands in the block; the first program of a terminal has no parent, and each other one has the program
  -- before it in the list.
  pub record IsConsistent : Type 0 where
    pub counted : k.prog_counter ≡ count 0 + count 1 + count 2
    pub listed_low : (t i : ℕ) → t < 3 → i < count t → listed t i < 6
    pub listed_live : (t i : ℕ) → t < 3 → i < count t → (k.pcbs (listed t i)).status ≡ 1
    pub listed_own : (t i : ℕ) → t < 3 → i < count t → (k.pcbs (listed t i)).term_idx ≡ t
    pub listed_pid : (t i : ℕ) → t < 3 → i < count t → (k.pcbs (listed t i)).pid ≡ listed t i
    pub listed_once :
        (t i j : ℕ) → t < 3 → i < count t → j < count t → listed t i ≡ listed t j → i ≡ j
    pub first_parent :
        (t : ℕ) → t < 3 → 0 < count t → (k.pcbs (listed t 0)).parent_pcb_pointer ≡ none
    pub next_parent :
        (t i : ℕ)
        → t < 3
        → suc i < count t
        → (k.pcbs (listed t (suc i))).parent_pcb_pointer ≡ some (listed t i)
