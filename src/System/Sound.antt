-- ===== src/System/Sound.antt =====
-- The invariant of the kernel's state.
use mathlib.Core.Path.{subst}
use ece391_kernel.Base.{ℕ, ◌-◌, ◌<◌, ◌≤◌, ◌≡◌, sym, ap, ap₂, ◌∙◌, some}
use ece391_kernel.Base.{List, false}
use ece391_kernel.Base.Int.{pos}
use ece391_kernel.State.{Kernel}
use ece391_kernel.FileSystem.Layout.{FileSystem, Dentry, is_minus_one}
use ece391_kernel.FileSystem.{read_dentry_by_name, check_validity, parse_command}
use ece391_kernel.SysCall.Programs.{Locals, shell}
use ece391_kernel.Process.Table.{count, listed, IsConsistent}
use ece391_kernel.Process.Same.{SameTables, same-IsConsistent}
use ece391_kernel.Process.Alive.{alive, alive-same}
use ece391_kernel.SysCall.Ops.{AllOps, KnownTypes}

-- The command's first word is the name of a file that is a program.
abbrev pub IsProgram : Locals → List ℕ → FileSystem → Type 0
IsProgram locals command fs =
    (d : Dentry) × (read_dentry_by_name fs (some (parse_command command).0)
        (some locals.exec_dentry)
      ≡ (pos 0, some d))
    × (is_minus_one (check_validity fs locals.magic_buf d) ≡ false)

-- The tables of processes agree; one of the three terminals is scheduled; `prog_counter` is the number of
-- live blocks; there are at most four programs in a terminal and six in total; every descriptor in use of
-- a program can be called; the disk has no entry of an unknown
-- type, and the shell is on it.
pub record IsStable (k : Kernel) : Type 0 where
  pub tables : IsConsistent k
  pub terminal : k.console.cur_term_id < 3
  pub live : alive k.pcbs 6 0 ≡ k.prog_counter
  pub few : (t : ℕ) → t < 3 → count k t ≤ 4
  pub total : k.prog_counter ≤ 6
  pub ops : (t i : ℕ) → t < 3 → i < count k t → AllOps (k.pcbs (listed k t i)).file_array
  pub types : KnownTypes k.fs
  pub has_shell : (locals : Locals) → IsProgram locals shell k.fs

-- `file_array` is that of the program that runs in the scheduled terminal, if one does.
abbrev pub IsCurrent : Kernel → Type 0
IsCurrent k =
    let cur = k.console.cur_term_id in
    0 < count k cur → k.file_array ≡ some (listed k cur (count k cur - 1))

pub record IsSound (k : Kernel) : Type 0 where
  pub stable : IsStable k
  pub current : IsCurrent k

-- The same terminal is scheduled.
abbrev pub SameTerminal : Kernel → Kernel → Type 0
SameTerminal k k' = k'.console.cur_term_id ≡ k.console.cur_term_id

-- A sound state with as many programs and the same terminal scheduled.
abbrev pub Kept : Kernel → Kernel → Type 0
Kept k k' = IsSound k' × (k'.prog_counter ≡ k.prog_counter) × SameTerminal k k'

module _ (k k' : Kernel) (same : SameTables k k') where
  -- The tables and the disk are the same, and the descriptors of each block can be called if they could.
  pub same-IsStable :
      k'.console.cur_term_id < 3
      → ((p : ℕ) → AllOps (k.pcbs p).file_array → AllOps (k'.pcbs p).file_array)
      → k'.fs ≡ k.fs
      → IsStable k
      → IsStable k'
  same-IsStable terminal files disk h = record {
    tables = same-IsConsistent k k' same h.tables;
    terminal = terminal;
    live =
        alive-same k.pcbs k'.pcbs 6 0 (λ p. ap (λ f. f.0) (same.blocks p))
        ∙ h.live
        ∙ sym same.number;
    few = λ t tl. subst (λ n. n ≤ 4) (sym (same.counts t)) (h.few t tl);
    total = subst (λ n. n ≤ 6) (sym same.number) h.total;
    ops = λ t i tl lt.
        subst (λ p. AllOps (k'.pcbs p).file_array) (sym (same.lists t i))
          (files (listed k t i) (h.ops t i tl (subst (λ n. i < n) (same.counts t) lt)));
    types = subst KnownTypes (sym disk) h.types;
    has_shell = λ locals. subst (IsProgram locals shell) (sym disk) (h.has_shell locals);
  }

  pub same-IsCurrent :
      k'.console.cur_term_id ≡ k.console.cur_term_id
      → k'.file_array ≡ k.file_array
      → IsCurrent k
      → IsCurrent k'
  same-IsCurrent terminal pointer h lt =
      let cur = k.console.cur_term_id in
      let counts : count k' k'.console.cur_term_id ≡ count k cur =
        ap (count k') terminal ∙ same.counts cur in
      pointer
      ∙ h (subst (λ n. 0 < n) counts lt)
      ∙ ap some (
          sym
            (ap₂ (listed k') terminal (ap (λ n. n - 1) counts) ∙ same.lists cur (count k cur - 1)))

  -- Nothing that the invariant is about changes.
  pub same-IsSound :
      k'.console.cur_term_id ≡ k.console.cur_term_id
      → k'.file_array ≡ k.file_array
      → ((p : ℕ) → AllOps (k.pcbs p).file_array → AllOps (k'.pcbs p).file_array)
      → k'.fs ≡ k.fs
      → IsSound k
      → IsSound k'
  same-IsSound terminal pointer files disk h = record {
    stable =
        same-IsStable (subst (λ t. t < 3) (sym terminal) h.stable.terminal) files disk h.stable;
    current = same-IsCurrent terminal pointer h.current;
  }

  pub same-Kept :
      k'.console.cur_term_id ≡ k.console.cur_term_id
      → k'.file_array ≡ k.file_array
      → ((p : ℕ) → AllOps (k.pcbs p).file_array → AllOps (k'.pcbs p).file_array)
      → k'.fs ≡ k.fs
      → IsSound k
      → Kept k k'
  same-Kept terminal pointer files disk h =
      (same-IsSound terminal pointer files disk h, same.number, terminal)
