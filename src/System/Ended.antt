-- ===== src/System/Ended.antt =====
-- The end of a program keeps the kernel's tables sound.
use mathlib.Core.Path.{subst}
use ece391_kernel.Base.{
  ℕ, ◌+◌, ◌<◌, ◌≡◌, refl, sym, ap, ◌∙◌, ◌==◌, if◌then◌else◌, none, some, update, update-keeps,
  update-rest, arith,
}
use ece391_kernel.Console.Programs.{clear-SamePrograms}
use ece391_kernel.State.{Kernel, Pcb, FileArray}
use ece391_kernel.Process.{scheduled}
use ece391_kernel.Process.Table.{count, listed}
use ece391_kernel.Process.Remove.{IsRemoved, removed-IsConsistent}
use ece391_kernel.Process.Alive.{alive, live, alive-same, alive-update}
use ece391_kernel.SysCall.Ops.{AllOps, KnownTypes}
use ece391_kernel.SysCall.Programs.{shell, with_stack, removed, emptied}
use ece391_kernel.SysCall.Programs.Halt.{child, closed, after, CanHalt, after-IsRemoved, pid_at-pos}
use ece391_kernel.System.Sound.{IsProgram, IsStable, IsSound}
use ece391_kernel.System.Files.{IsRunning, running, running-AllOps}

-- The last program of the scheduled terminal is off the list, its block is dead, and descriptors that could
-- be called still can.
pub record IsEnded (k k' : Kernel) (last : ℕ) : Type 0 where
  pub removed : IsRemoved k k' last
  pub terminal : k'.console.cur_term_id ≡ k.console.cur_term_id
  pub dead : alive k'.pcbs 6 0 + 1 ≡ alive k.pcbs 6 0
  pub files : (p : ℕ) → AllOps (k.pcbs p).file_array → AllOps (k'.pcbs p).file_array
  pub disk : k'.fs ≡ k.fs

pub ended-IsStable : (k k' : Kernel) (last : ℕ) → IsEnded k k' last → IsStable k → IsStable k'
ended-IsStable k k' last e h = record {
  tables = removed-IsConsistent k k' last e.removed;
  terminal = subst (λ t. t < 3) (sym e.terminal) h.terminal;
  live = omega (arith, e.dead, h.live, e.removed.number);
  few = λ t tl. ground (arith, e.removed.counts t, h.few t tl);
  total = omega (arith, e.removed.number, h.total);
  ops = λ t i tl lt.
      subst (λ p. AllOps (k'.pcbs p).file_array) (sym (e.removed.lists t i))
        (e.files (listed k t i) (h.ops t i tl (ground (arith, e.removed.counts t, lt))));
  types = subst KnownTypes (sym e.disk) h.types;
  has_shell = λ locals. subst (IsProgram locals shell) (sym e.disk) (h.has_shell locals);
}

module _ (k : Kernel) (h : IsSound k) (run : IsRunning k) where
  pub child-running : child k ≡ running k h run
  child-running = pid_at-pos (scheduled k) (scheduled k).term_prog_counter run

  pub child-AllOps : AllOps (k.pcbs (child k)).file_array
  child-AllOps =
      subst (λ p. AllOps (k.pcbs p).file_array) (sym child-running) (running-AllOps k h run)

  pub pointer-child : k.file_array ≡ some (child k)
  pointer-child = h.current run ∙ ap some (sym child-running)

  child_low : child k < 6
  child_low =
      subst (λ p. p < 6) (sym child-running)
        (h.stable.tables.listed_low k.console.cur_term_id _ h.stable.terminal (omega (arith, run)))

  child_live : live (k.pcbs (child k)) ≡ 1
  child_live =
      ap (λ p. live (k.pcbs p)) child-running
      ∙ ap (λ s. if s == 0 then 0 else 1)
          (h.stable.tables.listed_live k.console.cur_term_id _ h.stable.terminal
            (omega (arith, run)))

  module _ (files : FileArray) (all : AllOps files) where
    abbrev marked_pcb : Pcb
    marked_pcb = record (k.pcbs (child k)) { status = 0; parent_pcb_pointer = none }

    abbrev marked_pcbs : ℕ → Pcb
    marked_pcbs = update k.pcbs (child k) marked_pcb

    closed_dead : alive (closed k files).pcbs 6 0 + 1 ≡ alive k.pcbs 6 0
    closed_dead =
        let first : alive marked_pcbs 6 0 + live (k.pcbs (child k))
            ≡ alive k.pcbs 6 0 + live marked_pcb =
          alive-update k.pcbs marked_pcb (child k) 6 0 (omega arith) (omega (arith, child_low)) in
        let second : alive (closed k files).pcbs 6 0 ≡ alive marked_pcbs 6 0 =
          alive-same marked_pcbs (closed k files).pcbs 6 0 (
            update-keeps marked_pcbs (child k)
              (record (marked_pcbs (child k)) { file_array = files }) (λ b. b.status) refl) in
        omega (arith, first, second, child_live)

    closed_files :
        (p : ℕ) → AllOps (k.pcbs p).file_array → AllOps ((closed k files).pcbs p).file_array
    closed_files p old =
        update-rest marked_pcbs (child k) (record (marked_pcbs (child k)) { file_array = files })
          (λ b. AllOps b.file_array) all p
          (subst AllOps (sym (update-keeps k.pcbs (child k) marked_pcb (λ b. b.file_array) refl p))
            old)

    pub closed_ebp : ((closed k files).pcbs (child k)).ebp ≡ (k.pcbs (child k)).ebp
    closed_ebp =
        update-keeps marked_pcbs (child k) (record (marked_pcbs (child k)) { file_array = files })
          (λ b. b.ebp) refl (child k)
        ∙ update-keeps k.pcbs (child k) marked_pcb (λ b. b.ebp) refl (child k)

    pub closed_pid : (p : ℕ) → ((closed k files).pcbs p).pid ≡ (k.pcbs p).pid
    closed_pid p =
        update-keeps marked_pcbs (child k) (record (marked_pcbs (child k)) { file_array = files })
          (λ b. b.pid) refl p
        ∙ update-keeps k.pcbs (child k) marked_pcb (λ b. b.pid) refl p

    -- For a program with a parent.
    pub after-IsEnded :
        (parent : ℕ) → CanHalt k parent → IsEnded k (with_stack (after k files parent)) (child k)
    unfolding removed
    after-IsEnded parent can =
        let b = record ((closed k files).pcbs (child k)) { video_mem_flag = 0 } in
        record {
          removed = after-IsRemoved k files can;
          terminal = refl;
          dead =
              ap (λ n. n + 1)
                (alive-same (closed k files).pcbs (after k files parent).pcbs 6 0
                  (update-keeps (closed k files).pcbs (child k) b (λ b. b.status) refl))
              ∙ closed_dead;
          files = λ p old.
              subst AllOps
                (sym (update-keeps (closed k files).pcbs (child k) b (λ b. b.file_array) refl p))
                (closed_files p old);
          disk = refl;
        }

    -- For the first program of a terminal.
    pub emptied-IsEnded :
        count k k.console.cur_term_id ≡ 1 → IsEnded k (emptied (closed k files)) (child k)
    unfolding emptied update
    emptied-IsEnded single =
        let same = clear-SamePrograms _ in
        record {
          removed = record {
            tables = h.stable.tables;
            terminal = h.stable.terminal;
            some_run = run;
            last = child-running;
            counts = λ t. ap (λ p. p.1) (same.programs t) ∙ ground (arith, single);
            lists = λ t i. ap (λ p. p.0 i) (same.programs t) ∙ ground arith;
            number = refl;
            others = λ p ne. ground arith;
          };
          terminal = same.schedules;
          dead = closed_dead;
          files = closed_files;
          disk = refl;
        }
