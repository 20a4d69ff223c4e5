-- ===== src/System/Programs.antt =====
-- `execute` keeps the kernel sound; a new program runs when there is room and the file is a program.
use mathlib.Core.Path.{subst}
use ece391_kernel.Base.{
  drop, ℕ, ◌+◌, ◌-◌, ◌<◌, ◌≤◌, ◌≡◌, ◌⊎◌, inl, inr, refl, sym, ap, ◌∙◌, ltb, leb, false, if_ind,
  List, Option, none, some, update, update_self, update-keeps, fill, fill_lem, arith, length, true,
  dec_lt,
}
use ece391_kernel.Base.Int.{ℤ, pos}
use ece391_kernel.FileSystem.Layout.{Dentry, is_minus_one}
use ece391_kernel.FileSystem.{read_dentry_by_name, check_validity, parse_command}
use ece391_kernel.State.{Kernel, FileArray}
use ece391_kernel.Console.Programs.{puts-SamePrograms}
use ece391_kernel.Process.{
  create_at, create_pcb, get_active_pcb, new_pcb, fresh_entry, scheduled, last_pid, parent_of,
}
use ece391_kernel.Process.Table.{count, listed}
use ece391_kernel.Process.Remove.{facts}
use ece391_kernel.Process.Create.{
  created, CanCreate, create_at-IsConsistent, count_new, by_block, pcb_other, listed_old, old_ne,
}
use ece391_kernel.Process.Alive.{alive, live, alive-update, find_loop_cases}
use ece391_kernel.SysCall.Ops.{AllOps}
use ece391_kernel.SysCall.Programs.{
  Transfer, returns, enters, resumes, faults, Locals, launched, launch, allocate, check_and_load,
  execute, shell, say, word, loaded_bytes, terminal_limit_message, program_limit_message,
}
use ece391_kernel.System.Sound.{IsProgram, SameTerminal, Kept, IsSound, same-IsSound}
use ece391_kernel.System.Files.{IsRunning}

fresh-AllOps : (files : FileArray) → AllOps (fill 8 (fresh_entry files) files)
fresh-AllOps files j lt absent = ground (arith, lt, fill_lem 8 (fresh_entry files) files j, absent)

module _ (k : Kernel) (pid : ℕ) (h : IsSound k) (room : count k k.console.cur_term_id ≤ 3)
    (can : CanCreate k pid) where
  abbrev cur : ℕ
  cur = k.console.cur_term_id

  abbrev k1 : Kernel
  k1 = created k pid

  alive_new : alive k1.pcbs 6 0 ≡ k.prog_counter + 1
  unfolding create_at
  alive_new =
      let dead : live (k.pcbs pid) ≡ 0 = rw can.free refl in
      omega (
        arith,
        dead,
        h.stable.live,
        alive-update k.pcbs (new_pcb k pid) pid 6 0 (omega arith) can.low,
      )

  current_new :
      k1.file_array ≡ some (listed k1 k1.console.cur_term_id (count k1 k1.console.cur_term_id - 1))
  unfolding create_at update
  current_new = ground arith

  few_new : (t : ℕ) → t < 3 → count k1 t ≤ 4
  few_new t tl =
      ground (arith, count_new k pid t, room, h.stable.few t tl, ap (count k) {x = t} {y = cur})

  IsRunning-new : IsRunning k1
  unfolding create_at
  IsRunning-new = ground (arith, count_new k pid cur)

  pub created-IsSound : k.prog_counter ≤ 5 → IsSound k1
  unfolding create_at
  created-IsSound total = record {
    stable = record {
      tables = create_at-IsConsistent k pid can;
      terminal = h.stable.terminal;
      live = alive_new;
      few = few_new;
      total = omega arith;
      ops = λ t i tl lt.
          by_block k pid (λ b. AllOps b.file_array) can t i tl lt
            (λ _ _. fresh-AllOps (k.pcbs pid).file_array) (h.stable.ops t i tl);
      types = h.stable.types;
      has_shell = h.stable.has_shell;
    };
    current = λ _. current_new;
  }

-- `create_pcb` in a sound state with fewer than six programs finds a dead block.
free_block :
    (k : Kernel)
    → IsSound k
    → k.prog_counter ≤ 5
    → (pid : ℕ) × CanCreate k pid × (create_pcb k ≡ create_at k (some pid))
unfolding create_pcb get_active_pcb
free_block k h total =
    let small : ltb 5 k.prog_counter ≡ false = ground arith in
    elim (find_loop_cases k.pcbs 6 0) [
      | inl full ↦ absurd (omega (arith, full.1, h.stable.live))
      | inr found ↦ (
        found.0,
        record {
          tables = h.stable.tables;
          terminal = h.stable.terminal;
          low = omega (arith, found.3);
          free = found.4;
        },
        rw (small, found.1) refl,
      )
    ]

pub launched-IsSound :
    (ebp pid : ℕ) (locals : Locals) (dentry : Dentry) (params : List ℕ) (k : Kernel)
    → IsSound k
    → IsSound (launched ebp pid locals dentry params k)
unfolding launched
launched-IsSound ebp pid locals dentry params k h =
    same-IsSound k (launched ebp pid locals dentry params k)
      (record {
        counts = λ t. refl;
        lists = λ t i. refl;
        number = refl;
        blocks = λ p. update-keeps k.pcbs pid _ facts refl p;
      })
      refl refl
      (λ p old. subst AllOps (sym (update-keeps k.pcbs pid _ (λ b. b.file_array) refl p)) old) refl
      h

say-IsSound : (message : List ℕ) (k : Kernel) → IsSound k → IsSound (say message k)
say-IsSound message k h =
    let same = puts-SamePrograms message k.console in
    same-IsSound k (say message k)
      (record {
        counts = λ t. ap (λ p. p.1) (same.programs t);
        lists = λ t i. ap (λ p. p.0 i) (same.programs t);
        number = refl;
        blocks = λ p. refl;
      })
      same.schedules refl (λ p all. all) refl h

-- Every program that runs in k still does in k', at its place in its list, with the frame pointer at which the timer
-- left it.
abbrev pub KeepsPrograms : Kernel → Kernel → Type 0
KeepsPrograms k k' =
    (t i : ℕ)
    → t < 3
    → i < count k t
    → (i < count k' t)
      × (listed k' t i ≡ listed k t i)
      × ((k'.pcbs (listed k t i)).term_ebp ≡ (k.pcbs (listed k t i)).term_ebp)

KeepsPrograms-refl : (k : Kernel) → KeepsPrograms k k
KeepsPrograms-refl k t i tl lt = (lt, refl, refl)

-- In k', a new program of the scheduled terminal of k starts; its block has the frame pointer of the call and,
-- as its parent, the program that ran there before, if one did.
abbrev pub Entered : (ebp : ℕ) → Kernel → Kernel → Type 0
Entered ebp k k' =
    IsSound k'
    × (k'.prog_counter ≡ k.prog_counter + 1)
    × IsRunning k'
    × SameTerminal k k'
    × (k'.program_exception_flag ≡ k.program_exception_flag)
    × ((k'.pcbs (last_pid (scheduled k'))).ebp ≡ ebp)
    × ((k'.pcbs (last_pid (scheduled k'))).parent_pcb_pointer ≡ parent_of (scheduled k))
    × KeepsPrograms k k'

-- What `execute` may do in state k: return with the same programs, or enter a new one.
abbrev pub Executed : (ebp : ℕ) → Kernel → Transfer → Type 0
Executed ebp k (returns z k') = Kept k k' × KeepsPrograms k k'
Executed ebp k (enters eip k') = Entered ebp k k'
Executed ebp k (resumes frame r k') = ⊥
Executed ebp k faults = ⊥

abbrev pub HasRoom : Kernel → Type 0
HasRoom k = (count k k.console.cur_term_id ≤ 3) × (k.prog_counter ≤ 5)

new_last :
    (ebp pid : ℕ) (locals : Locals) (dentry : Dentry) (params : List ℕ) (k : Kernel)
    → let k' = launched ebp pid locals dentry params (created k pid) in
      last_pid (scheduled k') ≡ pid
unfolding launched create_at update
new_last ebp pid locals dentry params k = ground arith

new_ebp :
    (ebp pid : ℕ) (locals : Locals) (dentry : Dentry) (params : List ℕ) (k : Kernel)
    → let k' = launched ebp pid locals dentry params (created k pid) in
      (k'.pcbs (last_pid (scheduled k'))).ebp ≡ ebp
unfolding launched
new_ebp ebp pid locals dentry params k =
    let k1 = created k pid in
    let k' = launched ebp pid locals dentry params k1 in
    ap (λ p. (k'.pcbs p).ebp) (new_last ebp pid locals dentry params k)
    ∙ ap (λ b. b.ebp) (update_self k1.pcbs pid _)

new_parent :
    (ebp pid : ℕ) (locals : Locals) (dentry : Dentry) (params : List ℕ) (k : Kernel)
    → let k' = launched ebp pid locals dentry params (created k pid) in
      (k'.pcbs (last_pid (scheduled k'))).parent_pcb_pointer ≡ parent_of (scheduled k)
unfolding launched create_at
new_parent ebp pid locals dentry params k =
    let k1 = created k pid in
    let k' = launched ebp pid locals dentry params k1 in
    ap (λ p. (k'.pcbs p).parent_pcb_pointer) (new_last ebp pid locals dentry params k)
    ∙ ap (λ b. b.parent_pcb_pointer) (update_self k1.pcbs pid _)
    ∙ ap (λ b. b.parent_pcb_pointer) (update_self k.pcbs pid (new_pcb k pid))

launched-KeepsPrograms :
    (ebp pid : ℕ) (locals : Locals) (dentry : Dentry) (params : List ℕ) (k : Kernel)
    → CanCreate k pid
    → KeepsPrograms k (launched ebp pid locals dentry params (created k pid))
unfolding launched
launched-KeepsPrograms ebp pid locals dentry params k can t i tl lt =
    let k1 = created k pid in
    (
      ground (arith, count_new k pid t, lt),
      listed_old k pid t i lt,
      update-keeps k1.pcbs pid _ (λ b. b.term_ebp) refl (listed k t i)
          ∙ ap (λ b. b.term_ebp) (pcb_other k pid (listed k t i) (old_ne k pid can t i tl lt)),
    )

launch_new :
    (ebp : ℕ) (locals : Locals) (dentry : Dentry) (params : List ℕ) (k : Kernel)
    → IsSound k
    → HasRoom k
    → (eip : ℕ) × (k' : Kernel) × (allocate ebp locals dentry params (create_pcb k) ≡ enters eip k')
      × Entered ebp k k'
unfolding launch launched create_at allocate
launch_new ebp locals dentry params k h room =
    let block = free_block k h room.1 in
    let pid = block.0 in
    let k1 = created k pid in
    (
      word (drop 24 (loaded_bytes pid dentry k1)),
      launched ebp pid locals dentry params k1,
      ap (allocate ebp locals dentry params) block.2,
      (
        launched-IsSound ebp pid locals dentry params k1
            (created-IsSound k pid h room.0 block.1 room.1),
        refl,
        IsRunning-new k pid h room.0 block.1,
        refl,
        refl,
        new_ebp ebp pid locals dentry params k,
        new_parent ebp pid locals dentry params k,
        launched-KeepsPrograms ebp pid locals dentry params k block.1,
      ),
    )

checked-Executed :
    (ebp : ℕ) (locals : Locals) (params : List ℕ) (found : ℤ × Option Dentry) (k : Kernel)
    → IsSound k
    → HasRoom k
    → Executed ebp k (check_and_load ebp locals params found k)
unfolding check_and_load
checked-Executed ebp locals params (r, none) k h room = ((h, refl, refl), KeepsPrograms-refl k)
checked-Executed ebp locals params (r, some dentry) k h room =
    let new = launch_new ebp locals dentry params k h room in
    if_ind (Executed ebp k) (is_minus_one r) (λ _. ((h, refl, refl), KeepsPrograms-refl k))
      (λ _.
        if_ind (Executed ebp k) (is_minus_one (check_validity k.fs locals.magic_buf dentry))
          (λ _. ((h, refl, refl), KeepsPrograms-refl k))
          (λ _. subst (Executed ebp k) (sym new.2) new.3))

said :
    (ebp : ℕ) (message : List ℕ) (k : Kernel)
    → IsSound k
    → Executed ebp k (returns (pos 1) (say message k))
said ebp message k h =
    let same = puts-SamePrograms message k.console in
    (
      (say-IsSound message k h, refl, same.schedules),
      λ t i tl lt. (
        subst (λ n. i < n) (sym (ap (λ p. p.1) (same.programs t))) lt,
        ap (λ p. p.0 i) (same.programs t),
        refl,
      ),
    )

-- The arguments and their NUL fit `params`.
abbrev pub Fits : List ℕ → Type 0
Fits command = length (parse_command command).1 ≤ 128

pub shell-Fits : Fits shell
unfolding parse_command
shell-Fits = omega arith

abbrev pub FitsIfAny : Option (List ℕ) → Type 0
FitsIfAny none = Unit
FitsIfAny (some command) = Fits command

-- In a sound state `execute` of no command, or of one whose arguments have at most 127 bytes, does not fault: either it returns, with as many programs as before, or it
-- enters a new program of the scheduled terminal, with one more; the state is sound in both cases, and every program
-- that ran still has its place and the frame pointer at which the timer left it.
pub execute-IsSound :
    (ebp : ℕ) (locals : Locals) (command : Option (List ℕ)) (k : Kernel)
    → IsSound k
    → FitsIfAny command
    → Executed ebp k (execute ebp locals command k)
unfolding execute
execute-IsSound ebp locals none k h fits = ((h, refl, refl), KeepsPrograms-refl k)
execute-IsSound ebp locals (some command) k h fits =
    let words = parse_command command in
    let found = read_dentry_by_name k.fs (some words.0) (some locals.exec_dentry) in
    if_ind (Executed ebp k) (leb 4 (scheduled k).term_prog_counter)
      (λ _. said ebp terminal_limit_message k h)
      (λ few.
        if_ind (Executed ebp k) (leb 6 k.prog_counter) (λ _. said ebp program_limit_message k h)
          (λ total.
            let short : ltb 128 (length words.1) ≡ false = ground (arith, fits) in
            rw short (
              checked-Executed ebp locals words.1 found k h
                (ground (arith, few), ground (arith, total)))))

-- For any command: it faults, or does what it may.
pub execute_cases :
    (ebp : ℕ) (locals : Locals) (command : Option (List ℕ)) (k : Kernel)
    → IsSound k
    → (execute ebp locals command k ≡ faults) ⊎ Executed ebp k (execute ebp locals command k)
unfolding execute
execute_cases ebp locals none k h = inr ((h, refl, refl), KeepsPrograms-refl k)
execute_cases ebp locals (some command) k h =
    let words = parse_command command in
    elim (dec_lt 128 (length words.1)) [
      | no fits ↦ inr (execute-IsSound ebp locals (some command) k h (omega (arith, fits)))
      | yes long ↦
          let P = λ (r : Transfer). (r ≡ faults) ⊎ Executed ebp k r in
          if_ind P (leb 4 (scheduled k).term_prog_counter)
            (λ _. inr (said ebp terminal_limit_message k h))
            (λ _.
              if_ind P (leb 6 k.prog_counter) (λ _. inr (said ebp program_limit_message k h))
                (λ _.
                  let over : ltb 128 (length words.1) ≡ true = ground (arith, long) in
                  rw over (inl refl)))
    ]

-- In a sound state with at most three programs in the scheduled terminal and at most five in all,
-- `execute` of a program's name with at most 127 bytes of arguments enters a new program, and the state in which it
-- starts is sound.
pub execute-enters :
    (ebp : ℕ) (locals : Locals) (command : List ℕ) (k : Kernel)
    → IsSound k
    → HasRoom k
    → Fits command
    → IsProgram locals command k.fs
    → (eip : ℕ) × (k' : Kernel) × (execute ebp locals (some command) k ≡ enters eip k')
      × Entered ebp k k'
unfolding execute check_and_load
execute-enters ebp locals command k h room fits program =
    let words = parse_command command in
    let new = launch_new ebp locals program.0 words.1 k h room in
    let few : leb 4 (scheduled k).term_prog_counter ≡ false = ground (arith, room.0) in
    let total : leb 6 k.prog_counter ≡ false = ground (arith, room.1) in
    let short : ltb 128 (length (parse_command command).1) ≡ false = ground (arith, fits) in
    (new.0, new.1, rw (few, total, short, program.1, program.2) new.2, new.3)
