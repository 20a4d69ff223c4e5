-- ===== src/Tests/Processes.antt =====
-- The theorems on processes, descriptors and scheduling.
use ece391_kernel.Base.{◌≡◌, refl, arith, true, ◌==◌, if◌then◌else◌, [], ◌∷◌, none, some, update}
use ece391_kernel.Base.Int.{pos}
use ece391_kernel.FileSystem.Lookup.{read_dentry_by_name-found}
use ece391_kernel.State.{Kernel, regular_file_op_table, done}
use ece391_kernel.Paging.Walk.{translate}
use ece391_kernel.Process.Table.{IsConsistent}
use ece391_kernel.Process.Create.{created, create_at-IsConsistent}
use ece391_kernel.SysCall.{open_in, close_in, free_loop, table_of}
use ece391_kernel.SysCall.Descriptors.{CanOpen, opened_entry, close_in-open_in}
use ece391_kernel.SysCall.Programs.{getargs, resumes, Locals}
use ece391_kernel.SysCall.Programs.Args.{getargs_lem}
use ece391_kernel.Scheduling.{pit_handler}
use ece391_kernel.Scheduling.RoundRobin.{pit_handler-resumes}
use ece391_kernel.Tests.Data.{
  boot_kernel, blank_console, idle_terminal, dead_pcb, small_fs, cat_name, cat_entry, dot_entry,
  no_files, linked_at,
}
use ece391_kernel.Tests.Files.{names, not_before, cat_short}

-- Process 0 runs the shell in terminal 0.
abbrev shell_kernel : Kernel
shell_kernel = created boot_kernel 0

boot_tables : IsConsistent boot_kernel
boot_tables = record {
  counted = refl;
  listed_low = λ t i tl lt. absurd (omega arith);
  listed_live = λ t i tl lt. absurd (omega arith);
  listed_own = λ t i tl lt. absurd (omega arith);
  listed_pid = λ t i tl lt. absurd (omega arith);
  listed_once = λ t i j tl li lj e. absurd (omega arith);
  first_parent = λ t tl lt. absurd (omega arith);
  next_parent = λ t i tl lt. absurd (omega arith);
}

shell_tables : IsConsistent shell_kernel
shell_tables =
    create_at-IsConsistent boot_kernel 0
      (record { tables = boot_tables; terminal = omega arith; low = omega arith; free = refl })

can_open : CanOpen small_fs dot_entry cat_entry (some cat_name) no_files regular_file_op_table 2
unfolding table_of
can_open = record {
  found =
      read_dentry_by_name-found small_fs cat_name (omega arith) names 1 dot_entry cat_short
        (omega arith) refl not_before;
  known = refl;
  low = omega arith;
  high = omega arith;
  used = λ j le lt. absurd (omega arith);
  free = refl;
}

close_in-open_in_example :
    let closed = update no_files 2 (record (opened_entry regular_file_op_table 1) { flags = 0 }) in
    (close_in (pos 2) (open_in small_fs dot_entry (some cat_name) no_files).1
      ≡ done (pos 0, closed))
    × (free_loop closed 6 2 ≡ 2)
close_in-open_in_example =
    close_in-open_in small_fs dot_entry cat_entry (some cat_name) no_files regular_file_op_table 2
      can_open

-- A program in each terminal, with the argument "a", and switched away from before.
abbrev three_programs : Kernel
three_programs = record boot_kernel {
  console = record blank_console {
    terminals = λ t. record idle_terminal { prog_pids = λ _. t; term_prog_counter = 1 };
  };
  pcbs =
      λ p. record dead_pcb { status = 1; pid = p; params = 97 ∷ 0 ∷ 5 ∷ []; term_ebp = 0x7fdf00 };
  prog_counter = 3;
}

abbrev garbage : Locals
garbage = record { params = []; exec_dentry = dot_entry; magic_buf = [] }

getargs_lem_example : getargs (pos 2) three_programs ≡ (pos 0, 97 ∷ 0 ∷ [])
getargs_lem_example =
    getargs_lem three_programs (97 ∷ []) (5 ∷ []) 2 refl (omega arith) (omega arith)

pit_handler-resumes_example :
    (k' : Kernel) × (pit_handler 0x7fff00 garbage three_programs ≡ resumes 0x7fdf00 0 k')
    × (k'.console.cur_term_id ≡ 1)
    × (k'.file_array ≡ some 1)
    × ((k'.pcbs 0).term_ebp ≡ 0x7fff00)
    × (k'.tss_esp0 ≡ 0x7fe000)
    × (translate linked_at k'.tables true 0x8048000 ≡ some 0xc48000)
pit_handler-resumes_example =
    pit_handler-resumes three_programs 0x7fff00 garbage linked_at (record {
      some_run = λ e. absurd (omega arith);
      next_runs = λ e. absurd (omega arith);
      saved = λ e. absurd (omega arith);
      other = λ e. absurd (omega arith);
      few = omega arith;
    })

-- Two programs in terminal 0, the second started by the first.
abbrev two_programs : Kernel
two_programs = record boot_kernel {
  console = record blank_console {
    terminals = λ t. record idle_terminal {
      prog_pids = λ i. i;
      term_prog_counter = if t == 0 then 2 else 0;
    };
  };
  pcbs = λ p. record dead_pcb {
    status = 1;
    pid = p;
    ebp = 0x7fdf80;
    parent_pcb_pointer = if p == 0 then none else some 0;
  };
  file_array = some 1;
  prog_counter = 2;
}
