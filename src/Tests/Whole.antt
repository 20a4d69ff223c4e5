-- ===== src/Tests/Whole.antt =====
-- The theorems on the whole kernel, on a kernel with two programs.
use ece391_kernel.Base.{
  ℕ, zero, suc, ◌≡◌, ◌≢◌, refl, arith, true, false, ◌==◌, if◌then◌else◌, [], ◌∷◌, some, update,
}
use ece391_kernel.Base.Int.{pos, ◌-ℤ◌}
use ece391_kernel.Text.{strlen, strncmp}
use ece391_kernel.State.{Kernel}
use ece391_kernel.Keyboard.{terminal_read_begin}
use ece391_kernel.Paging.Walk.{translate}
use ece391_kernel.Process.{create_at}
use ece391_kernel.Process.Table.{count, listed}
use ece391_kernel.Process.Create.{CanCreate, created}
use ece391_kernel.Process.Alive.{alive}
use ece391_kernel.FileSystem.{read_dentry_by_name, parse_command, check_validity}
use ece391_kernel.SysCall.Ops.{KnownTypes}
use ece391_kernel.SysCall.{Machine, table_of}
use ece391_kernel.SysCall.Programs.{
  returns, enters, resumes, Locals, launched, execute, halt, shell,
}
use ece391_kernel.Scheduling.{pit_handler}
use ece391_kernel.Paging.{setup_paging}
use ece391_kernel.System.Sound.{IsSound, IsProgram, SameTerminal}
use ece391_kernel.System.Files.{IsRunning}
use ece391_kernel.System.Return.{execute-halt}
use ece391_kernel.System.Timer.{Timed, pit_handler-IsSound, pit_handler-starved}
use ece391_kernel.System.Runs.{Runs}
use ece391_kernel.System.Isolation.{programs_apart}
use ece391_kernel.System.Programs.{
  HasRoom, Entered, Executed, execute-IsSound, execute-enters, shell-Fits, launched-IsSound,
  created-IsSound,
}
use ece391_kernel.Tests.Data.{boot_kernel, shell_fs, shell_entry, dot_entry, linked_at, no_keys}

abbrev pub garbage : Locals
garbage = record { params = []; exec_dentry = dot_entry; magic_buf = [] }

abbrev pub boot : Kernel
boot = record boot_kernel { fs = shell_fs }

pub shell_types : KnownTypes shell_fs
unfolding table_of
shell_types zero lt e = ground (arith, e)
shell_types (suc k) lt e = ground (arith, e)

pub shell_there : (locals : Locals) → IsProgram locals shell shell_fs
unfolding read_dentry_by_name parse_command check_validity strlen strncmp ◌-ℤ◌
shell_there locals = (shell_entry, refl, refl)

boot-IsSound : IsSound boot
unfolding alive
boot-IsSound = record {
  stable = record {
    tables = record {
      counted = refl;
      listed_low = λ t i tl lt. absurd (omega arith);
      listed_live = λ t i tl lt. absurd (omega arith);
      listed_own = λ t i tl lt. absurd (omega arith);
      listed_pid = λ t i tl lt. absurd (omega arith);
      listed_once = λ t i j tl li lj e. absurd (omega arith);
      first_parent = λ t tl lt. absurd (omega arith);
      next_parent = λ t i tl lt. absurd (omega arith);
    };
    terminal = omega arith;
    live = refl;
    few = λ t tl. omega arith;
    total = omega arith;
    ops = λ t i tl lt. absurd (omega arith);
    types = shell_types;
    has_shell = shell_there;
  };
  current = λ lt. absurd (omega arith);
}

-- Process 0 is the shell.
abbrev pub shell_kernel : Kernel
shell_kernel = launched 0x7fff00 0 garbage shell_entry [] (created boot 0)

shell-IsSound : IsSound shell_kernel
unfolding launched create_at
shell-IsSound = launched-IsSound 0x7fff00 0 garbage shell_entry [] (created boot 0) (
    created-IsSound boot 0 boot-IsSound (omega arith)
      (record {
        tables = boot-IsSound.stable.tables;
        terminal = omega arith;
        low = omega arith;
        free = refl;
      })
      (omega arith))

one_can_start : CanCreate shell_kernel 1
unfolding launched create_at update
one_can_start = record {
  tables = shell-IsSound.stable.tables;
  terminal = omega arith;
  low = omega arith;
  free = refl;
}

one_room : HasRoom shell_kernel
unfolding launched create_at update
one_room = (omega arith, omega arith)

-- Process 1 is a shell that process 0 started.
abbrev pub two_kernel : Kernel
two_kernel = launched 0x7fdf80 1 garbage shell_entry [] (created shell_kernel 1)

pub two-IsSound : IsSound two_kernel
two-IsSound =
    launched-IsSound 0x7fdf80 1 garbage shell_entry [] (created shell_kernel 1)
      (created-IsSound shell_kernel 1 shell-IsSound one_room.0 one_can_start one_room.1)

two_run : (count two_kernel 0 ≡ 2) × (listed two_kernel 0 0 ≡ 0) × (listed two_kernel 0 1 ≡ 1)
unfolding launched create_at update
two_run = (refl, refl, refl)

pub two_runs : IsRunning two_kernel
unfolding launched create_at update
two_runs = omega arith

execute-IsSound_example :
    Executed 0x7fdf00 two_kernel (execute 0x7fdf00 garbage (some (99 ∷ 0 ∷ [])) two_kernel)
unfolding parse_command
execute-IsSound_example =
    execute-IsSound 0x7fdf00 garbage (some (99 ∷ 0 ∷ [])) two_kernel two-IsSound (omega arith)

execute-enters_example :
    (eip : ℕ) × (k' : Kernel) × (execute 0x7fff00 garbage (some shell) shell_kernel ≡ enters eip k')
    × Entered 0x7fff00 shell_kernel k'
unfolding launched create_at
execute-enters_example =
    execute-enters 0x7fff00 garbage shell shell_kernel shell-IsSound one_room shell-Fits
      (shell_there garbage)

one_runs : IsRunning shell_kernel
unfolding launched create_at update
one_runs = omega arith

execute-halt_example :
    (eip : ℕ) × (k1 : Kernel) × (k2 : Kernel) × (execute 0x7fff00 garbage (some shell) shell_kernel
      ≡ enters eip k1)
    × (halt 0x7fdf00 garbage 7 k1 ≡ resumes 0x7fff00 7 k2)
    × IsSound k2
    × (k2.prog_counter ≡ shell_kernel.prog_counter)
    × SameTerminal shell_kernel k2
    × (k2.file_array ≡ shell_kernel.file_array)
unfolding launched create_at
execute-halt_example =
    execute-halt 0x7fff00 0x7fdf00 7 garbage garbage shell shell_kernel shell-IsSound one_runs
      one_room shell-Fits (shell_there garbage) refl

pit_handler-IsSound_example :
    Timed two_kernel 0x7fdf00
      (if two_kernel.prog_counter == 0 then 0 else 1)
      (pit_handler 0x7fdf00 garbage two_kernel)
unfolding launched create_at
pit_handler-IsSound_example = pit_handler-IsSound 0x7fdf00 garbage two_kernel two-IsSound

-- Six programs, none of them in terminal 1.
abbrev full_kernel : Kernel
full_kernel = record boot { prog_counter = 6; file_array = some 5 }

pit_handler-starved_example :
    (k' : Kernel) × (pit_handler 0x7fdf00 garbage full_kernel ≡ returns (pos 1) k')
    × (k'.console.cur_term_id ≡ 1)
    × (count k' 1 ≡ 0)
    × (k'.file_array ≡ some 5)
pit_handler-starved_example = pit_handler-starved 0x7fdf00 garbage full_kernel refl refl

abbrev machine : Machine
machine = record {
  kernel = two_kernel;
  keys = no_keys;
  rtc = record { rtc_counter_global = 0; rtc_exe_flag = false };
}

-- The program waits for a line.
abbrev waiting : Kernel
waiting = record two_kernel { console = terminal_read_begin two_kernel.console }

programs_apart_example :
    translate linked_at (setup_paging (listed two_kernel 0 0) two_kernel.tables) true 0x8048000
    ≢ translate linked_at (setup_paging (listed two_kernel 0 1) two_kernel.tables) true 0x8048004
programs_apart_example =
    programs_apart two_kernel linked_at 0 0 0 1 0x8048000 0x8048004 two-IsSound (omega arith)
      (omega arith) (omega (arith, two_run.0)) (omega (arith, two_run.0)) (λ _. omega arith)
      (omega arith, omega arith) (omega arith, omega arith)
