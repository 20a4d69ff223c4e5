-- ===== src/Tests/Refused.antt =====
-- The error tests of syserr in the first shell of a terminal.
use ece391_kernel.Base.{◌≡◌, refl, false, [], replicate}
use ece391_kernel.Base.Int.{ℤ, pos, ◌-ℤ◌}
use ece391_kernel.Text.{strlen, strncmp}
use ece391_kernel.FileSystem.{read_dentry_by_name}
use ece391_kernel.FileSystem.Layout.{minus_one}
use ece391_kernel.State.{done}
use ece391_kernel.SysCall.{Machine}
use ece391_kernel.User.Errors.{run_test}
use ece391_kernel.User.Calls.{M}
use ece391_kernel.System.Calls.{kernel_calls}
use ece391_kernel.System.Descriptors.{IsOpen, launched-IsOpen}
use ece391_kernel.System.Strict.Openings.{HasNames}
use ece391_kernel.System.ErrorTests.{run_test-kernel_calls}
use ece391_kernel.Tests.Data.{shell_fs, shell_entry, dot_entry, no_keys}
use ece391_kernel.Tests.Whole.{boot, shell_kernel, garbage}

shell_names : HasNames shell_fs dot_entry
unfolding read_dentry_by_name strlen strncmp ◌-ℤ◌
shell_names = record {
  dentry = dot_entry;
  dot = refl;
  directory = refl;
  no_helloo = refl;
  no_shel = refl;
  no_empty = refl;
}

abbrev no_handlers : ℤ → M Machine ℤ
no_handlers num m = done (minus_one, m)

abbrev shell_machine : Machine
shell_machine = record {
  kernel = shell_kernel;
  keys = no_keys;
  rtc = record { rtc_counter_global = 0; rtc_exe_flag = false };
}

run_test-kernel_calls_example :
    (m' : Machine) × (run_test
        (kernel_calls dot_entry [] 0 no_handlers)
        (λ n. replicate 32 0)
        (pos 0)
        shell_machine
      ≡ done (0, m'))
    × IsOpen shell_fs 2 2 m'.kernel
run_test-kernel_calls_example =
    run_test-kernel_calls shell_fs dot_entry [] 0 no_handlers (λ n. replicate 32 0) (pos 0)
      shell_machine shell_names (launched-IsOpen 0x7fff00 0 garbage shell_entry [] boot)
