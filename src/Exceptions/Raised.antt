-- ===== src/Exceptions/Raised.antt =====
-- An exception ends the running program, and the kernel stays sound.
use ece391_kernel.Base.{ℕ, ◌+◌, ◌≡◌, true, false}
use ece391_kernel.State.{Kernel, Console}
use ece391_kernel.Process.{last_pid, scheduled}
use ece391_kernel.SysCall.Programs.{Transfer, returns, enters, resumes, faults}
use ece391_kernel.Exceptions.{Registers, report}
use ece391_kernel.System.Sound.{IsSound}
use ece391_kernel.System.Halt.{GoesOn}

-- With the report on the screen and the flag set.
abbrev raised : (stack : ℕ → ℕ) → Registers → (exp_id : ℕ) → Kernel → Kernel
raised stack registers exp_id k = record k {
  console = report stack registers exp_id k.console;
  program_exception_flag = true;
}

-- What an exception does in state k: the parent of the program goes on with 256 as the result of its
-- `execute`, or the shell starts again.
abbrev pub Ended : Kernel → Transfer → Type 0
Ended k (returns z k') = ⊥
Ended k (enters eip k') =
    IsSound k' × (k'.prog_counter ≡ k.prog_counter) × (k'.program_exception_flag ≡ true)
Ended k (resumes ebp r k') =
    IsSound k'
    × (r ≡ 256)
    × (k'.prog_counter + 1 ≡ k.prog_counter)
    × (k'.program_exception_flag ≡ false)
    × GoesOn k (last_pid (scheduled k)) ebp k'
Ended k faults = ⊥
