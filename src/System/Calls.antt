-- ===== src/System/Calls.antt =====
-- The kernel's system calls as the programs see them, and the dispatcher of
-- student-distrib/system_call_linkage.S.
use ece391_kernel.Base.{ℕ, ◌+◌, ◌*◌, false, ◌||◌, if◌then◌else◌, List, some, take, get_or}
use ece391_kernel.Base.Int.{ℤ, pos, ltb_ℤ}
use ece391_kernel.FileSystem.Layout.{Dentry, minus_one}
use ece391_kernel.State.{Kernel, Outcome, done, fault, blocked}
use ece391_kernel.SysCall.{Machine, sys_open, sys_close, sys_read, sys_write}
use ece391_kernel.SysCall.Programs.{vidmap}
use ece391_kernel.User.Calls.{M, Calls}

-- The result of a call on the kernel, and of one on the machine.
abbrev pub on_kernel : Machine → Outcome (ℤ × Kernel) → Outcome (ℤ × Machine)
on_kernel m (done r) = done (r.0, record m { kernel = r.1 })
on_kernel m fault = fault
on_kernel m blocked = blocked

abbrev pub with_bytes : Outcome (ℤ × List ℕ × Machine) → Outcome ((ℤ × List ℕ) × Machine)
with_bytes (done r) = done ((r.0, r.1), r.2)
with_bytes fault = fault
with_bytes blocked = blocked

-- The little-endian 32-bit word at `buf`.
abbrev pub word_of : List ℕ → ℕ
word_of buf =
    get_or buf 0 0 + 256 * (get_or buf 1 0 + 256 * (get_or buf 2 0 + 256 * get_or buf 3 0))

-- `dispatch_syscall`: `handlers` stands for the jump through the table, where the other registers are read.
unfoldable pub dispatch_syscall : (handlers : ℤ → M Machine ℤ) (num : ℤ) → M Machine ℤ
dispatch_syscall handlers num m =
    if ltb_ℤ num (pos 1) || ltb_ℤ (pos 10) num then done (minus_one, m) else handlers num m

-- `stack` is what the local `dentry` of `open` holds, `scancodes` and `interrupts` what arrives during a read.
abbrev pub kernel_calls :
    (stack : Dentry) (scancodes : List ℕ) (interrupts : ℕ) (handlers : ℤ → M Machine ℤ)
    → Calls Machine
kernel_calls stack scancodes interrupts handlers = record {
  open_file = λ name m. on_kernel m (sys_open stack (some name) m.kernel);
  read = λ fd nbytes m. with_bytes (sys_read scancodes interrupts fd false (pos nbytes) m);
  write = λ fd buf nbytes m.
      on_kernel m (sys_write fd false (take nbytes buf) (word_of buf) (pos nbytes) m.kernel);
  close = λ fd m. on_kernel m (sys_close fd m.kernel);
  vidmap = λ screen_start m.
      let r = vidmap screen_start m.kernel in done (r.0, record m { kernel = r.2 });
  call = dispatch_syscall handlers;
}
