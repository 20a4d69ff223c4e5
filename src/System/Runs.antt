-- ===== src/System/Runs.antt =====
-- Runs of the kernel: interrupts and the system calls of the program that runs, in any order.
use ece391_kernel.Base.{ℕ, ◌+◌, ◌%◌, ◌<◌, ◌≡◌, refl, false, Bool, List, Option}
use ece391_kernel.Base.Int.{ℤ}
use ece391_kernel.FileSystem.Layout.{Dentry}
use ece391_kernel.State.{Kernel, done}
use ece391_kernel.Keyboard.{keyboard_handler, terminal_read_begin}
use ece391_kernel.Rtc.{rtc_handler}
use ece391_kernel.SysCall.{Machine, sys_open, sys_close, sys_read, sys_write}
use ece391_kernel.SysCall.Programs.{
  Transfer, returns, enters, resumes, faults, Locals, execute, halt, vidmap,
}
use ece391_kernel.Scheduling.{pit_handler}
use ece391_kernel.System.Sound.{IsSound}
use ece391_kernel.System.Files.{IsRunning}
use ece391_kernel.System.Timer.{Timed}

-- The state in which a call leaves the kernel, wherever it goes on.
abbrev pub Leads : Transfer → Kernel → Type 0
Leads (returns z k) k' = k ≡ k'
Leads (enters eip k) k' = k ≡ k'
Leads (resumes ebp r k) k' = k ≡ k'
Leads faults k' = ⊥

-- That state, for a call that does not fault; d stands for the others.
abbrev pub landing : (d : Kernel) → Transfer → Kernel
landing d (returns z k) = k
landing d (enters eip k) = k
landing d (resumes ebp r k) = k
landing d faults = d

-- The timer's interrupt leads somewhere.
pub Leads-landing :
    (d k0 : Kernel) (frame cur : ℕ) (r : Transfer) → Timed k0 frame cur r → Leads r (landing d r)
Leads-landing d k0 frame cur (returns z k) h = refl
Leads-landing d k0 frame cur (enters eip k) h = refl
Leads-landing d k0 frame cur (resumes ebp r k) h = refl
Leads-landing d k0 frame cur faults h = h

abbrev pub with_kernel : Machine → Kernel → Machine
with_kernel m k = record m { kernel = k }

-- One interrupt, or one system call of a program of the scheduled terminal; 1 counts the timer's. A read of the
-- terminal or of the clock enables interrupts while it waits: it may be one step, with the interrupts that it waits
-- for, or two, with any steps between them. For the terminal they are what comes before the wait, behind which the
-- state is only read; for the clock what comes behind the waits, before which the state is only read.
pub data Step : ℕ → Machine → Machine → Type 0 where
  timer_step :
      (ebp : ℕ) (locals : Locals) (m : Machine) (k : Kernel)
      → Leads (pit_handler ebp locals m.kernel) k
      → Step 1 m (with_kernel m k)
  keyboard_step :
      (scancode : ℕ) (m : Machine)
      → Step 0 m (record m {
        keys = (keyboard_handler scancode m.keys m.kernel.console).0;
        kernel = record m.kernel {
          console = (keyboard_handler scancode m.keys m.kernel.console).1;
        };
      })
  rtc_step :
      (m : Machine)
      → Step 0 m (record m {
        rtc = (rtc_handler m.rtc m.kernel.console.sent).0;
        kernel = record m.kernel {
          console = record m.kernel.console { sent = (rtc_handler m.rtc m.kernel.console.sent).1 };
        };
      })
  execute_step :
      (ebp : ℕ) (locals : Locals) (command : Option (List ℕ)) (m : Machine) (k : Kernel)
      → IsRunning m.kernel
      → Leads (execute ebp locals command m.kernel) k
      → Step 0 m (with_kernel m k)
  halt_step :
      (ebp status : ℕ) (locals : Locals) (m : Machine) (k : Kernel)
      → IsRunning m.kernel
      → Leads (halt ebp locals status m.kernel) k
      → Step 0 m (with_kernel m k)
  open_step :
      (stack : Dentry) (filename : Option (List ℕ)) (m : Machine) (r : ℤ × Kernel)
      → IsRunning m.kernel
      → sys_open stack filename m.kernel ≡ done r
      → Step 0 m (with_kernel m r.1)
  close_step :
      (fd : ℤ) (m : Machine) (r : ℤ × Kernel)
      → IsRunning m.kernel
      → sys_close fd m.kernel ≡ done r
      → Step 0 m (with_kernel m r.1)
  read_step :
      (scancodes : List ℕ) (interrupts : ℕ) (fd : ℤ) (null : Bool) (nbytes : ℤ) (m : Machine)
      (r : ℤ × List ℕ × Machine)
      → IsRunning m.kernel
      → sys_read scancodes interrupts fd null nbytes m ≡ done r
      → Step 0 m r.2
  wait_step :
      (m : Machine)
      → IsRunning m.kernel
      → Step 0 m
          (with_kernel m (record m.kernel { console = terminal_read_begin m.kernel.console }))
  tick_step :
      (m : Machine)
      → IsRunning m.kernel
      → Step 0 m (record m { rtc = record m.rtc { rtc_exe_flag = false } })
  write_step :
      (fd : ℤ) (null : Bool) (buf : List ℕ) (word : ℕ) (nbytes : ℤ) (m : Machine) (r : ℤ × Kernel)
      → IsRunning m.kernel
      → sys_write fd null buf word nbytes m.kernel ≡ done r
      → Step 0 m (with_kernel m r.1)
  vidmap_step :
      (screen_start : ℕ) (m : Machine)
      → IsRunning m.kernel
      → Step 0 m (with_kernel m (vidmap screen_start m.kernel).2)

-- From m0, n interrupts of the timer, and any number of other steps.
pub data Runs (m0 : Machine) : ℕ → Machine → Type 0 where
  start : Runs m0 0 m0
  after : {n t : ℕ} {m m' : Machine} → Runs m0 n m → Step t m m' → Runs m0 (n + t) m'

-- A sound state with a program, t interrupts of the timer later.
abbrev pub Advanced : Kernel → (t : ℕ) → Kernel → Type 0
Advanced k t k' =
    IsSound k' × (0 < k'.prog_counter) × (k'.console.cur_term_id ≡ (k.console.cur_term_id + t) % 3)
