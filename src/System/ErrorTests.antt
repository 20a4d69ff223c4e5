-- ===== src/System/ErrorTests.antt =====
-- The program syscalls/ece391syserr.c on the kernel.
use ece391_kernel.Base.{ℕ, ◌≡◌, ap, ◌∙◌, List}
use ece391_kernel.Base.Int.{ℤ}
use ece391_kernel.FileSystem.Layout.{FileSystem, Dentry}
use ece391_kernel.State.{done}
use ece391_kernel.SysCall.{Machine}
use ece391_kernel.User.Calls.{M, Returns-done}
use ece391_kernel.User.Errors.{run_test}
use ece391_kernel.User.Errors.Passed.{Passed, run_test-Passed}
use ece391_kernel.System.Calls.{kernel_calls}
use ece391_kernel.System.Descriptors.{IsOpen, IsOpenIn}
use ece391_kernel.System.Strict.{kernel_calls-IsStrict}
use ece391_kernel.System.Strict.Openings.{HasNames}

-- In a state where the running program has only the two descriptors of the terminal open, with the directory and
-- none of the names "helloo", "shel" and "" on the disk: each test of syserr, and all of them one after the
-- other, ends on the kernel's own system calls with 0, that is, every call returned what the test expects. At the
-- end the running program again has only the terminal's descriptors open, and the disk is the same. What the
-- buffers hold before does not matter.
pub run_test-kernel_calls :
    (fs : FileSystem) (stack : Dentry) (scancodes : List ℕ) (interrupts : ℕ)
    (handlers : ℤ → M Machine ℤ) (buf : ℕ → List ℕ) (select : ℤ) (m : Machine)
    → HasNames fs stack
    → IsOpen fs 2 2 m.kernel
    → (m' : Machine) × (run_test (kernel_calls stack scancodes interrupts handlers) buf select m
        ≡ done (0, m'))
      × IsOpen fs 2 2 m'.kernel
run_test-kernel_calls fs stack scancodes interrupts handlers buf select m names h =
    let os = kernel_calls stack scancodes interrupts handlers in
    let open_in_kernel = IsOpenIn fs in
    let strict = kernel_calls-IsStrict fs stack names scancodes interrupts handlers in
    let passed = run_test-Passed os open_in_kernel strict buf select m h in
    let r = Returns-done (run_test os buf select m) (Passed os open_in_kernel strict) passed in
    (r.1, r.2 ∙ ap (λ n. done (n, r.1)) r.3.0, r.3.1)
