-- ===== src/System/Devices.antt =====
-- The keyboard's interrupt and `vidmap` keep the kernel sound.
use mathlib.Core.Path.{subst}
use ece391_kernel.Base.{ℕ, refl, sym, ap, ◌||◌, ltb, leb, if_ind, Option, update-keeps}
use ece391_kernel.Base.Int.{ℤ}
use ece391_kernel.State.{Kernel, Console, KeyFlags}
use ece391_kernel.Console.Programs.{SamePrograms}
use ece391_kernel.Keyboard.{keyboard_handler}
use ece391_kernel.Keyboard.Programs.{keyboard_handler-SamePrograms}
use ece391_kernel.Process.{last_pid, scheduled}
use ece391_kernel.Process.Remove.{facts}
use ece391_kernel.SysCall.Ops.{AllOps}
use ece391_kernel.SysCall.Programs.{vidmap}
use ece391_kernel.System.Sound.{IsSound, Kept, same-Kept}

pub Kept-refl : (k : Kernel) → IsSound k → Kept k k
Kept-refl k h = (h, refl, refl)

-- Output and input.
pub console-IsSound :
    (k : Kernel) (c : Console)
    → SamePrograms k.console c
    → IsSound k
    → Kept k (record k { console = c })
console-IsSound k c same h =
    same-Kept k (record k { console = c })
      (record {
        counts = λ t. ap (λ p. p.1) (same.programs t);
        lists = λ t i. ap (λ p. p.0 i) (same.programs t);
        number = refl;
        blocks = λ p. refl;
      })
      same.schedules refl (λ p all. all) refl h

-- The keyboard's interrupt keeps a sound state sound, for every scan code.
pub keyboard_handler-IsSound :
    (scancode : ℕ) (f : KeyFlags) (k : Kernel)
    → IsSound k
    → Kept k (record k { console = (keyboard_handler scancode f k.console).1 })
keyboard_handler-IsSound scancode f k =
    console-IsSound k (keyboard_handler scancode f k.console).1
      (keyboard_handler-SamePrograms scancode f k.console)

pub vidmap-IsSound : (screen_start : ℕ) (k : Kernel) → IsSound k → Kept k (vidmap screen_start k).2
unfolding vidmap
vidmap-IsSound screen_start k h =
    let pid = last_pid (scheduled k) in
    let b = record (k.pcbs pid) { video_mem_flag = 1 } in
    if_ind {A = ℤ × Option ℕ × Kernel} (λ r. Kept k r.2)
      (ltb screen_start 0x08000000 || leb 0x08400000 screen_start) (λ _. Kept-refl k h)
      (λ _.
        same-Kept k _
          (record {
            counts = λ t. refl;
            lists = λ t i. refl;
            number = refl;
            blocks = update-keeps k.pcbs pid b facts refl;
          })
          refl refl
          (λ p old. subst AllOps (sym (update-keeps k.pcbs pid b (λ b. b.file_array) refl p)) old)
          refl h)
