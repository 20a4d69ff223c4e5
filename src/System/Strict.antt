-- ===== src/System/Strict.antt =====
-- The kernel refuses what the error tests of syscalls/ece391syserr.c expect it to refuse.
pub mod Refusals
pub mod Openings
use ece391_kernel.Base.{ℕ, List, take}
use ece391_kernel.Base.Int.{ℤ}
use ece391_kernel.FileSystem.Layout.{FileSystem, Dentry}
use ece391_kernel.SysCall.{Machine}
use ece391_kernel.User.Errors.Texts
use ece391_kernel.User.Calls.{M}
use ece391_kernel.User.Errors.Strict.{IsStrict}
use ece391_kernel.System.Calls.{word_of, kernel_calls}
use ece391_kernel.System.Descriptors.{IsOpenIn, Descriptors-closed}
use ece391_kernel.System.Strict.Refusals.{
  write_says, read_refused, write_refused, close_refused, vidmap_refused, call_refused,
}
use ece391_kernel.System.Strict.Openings.{
  HasNames, open_refused, opens_dot, full_refused, closes_first,
}

module _ (fs : FileSystem) (stack : Dentry) (names : HasNames fs stack) (scancodes : List ℕ)
    (interrupts : ℕ) (handlers : ℤ → M Machine ℤ) where
  -- With the directory and none of the three names on the disk, the kernel refuses what the tests try.
  pub kernel_calls-IsStrict :
      IsStrict (kernel_calls stack scancodes interrupts handlers) (IsOpenIn fs)
  kernel_calls-IsStrict = record {
    says = λ buf n a b m h.
        write_says fs scancodes interrupts handlers (take n buf) (word_of buf) n a b m h;
    refuses_read = λ fd n m ne h. read_refused fs scancodes interrupts handlers fd n m ne h;
    refuses_write = λ fd buf n m ne h.
        write_refused fs scancodes interrupts handlers fd (take n buf) (word_of buf) n m ne h;
    refuses_close = λ fd m h. close_refused fs scancodes interrupts handlers fd m h;
    refuses_vidmap = λ screen_start m low h.
        vidmap_refused fs scancodes interrupts handlers screen_start m low h;
    refuses_call = λ num m out h. call_refused fs scancodes interrupts handlers num m out h;
    refuses_helloo = λ m h. open_refused fs stack names Texts.helloo m names.no_helloo h;
    refuses_shel = λ m h. open_refused fs stack names Texts.shel m names.no_shel h;
    refuses_empty = λ m h. open_refused fs stack names Texts.empty m names.no_empty h;
    opens_directory = λ b m lo hi h. opens_dot fs stack names b m lo hi h;
    refuses_ninth = λ m h. full_refused fs stack names m h;
    closes = λ a b m lo lt hi h. closes_first fs stack names a b m lo lt hi h;
    all_closed = λ m h. record {
      files = h.files;
      current = h.current;
      disk = h.disk;
      descriptors = Descriptors-closed h.files h.descriptors;
    };
  }
