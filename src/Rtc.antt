-- ===== src/Rtc.antt =====
-- student-distrib/rtc.c: the real-time clock. The interrupt counts and raises a flag; each open
-- descriptor divides the interrupts by a ratio, which stands in its `file_position`.
pub mod Frequency
pub mod Wait
use Prim.Native.Nat.{bit_and, bit_or}
use ece391_kernel.Base.{
  ℕ, zero, suc, [], ◌+◌, ◌-◌, ◌/◌, ◌%◌, ◌^◌, Bool, true, false, not, ◌||◌, ◌==◌, ltb, if◌then◌else◌,
  Option, some, none,
}
use ece391_kernel.Base.Int.{ℤ, pos, ltb_ℤ}
use ece391_kernel.FileSystem.Layout.{minus_one}
use ece391_kernel.Ports.{Ports, outb}
use ece391_kernel.Pic.{send_eoi}
use ece391_kernel.State.{FileArray, Outcome, done, fault, blocked}
use ece391_kernel.Files.{outside_files, entry_of, set_entry}

-- The globals of rtc.c. The counter is an `int`: `rtc_counter_global` is its 32-bit word, which wraps.
pub record Rtc : Type 0 where
  pub rtc_counter_global : ℕ
  pub rtc_exe_flag : Bool

abbrev pub max_rtc_freq : ℕ
max_rtc_freq = 512

-- `rtc_handler`; the value read from register C is not used.
unfoldable pub rtc_handler : Rtc → Ports → Rtc × Ports
unfolding send_eoi
rtc_handler r sent = (
  record { rtc_counter_global = (r.rtc_counter_global + 1) % 2 ^ 32; rtc_exe_flag = true },
  send_eoi 8 (outb 0x0c 0x70 sent),
)

-- `prev` is what register A answers.
unfoldable pub set_rtc_freq : (rate prev : ℕ) → Ports → Ports
set_rtc_freq rate prev sent =
    outb (bit_or (bit_and prev 0xf0) (bit_and rate 0x0f)) 0x71
      (outb 0x8a 0x70 (outb 0x8a 0x70 sent))

-- `prev_b` and `prev_a` are what registers B and A answer.
unfoldable pub rtc_init : (prev_b prev_a : ℕ) → Ports → Ports
unfolding set_rtc_freq
rtc_init prev_b prev_a sent =
    set_rtc_freq 3 prev_a (outb (bit_or prev_b 0x40) 0x71 (outb 0x8b 0x70 (outb 0x8b 0x70 sent)))

-- `file_array[fd].ratio / 3`, at least 1
unfoldable pub divider : ℕ → ℕ
divider ratio = if ratio / 3 == 0 then 1 else ratio / 3

-- Interrupts that arrive one after the other while the flag is waited for: `interrupts` of them come.
unfoldable pub wait_flag : (interrupts : ℕ) → Rtc → Option (ℕ × Rtc)
wait_flag zero r = if r.rtc_exe_flag then some (zero, r) else none
wait_flag (suc interrupts) r =
    let next = wait_flag interrupts (rtc_handler r []).0 in
    if r.rtc_exe_flag then some (suc interrupts, r) else next

-- Whether `rtc_counter_global % div` is 0: from 2^31 on the word is that of a negative number, whose multiples
-- are those of its absolute value.
unfoldable pub is_multiple : (div counter : ℕ) → Bool
is_multiple div counter =
    if ltb counter (2 ^ 31) then counter % div == 0 else (2 ^ 32 - counter) % div == 0

-- The second wait: until the counter is a multiple of `div`.
unfoldable pub wait_multiple : (div interrupts : ℕ) → Rtc → Option (ℕ × Rtc)
unfolding is_multiple
wait_multiple div zero r = if is_multiple div r.rtc_counter_global then some (zero, r) else none
wait_multiple div (suc interrupts) r =
    let next = wait_multiple div interrupts (rtc_handler r []).0 in
    if is_multiple div r.rtc_counter_global then some (suc interrupts, r) else next

-- The flag's reset, behind the second wait.
abbrev pub received : Option (ℕ × Rtc) → Outcome (ℤ × ℕ × Rtc)
received none = blocked
received (some r) = done (pos 0, r.0, record r.1 { rtc_exe_flag = false })

-- What follows the first wait.
abbrev pub wait_virtual : (ratio : ℕ) → Option (ℕ × Rtc) → Outcome (ℤ × ℕ × Rtc)
wait_virtual ratio none = blocked
wait_virtual ratio (some r) = received (wait_multiple (divider ratio) r.0 r.1)

unfoldable pub rtc_waits : (ratio interrupts : ℕ) → Rtc → Outcome (ℤ × ℕ × Rtc)
rtc_waits ratio interrupts r = wait_virtual ratio (wait_flag interrupts r)

-- `interrupts` clock interrupts are to come; those that are left over are part of the result.
unfoldable pub rtc_read :
    (fd : ℤ) (files : FileArray) (interrupts : ℕ) → Rtc → Outcome (ℤ × ℕ × Rtc)
unfolding rtc_waits
rtc_read fd files interrupts r =
    if outside_files fd
    then done (minus_one, interrupts, r)
    else rtc_waits (entry_of files fd).file_position interrupts r

-- `null` is `buf == NULL`; `freq` is the 32-bit word at `buf`. A division by 0 is a fault.
unfoldable pub rtc_write :
    (fd : ℤ) (null : Bool) (freq : ℕ) (nbytes : ℤ) → FileArray → Outcome (ℤ × FileArray)
rtc_write fd null freq nbytes files =
    if null || not (ltb_ℤ (pos 1) nbytes)
    then done (minus_one, files)
    else if outside_files fd
    then done (minus_one, files)
    else if not (bit_and freq ((freq + (2 ^ 32 - 1)) % 2 ^ 32) == 0) || ltb max_rtc_freq freq
    then done (minus_one, files)
    else if freq == 0
    then fault
    else done (
      pos 0,
      set_entry files fd (record (entry_of files fd) { file_position = max_rtc_freq / freq }),
    )

unfoldable pub rtc_open : ℤ → FileArray → ℤ × FileArray
rtc_open fd files = if outside_files fd then (minus_one, files) else (
  pos 0,
  set_entry files fd
      (record (entry_of files fd) { inode_idx = 0; file_position = max_rtc_freq / 2 }),
)

unfoldable pub rtc_close : ℤ → ℤ
rtc_close fd = pos 0
