-- ===== src/Idt.antt =====
-- student-distrib/idt.c: the interrupt descriptor table, with the entry's layout and SET_IDT_ENTRY of
-- student-distrib/x86_desc.h.
pub mod Gates
use ece391_kernel.Base.{ℕ, ◌/◌, ◌%◌, ◌^◌, List, [], ◌∷◌, update}

-- `idt_desc_t`
pub record IdtDesc : Type 0 where
  pub offset_15_00 : ℕ
  pub seg_selector : ℕ
  pub reserved4 : ℕ
  pub reserved3 : ℕ
  pub reserved2 : ℕ
  pub reserved1 : ℕ
  pub size : ℕ
  pub reserved0 : ℕ
  pub dpl : ℕ
  pub present : ℕ
  pub offset_31_16 : ℕ

abbrev pub Idt : Type 0
Idt = ℕ → IdtDesc

abbrev kernel_cs : ℕ
kernel_cs = 0x10

abbrev kernel_level : ℕ
kernel_level = 0

abbrev user_level : ℕ
user_level = 3

-- The linkage routines, which are assembly: where each is placed is an argument.
pub data Handler : Type 0 where
  divide_by_zero_error debug non_maskable_interrupt breakpoint overflow bound_range_exceeded :
      Handler
  invalid_opcode device_not_available double_fault coprocessor_segment_overrun invalid_tss : Handler
  segment_not_present stack_segment_fault general_protection_fault page_fault reserved1 : Handler
  x87_floating_point_exception alignment_check machine_check simd_floating_point_exception : Handler
  virtualization_exception reserved2 reserved3 reserved4 reserved5 reserved6 reserved7 reserved8 :
      Handler
  reserved9 reserved_a security_exception reserved_b : Handler
  pit_int keyboard_int rtc_int system_call : Handler

-- `handler & 0xFFFF` and `(handler & 0xFFFF0000) >> 16`
unfoldable pub set_idt_entry : IdtDesc → (handler : ℕ) → IdtDesc
set_idt_entry str handler = record str {
  offset_31_16 = handler % 2 ^ 32 / 2 ^ 16;
  offset_15_00 = handler % 2 ^ 16;
}

-- What the three setters write in common.
abbrev gate : (trap dpl : ℕ) → (addr : ℕ) → IdtDesc → IdtDesc
gate trap dpl addr d =
    set_idt_entry
      (record d {
        seg_selector = kernel_cs;
        reserved4 = 0;
        reserved3 = trap;
        reserved2 = 1;
        reserved1 = 1;
        size = 1;
        reserved0 = 0;
        dpl = dpl;
        present = 1;
      })
      addr

unfoldable pub set_intr_gate : (idx addr : ℕ) → Idt → Idt
unfolding set_idt_entry
set_intr_gate idx addr idt = update idt idx (gate 0 kernel_level addr (idt idx))

unfoldable pub set_system_gate : (idx addr : ℕ) → Idt → Idt
unfolding set_idt_entry
set_system_gate idx addr idt = update idt idx (gate 1 user_level addr (idt idx))

unfoldable pub set_system_intr_gate : (idx addr : ℕ) → Idt → Idt
unfolding set_idt_entry
set_system_intr_gate idx addr idt = update idt idx (gate 0 user_level addr (idt idx))

-- A call of one of the three.
pub data Call : Type 0 where
  intr system system_intr : (idx : ℕ) → Handler → Call

unfoldable pub call : (Handler → ℕ) → Call → Idt → Idt
unfolding set_intr_gate set_system_gate set_system_intr_gate
call addr (intr idx h) idt = set_intr_gate idx (addr h) idt
call addr (system idx h) idt = set_system_gate idx (addr h) idt
call addr (system_intr idx h) idt = set_system_intr_gate idx (addr h) idt

unfoldable pub calls : (Handler → ℕ) → List Call → Idt → Idt
unfolding call
calls addr [] idt = idt
calls addr (c ∷ rest) idt = calls addr rest (call addr c idt)

-- The body of `idt_init`.
abbrev pub idt_calls : List Call
idt_calls =
    intr 0x00 divide_by_zero_error
    ∷ intr 0x01 debug
    ∷ intr 0x02 non_maskable_interrupt
    ∷ system_intr 0x03 breakpoint
    ∷ system 0x04 overflow
    ∷ system 0x05 bound_range_exceeded
    ∷ intr 0x06 invalid_opcode
    ∷ intr 0x07 device_not_available
    ∷ intr 0x08 double_fault
    ∷ intr 0x09 coprocessor_segment_overrun
    ∷ intr 0x0a invalid_tss
    ∷ intr 0x0b segment_not_present
    ∷ intr 0x0c stack_segment_fault
    ∷ intr 0x0d general_protection_fault
    ∷ intr 0x0e page_fault
    ∷ intr 0x0f reserved1
    ∷ intr 0x10 x87_floating_point_exception
    ∷ intr 0x11 alignment_check
    ∷ intr 0x12 machine_check
    ∷ intr 0x13 simd_floating_point_exception
    ∷ intr 0x14 virtualization_exception
    ∷ intr 0x15 reserved2
    ∷ intr 0x16 reserved3
    ∷ intr 0x17 reserved4
    ∷ intr 0x18 reserved5
    ∷ intr 0x19 reserved6
    ∷ intr 0x1a reserved7
    ∷ intr 0x1b reserved8
    ∷ intr 0x1c reserved9
    ∷ intr 0x1d reserved_a
    ∷ intr 0x1e security_exception
    ∷ intr 0x1f reserved_b
    ∷ intr 0x20 pit_int
    ∷ intr 0x21 keyboard_int
    ∷ intr 0x28 rtc_int
    ∷ system_intr 0x80 system_call
    ∷ []

unfoldable pub idt_init : (Handler → ℕ) → Idt → Idt
unfolding calls
idt_init addr idt = calls addr idt_calls idt
