-- ===== src/Idt/Gates.antt =====
-- Which vectors reach which handler, by the processor's reading of the table.
use ece391_kernel.Base.{
  ℕ, ◌+◌, ◌*◌, ◌/◌, ◌%◌, ◌^◌, ◌<◌, ◌≡◌, refl, ap, ◌∙◌, ◌==◌, leb, ◌&&◌, false, if◌then◌else◌,
  Bool-cases, inl, inr, List, [], ◌∷◌, Option, none, some, update, arith,
}
use ece391_kernel.Idt.{
  IdtDesc, Idt, Handler, breakpoint, overflow, bound_range_exceeded, system_call, pit_int,
  keyboard_int, rtc_int, set_idt_entry, set_intr_gate, set_system_gate, set_system_intr_gate, Call,
  intr, system, system_intr, call, calls, idt_calls, idt_init,
}

-- Where the processor goes for the software interrupt v of a program of privilege level `ring`: to the
-- gate's offset, if the gate is present and lets that level through; otherwise a fault.
unfoldable pub dispatch : (ring v : ℕ) → Idt → Option ℕ
dispatch ring v idt =
    let d = idt v in
    if (d.present == 1) && leb ring d.dpl
    then some (d.offset_15_00 + 2 ^ 16 * d.offset_31_16)
    else none

-- The level and the handler of the last call for vector v.
abbrev last_call : ℕ → List Call → Option (ℕ × Handler) → Option (ℕ × Handler)
last_call v [] r = r
last_call v (intr idx h ∷ rest) r = last_call v rest (if v == idx then some (0, h) else r)
last_call v (system idx h ∷ rest) r = last_call v rest (if v == idx then some (3, h) else r)
last_call v (system_intr idx h ∷ rest) r = last_call v rest (if v == idx then some (3, h) else r)

abbrev reached : (Handler → ℕ) → (ring : ℕ) → Option (ℕ × Handler) → Option ℕ
reached addr ring none = none
reached addr ring (some c) = if leb ring c.0 then some (addr c.1) else none

module _ (addr : Handler → ℕ) (small : (h : Handler) → addr h < 2 ^ 32) (ring v : ℕ) where
  -- One call.
  call_lem :
      (level idx : ℕ) (h : Handler) (idt : Idt) (r : Option (ℕ × Handler)) (d : IdtDesc)
      → dispatch ring v idt ≡ reached addr ring r
      → d.present ≡ 1
      → d.dpl ≡ level
      → d.offset_31_16 ≡ addr h % 2 ^ 32 / 2 ^ 16
      → d.offset_15_00 ≡ addr h % 2 ^ 16
      → dispatch ring v (update idt idx d)
        ≡ reached addr ring (if v == idx then some (level, h) else r)
  unfolding dispatch update
  call_lem level idx h idt r d before present dpl high low = elim (Bool-cases (v == idx)) [
    | inl here ↦
        rw (here, present, dpl, high, low)
          (ap (λ a. if leb ring level then some a else none) (omega (arith, small h)))
    | inr other ↦ rw other before
  ]

  calls_lem :
      (cs : List Call) (idt : Idt) (r : Option (ℕ × Handler))
      → dispatch ring v idt ≡ reached addr ring r
      → dispatch ring v (calls addr cs idt) ≡ reached addr ring (last_call v cs r)
  unfolding calls call set_intr_gate set_system_gate set_system_intr_gate set_idt_entry
  calls_lem [] idt r before = before
  calls_lem (intr idx h ∷ cs) idt r before =
      calls_lem cs _ _ (call_lem 0 idx h idt r _ before refl refl refl refl)
  calls_lem (system idx h ∷ cs) idt r before =
      calls_lem cs _ _ (call_lem 3 idx h idt r _ before refl refl refl refl)
  calls_lem (system_intr idx h ∷ cs) idt r before =
      calls_lem cs _ _ (call_lem 3 idx h idt r _ before refl refl refl refl)

nothing : (ring v : ℕ) (idt : Idt) → (idt v).present ≡ 0 → dispatch ring v idt ≡ none
unfolding dispatch
nothing ring v idt e = rw e refl

user_table :
    (addr : Handler → ℕ) (v : ℕ)
    → reached addr 3 (last_call v idt_calls none) ≡ (
        if v == 3
        then some (addr breakpoint)
        else if v == 4
        then some (addr overflow)
        else if v == 5
        then some (addr bound_range_exceeded)
        else if v == 0x80
        then some (addr system_call)
        else none)
user_table addr v = ground arith

-- The table as it is assembled: no gate is present.
abbrev pub Empty : Idt → Type 0
Empty idt = (v : ℕ) → (idt v).present ≡ 0

-- With all handlers placed under 2^32 and no gate present before: after `idt_init` a user program's
-- `int v` reaches a handler for the vectors 3, 4, 5 and 0x80 only, that of the breakpoint, of the overflow, of
-- the bound check and of the system calls.
pub idt_init-user :
    (addr : Handler → ℕ) (idt : Idt) (v : ℕ)
    → ((h : Handler) → addr h < 2 ^ 32)
    → Empty idt
    → dispatch 3 v (idt_init addr idt) ≡ (
        if v == 3
        then some (addr breakpoint)
        else if v == 4
        then some (addr overflow)
        else if v == 5
        then some (addr bound_range_exceeded)
        else if v == 0x80
        then some (addr system_call)
        else none)
unfolding idt_init
idt_init-user addr idt v small empty =
    calls_lem addr small 3 v idt_calls idt none (nothing 3 v idt (empty v)) ∙ user_table addr v

irq_table :
    (addr : Handler → ℕ) (irq : ℕ)
    → reached addr 0 (last_call (0x20 + irq) idt_calls none) ≡ (
        if irq == 0
        then some (addr pit_int)
        else if irq == 1
        then some (addr keyboard_int)
        else if irq == 8
        then some (addr rtc_int)
        else if irq == 0x60
        then some (addr system_call)
        else none)
irq_table addr irq = ground arith

-- With all handlers placed under 2^32 and no gate present before: after `idt_init`, line `irq` of the
-- interrupt controllers, which raises vector 0x20 + irq, reaches the timer's routine for line 0, the
-- keyboard's for line 1 and the clock's for line 8, and no routine for the other thirteen lines.
pub idt_init-irq :
    (addr : Handler → ℕ) (idt : Idt) (irq : ℕ)
    → ((h : Handler) → addr h < 2 ^ 32)
    → Empty idt
    → irq < 16
    → dispatch 0 (0x20 + irq) (idt_init addr idt) ≡ (
        if irq == 0
        then some (addr pit_int)
        else if irq == 1
        then some (addr keyboard_int)
        else if irq == 8
        then some (addr rtc_int)
        else none)
unfolding idt_init
idt_init-irq addr idt irq small empty lt =
    let no_line : (irq == 0x60) ≡ false = ground (arith, lt) in
    calls_lem addr small 0 (0x20 + irq) idt_calls idt none
      (nothing 0 (0x20 + irq) idt (empty (0x20 + irq)))
    ∙ irq_table addr irq
    ∙ rw no_line refl
