-- ===== src/Keyboard/Lost.antt =====
-- Keys whose characters have the scan codes of F1 to F3 for their codes.
use ece391_kernel.Base.{ℕ, ◌≡◌, ◌⊎◌, inl, inr, false, arith}
use ece391_kernel.Base.Int.{pos}
use ece391_kernel.State.{Console, KeyFlags}
use ece391_kernel.Pic.{send_eoi}
use ece391_kernel.Keyboard.{
  keyboard_handler, scancode_handler, scancode_char, handle_char, next_flags, character,
}

-- The keys `;` and `=`.
abbrev pub IsLostKey : ℕ → Type 0
IsLostKey scancode = (scancode ≡ 0x27) ⊎ (scancode ≡ 0x0d)

lost-char :
    (scancode : ℕ) (f : KeyFlags) (k : Console)
    → IsLostKey scancode
    → f.ctrl_flag ≡ false
    → f.shift_flag ≡ false
    → (scancode_char f scancode k ≡ (pos 0x3b, k)) ⊎ (scancode_char f scancode k ≡ (pos 0x3d, k))
unfolding scancode_char character
lost-char scancode f k (inl e) ctrl shift = inl (rw (e, ctrl) (ground (arith, shift)))
lost-char scancode f k (inr e) ctrl shift = inr (rw (e, ctrl) (ground (arith, shift)))

-- Without Shift, Ctrl and Alt the keys `;` and `=` do nothing: the handler acknowledges the interrupt, and
-- neither the buffer nor the screen gets the character.
pub keyboard_handler-lost :
    (scancode : ℕ) (f : KeyFlags) (k : Console)
    → IsLostKey scancode
    → (next_flags scancode f).ctrl_flag ≡ false
    → (next_flags scancode f).shift_flag ≡ false
    → (next_flags scancode f).alt_flag ≡ false
    → keyboard_handler scancode f k ≡ (next_flags scancode f, record k { sent = send_eoi 1 k.sent })
unfolding keyboard_handler scancode_handler handle_char
keyboard_handler-lost scancode f k key ctrl shift alt =
    elim (lost-char scancode (next_flags scancode f) k key ctrl shift) [
      | inl e ↦ rw (e, alt)
      | inr e ↦ rw (e, alt)
    ]
