-- ===== src/Tests/Start.antt =====
-- The theorems on output, the descriptor table, exceptions and the start.
use ece391_kernel.Base.{
  ℕ, ◌+◌, ◌-◌, ◌^◌, ◌≤◌, ◌≡◌, refl, arith, true, List, [], ◌∷◌, ◌++◌, length, some,
}
use ece391_kernel.Text.{itoa}
use ece391_kernel.Console.{putc}
use ece391_kernel.Console.Direct.{putc_direct}
use ece391_kernel.Console.Printf.{printf, printf_direct, signed_string, hex_string}
use ece391_kernel.Console.Printf.Pieces.{
  Piece, plain, percent, padded_hex, signed, string, format_of, words_of, emit_all, printf_lem,
  conversions-fit,
}
use ece391_kernel.Idt.{IdtDesc, Idt, Handler, idt_init}
use ece391_kernel.Idt.Gates.{dispatch, idt_init-user, idt_init-irq}
use ece391_kernel.FileSystem.Layout.{Image}
use ece391_kernel.Boot.{MultibootInfo, Board}
use ece391_kernel.Pic.{Pic}
use ece391_kernel.Tests.Data.{blank_console, shell_fs}

abbrev pieces : List Piece
pieces = plain 97 ∷ padded_hex 255 ∷ percent ∷ signed (2 ^ 32 - 7) ∷ string 3 ∷ []

abbrev strings : ℕ → List ℕ
strings p = 98 ∷ 99 ∷ 0 ∷ []

abbrev stack : ℕ → ℕ
stack i = 7

printf_lem_example :
    (printf strings stack
        (format_of pieces ++ 0 ∷ 37 ∷ [])
        (words_of pieces ++ 5 ∷ [])
        blank_console
      ≡ (length (format_of pieces), emit_all putc strings pieces blank_console))
    × (printf_direct strings stack
          (format_of pieces ++ 0 ∷ 37 ∷ [])
          (words_of pieces ++ 5 ∷ [])
          blank_console
        ≡ (length (format_of pieces), emit_all putc_direct strings pieces blank_console))
printf_lem_example = printf_lem strings stack pieces (37 ∷ []) (5 ∷ []) blank_console (
  (λ e. absurd (omega (arith, e)), λ e. absurd (omega (arith, e))),
  (omega arith, (tt, (omega arith, (omega arith, tt)))),
)

conversions-fit_example :
    (8 + length (itoa 0xb8000 16) + 1 ≤ 64)
    × (length (itoa 0xb8000 10) + 1 ≤ 36)
    × (length (signed_string 0xb8000) + 1 ≤ 36)
    × (length (hex_string stack true 0xb8000) ≡ 8)
conversions-fit_example = conversions-fit stack 0xb8000 (omega arith)

abbrev no_gate : IdtDesc
no_gate = record {
  offset_15_00 = 0;
  seg_selector = 0;
  reserved4 = 0;
  reserved3 = 0;
  reserved2 = 0;
  reserved1 = 0;
  size = 0;
  reserved0 = 0;
  dpl = 0;
  present = 0;
  offset_31_16 = 0;
}

abbrev no_gates : Idt
no_gates v = no_gate

abbrev linked : Handler → ℕ
linked h = 0x401234

idt_init-user_example : dispatch 3 0x80 (idt_init linked no_gates) ≡ some 0x401234
idt_init-user_example = idt_init-user linked no_gates 0x80 (λ h. omega arith) (λ v. refl)

idt_init-irq_example : dispatch 0 (0x20 + 8) (idt_init linked no_gates) ≡ some 0x401234
idt_init-irq_example = idt_init-irq linked no_gates 8 (λ h. omega arith) (λ v. refl) (omega arith)

abbrev shell_image : Image
shell_image = shell_fs.image

-- Bit 3 is set: a module is given.
abbrev loader : MultibootInfo
loader = record {
  flags = 8;
  mem_lower = 0;
  mem_upper = 0;
  boot_device = 0;
  cmdline = 0;
  first_start = 0x410000;
  mods = record { mod_start = 0x410000; mod_end = 0x48a000; first_bytes = 2 ∷ [] } ∷ [];
  elf_num = 0;
  elf_size = 0;
  elf_addr = 0;
  elf_shndx = 0;
  mmap_addr = 0;
  mmap_length = 0;
  mmap = [];
}

abbrev board : Board
board = record {
  rtc_b = 0;
  rtc_a = 0;
  cursor_start = 0;
  cursor_end = 0;
  page_table_0 = 0x401000;
  page_table_video = 0x402000;
}

abbrev pic : Pic
pic = record { master_mask = 0xff; slave_mask = 0xff; sent = [] }
