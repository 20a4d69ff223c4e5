-- ===== src/Pic.antt =====
-- student-distrib/i8259.c: the masks of the two interrupt controllers and the words sent to them.
pub mod Masks
use Prim.Native.Nat.{bit_and, bit_or}
use ece391_kernel.Base.{ℕ, ◌+◌, ◌-◌, ◌^◌, Bool, ◌&&◌, leb, if◌then◌else◌}
use ece391_kernel.Ports.{Ports, outb}

pub record Pic : Type 0 where
  pub master_mask : ℕ
  pub slave_mask : ℕ
  pub sent : Ports

abbrev pub master_8259_port : ℕ
master_8259_port = 0x20

abbrev pub slave_8259_port : ℕ
slave_8259_port = 0xa0

-- `m &= ~(0x01 << n)` and `m |= 0x01 << n` on a byte
abbrev pub clear_bit : ℕ → ℕ → ℕ
clear_bit m n = bit_and m (255 - 2 ^ n)

abbrev pub set_bit : ℕ → ℕ → ℕ
set_bit m n = bit_or m (2 ^ n)

unfoldable pub i8259_init : Pic → Pic
i8259_init p = record p {
  sent = outb p.slave_mask (slave_8259_port + 1) (
      outb p.master_mask (master_8259_port + 1) (
        outb 0x01 (slave_8259_port + 1) (
          outb 0x02 (slave_8259_port + 1) (
            outb 0x28 (slave_8259_port + 1) (
              outb 0x11 slave_8259_port (
                outb 0x01 (master_8259_port + 1) (
                  outb 0x04 (master_8259_port + 1) (
                    outb 0x20 (master_8259_port + 1) (
                      outb 0x11 master_8259_port (
                        outb 0xff (slave_8259_port + 1)
                          (outb 0xff (master_8259_port + 1) p.sent)))))))))));
}

unfoldable pub enable_irq : ℕ → Pic → Pic
enable_irq irq_num p =
    if leb irq_num 7
    then record p {
      master_mask = clear_bit p.master_mask irq_num;
      sent = outb (clear_bit p.master_mask irq_num) (master_8259_port + 1) p.sent;
    }
    else if leb 8 irq_num && leb irq_num 15
    then record p {
      master_mask = clear_bit p.master_mask 2;
      slave_mask = clear_bit p.slave_mask (irq_num - 8);
      sent =
          outb (clear_bit p.slave_mask (irq_num - 8)) (slave_8259_port + 1)
            (outb (clear_bit p.master_mask 2) (master_8259_port + 1) p.sent);
    }
    else p

unfoldable pub disable_irq : ℕ → Pic → Pic
disable_irq irq_num p =
    if leb irq_num 7
    then record p {
      master_mask = set_bit p.master_mask irq_num;
      sent = outb (set_bit p.master_mask irq_num) (master_8259_port + 1) p.sent;
    }
    else if leb 8 irq_num && leb irq_num 15
    then record p {
      slave_mask = set_bit p.slave_mask (irq_num - 8);
      sent = outb (set_bit p.slave_mask (irq_num - 8)) (slave_8259_port + 1) p.sent;
    }
    else p

unfoldable pub send_eoi : ℕ → Ports → Ports
send_eoi irq_num sent =
    let first = if leb irq_num 7 then outb (bit_or 0x60 irq_num) master_8259_port sent else sent in
    if leb 8 irq_num && leb irq_num 15
    then outb (bit_or 0x60 (irq_num - 8)) slave_8259_port (outb 0x62 master_8259_port first)
    else first
