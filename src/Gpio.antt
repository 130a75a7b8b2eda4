-- ===== src/Gpio.antt =====
-- HtcLeoPkg/Drivers/GpioDxe/GpioDxe.c with the register map of HtcLeoPkg/Include/Chipset/gpio.h: the
-- pins of the chip in eight banks of registers.
pub mod Banks
pub mod Pins
pub mod Interrupts
use htc_leo_pkg.Base.{
  ℕ, ◌+◌, ◌-◌, ◌%◌, ◌≤◌, ◌<◌, Bool, true, false, not, ◌&&◌, ◌||◌, List, [], ◌∷◌, Option, none, some,
  ltb, leb, ◌==◌, if◌then◌else◌,
}

-- `gpioregs`: the addresses of a bank's registers, and its first and last pin.
pub record GpioRegs : Type 0 where
  pub out : ℕ
  pub in_ : ℕ
  pub int_status : ℕ
  pub int_clear : ℕ
  pub int_en : ℕ
  pub int_edge : ℕ
  pub int_pos : ℕ
  pub oe : ℕ
  pub owner : ℕ
  pub start : ℕ
  pub end_ : ℕ

-- GPIO1_REG and GPIO2_REG, from the bases of Chipset/iomap.h
abbrev pub gpio1_reg : ℕ → ℕ
gpio1_reg off = 0xA9000000 + 0x800 + off

abbrev pub gpio2_reg : ℕ → ℕ
gpio2_reg off = 0xA9100000 + 0xC00 + off

-- GPIO1_REG_R and GPIO2_REG_R; the configuration bases are those of Chipset/iomap.h.
abbrev pub gpio1_reg_r : ℕ → ℕ
gpio1_reg_r off = 0xA8E00000 + off

abbrev pub gpio2_reg_r : ℕ → ℕ
gpio2_reg_r off = 0xA8F00000 + 0x400 + off

abbrev pub bank_0 : GpioRegs
bank_0 = record {
  out = gpio1_reg 0x0;
  in_ = gpio1_reg 0x50;
  int_status = gpio1_reg 0xF0;
  int_clear = gpio1_reg 0xD0;
  int_en = gpio1_reg 0xB0;
  int_edge = gpio1_reg 0x70;
  int_pos = gpio1_reg 0x90;
  oe = gpio1_reg 0x20;
  owner = gpio1_reg_r 0x100;
  start = 0;
  end_ = 15;
}

abbrev pub bank_1 : GpioRegs
bank_1 = record {
  out = gpio2_reg 0x0;
  in_ = gpio2_reg 0x20;
  int_status = gpio2_reg 0x70;
  int_clear = gpio2_reg 0x68;
  int_en = gpio2_reg 0x60;
  int_edge = gpio2_reg 0x50;
  int_pos = gpio2_reg 0x58;
  oe = gpio2_reg 0x8;
  owner = gpio2_reg_r 0x104;
  start = 16;
  end_ = 42;
}

abbrev pub bank_2 : GpioRegs
bank_2 = record {
  out = gpio1_reg 0x4;
  in_ = gpio1_reg 0x54;
  int_status = gpio1_reg 0xF4;
  int_clear = gpio1_reg 0xD4;
  int_en = gpio1_reg 0xB4;
  int_edge = gpio1_reg 0x74;
  int_pos = gpio1_reg 0x94;
  oe = gpio1_reg 0x24;
  owner = gpio1_reg_r 0x108;
  start = 43;
  end_ = 67;
}

abbrev pub bank_3 : GpioRegs
bank_3 = record {
  out = gpio1_reg 0x8;
  in_ = gpio1_reg 0x58;
  int_status = gpio1_reg 0xF8;
  int_clear = gpio1_reg 0xD8;
  int_en = gpio1_reg 0xB8;
  int_edge = gpio1_reg 0x78;
  int_pos = gpio1_reg 0x98;
  oe = gpio1_reg 0x28;
  owner = gpio1_reg_r 0x10C;
  start = 68;
  end_ = 94;
}

abbrev pub bank_4 : GpioRegs
bank_4 = record {
  out = gpio1_reg 0xC;
  in_ = gpio1_reg 0x5C;
  int_status = gpio1_reg 0xFC;
  int_clear = gpio1_reg 0xDC;
  int_en = gpio1_reg 0xBC;
  int_edge = gpio1_reg 0x7C;
  int_pos = gpio1_reg 0x9C;
  oe = gpio1_reg 0x2C;
  owner = gpio1_reg_r 0x110;
  start = 95;
  end_ = 103;
}

abbrev pub bank_5 : GpioRegs
bank_5 = record {
  out = gpio1_reg 0x10;
  in_ = gpio1_reg 0x60;
  int_status = gpio1_reg 0x100;
  int_clear = gpio1_reg 0xE0;
  int_en = gpio1_reg 0xC0;
  int_edge = gpio1_reg 0x80;
  int_pos = gpio1_reg 0xA0;
  oe = gpio1_reg 0x30;
  owner = gpio1_reg_r 0x114;
  start = 104;
  end_ = 121;
}

abbrev pub bank_6 : GpioRegs
bank_6 = record {
  out = gpio1_reg 0x14;
  in_ = gpio1_reg 0x64;
  int_status = gpio1_reg 0x103;
  int_clear = gpio1_reg 0xE4;
  int_en = gpio1_reg 0xC4;
  int_edge = gpio1_reg 0x84;
  int_pos = gpio1_reg 0xA4;
  oe = gpio1_reg 0x34;
  owner = gpio1_reg_r 0x118;
  start = 122;
  end_ = 152;
}

abbrev pub bank_7 : GpioRegs
bank_7 = record {
  out = gpio1_reg 0x18;
  in_ = gpio1_reg 0x68;
  int_status = gpio1_reg 0x108;
  int_clear = gpio1_reg 0xE8;
  int_en = gpio1_reg 0xC8;
  int_edge = gpio1_reg 0x88;
  int_pos = gpio1_reg 0xA8;
  oe = gpio1_reg 0x38;
  owner = gpio1_reg_r 0x11C;
  start = 153;
  end_ = 164;
}

-- `GPIO_REGS`
abbrev pub gpio_regs : List GpioRegs
gpio_regs = bank_0 ∷ bank_1 ∷ bank_2 ∷ bank_3 ∷ bank_4 ∷ bank_5 ∷ bank_6 ∷ bank_7 ∷ []

-- The registers: the bits of the word at each address.
abbrev pub Mmio : Type 0
Mmio = ℕ → ℕ → Bool

-- `writel` of a word with one bit changed.
abbrev pub write_bit : ℕ → ℕ → Bool → Mmio → Mmio
write_bit reg i v m a j = if a == reg && (j == i) then v else m a j

-- The loop of `find_gpio`; without a match its result is the last bank, with no bit.
unfoldable pub search_banks :
    List GpioRegs → ℕ → Option (GpioRegs × Option ℕ) → Option (GpioRegs × Option ℕ)
search_banks [] n last = last
search_banks (r ∷ rs) n last =
    let rest = search_banks rs n (some (r, none)) in
    if leb r.start n && leb n r.end_ then some (r, some (n - r.start)) else rest

-- `find_gpio`: the bank and the number of the bit that is set in `bit`, if any is.
unfoldable pub find_gpio : ℕ → Option (GpioRegs × Option ℕ)
unfolding search_banks
find_gpio n = if ltb 164 n then none else search_banks gpio_regs n none

-- The bits of `v | b` or `v & ~b`, written back.
abbrev pub write_pin : ℕ → Option ℕ → Bool → Mmio → Mmio
write_pin reg none v m = m
write_pin reg (some i) v m = write_bit reg i v m

abbrev pub read_pin : ℕ → Option ℕ → Mmio → Bool
read_pin reg none m = false
read_pin reg (some i) m = m reg i

-- `gpio_config`: whether the pin is there, and the registers; bit 0 of the flags is GPIO_OUTPUT.
unfoldable pub gpio_config : ℕ → ℕ → Mmio → Bool × Mmio
unfolding find_gpio
gpio_config n flags m = elim (find_gpio n) [
  | none ↦ (false, m)
  | some (r, b) ↦ (true, write_pin r.oe b (flags % 2 == 1) m)
]

-- `gpio_set`
unfoldable pub gpio_set : ℕ → Bool → Mmio → Mmio
unfolding gpio_config
gpio_set n on m = elim (find_gpio n) [
  | none ↦ m
  | some (r, b) ↦ write_pin r.out b on (gpio_config n 1 m).1
]

-- `gpio_get`
unfoldable pub gpio_get : ℕ → Mmio → Bool × Mmio
unfolding gpio_config
gpio_get n m = elim (find_gpio n) [
  | none ↦ (false, m)
  | some (r, b) ↦ (read_pin r.in_ b (gpio_config n 0 m).1, (gpio_config n 0 m).1)
]

-- The loop of `GpioDxeInitialize`: all interrupts cleared and disabled.
unfoldable pub clear_interrupts : List GpioRegs → Mmio → Mmio
clear_interrupts [] m = m
clear_interrupts (r ∷ rs) m =
    clear_interrupts rs
      (λ a j. if a == r.int_en then false else (if a == r.int_clear then ltb j 32 else m a j))
