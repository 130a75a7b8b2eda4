-- ===== src/Tests/Screen.antt =====
-- The theorems on the glyphs, the interrupts of the pins and the PLL at concrete inputs.
use htc_leo_pkg.Base.{
  ℕ, ◌+◌, ◌*◌, ◌-◌, ◌/◌, ◌%◌, ◌≡◌, refl, true, List, [], ◌∷◌, some, arith, inl, inr, Bool-cases,
  All, ◌==◌, ==_iff,
}
use htc_leo_pkg.FbCon.{FbCon, FbEvent, white, black, write_chars}
use htc_leo_pkg.FbCon.Frame.{Frame, show_all}
use htc_leo_pkg.FbCon.Frame.Safe.{write_chars-Outside}
use htc_leo_pkg.FbCon.Glyph.{fb_con_draw_glyph}
use htc_leo_pkg.FbCon.Glyph.Spots.{Spot, address, shows}
use htc_leo_pkg.FbCon.Glyph.Shown.{fb_con_draw_glyph_lem}
use htc_leo_pkg.Gpio.{gpio_regs}
use htc_leo_pkg.Gpio.Interrupts.{GpioHw, msm_gpio_isr}
use htc_leo_pkg.Gpio.Interrupts.Acks.{BankAcks, EnablesOwn, msm_gpio_isr-BankAcks}
use htc_leo_pkg.Clock.{acpu_stby, acpu_freq_tbl, speed, find_rate, acpuclk_set_rate}
use htc_leo_pkg.Clock.Hardware.{ClockRegs, execute_all, speed_of, acpuclk_set_rate-speed_of}
use htc_leo_pkg.Clock.Pll.{Pll, PllHw}
use htc_leo_pkg.Clock.Pll.Settled.{Settles}

-- The exclamation mark, at the third line of the screen
abbrev dark : ℕ → ℕ
dark a = 0

fb_con_draw_glyph_example :
    ((s : Spot 69120 4 1 ((480 - 5 * 1) * 4))
      → fb_con_draw_glyph 69120 480 4 (0x08421080, 0x00020084) 1 white black dark (address 480 s)
        ≡ shows (0x08421080, 0x00020084) white black dark 480 s)
    × ((a : ℕ) → (s : Spot 69120 4 1 ((480 - 5 * 1) * 4)) × (address 480 s ≡ a))
fb_con_draw_glyph_example =
    fb_con_draw_glyph_lem 69120 480 4 1 white black 0x08421080 0x00020084 dark (omega arith)
      (omega arith) (omega arith)

-- Registers that all show the bit 3; it counts the writes.
abbrev controller : GpioHw ℕ
controller = record { readl = λ a s. (λ j. j == 3, s); writel = λ w a s. s + 1 }

controller-EnablesOwn : All (EnablesOwn controller) gpio_regs
controller-EnablesOwn = ground arith

msm_gpio_isr_example : BankAcks controller gpio_regs 0 (msm_gpio_isr controller 0).0
msm_gpio_isr_example = msm_gpio_isr-BankAcks controller 0 controller-EnablesOwn

-- A PLL that is busy at every other reading
abbrev pll_hw : PllHw ℕ
pll_hw = record { status = λ ctl ext s. (3 - 3 * (s % 2), s + 1) }

pll_hw-Settles : Settles pll_hw 2
pll_hw-Settles p = elim (Bool-cases (p.inner % 2 == 1)) [
  | inl odd ↦ (0, omega arith, omega (arith, (==_iff _ _).0 odd))
  | inr even ↦ (1, omega arith, ground arith)
]

abbrev pll : Pll ℕ
pll = record { ctl = 0; ext = 0x200; writes = []; inner = 0 }

fastest : find_rate 998400 acpu_freq_tbl ≡ some (speed 998400 0 1 26 1300 128000)
unfolding find_rate
fastest = refl

abbrev clocks : ClockRegs ℕ
clocks = record { spss = record { clk_cntl = 0; clk_sel = 0 }; pll = pll }

-- From 245 MHz to 998.4 MHz
acpuclk_set_rate-speed_of_example :
    (r' : ClockRegs ℕ) × (execute_all pll_hw 2 (acpuclk_set_rate 998400000 acpu_stby).0.1 clocks
      ≡ some r')
    × (speed_of pll_hw 2 r' ≡ some (998400000 / 1000))
    × (r'.pll.ctl % 8 ≡ 7)
acpuclk_set_rate-speed_of_example =
    acpuclk_set_rate-speed_of pll_hw 2 2 pll_hw-Settles (omega arith) 998400000 acpu_stby
      (speed 998400 0 1 26 1300 128000) clocks fastest refl (λ e. absurd (omega (arith, e)))
      (λ e. absurd (omega (arith, e)))

-- The screen of the phone, and the text "Hi" on it
abbrev frame : Frame
frame = record { base = 0x02A00000; width = 480; height = 800; bpp = 32 }

abbrev console : FbCon
console = record {
  x = 0;
  y = 0;
  max_x = 80;
  max_y = 66;
  foreground = white;
  background = black;
  initialized = true;
}

write_chars-Outside_example :
    (c' : FbCon) × (es : List FbEvent) × (write_chars 2 1 (72 ∷ 105 ∷ []) console ≡ some (c', es))
    × (show_all frame black es dark 7 ≡ dark 7)
write_chars-Outside_example =
    write_chars-Outside frame (omega arith) (omega arith) black 1 (omega arith) (72 ∷ 105 ∷ [])
      console dark 7
      (record {
        scaled = omega arith;
        columns = omega arith;
        two_lines = omega arith;
        no_wrap = omega arith;
      })
      (record { width = refl; height = refl; column = omega arith; line = omega arith })
      (inl (omega arith))
