-- ===== src/Clock/Hardware.antt =====
-- The commands of acpuclk_set_rate, HtcLeoPkg/GPLDrivers/ClockDxe/acpuclock.c, on the registers: select_clock on those that
-- choose the source, the others on the PLL.
use htc_leo_pkg.Base.{
  ℕ, ◌*◌, ◌/◌, ◌%◌, ◌≤◌, ◌≡◌, ◌≢◌, refl, ap, ◌∙◌, inl, inr, false, ◌||◌, Bool-cases, List, [], ◌∷◌,
  Option, some, arith, ◌==◌, ==_ne,
}
use htc_leo_pkg.Clock.{
  AcpuSpeed, acpu_freq_tbl, ClockCommand, select_clock, scpll_set_freq, scpll_power_down,
  is_acpu_standby, find_rate, switch, acpuclk_set_rate, acpuclk_find_speed, clamp_lval, src_scpll,
}
use htc_leo_pkg.Clock.Registers.{SpssRegs, select_clock_regs, select_clock_regs_lem}
use htc_leo_pkg.Clock.Switching.{
  find_rate-IsEntry, acpuclk_set_rate-switch, tuned-clamp_lval, All-test, test_all, is_tuned,
}
use htc_leo_pkg.Clock.Pll.{Pll, PllHw, and_then}
use htc_leo_pkg.Clock.Pll.{scpll_set_freq as set_pll, scpll_power_down as pll_down}
use htc_leo_pkg.Clock.Pll.Settled.{Settles, scpll_set_freq_lem}

pub record ClockRegs (S : Type 0) : Type 0 where
  pub spss : SpssRegs
  pub pll : Pll S

module _ {S : Type 0} (hw : PllHw S) (fuel : ℕ) where
  unfoldable pub execute : ClockCommand → ClockRegs S → Option (ClockRegs S)
  execute (select_clock src cfg) r = some (record r { spss = select_clock_regs src cfg r.spss })
  execute (scpll_set_freq lval) r =
      and_then (set_pll hw fuel lval r.pll) λ p. some (record r { pll = p })
  execute scpll_power_down r = and_then (pll_down hw fuel r.pll) λ p. some (record r { pll = p })

  unfoldable pub execute_all : List ClockCommand → ClockRegs S → Option (ClockRegs S)
  unfolding execute
  execute_all [] r = some r
  execute_all (c ∷ cs) r = and_then (execute c r) λ r'. execute_all cs r'

  -- What the hardware runs at, as acpuclk_find_speed reads it
  abbrev pub speed_of : ClockRegs S → Option ℕ
  speed_of r = acpuclk_find_speed r.spss.clk_sel r.pll.ext

  find_speed_lem :
      (sel ext : ℕ) → sel / 2 % 4 ≡ 1 → acpuclk_find_speed sel ext ≡ acpuclk_find_speed 2 ext
  unfolding acpuclk_find_speed
  find_speed_lem sel ext e = rw e refl

  module _ (n : ℕ) (settles : Settles hw n) (enough : n ≤ fuel) where
    to_pll :
        (l : ℕ) (r : ClockRegs S)
        → (r' : ClockRegs S) × (execute_all (scpll_set_freq l ∷ select_clock src_scpll 0 ∷ []) r
            ≡ some r')
          × (speed_of r' ≡ some (clamp_lval l * 38400))
          × (r'.pll.ctl % 8 ≡ 7)
    unfolding execute_all
    to_pll l r =
        let (q, ends, ctl, ext, finds, writes) =
          scpll_set_freq_lem hw n settles fuel enough l r.pll in
        let spss = select_clock_regs 1 0 r.spss in
        let selected = select_clock_regs_lem 1 0 r.spss (omega arith) (omega arith) in
        (
          record { spss = spss; pll = q },
          rw ends refl,
          find_speed_lem spss.clk_sel q.ext selected.0 ∙ finds,
          omega (arith, ctl),
        )

    switch_to_pll :
        (cur next : AcpuSpeed) (r : ClockRegs S)
        → next.clk_sel ≡ src_scpll
        → (r' : ClockRegs S) × (execute_all (switch cur next) r ≡ some r')
          × (speed_of r' ≡ some (clamp_lval next.sc_l_value * 38400))
          × (r'.pll.ctl % 8 ≡ 7)
    unfolding switch execute_all execute
    switch_to_pll cur next r to = elim (Bool-cases (is_acpu_standby cur)) [
      | inl standby ↦
          let (r', ends, finds, normal) = to_pll next.sc_l_value r in
          (r', rw (to, standby) ends, finds, normal)
      | inr other ↦
          let (r', ends, finds, normal) =
            to_pll next.sc_l_value (record r { spss = select_clock_regs 0 64 r.spss }) in
          (r', rw (to, other) ends, finds, normal)
    ]

    -- With a PLL that settles within `n` readings and at least that fuel: setting a rate in Hz for which the table has an
    -- entry on the PLL, other than the present speed and 0, gives commands that all end on the registers, whatever they
    -- hold. Afterwards acpuclk_find_speed reads that rate in KHz from the registers, and the PLL is in normal mode.
    pub acpuclk_set_rate-speed_of :
        (hz : ℕ) (cur next : AcpuSpeed) (r : ClockRegs S)
        → find_rate (hz / 1000) acpu_freq_tbl ≡ some next
        → next.clk_sel ≡ src_scpll
        → hz / 1000 ≢ cur.acpu_khz
        → hz / 1000 ≢ 0
        → (r' : ClockRegs S) × (execute_all (acpuclk_set_rate hz cur).0.1 r ≡ some r')
          × (speed_of r' ≡ some (hz / 1000))
          × (r'.pll.ctl % 8 ≡ 7)
    unfolding test_all
    acpuclk_set_rate-speed_of hz cur next r found to other running =
        let (r', ends, finds, normal) = switch_to_pll cur next r to in
        let entry =
          find_rate-IsEntry (hz / 1000) acpu_freq_tbl next (All-test is_tuned acpu_freq_tbl refl)
            found in
        let changes : ((hz / 1000 == cur.acpu_khz) || (hz / 1000 == 0)) ≡ false =
          rw (==_ne (hz / 1000) cur.acpu_khz other, ==_ne (hz / 1000) 0 running) refl in
        let khz : clamp_lval next.sc_l_value * 38400 ≡ hz / 1000 =
          tuned-clamp_lval next entry.tuned (λ z. omega (arith, z, to)) ∙ entry.khz in
        (
          r',
          ap (λ q. execute_all q.0.1 r) (acpuclk_set_rate-switch hz cur next changes found) ∙ ends,
          finds ∙ ap some khz,
          normal,
        )
