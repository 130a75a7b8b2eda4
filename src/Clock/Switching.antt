-- ===== src/Clock/Switching.antt =====
-- Switching the speed, HtcLeoPkg/GPLDrivers/ClockDxe/acpuclock.c.
use Prim.{tt}
use htc_leo_pkg.Base.{
  ℕ, ◌*◌, ◌/◌, ◌≡◌, ◌≢◌, ◌⊎◌, refl, sym, inl, inr, Bool, true, false, ◌&&◌, ◌||◌, List, [], ◌∷◌,
  Option, none, some, arith, leb, ◌==◌, Bool-cases, Option-cases, All, not, &&-split,
}
use htc_leo_pkg.Base.Int.{ℤ, pos, negsuc}
use htc_leo_pkg.Clock.{
  AcpuSpeed, acpu_freq_tbl, src_scpll, ClockCommand, select_clock, scpll_set_freq, scpll_power_down,
  is_acpu_standby, find_rate, switch, acpuclk_set_rate, clamp_lval,
}

-- The PLL is set or turned off only while the processor runs from another source; `source` is the one
-- that is selected before the commands.
abbrev pub Safe : ℕ → List ClockCommand → Type 0
Safe source [] = Unit
Safe source (select_clock s cfg ∷ cs) = Safe s cs
Safe source (scpll_set_freq l ∷ cs) = (source ≢ src_scpll) × Safe source cs
Safe source (scpll_power_down ∷ cs) = (source ≢ src_scpll) × Safe source cs

-- The source that is selected after the commands, and the last value that the PLL is set to.
abbrev pub last_source : ℕ → List ClockCommand → ℕ
last_source source [] = source
last_source source (select_clock s cfg ∷ cs) = last_source s cs
last_source source (scpll_set_freq l ∷ cs) = last_source source cs
last_source source (scpll_power_down ∷ cs) = last_source source cs

-- The commands of a switch bring the processor from `cur` to `next` safely.
pub record Switches (cur next : AcpuSpeed) (cs : List ClockCommand) : Type 0 where
  pub safe : Safe cur.clk_sel cs
  pub arrives : last_source cur.clk_sel cs ≡ next.clk_sel

switch-Switches : (cur next : AcpuSpeed) → Switches cur next (switch cur next)
unfolding switch
switch-Switches cur next = elim (Bool-cases (next.clk_sel == src_scpll)) [
  | inl to_pll ↦
      let target : next.clk_sel ≡ 1 = ground arith in
      elim (Bool-cases (is_acpu_standby cur)) [
        | inl standby ↦
            let raw : cur.clk_sel ≡ 0 = ground arith in
            rw to_pll (rw standby (record { safe = (λ e. omega arith, tt); arrives = sym target }))
        | inr other ↦
            rw to_pll (rw other (record { safe = (λ e. omega arith, tt); arrives = sym target }))
      ]
  | inr to_raw ↦
      let target : next.clk_sel ≢ 1 = λ e. ground arith in
      elim (Bool-cases (cur.clk_sel == src_scpll)) [
        | inl from_pll ↦ rw to_raw (rw from_pll (record { safe = (target, tt); arrives = refl }))
        | inr from_raw ↦ rw to_raw (rw from_raw (record { safe = tt; arrives = refl }))
      ]
]

-- An entry runs from a fixed source, or from the PLL with a value in its range that gives the speed.
abbrev pub is_tuned : AcpuSpeed → Bool
is_tuned s =
    (s.clk_sel == 0)
    || ((s.sc_l_value * 38400 == s.acpu_khz) && (leb 10 s.sc_l_value && leb s.sc_l_value 33))

pub record IsEntry (rate : ℕ) (s : AcpuSpeed) : Type 0 where
  pub khz : s.acpu_khz ≡ rate
  pub tuned : is_tuned s ≡ true

pub find_rate-IsEntry :
    (rate : ℕ) (tbl : List AcpuSpeed) (s : AcpuSpeed)
    → All (λ x. is_tuned x ≡ true) tbl
    → find_rate rate tbl ≡ some s
    → IsEntry rate s
unfolding find_rate
find_rate-IsEntry rate [] s ok e = absurd cc
find_rate-IsEntry rate (x ∷ tbl) s ok e = elim (Bool-cases (x.acpu_khz == rate)) [
  | inl here ↦
      let same : x ≡ s = cc ((rw here at e)) in
      rw (sym same) (record { khz = ground arith; tuned = ok.0 })
  | inr other ↦ elim (Bool-cases (x.acpu_khz == 0)) [
    | inl end ↦
        let no : ◌≡◌ {A = Option AcpuSpeed} none (some s) = (rw end at (rw other at e)) in absurd cc
    | inr more ↦ find_rate-IsEntry rate tbl s ok.1 (rw more at (rw other at e))
  ]
]

-- The values of the PLL are in its range.
pub tuned-clamp_lval :
    (s : AcpuSpeed)
    → is_tuned s ≡ true
    → s.clk_sel ≢ 0
    → (clamp_lval s.sc_l_value * 38400 ≡ s.acpu_khz)
unfolding clamp_lval
tuned-clamp_lval s h ne = ground arith

either : (a b : ℕ) → ((a == b) || (a == 0)) ≡ true → (a ≡ b) ⊎ (a ≡ 0)
either a b h = elim (Bool-cases (a == b)) [
  | inl e ↦ inl (ground arith)
  | inr ne ↦ inr (ground arith)
]

neither : (a b : ℕ) → ((a == b) || (a == 0)) ≡ false → (a ≢ b) × (a ≢ 0)
neither a b h = (λ e. ground arith, λ e. ground arith)

unfoldable pub test_all : (AcpuSpeed → Bool) → List AcpuSpeed → Bool
test_all p [] = true
test_all p (x ∷ xs) = p x && test_all p xs

pub All-test :
    (p : AcpuSpeed → Bool) (xs : List AcpuSpeed) → test_all p xs ≡ true → All (λ x. p x ≡ true) xs
unfolding test_all
All-test p [] h = tt
All-test p (x ∷ xs) h =
    let (here, rest) = &&-split (p x) (test_all p xs) h in (here, All-test p xs rest)

-- Only the last entry of a table has 0 KHz.
abbrev is_terminated : List AcpuSpeed → Bool
is_terminated [] = true
is_terminated (x ∷ []) = true
is_terminated (x ∷ y ∷ rest) = not (x.acpu_khz == 0) && is_terminated (y ∷ rest)

-- No entry has the speed.
abbrev pub Unknown : ℕ → List AcpuSpeed → Type 0
Unknown rate tbl = All (λ x. x.acpu_khz ≢ rate) tbl

find_rate-Unknown :
    (rate : ℕ) (tbl : List AcpuSpeed)
    → is_terminated tbl ≡ true
    → find_rate rate tbl ≡ none
    → Unknown rate tbl
unfolding find_rate
find_rate-Unknown rate [] ends e = tt
find_rate-Unknown rate (x ∷ []) ends e = elim (Bool-cases (x.acpu_khz == rate)) [
  | inl here ↦ let found : some x ≡ none = (rw here at e) in absurd cc
  | inr other ↦ ((λ h. ground arith), tt)
]
find_rate-Unknown rate (x ∷ y ∷ rest) ends e = elim (Bool-cases (x.acpu_khz == rate)) [
  | inl here ↦ let found : some x ≡ none = (rw here at e) in absurd cc
  | inr other ↦
      let (nonzero, later) = &&-split (not (x.acpu_khz == 0)) (is_terminated (y ∷ rest)) ends in
      let more : (x.acpu_khz == 0) ≡ false = ground arith in
      ((λ h. ground arith), find_rate-Unknown rate (y ∷ rest) later (rw more at (rw other at e)))
]

-- A switch to the entry of a speed
pub acpuclk_set_rate-switch :
    (hz : ℕ) (cur next : AcpuSpeed)
    → ((hz / 1000 == cur.acpu_khz) || (hz / 1000 == 0)) ≡ false
    → find_rate (hz / 1000) acpu_freq_tbl ≡ some next
    → acpuclk_set_rate hz cur ≡ ((pos 0, switch cur next), next)
unfolding acpuclk_set_rate
acpuclk_set_rate-switch hz cur next go e = rw go (rw (e, acpuclk_set_rate) refl)

-- What `acpuclk_set_rate` does for a speed in KHz.
pub data Outcome (rate : ℕ) (cur : AcpuSpeed) (r : (ℤ × List ClockCommand) × AcpuSpeed)
    : Type 0 where
  nothing : (rate ≡ cur.acpu_khz) ⊎ (rate ≡ 0) → r ≡ ((pos 0, []), cur) → Outcome rate cur r
  refused :
      rate ≢ cur.acpu_khz
      → rate ≢ 0
      → Unknown rate acpu_freq_tbl
      → r ≡ ((negsuc 0, []), cur)
      → Outcome rate cur r
  switched :
      rate ≢ cur.acpu_khz
      → rate ≢ 0
      → (next : AcpuSpeed) (cs : List ClockCommand) → IsEntry rate next
      → Switches cur next cs
      → r ≡ ((pos 0, cs), next)
      → Outcome rate cur r

-- For every rate, taken in whole KHz, and every current entry, `acpuclk_set_rate` does nothing and returns 0 for
-- 0 or the current speed. For any other speed, it returns -1 and does nothing if no entry of the table has it; otherwise the
-- entry of that speed becomes the current one, its source is selected in the end, and the PLL is
-- never set or turned off while the processor runs from it. If the entry uses the PLL, its value is
-- in the range of the PLL and gives the speed.
pub acpuclk_set_rate-Outcome :
    (hz : ℕ) (cur : AcpuSpeed) → Outcome (hz / 1000) cur (acpuclk_set_rate hz cur)
unfolding acpuclk_set_rate test_all
acpuclk_set_rate-Outcome hz cur =
    elim (Bool-cases ((hz / 1000 == cur.acpu_khz) || (hz / 1000 == 0))) [
      | inl idle ↦ nothing (either (hz / 1000) cur.acpu_khz idle) (rw idle refl)
      | inr go ↦
          let (other, nonzero) = neither (hz / 1000) cur.acpu_khz go in
          elim (Option-cases (find_rate (hz / 1000) acpu_freq_tbl)) [
            | inl e ↦
                refused other nonzero (find_rate-Unknown (hz / 1000) acpu_freq_tbl refl e)
                  (rw go (rw (e, acpuclk_set_rate) refl))
            | inr (next, e) ↦
                switched other nonzero next (switch cur next)
                  (find_rate-IsEntry (hz / 1000) acpu_freq_tbl next
                    (All-test is_tuned acpu_freq_tbl refl) e)
                  (switch-Switches cur next) (acpuclk_set_rate-switch hz cur next go e)
          ]
    ]
