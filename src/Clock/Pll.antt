-- ===== src/Clock/Pll.antt =====
-- scpll_set_freq and scpll_power_down of HtcLeoPkg/GPLDrivers/ClockDxe/acpuclock.c. The control registers keep what is
-- written; what the PLL shows in its status register, and does meanwhile, is an interface. The delays are left out.
pub mod Settled
use htc_leo_pkg.Base.{
  ℕ, zero, suc, ◌+◌, ◌*◌, ◌/◌, ◌%◌, List, [], ◌∷◌, ◌++◌, Option, none, some, ◌==◌, if◌then◌else◌,
}
use htc_leo_pkg.Clock.{clamp_lval}

pub data PllWrite : Type 0 where
  write_ctl write_ext : ℕ → PllWrite

-- SCPLL_CTL, SCPLL_FSM_CTL_EXT, the writes to them so far, and the PLL
pub record Pll (S : Type 0) : Type 0 where
  pub ctl : ℕ
  pub ext : ℕ
  pub writes : List PllWrite
  pub inner : S

pub record PllHw (S : Type 0) : Type 0 where
  pub status : ℕ → ℕ → S → ℕ × S

-- `(ctl & (~PLLMODE_MASK)) | mode`, and `(val & (~0x1FF)) | (l << 3) | switch`
abbrev pub with_mode : ℕ → ℕ → ℕ
with_mode ctl mode = ctl / 8 * 8 + mode

abbrev pub with_freq : ℕ → ℕ → ℕ → ℕ
with_freq ext l switch = ext / 512 * 512 + l * 8 + switch

module _ {S : Type 0} where
  abbrev pub set_ctl : ℕ → Pll S → Pll S
  set_ctl v p = record p { ctl = v; writes = p.writes ++ write_ctl v ∷ [] }

  abbrev pub set_ext : ℕ → Pll S → Pll S
  set_ext v p = record p { ext = v; writes = p.writes ++ write_ext v ∷ [] }

  -- From standby to 384 MHz, in normal mode
  abbrev pub shot_switch : Pll S → Pll S
  shot_switch p =
      let p1 = set_ctl (with_mode p.ctl 2) p in
      let p2 = set_ext (with_freq p1.ext 0x0A 4) p1 in set_ctl (with_mode p2.ctl 7) p2

  abbrev pub hop_switch : ℕ → Pll S → Pll S
  hop_switch lval p = let p1 = set_ext (with_freq p.ext lval 5) p in set_ctl (with_mode p1.ctl 7) p1

-- A wait that ends, and what comes behind it
abbrev pub and_then : {A B : Type 0} → Option A → (A → Option B) → Option B
and_then none f = none
and_then (some a) f = f a

module _ {S : Type 0} (hw : PllHw S) where
  -- `while (readl(SCPLL_STATUS_ADDR) & mask);` for a mask of the lowest bits, with its modulus
  unfoldable pub wait : ℕ → ℕ → Pll S → Option (Pll S)
  wait zero modulus p = none
  wait (suc fuel) modulus p =
      let (st, inner) = hw.status p.ctl p.ext p.inner in
      let p' = record p { inner = inner } in
      let later = wait fuel modulus p' in if st % modulus == 0 then some p' else later

  unfoldable pub scpll_power_down : ℕ → Pll S → Option (Pll S)
  scpll_power_down fuel p =
      and_then (wait fuel 2 p)
        λ p1. let val = with_mode p1.ctl 2 in some (set_ctl (with_mode val 0) (set_ctl val p1))

  -- The part for a PLL that is not in normal mode
  unfoldable pub to_normal : ℕ → Pll S → Option (Pll S)
  to_normal fuel p =
      let switched = wait fuel 2 (shot_switch p) in if p.ctl % 8 == 7 then some p else switched

  unfoldable pub scpll_set_freq : ℕ → ℕ → Pll S → Option (Pll S)
  scpll_set_freq fuel lval p =
      and_then (wait fuel 4 p)
        λ p1. and_then (to_normal fuel p1) λ p2. wait fuel 2 (hop_switch (clamp_lval lval) p2)
