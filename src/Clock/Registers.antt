-- ===== src/Clock/Registers.antt =====
-- select_clock of HtcLeoPkg/GPLDrivers/ClockDxe/acpuclock.c on its two registers. The configurations of two
-- sources stand at bit 0 and bit 8 of CLK_CNTL, and bit 0 of CLK_SEL says which one is in use.
use htc_leo_pkg.Base.{
  ℕ, ◌+◌, ◌*◌, ◌-◌, ◌/◌, ◌%◌, ◌^◌, ◌<◌, ◌≡◌, inl, inr, arith, ◌==◌, if◌then◌else◌, Bool-cases,
}

pub record SpssRegs : Type 0 where
  pub clk_cntl : ℕ
  pub clk_sel : ℕ

-- `(val & (~(0x7F << shift))) | (config << shift)`, for a configuration of 7 bits
abbrev pub put_config : ℕ → ℕ → ℕ → ℕ
put_config val shift config =
    val / 2 ^ (shift + 7) * 2 ^ (shift + 7) + config * 2 ^ shift + val % 2 ^ shift

abbrev pub flip_sel : ℕ → ℕ
flip_sel sel = if sel % 2 == 1 then sel - 1 else sel + 1

-- The first half of `select_clock`, for SRC_RAW
unfoldable pub set_other : ℕ → SpssRegs → SpssRegs
set_other config r = record {
  clk_cntl = put_config r.clk_cntl (if r.clk_sel % 2 == 1 then 8 else 0) config;
  clk_sel = flip_sel r.clk_sel;
}

-- `select_clock`
unfoldable pub select_clock_regs : ℕ → ℕ → SpssRegs → SpssRegs
unfolding set_other
select_clock_regs src config r =
    let r' = if src == 0 then set_other config r else r in
    record r' { clk_sel = r'.clk_sel / 8 * 8 + r'.clk_sel % 2 + src % 4 * 2 }

-- The selected source, the configuration in use, and the other one.
abbrev pub source_of : SpssRegs → ℕ
source_of r = r.clk_sel / 2 % 4

abbrev pub config_in_use : SpssRegs → ℕ
config_in_use r = if r.clk_sel % 2 == 1 then r.clk_cntl % 128 else r.clk_cntl / 256 % 128

abbrev pub other_config : SpssRegs → ℕ
other_config r = if r.clk_sel % 2 == 1 then r.clk_cntl / 256 % 128 else r.clk_cntl % 128

select_raw :
    (config : ℕ) (r : SpssRegs)
    → config < 128
    → let r' = select_clock_regs 0 config r in
      (source_of r' ≡ 0) × (config_in_use r' ≡ config) × (other_config r' ≡ config_in_use r)
unfolding select_clock_regs
select_raw config r small = elim (Bool-cases (r.clk_sel % 2 == 1)) [
  | inl odd ↦ ground arith
  | inr even ↦ ground arith
]

-- For a source below 4 and a configuration of 7 bits, `select_clock` selects the source. For source 0 the
-- new configuration is the one in use afterwards, and the one that was in use is kept as the other
-- one; for another source neither changes.
pub select_clock_regs_lem :
    (src config : ℕ) (r : SpssRegs)
    → src < 4
    → config < 128
    → let r' = select_clock_regs src config r in
      (source_of r' ≡ src)
      × (config_in_use r' ≡ (if src == 0 then config else config_in_use r))
      × (other_config r' ≡ (if src == 0 then config_in_use r else other_config r))
unfolding select_clock_regs
select_clock_regs_lem src config r lt small = elim (Bool-cases (src == 0)) [
  | inl raw ↦ let e : src ≡ 0 = ground arith in rw e (select_raw config r small)
  | inr other ↦ ground arith
]
