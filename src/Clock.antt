-- ===== src/Clock.antt =====
-- HtcLeoPkg/GPLDrivers/ClockDxe/acpuclock.c: the speed of the processor. What the code does to the clock
-- hardware is a list of commands; Registers has the two registers that choose the source, Pll those of the PLL.
pub mod Switching
pub mod Registers
pub mod Pll
pub mod Hardware
use htc_leo_pkg.Base.{
  ℕ, ◌*◌, ◌/◌, ◌%◌, Bool, ◌&&◌, ◌||◌, List, [], ◌∷◌, ◌++◌, Option, none, some, ltb, ◌==◌,
  if◌then◌else◌,
}
use htc_leo_pkg.Base.Int.{ℤ, pos, negsuc}

-- `struct clkctl_acpu_speed`
pub record AcpuSpeed : Type 0 where
  pub acpu_khz : ℕ
  pub clk_cfg : ℕ
  pub clk_sel : ℕ
  pub sc_l_value : ℕ
  pub vdd : ℕ
  pub axiclk_khz : ℕ

abbrev pub speed : ℕ → ℕ → ℕ → ℕ → ℕ → ℕ → AcpuSpeed
speed khz cfg sel l vdd axi = record {
  acpu_khz = khz;
  clk_cfg = cfg;
  clk_sel = sel;
  sc_l_value = l;
  vdd = vdd;
  axiclk_khz = axi;
}

-- `acpu_freq_tbl`
abbrev pub acpu_freq_tbl : List AcpuSpeed
acpu_freq_tbl =
    speed 245000 64 0 0 1050 29000
    ∷ speed 384000 0 1 10 1050 58000
    ∷ speed 422400 0 1 11 1050 117000
    ∷ speed 460800 0 1 12 1050 117000
    ∷ speed 499200 0 1 13 1075 117000
    ∷ speed 537600 0 1 14 1100 117000
    ∷ speed 576000 0 1 15 1100 117000
    ∷ speed 614400 0 1 16 1125 117000
    ∷ speed 652800 0 1 17 1150 117000
    ∷ speed 691200 0 1 18 1175 117000
    ∷ speed 729600 0 1 19 1200 117000
    ∷ speed 768000 0 1 20 1200 128000
    ∷ speed 806400 0 1 21 1225 128000
    ∷ speed 844800 0 1 22 1250 128000
    ∷ speed 883200 0 1 23 1275 128000
    ∷ speed 921600 0 1 24 1300 128000
    ∷ speed 960000 0 1 25 1300 128000
    ∷ speed 998400 0 1 26 1300 128000
    ∷ speed 0 0 0 0 0 0
    ∷ []

-- `acpu_stby`, the first entry
abbrev pub acpu_stby : AcpuSpeed
acpu_stby = speed 245000 64 0 0 1050 29000

-- SRC_SCPLL
abbrev pub src_scpll : ℕ
src_scpll = 1

-- The calls of `select_clock`, `scpll_set_freq` and `scpll_power_down`
pub data ClockCommand : Type 0 where
  select_clock : ℕ → ℕ → ClockCommand
  scpll_set_freq : ℕ → ClockCommand
  scpll_power_down : ClockCommand

-- IS_ACPU_STANDBY
abbrev pub is_acpu_standby : AcpuSpeed → Bool
is_acpu_standby s = (s.clk_cfg == acpu_stby.clk_cfg) && (s.clk_sel == acpu_stby.clk_sel)

abbrev pub to_standby : ClockCommand
to_standby = select_clock acpu_stby.clk_sel acpu_stby.clk_cfg

-- The search of `acpuclk_set_rate`, from an entry on; `none` is its return of -1. The table ends with an
-- entry of 0 KHz.
unfoldable pub find_rate : ℕ → List AcpuSpeed → Option AcpuSpeed
find_rate rate [] = none
find_rate rate (next ∷ rest) =
    if next.acpu_khz == rate
    then some next
    else if next.acpu_khz == 0
    then none
    else find_rate rate rest

-- The switch from one entry to another.
unfoldable pub switch : AcpuSpeed → AcpuSpeed → List ClockCommand
switch cur next =
    if next.clk_sel == src_scpll
    then (if is_acpu_standby cur then [] else to_standby ∷ [])
      ++ (scpll_set_freq next.sc_l_value ∷ select_clock src_scpll 0 ∷ [])
    else if cur.clk_sel == src_scpll
    then to_standby ∷ select_clock next.clk_sel next.clk_cfg ∷ scpll_power_down ∷ []
    else select_clock next.clk_sel next.clk_cfg ∷ []

-- `acpuclk_set_rate`, in the state of `current_speed`: the result, the commands and the new state.
unfoldable pub acpuclk_set_rate : ℕ → AcpuSpeed → (ℤ × List ClockCommand) × AcpuSpeed
unfolding find_rate switch
acpuclk_set_rate hz cur =
    let rate = hz / 1000 in
    if (rate == cur.acpu_khz) || (rate == 0)
    then ((pos 0, []), cur)
    else elim (find_rate rate acpu_freq_tbl) [
      | none ↦ ((negsuc 0, []), cur)
      | some next ↦ ((pos 0, switch cur next), next)
    ]

-- The end of `acpuclk_init`, with the entry that it starts with.
unfoldable pub init_commands : AcpuSpeed → List ClockCommand
init_commands cur =
    to_standby ∷ scpll_power_down ∷ scpll_set_freq cur.sc_l_value ∷ select_clock src_scpll 0 ∷ []

-- The value that `scpll_set_freq` brings into the range of the PLL.
unfoldable pub clamp_lval : ℕ → ℕ
clamp_lval lval = let l = if ltb 33 lval then 33 else lval in if ltb l 10 then 10 else l

-- `acpuclk_find_speed`, by what the registers read; `none` is its endless loop.
unfoldable pub acpuclk_find_speed : ℕ → ℕ → Option ℕ
acpuclk_find_speed sel ext =
    let source = sel / 2 % 4 in
    if source == 1 then some (ext / 8 % 64 * 38400) else if source == 2 then some 128000 else none

-- `acpuclk_get_rate`, by `acpuclk_init_done`
unfoldable pub acpuclk_get_rate : Bool → AcpuSpeed → ℕ
acpuclk_get_rate init_done cur = if init_done then cur.acpu_khz else 998001
