-- ===== src/EmbeddedClock.antt =====
-- HtcLeoPkg/GPLDrivers/ClockDxe/ClockDxe.c: clocks by their number at the modem, on the calls of Pcom. The
-- table is the state: a call gets a pointer into it.
pub mod Speeds
pub mod Numbers
use htc_leo_pkg.Base.{
  ℕ, zero, suc, ◌+◌, ◌-◌, ◌^◌, Bool, true, false, not, List, [], ◌∷◌, Option, none, some, length,
  ltb, ◌==◌, if◌then◌else◌,
}
use htc_leo_pkg.Pcom.{Modem, Pc, Reply, ◌>>=◌, ◌>>◌, pure, word_at, msm_proc_comm}

-- `ClocksLookup`
abbrev pub Lookup : Type 0
Lookup = ℕ → ℕ

-- The value -1 in a word
abbrev pub minus_one : ℕ
minus_one = 2 ^ 32 - 1

abbrev pub update : Lookup → ℕ → ℕ → Lookup
update c id x i = if i == id then x else c i

abbrev pub fill : Lookup → List (ℕ × ℕ) → Lookup
fill c [] = c
fill c ((id, number) ∷ rest) = fill (update c id number) rest

unfoldable pub fill_clocks_lookup : Lookup
fill_clocks_lookup =
    fill (λ i. minus_one)
      ((10, 50)
        ∷ (11, 52)
        ∷ (5, 42)
        ∷ (87, 64)
        ∷ (12, 55)
        ∷ (8, 56)
        ∷ (1, 19)
        ∷ (34, 78)
        ∷ (35, 80)
        ∷ (46, 24)
        ∷ (40, 40)
        ∷ (41, 41)
        ∷ (13, 53)
        ∷ (45, 95)
        ∷ (14, 9)
        ∷ (19, 66)
        ∷ (21, 67)
        ∷ (20, 17)
        ∷ (22, 16)
        ∷ [])

-- What the switch of `CotullaClkSetRate` comes to: a return at once, or a speed
pub data Choice : Type 0 where
  leave : ℕ → Choice
  speed : ℕ → Choice

-- A chain of tests from the highest threshold down: with `n` thresholds the first test gives the speed
-- n + 1, the next one n, and no test 1.
abbrev pub speed_above : ℕ → List ℕ → ℕ
speed_above rate [] = 1
speed_above rate (t ∷ ts) = if ltb t rate then suc (suc (length ts)) else speed_above rate ts

-- A chain of tests for single rates
abbrev pub speed_at : ℕ → List (ℕ × ℕ) → Choice
speed_at rate [] = leave 0
speed_at rate ((r, s) ∷ rest) = if rate == r then speed s else speed_at rate rest

abbrev pub icodec_steps : List ℕ
icodec_steps = 11289600 ∷ 8192000 ∷ 6144000 ∷ 5644800 ∷ 4096000 ∷ 3072000 ∷ 2822400 ∷ 2048000 ∷ []

abbrev pub sdac_steps : List ℕ
sdac_steps = 1411200 ∷ 1024000 ∷ 768000 ∷ 705600 ∷ 512000 ∷ 384000 ∷ 352800 ∷ 256000 ∷ []

abbrev pub uart_steps : List ℕ
uart_steps =
    61440000 ∷ 58982400 ∷ 56000000 ∷ 51200000 ∷ 48000000 ∷ 40000000 ∷ 32000000 ∷ 24000000 ∷ 16000000
    ∷ 15360000 ∷ 14745600 ∷ 7680000 ∷ 7372800 ∷ 3840000 ∷ []

abbrev pub ecodec_steps : List ℕ
ecodec_steps = 2048000 ∷ 128000 ∷ []

abbrev pub spi_steps : List ℕ
spi_steps = 15360000 ∷ 9600000 ∷ 4800000 ∷ 960000 ∷ []

abbrev pub sdc_steps : List ℕ
sdc_steps =
    50000000 ∷ 49152000 ∷ 45000000 ∷ 40000000 ∷ 35000000 ∷ 30000000 ∷ 25000000 ∷ 20000000 ∷ 15000000
    ∷ 10000000 ∷ 5000000 ∷ 400000 ∷ 144000 ∷ []

-- The clocks of the switch whose speeds are steps
abbrev pub steps : ℕ → Option (List ℕ)
steps id =
    if id == 10
    then some icodec_steps
    else if id == 11
    then some icodec_steps
    else if id == 87
    then some sdac_steps
    else if id == 34
    then some uart_steps
    else if id == 35
    then some uart_steps
    else if id == 5
    then some ecodec_steps
    else if id == 45
    then some spi_steps
    else if id == 19
    then some sdc_steps
    else if id == 21
    then some sdc_steps
    else none

-- VFE_MDC_CLK and VFE_CLK with their rates, SDC1_PCLK and SDC2_PCLK, and the default
abbrev pub choose_other : ℕ → ℕ → Choice
choose_other id rate =
    if id == 40
    then speed_at rate (
        (96000000, 37)
        ∷ (48000000, 32)
        ∷ (24000000, 22)
        ∷ (12000000, 14)
        ∷ (6000000, 6)
        ∷ (3000000, 1)
        ∷ [])
    else if id == 41
    then speed_at rate
        ((36000000, 1) ∷ (48000000, 2) ∷ (64000000, 3) ∷ (78000000, 4) ∷ (96000000, 5) ∷ [])
    else if id == 20
    then leave 0
    else if id == 22
    then leave 0
    else leave minus_one

unfoldable pub choose : ℕ → ℕ → Choice
choose id rate = elim (steps id) [
  | none ↦ choose_other id rate
  | some ts ↦ speed (speed_above rate ts)
]

module _ {M : Type 0} (md : Modem M) (fuel : ℕ) where
  -- A call with the table's entry as its first word, and the table as the call leaves it
  abbrev pub call : ℕ → ℕ → Option ℕ → Lookup → Pc M (Reply × Lookup)
  call cmd id d2 c = do
    r ← msm_proc_comm md fuel cmd (some (c id)) d2
    pure (r, update c id (word_at r.data1))

  abbrev pub select_speed : Choice → ℕ → Lookup → Pc M (ℕ × Lookup)
  select_speed (leave x) id c = pure (x, c)
  select_speed (speed s) id c = do r ← call 58 id (some s) c; pure (0, r.1)

  unfoldable pub cotulla_clk_set_rate : ℕ → ℕ → Lookup → Pc M (ℕ × Lookup)
  unfolding choose
  cotulla_clk_set_rate id rate c = select_speed (choose id rate) id c

  -- `ClkSetRate` returns what that returns, -1 or not.
  unfoldable pub clk_set_rate : ℕ → ℕ → Lookup → Pc M (ℕ × Lookup)
  unfolding cotulla_clk_set_rate
  clk_set_rate id rate c = do
    r ← cotulla_clk_set_rate id rate c
    pure (if r.0 == minus_one then (minus_one, r.1) else r)

  unfoldable pub clk_get_rate : ℕ → Lookup → Pc M (ℕ × Lookup)
  clk_get_rate id c =
      let known : Pc M (ℕ × Lookup) = do
        r ← call 67 id (some 0) c
        pure (word_at ((r.0).data2), r.1)
      in if c id == minus_one then pure (if id == 26 then 64000000 else minus_one, c) else known

  unfoldable pub clk_enable : ℕ → Lookup → Pc M (ℕ × Lookup)
  clk_enable id c =
      let known : Pc M (ℕ × Lookup) = do r ← call 50 id none c; pure (r.1 id, r.1)
      in if c id == minus_one then pure (minus_one, c) else known

  unfoldable pub clk_disable : ℕ → Lookup → Pc M (Unit {0} × Lookup)
  clk_disable id c =
      let known : Pc M (Unit {0} × Lookup) = do r ← call 51 id none c; pure (tt, r.1)
      in if c id == minus_one then pure (tt, c) else known

  unfoldable pub msm_pll_request : ℕ → ℕ → Pc M Reply
  msm_pll_request id on = msm_proc_comm md fuel 28 (some id) (some (if on == 0 then 0 else 1))
