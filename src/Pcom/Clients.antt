-- ===== src/Pcom/Clients.antt =====
-- HtcLeoPkg/Library/MsmPcomClientLib/pcom_clients.c: what the drivers ask of the modem. A loop that tries
-- again takes the number of rounds.
pub mod Rounds
pub mod Pins
use htc_leo_pkg.Base.{
  ℕ, zero, suc, ◌+◌, ◌-◌, ◌*◌, ◌/◌, ◌%◌, ◌^◌, Bool, true, false, not, List, [], ◌∷◌, Option, none,
  some, ◌==◌, if◌then◌else◌,
}
use htc_leo_pkg.Pcom.{
  Modem, Reply, Pc, ◌>>=◌, ◌>>◌, pure, get, word_at, pcom_cmd_success, msm_proc_comm,
  pcom_gpio_tlmm_config, pcom_clock_enable, pcom_clock_disable, pcom_clock_is_enabled,
  pcom_clock_set_rate, pcom_clock_get_rate, pcom_set_clock_flags,
}

-- The macro MSM_GPIO_CFG; its fields do not overlap.
pub record PinConfig : Type 0 where
  pub gpio : ℕ
  pub func : ℕ
  pub dir : ℕ
  pub pull : ℕ
  pub drvstr : ℕ

unfoldable pub msm_gpio_cfg : PinConfig → ℕ
msm_gpio_cfg c =
    c.gpio % 2 ^ 10 * 2 ^ 4
    + c.func % 2 ^ 4
    + c.dir % 2 * 2 ^ 14
    + c.pull % 4 * 2 ^ 15
    + c.drvstr % 2 ^ 4 * 2 ^ 17

-- The macros MSM_GPIO_PIN, MSM_GPIO_FUNC, MSM_GPIO_DIR, MSM_GPIO_PULL and MSM_GPIO_DRVSTR
unfoldable pub pin_config : ℕ → PinConfig
pin_config cfg = record {
  gpio = cfg / 2 ^ 4 % 2 ^ 10;
  func = cfg % 2 ^ 4;
  dir = cfg / 2 ^ 14 % 2;
  pull = cfg / 2 ^ 15 % 4;
  drvstr = cfg / 2 ^ 17 % 2 ^ 4;
}

-- An output of a card: MSM_GPIO_CFG_NO_PULL is 0 and MSM_GPIO_CFG_PULL_UP 3, MSM_GPIO_CFG_8MA is 3 and
-- MSM_GPIO_CFG_16MA 7.
abbrev pub output : ℕ → ℕ → ℕ → ℕ → PinConfig
output gpio func pull drvstr = record {
  gpio = gpio;
  func = func;
  dir = 1;
  pull = pull;
  drvstr = drvstr;
}

-- The pins of a card's slot, with the clock's line without a pull
unfoldable pub sdcard_pins : ℕ → List PinConfig
sdcard_pins instance =
    if instance == 1
    then output 51 1 3 7
      ∷ output 52 1 3 7
      ∷ output 53 1 3 7
      ∷ output 54 1 3 7
      ∷ output 55 1 3 7
      ∷ output 56 1 0 7
      ∷ []
    else if instance == 2
    then output 62 1 0 3
      ∷ output 63 1 3 3
      ∷ output 64 1 3 3
      ∷ output 65 1 3 3
      ∷ output 66 1 3 3
      ∷ output 67 1 3 3
      ∷ []
    else if instance == 3
    then output 88 1 0 3
      ∷ output 89 1 3 3
      ∷ output 90 1 3 3
      ∷ output 91 1 3 3
      ∷ output 92 1 3 3
      ∷ output 93 1 3 3
      ∷ output 158 1 3 3
      ∷ output 159 1 3 3
      ∷ output 160 1 3 3
      ∷ output 161 1 3 3
      ∷ []
    else if instance == 4
    then output 142 3 0 3
      ∷ output 143 3 3 3
      ∷ output 144 2 3 3
      ∷ output 145 2 3 3
      ∷ output 146 3 3 3
      ∷ output 147 3 3 3
      ∷ []
    else []

-- The clock and the bus clock of a card's slot
unfoldable pub sdc_clk : ℕ → Option ℕ
sdc_clk instance =
    if instance == 1
    then some 19
    else if instance == 2
    then some 21
    else if instance == 3
    then some 23
    else if instance == 4
    then some 25
    else none

unfoldable pub sdc_pclk : ℕ → Option ℕ
sdc_pclk instance =
    if instance == 1
    then some 20
    else if instance == 2
    then some 22
    else if instance == 3
    then some 24
    else if instance == 4
    then some 26
    else none

unfoldable pub uart_clk : ℕ → Option ℕ
uart_clk base =
    if base == 0xA9A00000
    then some 31
    else if base == 0xA9B00000
    then some 32
    else if base == 0xA9C00000
    then some 33
    else none

-- A call for a clock, if there is one, without its reply
abbrev pub called : {M : Type 0} → (ℕ → Pc M Reply) → Option ℕ → Pc M (Unit {0})
called f none = pure tt
called f (some id) = do _ ← f id; pure tt

-- The return of a call for a clock: 0 for success and for no clock, and -1 as an unsigned word
abbrev pub asked : {M : Type 0} → (ℕ → Pc M Reply) → Option ℕ → Pc M ℕ
asked f none = pure 0
asked f (some id) = do r ← f id; pure (if r.done then 0 else 2 ^ 32 - 1)

-- The rate of a clock, 0 for no clock, and -1 as an unsigned word
abbrev pub rate_of : {M : Type 0} → (ℕ → Pc M (Option ℕ)) → Option ℕ → Pc M ℕ
rate_of f none = pure 0
rate_of f (some id) = do r ← f id; pure (elim r [ none ↦ 2 ^ 32 - 1 | some rate ↦ rate ])

module _ {M : Type 0} (md : Modem M) (fuel : ℕ) where
  -- The loops that call until APP_STATUS is a success, with the words as the last call left them
  unfoldable pub until_success : ℕ → ℕ → ℕ → ℕ → Pc M (ℕ × ℕ)
  unfolding msm_proc_comm
  until_success zero cmd d1 d2 = λ l. none
  until_success (suc rounds) cmd d1 d2 = do
    r ← msm_proc_comm md fuel cmd (some d1) (some d2)
    s ← get
    let again = until_success rounds cmd (word_at r.data1) (word_at r.data2)
    if s.status == pcom_cmd_success then pure (word_at r.data1, word_at r.data2) else again

  unfoldable pub pcom_vreg_control : ℕ → ℕ → ℕ → Bool → Pc M (Unit {0})
  unfolding until_success
  pcom_vreg_control rounds vreg level false = do _ ← until_success rounds 30 vreg 0; pure tt
  pcom_vreg_control rounds vreg level true = do
    r ← until_success rounds 31 vreg level
    _ ← until_success rounds 30 (r.0) 1
    pure tt

  unfoldable pub pcom_sdcard_power : ℕ → Bool → Pc M (Unit {0})
  unfolding until_success
  pcom_sdcard_power rounds state = do
    _ ← until_success rounds 30 22 (if state then 1 else 0)
    pure tt

  -- A call for each pin of the list; MSM_GPIO_CFG_ENABLE is 0.
  unfoldable pub config_all : List PinConfig → Pc M (Unit {0})
  unfolding pcom_gpio_tlmm_config
  config_all [] = pure tt
  config_all (c ∷ cs) = do _ ← pcom_gpio_tlmm_config md fuel (msm_gpio_cfg c) 0; config_all cs

  unfoldable pub pcom_sdcard_gpio_config : ℕ → Pc M (Unit {0})
  unfolding config_all
  pcom_sdcard_gpio_config instance = config_all (sdcard_pins instance)

  unfoldable pub pcom_usb_vbus_power : Bool → Pc M (Unit {0})
  unfolding msm_proc_comm
  pcom_usb_vbus_power state = do
    _ ← msm_proc_comm md fuel 38 (some 15) (some (4 * 2 ^ 16 + (if state then 1 else 0)))
    pure tt

  -- Both branches of the loop leave it.
  unfoldable pub pcom_usb_reset_phy : Pc M (Unit {0})
  unfolding msm_proc_comm
  pcom_usb_reset_phy = do _ ← msm_proc_comm md fuel 102 none none; pure tt

  unfoldable pub pcom_enable_hsusb_clk : Pc M (Unit {0})
  unfolding pcom_clock_enable
  pcom_enable_hsusb_clk = called (pcom_clock_enable md fuel) (some 36)

  unfoldable pub pcom_disable_hsusb_clk : Pc M (Unit {0})
  unfolding pcom_clock_disable
  pcom_disable_hsusb_clk = called (pcom_clock_disable md fuel) (some 36)

  unfoldable pub pcom_set_sdcard_clk_flags : ℕ → ℕ → Pc M (Unit {0})
  unfolding pcom_set_clock_flags sdc_clk
  pcom_set_sdcard_clk_flags instance flags =
      called (λ id. pcom_set_clock_flags md fuel id flags) (sdc_clk instance)

  unfoldable pub pcom_set_sdcard_clk : ℕ → ℕ → Pc M (Unit {0})
  unfolding pcom_clock_set_rate sdc_clk
  pcom_set_sdcard_clk instance rate =
      called (λ id. pcom_clock_set_rate md fuel id rate) (sdc_clk instance)

  unfoldable pub pcom_get_sdcard_clk : ℕ → Pc M ℕ
  unfolding pcom_clock_get_rate sdc_clk
  pcom_get_sdcard_clk instance = rate_of (pcom_clock_get_rate md fuel) (sdc_clk instance)

  unfoldable pub pcom_enable_sdcard_clk : ℕ → Pc M (Unit {0})
  unfolding pcom_clock_enable sdc_clk
  pcom_enable_sdcard_clk instance = called (pcom_clock_enable md fuel) (sdc_clk instance)

  unfoldable pub pcom_disable_sdcard_clk : ℕ → Pc M (Unit {0})
  unfolding pcom_clock_disable sdc_clk
  pcom_disable_sdcard_clk instance = called (pcom_clock_disable md fuel) (sdc_clk instance)

  unfoldable pub pcom_enable_sdcard_pclk : ℕ → Pc M (Unit {0})
  unfolding pcom_clock_enable sdc_pclk
  pcom_enable_sdcard_pclk instance = called (pcom_clock_enable md fuel) (sdc_pclk instance)

  unfoldable pub pcom_disable_sdcard_pclk : ℕ → Pc M (Unit {0})
  unfolding pcom_clock_disable sdc_pclk
  pcom_disable_sdcard_pclk instance = called (pcom_clock_disable md fuel) (sdc_pclk instance)

  unfoldable pub pcom_is_sdcard_clk_enabled : ℕ → Pc M ℕ
  unfolding pcom_clock_is_enabled sdc_clk
  pcom_is_sdcard_clk_enabled instance = asked (pcom_clock_is_enabled md fuel) (sdc_clk instance)

  unfoldable pub pcom_is_sdcard_pclk_enabled : ℕ → Pc M ℕ
  unfolding pcom_clock_is_enabled sdc_pclk
  pcom_is_sdcard_pclk_enabled instance = asked (pcom_clock_is_enabled md fuel) (sdc_pclk instance)

  unfoldable pub pcom_get_uart_clk : ℕ → Pc M ℕ
  unfolding pcom_clock_get_rate uart_clk
  pcom_get_uart_clk base = rate_of (pcom_clock_get_rate md fuel) (uart_clk base)

  unfoldable pub pcom_set_lcdc_clk : ℕ → Pc M (Unit {0})
  unfolding pcom_clock_set_rate
  pcom_set_lcdc_clk rate = called (λ id. pcom_clock_set_rate md fuel id rate) (some 42)

  unfoldable pub pcom_enable_lcdc_pad_clk : Pc M (Unit {0})
  unfolding pcom_clock_enable
  pcom_enable_lcdc_pad_clk = called (pcom_clock_enable md fuel) (some 43)

  unfoldable pub pcom_enable_lcdc_clk : Pc M (Unit {0})
  unfolding pcom_clock_enable
  pcom_enable_lcdc_clk = called (pcom_clock_enable md fuel) (some 42)

  unfoldable pub pcom_get_lcdc_clk : Pc M ℕ
  unfolding pcom_clock_get_rate
  pcom_get_lcdc_clk = rate_of (pcom_clock_get_rate md fuel) (some 42)

  unfoldable pub pcom_end_cmds : Pc M (Unit {0})
  unfolding msm_proc_comm
  pcom_end_cmds = do _ ← msm_proc_comm md fuel 0xFFFF none none; pure tt
