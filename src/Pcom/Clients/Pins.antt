-- ===== src/Pcom/Clients/Pins.antt =====
-- The words in which HtcLeoPkg/Library/MsmPcomClientLib/pcom_clients.c and Include/Chipset/gpio.h describe pins.
use htc_leo_pkg.Base.{◌^◌, ◌<◌, ◌≡◌, arith}
use htc_leo_pkg.Pcom.Clients.{PinConfig, msm_gpio_cfg, pin_config}

-- Every field fits its bits.
pub record Fits (c : PinConfig) : Type 0 where
  pub gpio : c.gpio < 2 ^ 10
  pub func : c.func < 2 ^ 4
  pub dir : c.dir < 2
  pub pull : c.pull < 4
  pub drvstr : c.drvstr < 2 ^ 4

-- What the macros read back from the word of a configuration whose fields fit is that configuration.
pub pin_config-msm_gpio_cfg : {c : PinConfig} → Fits c → pin_config (msm_gpio_cfg c) ≡ c
unfolding msm_gpio_cfg pin_config
pin_config-msm_gpio_cfg v = ground arith
