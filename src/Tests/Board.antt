-- ===== src/Tests/Board.antt =====
-- The theorems on the pins, the charger and the timer at concrete inputs.
use htc_leo_pkg.Base.{◌≡◌, refl, true, false, [], arith}
use htc_leo_pkg.Gpio.{Mmio, gpio_set}
use htc_leo_pkg.Gpio.Pins.{level, is_output, gpio_set_other}
use htc_leo_pkg.Charger.{Charger, Inputs, chg_off, led_off, wants_charging}
use htc_leo_pkg.Charger.Laws.{Serves, wanted, wants_charging-Serves}

abbrev all_low : Mmio
all_low a j = false

gpio_set_other_example :
    (level 33 (gpio_set 48 true all_low) ≡ level 33 all_low)
    × (is_output 33 (gpio_set 48 true all_low) ≡ is_output 33 all_low)
gpio_set_other_example = gpio_set_other 48 33 true all_low (omega arith) (omega arith) (omega arith)

abbrev idle : Charger
idle = record { state = chg_off; enable_pin = 1; current_pin = 1; led = led_off; writes = [] }

abbrev plugged : Inputs
plugged = record { usb_status = true; ac_online = true; voltage = 3900 }

wants_charging_example : Serves (wanted plugged) (wants_charging plugged idle)
wants_charging_example = wants_charging-Serves plugged idle refl
