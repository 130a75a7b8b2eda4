-- ===== src/Charger.antt =====
-- HtcLeoPkg/Application/ChargingApp/charger.c: the charger as a state machine on a timer. What the
-- hardware reports at a tick is an argument; the writes are recorded in order.
pub mod Laws
use htc_leo_pkg.Base.{ℕ, Bool, true, false, not, ◌&&◌, List, [], ◌∷◌, ◌++◌, ltb, if◌then◌else◌}

-- `enum PSY_CHARGER_STATE`
pub data ChargerState : Type 0 where
  chg_off chg_ac chg_usb_low chg_usb_high chg_off_full_bat : ChargerState

pub data LedMode : Type 0 where
  led_off led_green led_amber : LedMode

-- What a tick reads: `CheckUsbStatus`, `IsAcOnline` and the voltage of the battery.
pub record Inputs : Type 0 where
  pub usb_status : Bool
  pub ac_online : Bool
  pub voltage : ℕ

-- The writes that are not to the two pins: the USB command register and the ULPI registers.
pub data Write : Type 0 where
  usbcmd : ℕ → Write
  ulpi : ℕ → ℕ → Write

-- `gState`, the two pins as they are driven, the light, and the writes of this run.
pub record Charger : Type 0 where
  pub state : ChargerState
  pub enable_pin : ℕ
  pub current_pin : ℕ
  pub led : LedMode
  pub writes : List Write

-- default_chg_voltage_threshold[VOLTAGE_4100]
abbrev pub chg_voltage_threshold : ℕ
chg_voltage_threshold = 4100

abbrev pub is_state : ChargerState → ChargerState → Bool
is_state chg_off chg_off = true
is_state chg_ac chg_ac = true
is_state chg_usb_low chg_usb_low = true
is_state chg_usb_high chg_usb_high = true
is_state chg_off_full_bat chg_off_full_bat = true
is_state _ _ = false

-- `SetCharger`; the enable pin is low for charging, the current pin high for the high current.
unfoldable pub set_charger : ChargerState → Charger → Charger
set_charger chg_usb_low c = record c { state = chg_usb_low; enable_pin = 0; current_pin = 0 }
set_charger chg_ac c = record c { state = chg_ac; current_pin = 1; enable_pin = 0 }
set_charger chg_usb_high c = record c { state = chg_usb_high; current_pin = 1; enable_pin = 0 }
set_charger chg_off_full_bat c = record c {
  state = chg_off_full_bat;
  enable_pin = 1;
  current_pin = 1;
}
set_charger chg_off c = record c { state = chg_off; enable_pin = 1; current_pin = 1 }

abbrev pub write : Write → Charger → Charger
write w c = record c { writes = c.writes ++ w ∷ [] }

-- The change to a state that is not the present one, after the writes that prepare it.
unfoldable pub change_to : ChargerState → List Write → Charger → Charger
unfolding set_charger
change_to s ws c =
    if is_state c.state s then c else set_charger s (record c { writes = c.writes ++ ws })

abbrev pub stop : List Write
stop = usbcmd 0x00080001 ∷ []

abbrev pub set_led : LedMode → Charger → Charger
set_led l c = record c { led = l }

-- `WantsCharging`
unfoldable pub wants_charging : Inputs → Charger → Charger
unfolding change_to
wants_charging i c =
    if i.usb_status
    then (if ltb i.voltage chg_voltage_threshold
        then set_led led_amber (
            if i.ac_online
            then change_to chg_ac (usbcmd 0x00080000 ∷ ulpi 0x48 0x04 ∷ []) c
            else change_to chg_usb_low stop c)
        else set_led led_green (change_to chg_off_full_bat stop c))
    else set_led led_off (change_to chg_off stop c)

-- `ExitBootServicesEvent`
unfoldable pub exit_boot_services : Charger → Charger
unfolding change_to
exit_boot_services c = set_led led_off (change_to chg_off stop c)

-- The ticks of the timer, in order.
unfoldable pub ticks : List Inputs → Charger → Charger
unfolding wants_charging
ticks [] c = c
ticks (i ∷ is) c = ticks is (wants_charging i c)
