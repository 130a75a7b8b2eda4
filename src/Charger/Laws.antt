-- ===== src/Charger/Laws.antt =====
-- The charger of HtcLeoPkg/Application/ChargingApp against the state that its inputs ask for.
use htc_leo_pkg.Base.{
  ℕ, ◌≡◌, refl, sym, ap, ◌∙◌, Bool, true, false, List, [], ◌∷◌, ◌++◌, arith, ltb, if-elim, if-both,
  if◌then◌else◌,
}
use htc_leo_pkg.Charger.{
  ChargerState, chg_off, chg_ac, chg_usb_low, chg_usb_high, chg_off_full_bat, LedMode, led_off,
  led_green, led_amber, Inputs, Charger, set_charger, change_to, wants_charging, exit_boot_services,
  ticks, is_state, stop, set_led, Write, usbcmd, ulpi,
}

-- The pins that belong to each state.
abbrev pins_of : ChargerState → ℕ × ℕ
pins_of chg_off = (1, 1)
pins_of chg_ac = (0, 1)
pins_of chg_usb_low = (0, 0)
pins_of chg_usb_high = (0, 1)
pins_of chg_off_full_bat = (1, 1)

abbrev pub PinsAgree : Charger → Type 0
PinsAgree c = (c.enable_pin, c.current_pin) ≡ pins_of c.state

-- What a tick asks for.
abbrev pub wanted : Inputs → ChargerState
wanted i =
    if i.usb_status
    then (if ltb i.voltage 4100
        then (if i.ac_online then chg_ac else chg_usb_low)
        else chg_off_full_bat)
    else chg_off

abbrev light_of : ChargerState → LedMode
light_of chg_off = led_off
light_of chg_off_full_bat = led_green
light_of _ = led_amber

-- A charger in the state asked for, with its pins and its light.
pub record Serves (s : ChargerState) (c : Charger) : Type 0 where
  pub state_is : c.state ≡ s
  pub pins : PinsAgree c
  pub light : c.led ≡ light_of s

is_state-eq : (s t : ChargerState) → is_state s t ≡ true → s ≡ t
is_state-eq chg_off t e = ground arith
is_state-eq chg_ac t e = ground arith
is_state-eq chg_usb_low t e = ground arith
is_state-eq chg_usb_high t e = ground arith
is_state-eq chg_off_full_bat t e = ground arith

-- The state and its pins, without the light.
abbrev Drives : ChargerState → Charger → Type 0
Drives s c = (c.state ≡ s) × PinsAgree c

set_charger-Drives : (s : ChargerState) (c : Charger) → Drives s (set_charger s c)
unfolding set_charger
set_charger-Drives chg_off c = (refl, refl)
set_charger-Drives chg_ac c = (refl, refl)
set_charger-Drives chg_usb_low c = (refl, refl)
set_charger-Drives chg_usb_high c = (refl, refl)
set_charger-Drives chg_off_full_bat c = (refl, refl)

change_to-Drives :
    (s : ChargerState) (ws : List Write) (c : Charger) → PinsAgree c → Drives s (change_to s ws c)
unfolding change_to
change_to-Drives s ws c v =
    if-elim (Drives s) (is_state c.state s) (λ e. (is_state-eq c.state s e, v))
      (λ e. set_charger-Drives s _)

served :
    (s : ChargerState) (ws : List Write) (c : Charger)
    → PinsAgree c
    → Serves s (set_led (light_of s) (change_to s ws c))
served s ws c v =
    let (e, p) = change_to-Drives s ws c v in record { state_is = e; pins = p; light = refl }

charging :
    (ac : Bool) (c : Charger)
    → PinsAgree c
    → Serves (if ac then chg_ac else chg_usb_low) (
        set_led led_amber (
          if ac
          then change_to chg_ac (usbcmd 0x00080000 ∷ ulpi 0x48 0x04 ∷ []) c
          else change_to chg_usb_low stop c))
charging true c v = served chg_ac (usbcmd 0x00080000 ∷ ulpi 0x48 0x04 ∷ []) c v
charging false c v = served chg_usb_low stop c v

-- After `WantsCharging` the charger is in the state that its inputs ask for, the pins belong to that
-- state and the light shows it, whatever state it was in with its pins.
pub wants_charging-Serves :
    (i : Inputs) (c : Charger) → PinsAgree c → Serves (wanted i) (wants_charging i c)
unfolding wants_charging
wants_charging-Serves i c v =
    if-both Serves i.usb_status
      (if-both Serves (ltb i.voltage 4100) (charging i.ac_online c v)
        (served chg_off_full_bat stop c v))
      (served chg_off stop c v)

-- The pins agree with the state after any ticks, and the exit from the boot services then stops the
-- charger: the charge current is off and so is the light.
pub exit_boot_services-Serves :
    (is : List Inputs) (c : Charger)
    → PinsAgree c
    → PinsAgree (ticks is c) × Serves chg_off (exit_boot_services (ticks is c))
unfolding ticks exit_boot_services
exit_boot_services-Serves [] c v = (v, served chg_off stop c v)
exit_boot_services-Serves (i ∷ is) c v =
    exit_boot_services-Serves is (wants_charging i c) (wants_charging-Serves i c v).pins

is_state_refl : (s : ChargerState) → is_state s s ≡ true
is_state_refl chg_off = refl
is_state_refl chg_ac = refl
is_state_refl chg_usb_low = refl
is_state_refl chg_usb_high = refl
is_state_refl chg_off_full_bat = refl

change_to-same :
    (s : ChargerState) (ws : List Write) (c : Charger)
    → Serves s c
    → set_led (light_of s) (change_to s ws c) ≡ c
unfolding change_to
change_to-same s ws c v =
    ap
      (λ b.
        set_led (light_of s)
          (if b then c else set_charger s (record c { writes = c.writes ++ ws })))
      (ap (λ t. is_state t s) v.state_is ∙ is_state_refl s)
    ∙ ap (λ l. set_led l c) (sym v.light)

settled :
    (usb low ac : Bool) (c : Charger)
    → Serves
        (if usb
          then (if low then (if ac then chg_ac else chg_usb_low) else chg_off_full_bat)
          else chg_off)
        c
    → (if usb
        then (if low
            then set_led led_amber (
                if ac
                then change_to chg_ac (usbcmd 0x00080000 ∷ ulpi 0x48 0x04 ∷ []) c
                else change_to chg_usb_low stop c)
            else set_led led_green (change_to chg_off_full_bat stop c))
        else set_led led_off (change_to chg_off stop c))
      ≡ c
settled true true true c v = change_to-same chg_ac (usbcmd 0x00080000 ∷ ulpi 0x48 0x04 ∷ []) c v
settled true true false c v = change_to-same chg_usb_low stop c v
settled true false ac c v = change_to-same chg_off_full_bat stop c v
settled false low ac c v = change_to-same chg_off stop c v

-- A second tick with the same inputs changes nothing: no register is written again.
pub wants_charging_twice :
    (i : Inputs) (c : Charger)
    → PinsAgree c
    → wants_charging i (wants_charging i c) ≡ wants_charging i c
unfolding wants_charging
wants_charging_twice i c v =
    settled i.usb_status (ltb i.voltage 4100) i.ac_online (wants_charging i c)
      (wants_charging-Serves i c v)
