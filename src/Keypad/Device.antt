-- ===== src/Keypad/Device.antt =====
-- HtcLeoPkg/Library/KeypadDeviceImplLib/KeypadDeviceImplLib.c: the seven keys of the phone, their pins and
-- the light behind them. What a pin reads, given the pins that are driven, is the argument `pins`.
pub mod Scan
use htc_leo_pkg.Base.{
  ℕ, zero, suc, ◌+◌, Bool, true, false, not, ◌&&◌, ◌||◌, List, [], ◌∷◌, Option, none, some, get_or,
  set, ◌==◌, if◌then◌else◌,
}
use htc_leo_pkg.Uefi.{
  InputKey, KeyData, scan_esc, scan_up, scan_down, scan_home, char_backspace, char_tab,
  char_carriage_return,
}
use htc_leo_pkg.Keypad.Helper.{
  KeyContext, Bitmaps, initialize_key_context, update_key_status, push_some,
}

-- `KEY_DEVICE_TYPE`
pub data KeyDeviceType : Type 0 where
  unknown legacy keymatrix tlmm pm8x41 pm8x41_pon : KeyDeviceType

-- `KEY_CONTEXT_PRIVATE`
pub record KeyPrivate : Type 0 where
  pub efi_key_context : KeyContext
  pub is_valid : Bool
  pub device_type : KeyDeviceType
  pub gpio : ℕ
  pub active_low : Bool
  pub gpio_in : ℕ
  pub gpio_out : ℕ
  pub is_volume_key : Bool

-- The light: `timerRunning`, `m_CallbackTimer` by its number, how many events have been created, and
-- which of them are armed.
pub record Led : Type 0 where
  pub timer_running : Bool
  pub callback_timer : ℕ
  pub created : ℕ
  pub armed : ℕ → Bool

-- What the scan of the keys shares: the pins as they are driven, the light, and the two key maps.
pub record Board : Type 0 where
  pub outputs : ℕ → ℕ
  pub led : Led
  pub bitmaps : Bitmaps

-- `KeyList` and what the scan shares.
pub record Device : Type 0 where
  pub keys : List KeyPrivate
  pub board : Board

abbrev pub kp_led : ℕ
kp_led = 48

-- `gGpio->Set`
abbrev pub drive : ℕ → ℕ → Board → Board
drive pin v b = record b { outputs = λ j. if j == pin then v else b.outputs j }

-- `KeypadInitializeKeyContextPrivate`
unfoldable pub initialize_private : KeyPrivate → KeyPrivate
initialize_private k = record k {
  is_valid = false;
  gpio = 0;
  gpio_out = 0;
  gpio_in = 0;
  device_type = unknown;
  active_low = false;
  is_volume_key = false;
}

-- `KeypadKeyCodeToKeyContext`: the place in `KeyList`.
unfoldable pub key_code_to_key_context : ℕ → Option ℕ
key_code_to_key_context code =
    if code == 114
    then some 2
    else (if code == 115
        then some 1
        else (if code == 116
            then some 0
            else (if code == 117
                then some 3
                else (if code == 118
                    then some 4
                    else (if code == 119
                        then some 5
                        else (if code == 120 then some 6 else none))))))

abbrev pub legacy_key : ℕ → KeyPrivate → KeyPrivate
legacy_key pin k = record k { device_type = legacy; gpio = pin; active_low = true; is_valid = true }

abbrev pub matrix_key : ℕ → ℕ → KeyPrivate → KeyPrivate
matrix_key out_pin in_pin k = record k {
  device_type = keymatrix;
  gpio_out = out_pin;
  gpio_in = in_pin;
  active_low = true;
  is_valid = true;
}

abbrev pub volume_key : ℕ → ℕ → KeyPrivate → KeyPrivate
volume_key out_pin in_pin k = record (matrix_key out_pin in_pin k) { is_volume_key = true }

abbrev pub initialize_all : List KeyPrivate → List KeyPrivate
unfolding initialize_private
initialize_all [] = []
initialize_all (k ∷ ks) = initialize_private k ∷ initialize_all ks

abbrev pub change_at : ℕ → (KeyPrivate → KeyPrivate) → List KeyPrivate → List KeyPrivate
change_at i f [] = []
change_at zero f (k ∷ ks) = f k ∷ ks
change_at (suc i) f (k ∷ ks) = k ∷ change_at i f ks

-- The writes through the context of a key code.
unfoldable pub configure : ℕ → (KeyPrivate → KeyPrivate) → List KeyPrivate → List KeyPrivate
unfolding key_code_to_key_context
configure code f ks = elim (key_code_to_key_context code) [ none ↦ ks | some i ↦ change_at i f ks ]

-- `KeypadDeviceImplConstructor`
unfoldable pub constructor_keys : List KeyPrivate → List KeyPrivate
unfolding initialize_private configure
constructor_keys ks =
    let ks1 = configure 116 (legacy_key 94) (initialize_all ks) in
    let ks2 = configure 115 (volume_key 33 42) ks1 in
    let ks3 = configure 114 (volume_key 33 41) ks2 in
    let ks4 = configure 117 (matrix_key 31 42) ks3 in
    let ks5 = configure 118 (matrix_key 32 42) ks4 in
    let ks6 = configure 119 (matrix_key 31 41) ks5 in configure 120 (matrix_key 32 41) ks6

abbrev pub with_scan : ℕ → KeyContext → KeyContext
with_scan code c = record c {
  key_data = record c.key_data { key = record c.key_data.key { scan_code = code } };
}

abbrev pub with_char : ℕ → KeyContext → KeyContext
with_char char c = record c {
  key_data = record c.key_data { key = record c.key_data.key { unicode_char = char } };
}

unfoldable pub reset_key : (KeyContext → KeyContext) → KeyPrivate → KeyPrivate
reset_key f k = record k { efi_key_context = f (initialize_key_context k.efi_key_context) }

-- `KeypadDeviceImplReset`
unfoldable pub reset : Device → Device
unfolding reset_key
reset d = record d {
  keys = change_at 0 (reset_key (with_scan scan_esc)) (
      change_at 1 (reset_key (with_scan scan_up)) (
        change_at 2 (reset_key (with_scan scan_down)) (
          change_at 3 (reset_key (with_char char_backspace)) (
            change_at 4 (reset_key (with_char char_tab)) (
              change_at 5 (reset_key (with_scan scan_home))
                (change_at 6 (reset_key (with_char char_carriage_return)) d.keys))))));
}

abbrev pub arm : ℕ → Bool → Led → Led
arm e v l = record l { armed = λ j. if j == e then v else l.armed j }

-- The events of `EnableKeypadLedWithTimer`: the new one gets the next number.
unfoldable pub restart_timer : Led → Led
restart_timer l =
    let l1 = if l.timer_running then arm l.callback_timer false l else l in
    let l2 = record l1 { callback_timer = l1.created; created = suc l1.created } in
    record (arm l2.callback_timer true l2) { timer_running = true }

-- `EnableKeypadLedWithTimer`
unfoldable pub enable_keypad_led_with_timer : Board → Board
unfolding restart_timer
enable_keypad_led_with_timer b = record (drive kp_led 1 b) { led = restart_timer b.led }

-- `DisableKeyPadLed`, the notification of the armed event `e`, whose one shot is over.
unfoldable pub disable_keypad_led : ℕ → Board → Board
disable_keypad_led e b = record (drive kp_led 0 b) {
  led = record (arm e false b.led) { timer_running = false };
}

-- `ExitBootServicesEvent`
unfoldable pub exit_boot_services_event : Board → Board
exit_boot_services_event b = drive kp_led 0 b

-- Whether the scan reads the key.
abbrev pub scanned : KeyPrivate → Bool
scanned k = k.is_valid && elim k.device_type [ legacy ↦ true | keymatrix ↦ true | _ ↦ false ]

abbrev pub is_matrix : KeyPrivate → Bool
is_matrix k = elim k.device_type [ keymatrix ↦ true | _ ↦ false ]

-- `IsPressed`: the status of the pin, turned round for a key that is active low.
abbrev pub is_pressed : ℕ → Bool → Bool
is_pressed status active_low = if active_low then status == 0 else not (status == 0)

-- A pressed key that is not a volume key turns the light on.
unfoldable pub light_key : KeyPrivate → Bool → Board → Board
unfolding enable_keypad_led_with_timer
light_key k p b = if p && not k.is_volume_key then enable_keypad_led_with_timer b else b

-- The column of a matrix key is driven high again.
unfoldable pub release_column : KeyPrivate → Board → Board
release_column k b = if is_matrix k then drive k.gpio_out 1 b else b

-- The round after the key has been read.
unfoldable pub update_key : ℕ → KeyPrivate → Bool → Board → Option KeyData × KeyPrivate × Board
unfolding light_key release_column
update_key delta k p b =
    let b1 = release_column k (light_key k p b) in
    let (key, c, m) = update_key_status b1.bitmaps k.efi_key_context p delta in
    (key, record k { efi_key_context = c }, record b1 { bitmaps = m })

module _ (pins : (ℕ → ℕ) → ℕ → ℕ) where
  -- Reading a key: the column of a matrix key is driven low first.
  unfoldable pub read_key : KeyPrivate → Board → Bool × Board
  read_key k b =
      let b1 = if is_matrix k then drive k.gpio_out 0 b else b in
      let pin = if is_matrix k then k.gpio_in else k.gpio in
      (is_pressed (pins b1.outputs pin) k.active_low, b1)

  -- One round of the loop of `KeypadDeviceImplGetKeys`: the key that it pushes, if any.
  unfoldable pub scan_key : ℕ → KeyPrivate → Board → Option KeyData × KeyPrivate × Board
  unfolding read_key update_key
  scan_key delta k b =
      if scanned k then (let (p, b1) = read_key k b in update_key delta k p b1) else (none, k, b)

  unfoldable pub scan_keys : ℕ → List KeyPrivate → Board → List KeyData × List KeyPrivate × Board
  unfolding scan_key
  scan_keys delta [] b = ([], [], b)
  scan_keys delta (k ∷ ks) b =
      let (key, k1, b1) = scan_key delta k b in
      let (pushed, ks1, b2) = scan_keys delta ks b1 in (push_some key pushed, k1 ∷ ks1, b2)

  -- `KeypadDeviceImplGetKeys`: the keys that it pushes, in order.
  unfoldable pub get_keys : Device → ℕ → List KeyData × Device
  unfolding scan_keys
  get_keys d delta =
      let (pushed, ks, b) = scan_keys delta d.keys d.board in
      (pushed, record { keys = ks; board = b })
