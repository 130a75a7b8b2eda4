-- ===== src/Keypad/Console.antt =====
-- HtcLeoPkg/Drivers/KeypadDxe: the console device of the keypad (Keypad.c, KeypadController.c,
-- KeypadTextIn.c). The keypad device is an interface, the counter value an argument.
pub mod Push
pub mod Read
pub mod Wait
pub mod Notify
pub mod Notified
use htc_leo_pkg.Base.{
  ℕ, zero, suc, ◌+◌, ◌-◌, ◌*◌, ◌/◌, ◌%◌, ◌^◌, Bool, true, false, not, ◌&&◌, ◌||◌, List, [], ◌∷◌,
  ◌++◌, Option, none, some, leb, ◌==◌, if◌then◌else◌,
}
use htc_leo_pkg.Uefi.{InputKey, KeyData}
use htc_leo_pkg.Timer.{get_time_in_nanosecond}
use htc_leo_pkg.Keypad.Queue.{
  KeyQueue, is_efikey_buf_empty, pop_efikey_buf_head, push_efikey_buf_tail,
}

-- `KEYPAD_DEVICE_PROTOCOL`; `get_keys` is given the time that has passed and returns the keys that it
-- pushes through the return interface, in order.
pub record KeypadDevice (D : Type 0) : Type 0 where
  pub reset : D → D
  pub get_keys : D → ℕ → List KeyData × D

-- `EFI_STATUS`, as far as this driver returns it.
pub data EfiStatus : Type 0 where
  success device_error not_ready invalid_parameter unsupported out_of_resources : EfiStatus

-- `KEYPAD_CONSOLE_IN_EX_NOTIFY`, by its address and that of its function.
pub record ExNotify : Type 0 where
  pub handle : ℕ
  pub key_data : KeyData
  pub key_notification_fn : ℕ

-- `KEYPAD_CONSOLE_IN_DEV`; `signals` counts the signals of `KeyNotifyProcessEvent`.
pub record ConsoleInDev (D : Type 0) : Type 0 where
  pub keypad_device : D
  pub last : ℕ
  pub left_ctrl : Bool
  pub right_ctrl : Bool
  pub left_alt : Bool
  pub right_alt : Bool
  pub left_shift : Bool
  pub right_shift : Bool
  pub left_logo : Bool
  pub right_logo : Bool
  pub menu : Bool
  pub sys_req : Bool
  pub caps_lock : Bool
  pub num_lock : Bool
  pub scroll_lock : Bool
  pub is_support_partial_key : Bool
  pub efi_key_queue : KeyQueue
  pub efi_key_queue_for_notify : KeyQueue
  pub keypad_err : Bool
  pub notify_list : List ExNotify
  pub signals : ℕ

-- A key with neither a scan code nor a character.
abbrev pub is_partial : KeyData → Bool
is_partial k = k.key.scan_code == 0 && k.key.unicode_char == 0

-- `IsKeyRegistered`
unfoldable pub is_key_registered : KeyData → KeyData → Bool
is_key_registered registered input =
    if not (registered.key.scan_code == input.key.scan_code)
      || not (registered.key.unicode_char == input.key.unicode_char)
    then false
    else (if not (registered.key_state.key_shift_state == 0)
          && not (registered.key_state.key_shift_state == input.key_state.key_shift_state)
        then false
        else (if not (registered.key_state.key_toggle_state == 0)
              && not (registered.key_state.key_toggle_state == input.key_state.key_toggle_state)
            then false
            else true))

-- The bit `i` of a mask.
abbrev pub has_bit : ℕ → ℕ → Bool
has_bit i x = (x / 2 ^ i) % 2 == 1

-- ctrl-a = 0x0001 through ctrl-z = 0x001A
unfoldable pub translate_ctrl : KeyData → InputKey
translate_ctrl k =
    let c = k.key.unicode_char in
    if has_bit 2 k.key_state.key_shift_state || has_bit 3 k.key_state.key_shift_state
    then (if leb b'a' c && leb c b'z'
        then record { scan_code = k.key.scan_code; unicode_char = c - b'a' + 1 }
        else (if leb b'A' c && leb c b'Z'
            then record { scan_code = k.key.scan_code; unicode_char = c - b'A' + 1 }
            else k.key))
    else k.key

-- Skipping the partial keys of `KeypadWaitForKey`: whether the event is signalled.
unfoldable pub skip_partial : ℕ → KeyQueue → Bool × KeyQueue
skip_partial zero q = (false, q)
skip_partial (suc fuel) q =
    let (k, q') = pop_efikey_buf_head q in
    let rest = skip_partial fuel q' in
    if is_efikey_buf_empty q
    then (false, q)
    else (if is_partial (q.buffer q.head) then rest else (true, q))

module _ {D : Type 0} where
  -- One round of the loop over the registrations: a match queues the key for the notify process.
  unfoldable pub notify_one : ExNotify → KeyData → ConsoleInDev D → ConsoleInDev D
  notify_one n k c =
      if is_key_registered n.key_data k
      then record c {
        efi_key_queue_for_notify = push_efikey_buf_tail c.efi_key_queue_for_notify k;
        signals = suc c.signals;
      }
      else c

  unfoldable pub notify_matches : List ExNotify → KeyData → ConsoleInDev D → ConsoleInDev D
  notify_matches [] k c = c
  notify_matches (n ∷ ns) k c = notify_matches ns k (notify_one n k c)

  -- `KeypadReturnApiPushEfikeyBufTail`
  unfoldable pub return_api_push : ConsoleInDev D → KeyData → ConsoleInDev D
  unfolding notify_matches
  return_api_push c k =
      if is_partial k && not c.is_support_partial_key
      then c
      else (let c1 = notify_matches c.notify_list k c in
          record c1 { efi_key_queue = push_efikey_buf_tail c1.efi_key_queue k })

  -- The pushes of one call of `GetKeys`.
  unfoldable pub push_all : List KeyData → ConsoleInDev D → ConsoleInDev D
  push_all [] c = c
  push_all (k ∷ ks) c = push_all ks (return_api_push c k)

  -- `KeypadSetState`; `none` is a null pointer.
  unfoldable pub set_state : Option ℕ → ConsoleInDev D → EfiStatus × ConsoleInDev D
  set_state none c = (invalid_parameter, c)
  set_state (some t) c =
      if c.keypad_err
      then (device_error, c)
      else (if not (has_bit 7 t) then (unsupported, c) else (
        success,
        record c {
          scroll_lock = has_bit 0 t;
          num_lock = has_bit 1 t;
          caps_lock = has_bit 2 t;
          is_support_partial_key = has_bit 6 t;
        },
      ))

  -- The rest of a round of `KeypadReadKeyStroke`, before `next`, the rounds after it.
  abbrev pub key_stroke :
      (EfiStatus × Option KeyData) × ConsoleInDev D
      → Option (EfiStatus × Option InputKey) × ConsoleInDev D
      → Option (EfiStatus × Option InputKey) × ConsoleInDev D
  key_stroke ((status, none), c) next = (some (status, none), c)
  key_stroke ((status, some k), c) next =
      if is_partial k then next else (some (status, some (translate_ctrl k)), c)

module _ {D : Type 0} (device : KeypadDevice D) where
  -- `KeypadTimerHandler` at the counter value `now`.
  unfoldable pub timer_handler : ℕ → ConsoleInDev D → ConsoleInDev D
  timer_handler now c =
      if c.keypad_err
      then c
      else (let delta = (now + 2 ^ 64 - c.last) % 2 ^ 64 in
          let (ks, d) = device.get_keys c.keypad_device (get_time_in_nanosecond delta) in
          push_all ks (record c { last = now; keypad_device = d }))

  -- `InitKeypad`
  unfoldable pub init_keypad : ConsoleInDev D → EfiStatus × ConsoleInDev D
  init_keypad c = (
    success,
    record c {
      keypad_device = device.reset c.keypad_device;
      efi_key_queue = record c.efi_key_queue { head = 0; tail = 0 };
      efi_key_queue_for_notify = record c.efi_key_queue_for_notify { head = 0; tail = 0 };
      caps_lock = false;
      num_lock = false;
      scroll_lock = false;
      left_ctrl = false;
      right_ctrl = false;
      left_alt = false;
      right_alt = false;
      left_shift = false;
      right_shift = false;
      left_logo = false;
      right_logo = false;
      menu = false;
      sys_req = false;
      is_support_partial_key = false;
    },
  )

  -- `KeypadEfiReset`
  unfoldable pub efi_reset : ConsoleInDev D → EfiStatus × ConsoleInDev D
  unfolding init_keypad
  efi_reset c = if c.keypad_err then (device_error, c) else init_keypad c

  -- `KeypadReadKeyStrokeWorker` with a buffer for the key.
  unfoldable pub read_key_stroke_worker :
      ℕ → ConsoleInDev D → (EfiStatus × Option KeyData) × ConsoleInDev D
  unfolding timer_handler
  read_key_stroke_worker now c =
      let c1 = timer_handler now c in
      let (k, q) = pop_efikey_buf_head c1.efi_key_queue in
      if c1.keypad_err
      then ((device_error, none), c1)
      else ((elim k [ none ↦ not_ready | some x ↦ success ], k), record c1 { efi_key_queue = q })

  -- `KeypadReadKeyStrokeEx`; without a buffer it is EFI_INVALID_PARAMETER.
  unfoldable pub read_key_stroke_ex :
      Bool → ℕ → ConsoleInDev D → (EfiStatus × Option KeyData) × ConsoleInDev D
  unfolding read_key_stroke_worker
  read_key_stroke_ex has_buffer now c =
      if has_buffer then read_key_stroke_worker now c else ((invalid_parameter, none), c)

  -- `KeypadReadKeyStroke`: round `i` reads the counter value `clock i`; `none` is out of fuel.
  unfoldable pub read_key_stroke :
      ℕ → (ℕ → ℕ) → ConsoleInDev D → Option (EfiStatus × Option InputKey) × ConsoleInDev D
  unfolding read_key_stroke_worker
  read_key_stroke zero clock c = (none, c)
  read_key_stroke (suc fuel) clock c =
      let w = read_key_stroke_worker (clock 0) c in
      key_stroke w (read_key_stroke fuel (λ i. clock (suc i)) w.1)

  -- `KeypadWaitForKey`: whether the event is signalled. A ring of 256 holds at most 255 keys to skip.
  unfoldable pub wait_for_key : ℕ → ConsoleInDev D → Bool × ConsoleInDev D
  unfolding timer_handler skip_partial
  wait_for_key now c =
      let c1 = timer_handler now c in
      let (signalled, q) = skip_partial 256 c1.efi_key_queue in
      if c1.keypad_err then (false, c1) else (signalled, record c1 { efi_key_queue = q })
