-- ===== src/Keypad/Console/Notify.antt =====
-- The registered key notifications of HtcLeoPkg/Drivers/KeypadDxe/KeypadTextIn.c and Keypad.c.
use htc_leo_pkg.Base.{
  ℕ, zero, suc, Bool, not, ◌||◌, List, [], ◌∷◌, ◌++◌, Option, none, some, ◌==◌, if◌then◌else◌,
}
use htc_leo_pkg.Uefi.{KeyData}
use htc_leo_pkg.Keypad.Queue.{KeyQueue, pop_efikey_buf_head}
use htc_leo_pkg.Keypad.Console.{
  ConsoleInDev, ExNotify, EfiStatus, success, invalid_parameter, out_of_resources,
  is_key_registered,
}

-- The search of `KeypadRegisterKeyNotify`: the handle of the registration that is there already.
unfoldable pub find_notify : List ExNotify → KeyData → ℕ → Option ℕ
find_notify [] k fn = none
find_notify (n ∷ ns) k fn =
    let rest = find_notify ns k fn in
    if is_key_registered n.key_data k
    then (if n.key_notification_fn == fn then some n.handle else rest)
    else rest

-- The loop of `KeypadUnregisterKeyNotify`: the list without the first entry at the handle.
unfoldable pub remove_notify : List ExNotify → ℕ → Option (List ExNotify)
remove_notify [] h = none
remove_notify (n ∷ ns) h =
    let rest = remove_notify ns h in
    if n.handle == h then some ns else elim rest [ none ↦ none | some ms ↦ some (n ∷ ms) ]

module _ {D : Type 0} where
  -- `KeypadRegisterKeyNotify`; 0 is a null pointer. `allocated` is the result of `AllocateZeroPool`.
  -- The handle that it stores is there on success only.
  unfoldable pub register_key_notify :
      Option ℕ
      → Option KeyData
      → ℕ
      → Bool
      → ConsoleInDev D
      → (EfiStatus × Option ℕ) × ConsoleInDev D
  unfolding find_notify
  register_key_notify allocated none fn has_handle c = ((invalid_parameter, none), c)
  register_key_notify allocated (some k) fn has_handle c =
      if not has_handle || fn == 0
      then ((invalid_parameter, none), c)
      else elim (find_notify c.notify_list k fn) [
        | some h ↦ ((success, some h), c)
        | none ↦ elim allocated [
          | none ↦ ((out_of_resources, none), c)
          | some h ↦ (
            (success, some h),
            record c {
              notify_list =
                  c.notify_list
                  ++ record { handle = h; key_data = k; key_notification_fn = fn } ∷ [];
            },
          )
        ]
      ]

  -- `KeypadUnregisterKeyNotify`; 0 is a null pointer.
  unfoldable pub unregister_key_notify : ℕ → ConsoleInDev D → EfiStatus × ConsoleInDev D
  unfolding remove_notify
  unregister_key_notify h c =
      if h == 0 then (invalid_parameter, c) else elim (remove_notify c.notify_list h) [
        | none ↦ (invalid_parameter, c)
        | some ns ↦ (success, record c { notify_list = ns })
      ]

-- The calls that one key causes, in order: the function and its key.
unfoldable pub calls_of : List ExNotify → KeyData → List (ℕ × KeyData)
calls_of [] k = []
calls_of (n ∷ ns) k =
    if is_key_registered n.key_data k
    then (n.key_notification_fn, k) ∷ calls_of ns k
    else calls_of ns k

-- The loop of `KeyNotifyProcessHandler`; the functions that are called leave the device alone.
unfoldable pub process_queue : ℕ → List ExNotify → KeyQueue → List (ℕ × KeyData) × KeyQueue
unfolding calls_of
process_queue zero ns q = ([], q)
process_queue (suc fuel) ns q =
    let (k, q') = pop_efikey_buf_head q in
    let (calls, q2) = process_queue fuel ns q' in
    elim k [ none ↦ ([], q') | some x ↦ (calls_of ns x ++ calls, q2) ]

module _ {D : Type 0} where
  -- `KeyNotifyProcessHandler`. A ring of 256 holds at most 255 keys to process.
  unfoldable pub key_notify_process_handler : ConsoleInDev D → List (ℕ × KeyData) × ConsoleInDev D
  unfolding process_queue
  key_notify_process_handler c =
      let (calls, q) = process_queue 256 c.notify_list c.efi_key_queue_for_notify in
      (calls, record c { efi_key_queue_for_notify = q })
