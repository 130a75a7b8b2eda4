-- ===== src/Tests/Keys.antt =====
-- The theorems on the keypad at concrete keys and queues.
use htc_leo_pkg.Base.{ℕ, suc, ◌+◌, ◌*◌, ◌≤◌, ◌≡◌, refl, true, false, List, [], ◌∷◌, arith, length}
use htc_leo_pkg.Keypad.Queue.{KeyQueue, push_efikey_buf_tail, pop_efikey_buf_head}
use htc_leo_pkg.Keypad.Queue.Refine.{
  IsValid as QueueIsValid, contents, keys_from, enqueue, dequeue, push_refines, pop_refines,
}
use htc_leo_pkg.Keypad.Helper.{KeyContext, pressed, Bitmaps, polls, char_key, ms2ns}
use htc_leo_pkg.Keypad.Helper.Press.{hold, total, credit, polls-hold-credit}
use htc_leo_pkg.Keypad.Helper.Silent.{polls-hold-silent}
use htc_leo_pkg.Keypad.Device.{Device, Led, KeyPrivate, keymatrix}
use htc_leo_pkg.Keypad.Console.{
  ConsoleInDev, KeypadDevice, ExNotify, read_key_stroke, return_api_push,
}
use htc_leo_pkg.Keypad.Console.Push.{Sound}
use htc_leo_pkg.Keypad.Console.Read.{Answered, read_key_stroke_lem}
use htc_leo_pkg.Keypad.Console.Notify.{key_notify_process_handler}
use htc_leo_pkg.Keypad.Console.Notified.{all_calls, copies, matches, waiting, return_api_push-calls}

-- A ring that goes round its end: two keys from the place 255 on.
abbrev ring : KeyQueue
ring = record { buffer = λ i. char_key (i + 97); head = 255; tail = 1 }

abbrev ring_valid : QueueIsValid ring
ring_valid = record { head_in = omega arith; tail_in = omega arith }

push_refines_example :
    contents (push_efikey_buf_tail ring (char_key 65)) ≡ enqueue (contents ring) (char_key 65)
push_refines_example = push_refines (char_key 65) ring_valid

pop_refines_example :
    ((pop_efikey_buf_head ring).0, contents (pop_efikey_buf_head ring).1) ≡ dequeue (contents ring)
pop_refines_example = pop_refines ring_valid

-- A partial key and a full one.
abbrev mixed : KeyQueue
mixed = record { buffer = λ i. char_key (97 * i); head = 0; tail = 2 }

abbrev mixed_valid : QueueIsValid mixed
mixed_valid = record { head_in = omega arith; tail_in = omega arith }

abbrev on_a : ℕ → ExNotify
on_a h = record { handle = h; key_data = char_key 97; key_notification_fn = 5 }

abbrev empty_queue : KeyQueue
empty_queue = record { buffer = λ i. char_key 0; head = 7; tail = 7 }

-- A device that reports one key at each poll.
abbrev one_key : KeypadDevice ℕ
one_key = record { reset = λ n. 0; get_keys = λ n t. (char_key 97 ∷ [], suc n) }

abbrev console : List ExNotify → ConsoleInDev ℕ
console ns = record {
  keypad_device = 0;
  last = 0;
  left_ctrl = false;
  right_ctrl = false;
  left_alt = false;
  right_alt = false;
  left_shift = false;
  right_shift = false;
  left_logo = false;
  right_logo = false;
  menu = false;
  sys_req = false;
  caps_lock = false;
  num_lock = false;
  scroll_lock = false;
  is_support_partial_key = false;
  efi_key_queue = mixed;
  efi_key_queue_for_notify = empty_queue;
  keypad_err = false;
  notify_list = ns;
  signals = 0;
}

abbrev console_sound : (ns : List ExNotify) → Sound (console ns)
console_sound ns = record {
  queue = mixed_valid;
  for_notify = record { head_in = omega arith; tail_in = omega arith };
}

read_key_stroke_example :
    Answered (read_key_stroke one_key 256 (λ i. 100 * i) (console (on_a 1 ∷ []))).0
read_key_stroke_example =
    read_key_stroke_lem one_key (λ i. 100 * i) (console_sound (on_a 1 ∷ [])) refl

-- Two registrations of one key: four calls.
abbrev two : List ExNotify
two = on_a 1 ∷ on_a 2 ∷ []

return_api_push_example :
    (waiting (return_api_push (console two) (char_key 97))
      ≡ copies (matches two (char_key 97)) (char_key 97))
    × ((key_notify_process_handler (return_api_push (console two) (char_key 97))).0
        ≡ all_calls two (copies (matches two (char_key 97)) (char_key 97)))
    × (length (key_notify_process_handler (return_api_push (console two) (char_key 97))).0
        ≡ matches two (char_key 97) * matches two (char_key 97))
unfolding keys_from
return_api_push_example =
    return_api_push-calls (char_key 97) (console_sound two) refl refl (omega arith)

-- The Back key, pressed for a while.
abbrev back : KeyContext
back = record {
  key_data = char_key 8;
  time = 0;
  state = pressed;
  repeat = false;
  longpress = false;
}

abbrev no_keys : Bitmaps
no_keys = record { scan_codes = λ i. false; unicode_chars = λ i. false }

polls-hold-credit_example :
    ms2ns 200 * length (polls no_keys back (hold (600000000 ∷ 250000000 ∷ []))).0
      + credit (polls no_keys back (hold (600000000 ∷ 250000000 ∷ []))).1
    ≤ credit back + total (600000000 ∷ 250000000 ∷ [])
polls-hold-credit_example =
    polls-hold-credit (600000000 ∷ 250000000 ∷ []) no_keys {c = back}
      (record { repeating = λ e. cc; idle = λ e. cc; closing = λ e. cc })

polls-hold-silent_example : (polls no_keys back (hold (600000000 ∷ 600000000 ∷ []))).0 ≡ []
polls-hold-silent_example = polls-hold-silent (600000000 ∷ 600000000 ∷ []) no_keys back (record {
  no_scan = refl;
  some_char = omega arith;
  in_range = omega arith;
  no_return = omega arith;
  no_repeat = refl;
})

abbrev light : Led
light = record { timer_running = false; callback_timer = 0; created = 0; armed = λ e. false }

abbrev back_key : KeyPrivate
back_key = record {
  efi_key_context = back;
  is_valid = true;
  device_type = keymatrix;
  gpio = 0;
  active_low = true;
  gpio_in = 42;
  gpio_out = 31;
  is_volume_key = false;
}

abbrev one_key_device : Device
one_key_device = record {
  keys = back_key ∷ [];
  board = record { outputs = λ p. 0; led = light; bitmaps = no_keys };
}
