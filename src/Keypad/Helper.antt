-- ===== src/Keypad/Helper.antt =====
-- HtcLeoPkg/Include/Library/KeypadDeviceHelperLib.h and its KeypadDeviceHelperLib.c: one key's press,
-- repeat and long press, polled with the time that has passed.
pub mod Press
pub mod Silent
pub mod Short
use htc_leo_pkg.Base.{
  ℕ, ◌+◌, ◌*◌, ◌%◌, ◌^◌, Bool, true, false, ◌&&◌, not, List, [], ◌∷◌, ◌++◌, Option, none, some, ltb,
  leb, ◌==◌, if◌then◌else◌,
}
use htc_leo_pkg.Uefi.{KeyData, char_null, scan_null, scan_up, scan_down, char_carriage_return}

-- `KEY_STATE`
pub data KeyPhase : Type 0 where
  released pressed longpress_release : KeyPhase

-- `KEY_CONTEXT`
pub record KeyContext : Type 0 where
  pub key_data : KeyData
  pub time : ℕ
  pub state : KeyPhase
  pub repeat : Bool
  pub longpress : Bool

-- `gBitmapScanCodes` and `gBitmapUnicodeChars`, each by its bits.
pub record Bitmaps : Type 0 where
  pub scan_codes : ℕ → Bool
  pub unicode_chars : ℕ → Bool

abbrev pub max_scancode : ℕ
max_scancode = 0x18

abbrev pub max_unicode_char : ℕ
max_unicode_char = 0x7f

-- MS2NS
abbrev pub ms2ns : ℕ → ℕ
ms2ns ms = 1000000 * ms

-- `gKeyDataPowerDown`, `gKeyDataPowerUp` and `gKeyDataPowerLongpress`
abbrev pub char_key : ℕ → KeyData
char_key c = record {
  key = record { scan_code = 0; unicode_char = c };
  key_state = record { key_shift_state = 0; key_toggle_state = 0 };
}

abbrev pub key_data_power_down : KeyData
key_data_power_down = char_key b's'

abbrev pub key_data_power_up : KeyData
key_data_power_up = char_key b'e'

abbrev pub key_data_power_longpress : KeyData
key_data_power_longpress = char_key b' '

-- `BitmapSet` and `BitmapClear`
abbrev pub set_bit : (ℕ → Bool) → ℕ → Bool → ℕ → Bool
set_bit f i v j = if j == i then v else f j

-- A code that is recorded: neither 0 nor out of range.
abbrev pub recorded : ℕ → ℕ → Bool
recorded code limit = not (code == 0) && ltb code limit

-- `KeySetState`. The second map too is written at the scan code.
unfoldable pub key_set_state : ℕ → ℕ → Bool → Bitmaps → Bitmaps
key_set_state scan char v m = record {
  scan_codes = if recorded scan max_scancode then set_bit m.scan_codes scan v else m.scan_codes;
  unicode_chars =
      if recorded char max_unicode_char then set_bit m.unicode_chars scan v else m.unicode_chars;
}

-- `KeyGetState`. The second map too is read at the scan code.
unfoldable pub key_get_state : ℕ → ℕ → Bitmaps → Bool
key_get_state scan char m =
    if recorded scan max_scancode && not (m.scan_codes scan)
    then false
    else (if recorded char max_unicode_char && not (m.unicode_chars scan) then false else true)

-- `LibKeyInitializeKeyContext`
unfoldable pub initialize_key_context : KeyContext → KeyContext
initialize_key_context c = record {
  key_data = char_key char_null;
  time = 0;
  state = released;
  repeat = false;
  longpress = false;
}

-- The first report of a long press.
unfoldable pub report_longpress : Bitmaps → KeyContext → Option KeyData × KeyContext
unfolding key_get_state
report_longpress m c =
    if c.key_data.key.unicode_char == char_carriage_return
    then (if key_get_state scan_down 0 m
        then (some key_data_power_down, c)
        else (if key_get_state scan_up 0 m
            then (some key_data_power_up, c)
            else (some key_data_power_longpress, c)))
    else (if not (key_get_state 0 char_carriage_return m)
        then (some c.key_data, record c { time = 0; repeat = true })
        else (none, c))

abbrev pub set_longpress : Option KeyData × KeyContext → Option KeyData × KeyContext
set_longpress (k, c) = (k, record c { longpress = true })

-- KEYSTATE_PRESSED while the key is held.
unfoldable pub held : Bitmaps → KeyContext → Option KeyData × KeyContext
unfolding report_longpress
held m c =
    if c.repeat && leb (ms2ns 200) c.time
    then (some c.key_data, record c { time = 0; repeat = true })
    else (if not c.longpress && leb (ms2ns 500) c.time
        then set_longpress (report_longpress m c)
        else (none, c))

abbrev pub rest_key : KeyContext → KeyContext
rest_key c = record c { time = 0; repeat = false; longpress = false; state = released }

-- KEYSTATE_PRESSED when the key is let go.
unfoldable pub let_go : KeyContext → Option KeyData × KeyContext
let_go c =
    if not c.longpress
    then (some c.key_data, record c { state = longpress_release })
    else (if leb (ms2ns 10) c.time then (none, rest_key c) else (none, c))

-- The `switch` of `LibKeyUpdateKeyStatus`.
unfoldable pub switch_state : KeyPhase → Bitmaps → KeyContext → Bool → Option KeyData × KeyContext
unfolding held let_go
switch_state released m c is_pressed =
    if is_pressed then (none, record c { time = 0; state = pressed }) else (none, c)
switch_state pressed m c is_pressed = if is_pressed then held m c else let_go c
switch_state longpress_release m c is_pressed = (none, rest_key c)

-- `LibKeyUpdateKeyStatus`: the key that it pushes, if any, and the new state.
unfoldable pub update_key_status :
    Bitmaps → KeyContext → Bool → ℕ → Option KeyData × KeyContext × Bitmaps
unfolding key_set_state switch_state
update_key_status m c is_pressed delta =
    let m1 = key_set_state c.key_data.key.scan_code c.key_data.key.unicode_char is_pressed m in
    let c1 = record c { time = (c.time + delta) % 2 ^ 64 } in
    let (k, c2) = switch_state c1.state m1 c1 is_pressed in (k, c2, m1)

abbrev pub push_some : Option KeyData → List KeyData → List KeyData
push_some none ks = ks
push_some (some k) ks = k ∷ ks

-- The keys that a series of polls pushes, in order, with the state after them.
unfoldable pub polls : Bitmaps → KeyContext → List (Bool × ℕ) → List KeyData × KeyContext × Bitmaps
polls m c [] = ([], c, m)
polls m c ((is_pressed, delta) ∷ ps) =
    let (k, c', m') = update_key_status m c is_pressed delta in
    let (ks, c2, m2) = polls m' c' ps in (push_some k ks, c2, m2)
