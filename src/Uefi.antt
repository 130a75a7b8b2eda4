-- ===== src/Uefi.antt =====
-- Values that the UEFI specification fixes: scan codes, control characters and the data of a key.
use htc_leo_pkg.Base.{ℕ}

abbrev pub scan_null : ℕ
scan_null = 0

abbrev pub scan_up : ℕ
scan_up = 0x01

abbrev pub scan_down : ℕ
scan_down = 0x02

abbrev pub scan_home : ℕ
scan_home = 0x05

abbrev pub scan_esc : ℕ
scan_esc = 0x17

abbrev pub char_null : ℕ
char_null = 0

abbrev pub char_backspace : ℕ
char_backspace = 0x08

abbrev pub char_tab : ℕ
char_tab = 0x09

abbrev pub char_carriage_return : ℕ
char_carriage_return = 0x0d

-- `EFI_INPUT_KEY`
pub record InputKey : Type 0 where
  pub scan_code : ℕ
  pub unicode_char : ℕ

-- `EFI_KEY_STATE`
pub record KeyState : Type 0 where
  pub key_shift_state : ℕ
  pub key_toggle_state : ℕ

-- `EFI_KEY_DATA`
pub record KeyData : Type 0 where
  pub key : InputKey
  pub key_state : KeyState
