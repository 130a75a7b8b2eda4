-- ===== src/Keypad/Helper/Silent.antt =====
-- A character key that is held, in HtcLeoPkg/Include/Library/KeypadDeviceHelperLib.h.
use htc_leo_pkg.Base.{
  ℕ, ◌+◌, ◌%◌, ◌^◌, ◌<◌, ◌≡◌, ◌≢◌, refl, ap, ◌∙◌, true, false, List, [], ◌∷◌, none, arith,
}
use htc_leo_pkg.Keypad.Helper.{
  KeyContext, KeyPhase, released, pressed, longpress_release, Bitmaps, update_key_status,
  switch_state, key_set_state, key_get_state, push_some, polls,
}
use htc_leo_pkg.Keypad.Helper.Press.{hold}

-- A key with a character below 0x7f that is not the carriage return, no scan code, and no repeat yet.
pub record IsCharacter (c : KeyContext) : Type 0 where
  pub no_scan : c.key_data.key.scan_code ≡ 0
  pub some_char : c.key_data.key.unicode_char ≢ 0
  pub in_range : c.key_data.key.unicode_char < 0x7f
  pub no_return : c.key_data.key.unicode_char ≢ 0x0d
  pub no_repeat : c.repeat ≡ false

-- The state of the carriage return is read where the key has just been recorded.
key_get_state-key_set_state :
    (char : ℕ) (m : Bitmaps)
    → char ≢ 0
    → char < 0x7f
    → key_get_state 0 0x0d (key_set_state 0 char true m) ≡ true
unfolding key_get_state key_set_state
key_get_state-key_set_state char m h lt = ground arith

silent :
    (s : KeyPhase) (m : Bitmaps) (c : KeyContext)
    → IsCharacter c
    → key_get_state 0 0x0d m ≡ true
    → ((switch_state s m c true).0 ≡ none) × IsCharacter (switch_state s m c true).1
unfolding switch_state
silent released m c v g = ground arith
silent pressed m c v g = ground arith
silent longpress_release m c v g = ground arith

abbrev recorded_map : Bitmaps → KeyContext → Bitmaps
recorded_map m c = key_set_state c.key_data.key.scan_code c.key_data.key.unicode_char true m

silent_update :
    (m : Bitmaps) (c : KeyContext) (d : ℕ)
    → IsCharacter c
    → ((update_key_status m c true d).0 ≡ none) × IsCharacter (update_key_status m c true d).1
unfolding update_key_status
silent_update m c d v =
    silent c.state (recorded_map m c) (record c { time = (c.time + d) % 2 ^ 64 })
      (record {
        no_scan = v.no_scan;
        some_char = v.some_char;
        in_range = v.in_range;
        no_return = v.no_return;
        no_repeat = v.no_repeat;
      })
      (ap (λ s. key_get_state 0 0x0d (key_set_state s c.key_data.key.unicode_char true m)) v.no_scan
        ∙ key_get_state-key_set_state c.key_data.key.unicode_char m v.some_char v.in_range)

-- A key that is not repeating yet, in whatever phase it is, and has no scan code and a character below 0x7f that is
-- neither 0 nor the carriage return reports nothing while it is held, however long: neither a long press nor the
-- first key repeat.
pub polls-hold-silent :
    (ds : List ℕ) (m : Bitmaps) (c : KeyContext) → IsCharacter c → (polls m c (hold ds)).0 ≡ []
unfolding polls
polls-hold-silent [] m c v = refl
polls-hold-silent (d ∷ ds) m c v =
    let (e, w) = silent_update m c d v in
    ap
      (λ k.
        push_some k
          (polls (update_key_status m c true d).2 (update_key_status m c true d).1 (hold ds)).0)
      e
    ∙ polls-hold-silent ds _ _ w
