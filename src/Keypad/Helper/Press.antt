-- ===== src/Keypad/Helper/Press.antt =====
-- What `LibKeyUpdateKeyStatus` of HtcLeoPkg/Include/Library/KeypadDeviceHelperLib.h reports of a press.
use htc_leo_pkg.Base.{
  ℕ, ◌+◌, ◌*◌, ◌%◌, ◌^◌, ◌≤◌, ◌≡◌, refl, Bool, true, false, List, [], ◌∷◌, Option, none, some,
  arith, length, if◌then◌else◌,
}
use htc_leo_pkg.Uefi.{KeyData}
use htc_leo_pkg.Keypad.Helper.{
  KeyContext, KeyPhase, released, pressed, longpress_release, Bitmaps, ms2ns, update_key_status,
  switch_state, push_some, polls, key_set_state,
}

-- What holds of a key between two polls.
pub record IsValid (c : KeyContext) : Type 0 where
  pub repeating : c.repeat ≡ true → c.longpress ≡ true
  pub idle : c.state ≡ released → c.longpress ≡ false
  pub closing : c.state ≡ longpress_release → c.longpress ≡ false

pub switch_state-IsValid :
    (s : KeyPhase) (m : Bitmaps) {c : KeyContext} (p : Bool)
    → IsValid c
    → c.state ≡ s
    → IsValid (switch_state s m c p).1
unfolding switch_state
switch_state-IsValid released m p v e = ground arith
switch_state-IsValid pressed m p v e = ground arith
switch_state-IsValid longpress_release m p v e = ground arith

abbrev elapsed : KeyContext → ℕ → KeyContext
elapsed c d = record c { time = (c.time + d) % 2 ^ 64 }

abbrev pressed_map : Bitmaps → KeyContext → Bool → Bitmaps
pressed_map m c p = key_set_state c.key_data.key.scan_code c.key_data.key.unicode_char p m

pub update-IsValid :
    (m : Bitmaps) {c : KeyContext} (p : Bool) (d : ℕ)
    → IsValid c
    → IsValid (update_key_status m c p d).1
unfolding update_key_status
update-IsValid m {c} p d v =
    switch_state-IsValid c.state _ p
      (record { repeating = v.repeating; idle = v.idle; closing = v.closing }) refl

abbrev pub hold : List ℕ → List (Bool × ℕ)
hold [] = []
hold (d ∷ ds) = (true, d) ∷ hold ds

abbrev pub total : List ℕ → ℕ
total [] = 0
total (d ∷ ds) = d + total ds

abbrev number : Option KeyData → ℕ
number none = 0
number (some k) = 1

-- What a held key may still report, in nanoseconds.
abbrev pub credit : KeyContext → ℕ
credit c = c.time + (if c.longpress then 0 else ms2ns 200)

switch_state-credit :
    (s : KeyPhase) (m : Bitmaps) (c : KeyContext)
    → IsValid c
    → c.state ≡ s
    → ms2ns 200 * number (switch_state s m c true).0 + credit (switch_state s m c true).1 ≤ credit c
unfolding switch_state
switch_state-credit released m c v e = ground arith
switch_state-credit pressed m c v e = ground arith
switch_state-credit longpress_release m c v e = ground arith

update-credit :
    (m : Bitmaps) {c : KeyContext} (d : ℕ)
    → IsValid c
    → ms2ns 200 * number (update_key_status m c true d).0 + credit (update_key_status m c true d).1
      ≤ credit c + d
unfolding update_key_status
update-credit m {c} d v = ground (
  arith,
  switch_state-credit c.state (pressed_map m c true) (elapsed c d)
      (record { repeating = v.repeating; idle = v.idle; closing = v.closing }) refl,
)

length-push_some :
    (k : Option KeyData) (ks : List KeyData) → length (push_some k ks) ≡ number k + length ks
length-push_some none ks = omega arith
length-push_some (some k) ks = omega arith

-- While a key with a valid context is held, 200 ms for each of its reports and the credit that is left
-- come to no more than the credit before and the time held.
pub polls-hold-credit :
    (ds : List ℕ) (m : Bitmaps) {c : KeyContext}
    → IsValid c
    → ms2ns 200 * length (polls m c (hold ds)).0 + credit (polls m c (hold ds)).1
      ≤ credit c + total ds
unfolding polls
polls-hold-credit [] m v = omega arith
polls-hold-credit (d ∷ ds) m {c} v = omega (
  arith,
  update-credit m d v,
  length-push_some (update_key_status m c true d).0
      (polls (update_key_status m c true d).2 (update_key_status m c true d).1 (hold ds)).0,
  polls-hold-credit ds (update_key_status m c true d).2 (update-IsValid m true d v),
)
