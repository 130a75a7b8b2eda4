-- ===== src/Keypad/Helper/Short.antt =====
-- A short press of a key, in HtcLeoPkg/Include/Library/KeypadDeviceHelperLib.h.
use htc_leo_pkg.Base.{
  ℕ, ◌+◌, ◌%◌, ◌^◌, ◌<◌, ◌≡◌, refl, ap, ◌∙◌, Bool, true, false, List, [], ◌∷◌, ◌++◌, Option, none,
  some, arith,
}
use htc_leo_pkg.Uefi.{KeyData}
use htc_leo_pkg.Keypad.Helper.{
  KeyContext, released, pressed, longpress_release, Bitmaps, ms2ns, update_key_status, switch_state,
  held, let_go, key_set_state, push_some, polls,
}
use htc_leo_pkg.Keypad.Helper.Press.{hold, total}

-- A key held for `t` so far, less than a long press.
record Holding (t : ℕ) (c : KeyContext) : Type 0 where
  phase : c.state ≡ pressed
  elapsed : c.time ≡ t
  short : c.longpress ≡ false
  once : c.repeat ≡ false

hold_on :
    (m : Bitmaps) (c : KeyContext) (t : ℕ)
    → Holding t c
    → t < ms2ns 500
    → switch_state pressed m c true ≡ (none, c)
unfolding switch_state held
hold_on m c t h lt = ground arith

let_up :
    (m : Bitmaps) (c : KeyContext) (t : ℕ)
    → Holding t c
    → switch_state pressed m c false ≡ (some c.key_data, record c { state = longpress_release })
unfolding switch_state let_go
let_up m c t h = rw h.short refl

abbrev next_map : Bitmaps → KeyContext → Bool → Bitmaps
next_map m c p = key_set_state c.key_data.key.scan_code c.key_data.key.unicode_char p m

abbrev aged : KeyContext → ℕ → KeyContext
aged c d = record c { time = (c.time + d) % 2 ^ 64 }

aged-Holding :
    (c : KeyContext) (d t : ℕ) → Holding t c → t + d < ms2ns 500 → Holding (t + d) (aged c d)
aged-Holding c d t h lt = record {
  phase = h.phase;
  elapsed = omega (arith, h.elapsed);
  short = h.short;
  once = h.once;
}

module _ (m : Bitmaps) (c : KeyContext) (d t : ℕ) (h : Holding t c) (lt : t + d < ms2ns 500) where
  -- One more poll of the key, still held.
  held_update : update_key_status m c true d ≡ (none, aged c d, next_map m c true)
  unfolding update_key_status
  held_update =
      ap (λ r. (r.0, r.1, next_map m c true))
        (ap (λ s. switch_state s (next_map m c true) (aged c d) true) h.phase
          ∙ hold_on (next_map m c true) (aged c d) (t + d) (aged-Holding c d t h lt) lt)

  -- The poll that finds the key let go.
  released_update :
      update_key_status m c false d
      ≡ (some c.key_data, record (aged c d) { state = longpress_release }, next_map m c false)
  unfolding update_key_status
  released_update =
      ap (λ r. (r.0, r.1, next_map m c false))
        (ap (λ s. switch_state s (next_map m c false) (aged c d) false) h.phase
          ∙ let_up (next_map m c false) (aged c d) (t + d) (aged-Holding c d t h lt))

abbrev pub let_go_after : ℕ → List (Bool × ℕ)
let_go_after d = (false, d) ∷ []

Holding-pushes :
    (ds : List ℕ) (m : Bitmaps) (c : KeyContext) (d t : ℕ)
    → Holding t c
    → t + (total ds + d) < ms2ns 500
    → (polls m c (hold ds ++ let_go_after d)).0 ≡ c.key_data ∷ []
unfolding polls
Holding-pushes [] m c d t h lt =
    ap (λ (r : Option KeyData × KeyContext × Bitmaps). push_some r.0 [])
      (released_update m c d t h (omega arith))
Holding-pushes (e ∷ ds) m c d t h lt =
    ap
      (λ (r : Option KeyData × KeyContext × Bitmaps).
        push_some r.0 (polls r.2 r.1 (hold ds ++ let_go_after d)).0)
      (held_update m c e t h (omega arith))
    ∙ Holding-pushes ds (next_map m c true) (aged c e) d (t + e)
        (aged-Holding c e t h (omega arith)) (omega arith)

-- A key at rest that is pressed, held for less than 500 ms over any polls, and let go reports itself
-- exactly once.
pub press_lem :
    (ds : List ℕ) (m : Bitmaps) (c : KeyContext) (d0 d : ℕ)
    → c.state ≡ released
    → c.longpress ≡ false
    → c.repeat ≡ false
    → total ds + d < ms2ns 500
    → (polls m c ((true, d0) ∷ hold ds ++ let_go_after d)).0 ≡ c.key_data ∷ []
unfolding polls update_key_status switch_state
press_lem ds m c d0 d s l r lt =
    ap
      (λ (k : Option KeyData × KeyContext).
        push_some k.0 (polls (next_map m c true) k.1 (hold ds ++ let_go_after d)).0)
      (ap (λ t. switch_state t (next_map m c true) (aged c d0) true) s)
    ∙ Holding-pushes ds (next_map m c true) (record c { time = 0; state = pressed }) d 0
        (record { phase = refl; elapsed = refl; short = l; once = r }) (omega arith)
