-- ===== src/Keypad/Device/Scan.antt =====
-- What a scan of the keys of HtcLeoPkg/Library/KeypadDeviceImplLib leaves: the contexts of the keys, the
-- columns of the matrix, and the timers of the light.
use Prim.{tt}
use htc_leo_pkg.Base.{
  ℕ, zero, suc, ◌+◌, ◌≡◌, refl, ◌∙◌, Bool, true, false, not, ◌&&◌, List, [], ◌∷◌, Option, All,
  arith, ◌==◌, if◌then◌else◌, if-elim, Bool-cases, &&-split, inl, inr, ==_refl,
}
use htc_leo_pkg.Uefi.{KeyData}
use htc_leo_pkg.Keypad.Helper.Press.{IsValid, update-IsValid}
use htc_leo_pkg.Keypad.Device.{
  Device, Board, KeyPrivate, Led, drive, kp_led, arm, scanned, is_matrix, read_key, scan_key,
  scan_keys, get_keys, restart_timer, light_key, release_column, update_key,
  enable_keypad_led_with_timer,
}

-- Every key's context is valid.
abbrev pub KeysAreValid : List KeyPrivate → Type 0
KeysAreValid ks = All (λ (k : KeyPrivate). IsValid k.efi_key_context) ks

abbrev Drives : ℕ → Board → Type 0
Drives p b = b.outputs p ≡ 1

drive-Drives : (p q : ℕ) (b : Board) → Drives p b → Drives p (drive q 1 b)
drive-Drives p q b h = if-elim (λ v. v ≡ 1) (p == q) (λ e. refl) (λ e. h)

enable-Drives : (p : ℕ) (b : Board) → Drives p b → Drives p (enable_keypad_led_with_timer b)
unfolding enable_keypad_led_with_timer
enable-Drives p b h = drive-Drives p kp_led b h

light_key-Drives :
    (p : ℕ) (k : KeyPrivate) (t : Bool) (b : Board) → Drives p b → Drives p (light_key k t b)
unfolding light_key
light_key-Drives p k t b h =
    if-elim (Drives p) (t && not k.is_volume_key) (λ e. enable-Drives p b h) (λ e. h)

clash : (a b : Bool) → (a && b) ≡ false → a ≡ true → b ≡ true → ⊥
clash a b e f g = ground arith

contra : (b : Bool) → b ≡ true → b ≡ false → ⊥
contra b e f = ground arith

-- Every column but the key's own is as it was.
read_key-outputs :
    (pins : (ℕ → ℕ) → ℕ → ℕ) (p : ℕ) (k : KeyPrivate) (b : Board)
    → Drives p b
    → (is_matrix k && (p == k.gpio_out)) ≡ false
    → Drives p (read_key pins k b).1
unfolding read_key
read_key-outputs pins p k b h e =
    if-elim (Drives p) (is_matrix k)
      (λ m.
        if-elim (λ v. v ≡ 1) (p == k.gpio_out)
          (λ o. absurd (clash (is_matrix k) (p == k.gpio_out) e m o)) (λ o. h))
      (λ m. h)

release_column-own :
    (p : ℕ) (k : KeyPrivate) (b : Board)
    → (is_matrix k && (p == k.gpio_out)) ≡ true
    → Drives p (release_column k b)
unfolding release_column
release_column-own p k b e =
    if-elim (Drives p) (is_matrix k)
      (λ m.
        if-elim (λ v. v ≡ 1) (p == k.gpio_out) (λ o. refl)
          (λ o. absurd (contra (p == k.gpio_out) (&&-split (is_matrix k) (p == k.gpio_out) e).1 o)))
      (λ m. absurd (contra (is_matrix k) (&&-split (is_matrix k) (p == k.gpio_out) e).0 m))

release_column-Drives :
    (p : ℕ) (k : KeyPrivate) (b : Board) → Drives p b → Drives p (release_column k b)
unfolding release_column
release_column-Drives p k b h =
    if-elim (Drives p) (is_matrix k) (λ m. drive-Drives p k.gpio_out b h) (λ m. h)

-- The columns of the scanned matrix keys are driven.
abbrev pub ColumnsAreDriven : List KeyPrivate → Board → Type 0
ColumnsAreDriven ks b =
    All (λ (k : KeyPrivate). scanned k ≡ true → is_matrix k ≡ true → Drives k.gpio_out b) ks

module _ (pins : (ℕ → ℕ) → ℕ → ℕ) where
  scan_key-IsValid :
      (delta : ℕ) (k : KeyPrivate) (b : Board)
      → IsValid k.efi_key_context
      → IsValid (scan_key pins delta k b).1.efi_key_context
  unfolding scan_key update_key
  scan_key-IsValid delta k b v =
      if-elim (λ (r : Option KeyData × KeyPrivate × Board). IsValid r.1.efi_key_context) (scanned k)
        (λ e. update-IsValid _ _ delta v) (λ e. v)

  pub scan_keys-IsValid :
      (delta : ℕ) (ks : List KeyPrivate) (b : Board)
      → KeysAreValid ks
      → KeysAreValid (scan_keys pins delta ks b).1
  unfolding scan_keys
  scan_keys-IsValid delta [] b v = v
  scan_keys-IsValid delta (k ∷ ks) b v =
      (scan_key-IsValid delta k b v.0, scan_keys-IsValid delta ks _ v.1)

  -- A scanned key of the matrix leaves its own column driven, and every column that was.
  scan_key-Drives :
      (delta p : ℕ) (k : KeyPrivate) (b : Board) → Drives p b → Drives p (scan_key pins delta k b).2
  unfolding scan_key update_key
  scan_key-Drives delta p k b h =
      if-elim (λ (r : Option KeyData × KeyPrivate × Board). Drives p r.2) (scanned k)
        (λ s. elim (Bool-cases (is_matrix k && (p == k.gpio_out))) [
          | inl e ↦ release_column-own p k _ e
          | inr e ↦ release_column-Drives p k _ (
              light_key-Drives p k (read_key pins k b).0 (read_key pins k b).1
                (read_key-outputs pins p k b h e))
        ])
        (λ s. h)

  scan_key-column :
      (delta : ℕ) (k : KeyPrivate) (b : Board)
      → scanned k ≡ true
      → is_matrix k ≡ true
      → Drives k.gpio_out (scan_key pins delta k b).2
  unfolding scan_key update_key
  scan_key-column delta k b s m =
      rw (s, scan_key) (release_column-own k.gpio_out k _ (rw (m, ==_refl k.gpio_out) refl))

  scan_keys-Drives :
      (delta p : ℕ) (ks : List KeyPrivate) (b : Board)
      → Drives p b
      → Drives p (scan_keys pins delta ks b).2
  unfolding scan_keys
  scan_keys-Drives delta p [] b h = h
  scan_keys-Drives delta p (k ∷ ks) b h =
      scan_keys-Drives delta p ks _ (scan_key-Drives delta p k b h)

  scan_keys-columns :
      (delta : ℕ) (ks : List KeyPrivate) (b : Board)
      → ColumnsAreDriven ks (scan_keys pins delta ks b).2
  unfolding scan_keys
  scan_keys-columns delta [] b = tt
  scan_keys-columns delta (k ∷ ks) b = (
    λ s m. scan_keys-Drives delta k.gpio_out ks _ (scan_key-column delta k b s m),
    scan_keys-columns delta ks _,
  )

  -- After `KeypadDeviceImplGetKeys`, whatever the pins read, the contexts of the keys are valid if they
  -- were, and the column of every matrix key that it scanned is driven high again.
  pub get_keys_lem :
      (d : Device) (delta : ℕ)
      → KeysAreValid d.keys
      → KeysAreValid (get_keys pins d delta).1.keys
        × ColumnsAreDriven d.keys (get_keys pins d delta).1.board
  unfolding get_keys
  get_keys_lem d delta v =
      (scan_keys-IsValid delta d.keys d.board v, scan_keys-columns delta d.keys d.board)

-- The light after `n` polls of a pressed key that is not a volume key.
pub restarts : ℕ → Led → Led
restarts zero l = l
restarts (suc n) l = restarts n (restart_timer l)

-- At most the event of `m_CallbackTimer` is armed, and only while `timerRunning` is set.
abbrev pub OneTimer : Led → Type 0
OneTimer l = (e : ℕ) → l.armed e ≡ (l.timer_running && (e == l.callback_timer))

cancelled : Led → Led
cancelled l = if l.timer_running then arm l.callback_timer false l else l

cancelled-armed : (l : Led) → OneTimer l → (e : ℕ) → (cancelled l).armed e ≡ false
unfolding cancelled
cancelled-armed l o e =
    if-elim (λ (m : Led). m.armed e ≡ false) l.timer_running
      (λ r.
        if-elim (λ v. v ≡ false) (e == l.callback_timer) (λ q. refl) (λ q. o e ∙ rw (r, q) refl))
      (λ r. o e ∙ rw r refl)

absorb : (a b : Bool) → b ≡ false → (if a then true else b) ≡ a
absorb a b e = ground arith

restart_timer-created : (l : Led) → (restart_timer l).created ≡ suc l.created
unfolding restart_timer
restart_timer-created l =
    if-elim (λ (m : Led). suc m.created ≡ suc l.created) l.timer_running (λ r. refl) (λ r. refl)

restart_timer-OneTimer : (l : Led) → OneTimer l → OneTimer (restart_timer l)
unfolding restart_timer cancelled
restart_timer-OneTimer l o e =
    absorb (e == (cancelled l).created) ((cancelled l).armed e) (cancelled-armed l o e)

-- `EnableKeypadLedWithTimer` keeps at most one timer armed, but each of n polls of a pressed key creates
-- one more event, and nothing closes any of them.
pub restarts_lem :
    (n : ℕ) (l : Led)
    → OneTimer l
    → OneTimer (restarts n l) × ((restarts n l).created ≡ l.created + n)
unfolding restarts
restarts_lem zero l o = (o, omega arith)
restarts_lem (suc n) l o =
    let r = restarts_lem n (restart_timer l) (restart_timer-OneTimer l o) in
    (r.0, omega (arith, r.1, restart_timer-created l))
