-- ===== src/Keypad/Console/Push.antt =====
-- What a poll of the keys leaves of the key queue (HtcLeoPkg/Drivers/KeypadDxe/Keypad.c, KeypadController.c).
use htc_leo_pkg.Base.{
  ℕ, ◌+◌, ◌≤◌, ◌≡◌, refl, ap, ◌∙◌, Bool, false, not, ◌&&◌, List, [], ◌∷◌, ◌++◌, arith, length, ◌==◌,
  if◌then◌else◌, Bool-cases, inl, inr, if-elim,
}
use htc_leo_pkg.Uefi.{KeyData}
use htc_leo_pkg.Keypad.Queue.{KeyQueue, push_efikey_buf_tail}
use htc_leo_pkg.Keypad.Queue.Refine.{
  IsValid, contents, enqueue, drop_first, push-IsValid, push_refines,
}
use htc_leo_pkg.Keypad.Console.{
  ConsoleInDev, KeypadDevice, ExNotify, is_partial, is_key_registered, notify_one, notify_matches,
  return_api_push, push_all, timer_handler,
}

-- How many of the keys are partial.
unfoldable pub partials : List KeyData → ℕ
partials [] = 0
partials (k ∷ ks) = (if is_partial k then 1 else 0) + partials ks

pub partials-append : (xs ys : List KeyData) → partials (xs ++ ys) ≡ partials xs + partials ys
unfolding partials
partials-append [] ys = omega arith
partials-append (x ∷ xs) ys = omega (arith, partials-append xs ys)

pub partials-le : (xs : List KeyData) → partials xs ≤ length xs
unfolding partials
partials-le [] = omega arith
partials-le (x ∷ xs) = ground (arith, partials-le xs)

partials-drop_first : (xs : List KeyData) → partials (drop_first xs) ≤ partials xs
unfolding partials drop_first
partials-drop_first [] = omega arith
partials-drop_first (x ∷ xs) = omega arith

partials-enqueue :
    (xs : List KeyData) (k : KeyData) → is_partial k ≡ false → partials (enqueue xs k) ≤ partials xs
unfolding partials
partials-enqueue xs k h = elim (Bool-cases (length xs == 255)) [
  | inl e ↦
      rw (e, partials-append (drop_first xs) (k ∷ []), h) (omega (arith, partials-drop_first xs))
  | inr e ↦ rw (e, partials-append xs (k ∷ []), h) (omega arith)
]

pub partials-push :
    (k : KeyData) {q : KeyQueue}
    → IsValid q
    → is_partial k ≡ false
    → partials (contents (push_efikey_buf_tail q k)) ≤ partials (contents q)
partials-push k {q} v h = rw (push_refines k v) (partials-enqueue (contents q) k h)

full_key : (a b : Bool) → (a && not b) ≡ false → b ≡ false → a ≡ false
full_key a b h e = ground arith

module _ {D : Type 0} where
  -- The rings of a console device stay in range.
  pub record Sound (c : ConsoleInDev D) : Type 0 where
    pub queue : IsValid c.efi_key_queue
    pub for_notify : IsValid c.efi_key_queue_for_notify

  -- What one poll keeps: nothing but the rings, the device, the clock and the signals changes.
  pub record Polled (c c' : ConsoleInDev D) : Type 0 where
    pub sound : Sound c'
    pub partial_kept : c'.is_support_partial_key ≡ c.is_support_partial_key
    pub err_kept : c'.keypad_err ≡ c.keypad_err
    pub list_kept : c'.notify_list ≡ c.notify_list
    pub no_more :
        c.is_support_partial_key ≡ false
        → partials (contents c'.efi_key_queue) ≤ partials (contents c.efi_key_queue)

  pub Polled-refl : {c : ConsoleInDev D} → Sound c → Polled c c
  Polled-refl s = record {
    sound = s;
    partial_kept = refl;
    err_kept = refl;
    list_kept = refl;
    no_more = λ h. omega arith;
  }

  pub Polled-trans : {a b c : ConsoleInDev D} → Polled a b → Polled b c → Polled a c
  Polled-trans p r = record {
    sound = r.sound;
    partial_kept = r.partial_kept ∙ p.partial_kept;
    err_kept = r.err_kept ∙ p.err_kept;
    list_kept = r.list_kept ∙ p.list_kept;
    no_more = λ h. omega (arith, p.no_more h, r.no_more (p.partial_kept ∙ h));
  }

  pub notify_one-Polled :
      (n : ExNotify) (k : KeyData) {c : ConsoleInDev D} → Sound c → Polled c (notify_one n k c)
  unfolding notify_one
  notify_one-Polled n k {c} s =
      if-elim (Polled c) (is_key_registered n.key_data k)
        (λ e. record {
          sound = record { queue = s.queue; for_notify = push-IsValid k s.for_notify };
          partial_kept = refl;
          err_kept = refl;
          list_kept = refl;
          no_more = λ h. omega arith;
        })
        (λ e. Polled-refl s)

  pub notify_matches-Polled :
      (ns : List ExNotify) (k : KeyData) {c : ConsoleInDev D}
      → Sound c
      → Polled c (notify_matches ns k c)
  unfolding notify_matches
  notify_matches-Polled [] k s = Polled-refl s
  notify_matches-Polled (n ∷ ns) k {c} s =
      let p = notify_one-Polled n k s in Polled-trans p (notify_matches-Polled ns k p.sound)

  kept_key :
      (k : KeyData) {c : ConsoleInDev D}
      → Sound c
      → (is_partial k && not c.is_support_partial_key) ≡ false
      → Polled c (record c { efi_key_queue = push_efikey_buf_tail c.efi_key_queue k })
  kept_key k {c} s e = record {
    sound = record { queue = push-IsValid k s.queue; for_notify = s.for_notify };
    partial_kept = refl;
    err_kept = refl;
    list_kept = refl;
    no_more = λ h. partials-push k s.queue (full_key (is_partial k) c.is_support_partial_key e h);
  }

  pub return_api_push-Polled :
      (k : KeyData) {c : ConsoleInDev D} → Sound c → Polled c (return_api_push c k)
  unfolding return_api_push
  return_api_push-Polled k {c} s =
      if-elim (Polled c) (is_partial k && not c.is_support_partial_key) (λ e. Polled-refl s)
        (λ e.
          let p = notify_matches-Polled c.notify_list k s in
          Polled-trans p (kept_key k p.sound (ap (λ t. is_partial k && not t) p.partial_kept ∙ e)))

  push_all-Polled : (ks : List KeyData) {c : ConsoleInDev D} → Sound c → Polled c (push_all ks c)
  unfolding push_all
  push_all-Polled [] s = Polled-refl s
  push_all-Polled (k ∷ ks) s =
      let p = return_api_push-Polled k s in Polled-trans p (push_all-Polled ks p.sound)

  Polled-device :
      (d : D) (now : ℕ) {c : ConsoleInDev D}
      → Sound c
      → Polled c (record c { last = now; keypad_device = d })
  Polled-device d now s = record {
    sound = record { queue = s.queue; for_notify = s.for_notify };
    partial_kept = refl;
    err_kept = refl;
    list_kept = refl;
    no_more = λ h. omega arith;
  }

  -- `KeypadTimerHandler` keeps the rings in range, and adds no partial key to the queue while the
  -- partial keys are not supported.
  pub timer_handler-Polled :
      (device : KeypadDevice D) (now : ℕ) {c : ConsoleInDev D}
      → Sound c
      → Polled c (timer_handler device now c)
  unfolding timer_handler
  timer_handler-Polled device now {c} s =
      if-elim (Polled c) c.keypad_err (λ e. Polled-refl s)
        (λ e. let p = Polled-device _ now s in Polled-trans p (push_all-Polled _ p.sound))
