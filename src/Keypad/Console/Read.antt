-- ===== src/Keypad/Console/Read.antt =====
-- Reading a keystroke in HtcLeoPkg/Drivers/KeypadDxe/KeypadTextIn.c: the loop that skips partial keys.
use htc_leo_pkg.Base.{
  ℕ, zero, suc, ◌+◌, ◌<◌, ◌≡◌, refl, sym, ap, ◌∙◌, Bool, true, false, ◌&&◌, List, [], ◌∷◌, Option,
  none, some, arith, ◌==◌, if◌then◌else◌, Bool-cases, Option-cases, inl, inr, if-elim,
}
use mathlib.Core.Path.{subst}
use htc_leo_pkg.Uefi.{InputKey, KeyData}
use htc_leo_pkg.Keypad.Queue.{KeyQueue, pop_efikey_buf_head}
use htc_leo_pkg.Keypad.Queue.Refine.{
  IsValid, contents, length-contents, dequeue, pop_refines, pop-IsValid,
}
use htc_leo_pkg.Keypad.Console.{
  ConsoleInDev, KeypadDevice, EfiStatus, success, device_error, not_ready, is_partial,
  translate_ctrl, timer_handler, read_key_stroke_worker, key_stroke, read_key_stroke,
}
use htc_leo_pkg.Keypad.Console.Push.{Sound, partials, partials-le, timer_handler-Polled}

-- An answer to a reader: an error without a key, or a key that is not null.
pub data Answer : EfiStatus × Option InputKey → Type 0 where
  failed : Answer (device_error, none)
  empty : Answer (not_ready, none)
  read :
      (k : InputKey) → (k.scan_code == 0 && k.unicode_char == 0) ≡ false → Answer (success, some k)

translate_ctrl-full :
    (k : KeyData)
    → is_partial k ≡ false
    → ((translate_ctrl k).scan_code == 0 && (translate_ctrl k).unicode_char == 0) ≡ false
unfolding translate_ctrl
translate_ctrl-full k h = ground arith

partials-dequeue :
    (xs : List KeyData) (k : KeyData)
    → (dequeue xs).0 ≡ some k
    → partials xs ≡ (if is_partial k then 1 else 0) + partials (dequeue xs).1
unfolding partials
partials-dequeue [] k h = ground arith
partials-dequeue (x ∷ xs) k h = ground arith

-- A key taken from the ring is one partial key less, if it is partial.
partials-pop :
    {q : KeyQueue} (k : KeyData)
    → IsValid q
    → (pop_efikey_buf_head q).0 ≡ some k
    → partials (contents q)
      ≡ (if is_partial k then 1 else 0) + partials (contents (pop_efikey_buf_head q).1)
partials-pop {q} k v e =
    partials-dequeue (contents q) k (sym (ap (λ r. r.0) (pop_refines v)) ∙ e)
    ∙ ap (λ r. (if is_partial k then 1 else 0) + partials r.1) (sym (pop_refines v))

abbrev count_of : Bool → ℕ
count_of b = if b then 1 else 0

fewer :
    {q : KeyQueue} {n : ℕ} (k : KeyData)
    → IsValid q
    → (pop_efikey_buf_head q).0 ≡ some k
    → is_partial k ≡ true
    → partials (contents q) < suc n
    → partials (contents (pop_efikey_buf_head q).1) < n
fewer k v e t lt = omega (arith, partials-pop k v e, ap (λ (b : Bool). count_of b) t)

-- The call returned an answer.
abbrev pub Answered : Option (EfiStatus × Option InputKey) → Type 0
Answered o = (r : EfiStatus × Option InputKey) × (o ≡ some r) × Answer r

module _ {D : Type 0} (device : KeypadDevice D) where
  abbrev popped : ConsoleInDev D → ConsoleInDev D
  popped c = record c { efi_key_queue = (pop_efikey_buf_head c.efi_key_queue).1 }

  popped-Sound : {c : ConsoleInDev D} → Sound c → Sound (popped c)
  popped-Sound s = record { queue = pop-IsValid s.queue; for_notify = s.for_notify }

  worker_err :
      (now : ℕ) (c : ConsoleInDev D)
      → (timer_handler device now c).keypad_err ≡ true
      → read_key_stroke_worker device now c ≡ ((device_error, none), timer_handler device now c)
  unfolding read_key_stroke_worker
  worker_err now c e = rw e refl

  worker_empty :
      (now : ℕ) (c : ConsoleInDev D)
      → (timer_handler device now c).keypad_err ≡ false
      → (pop_efikey_buf_head (timer_handler device now c).efi_key_queue).0 ≡ none
      → read_key_stroke_worker device now c
        ≡ ((not_ready, none), popped (timer_handler device now c))
  unfolding read_key_stroke_worker
  worker_empty now c e o = rw (e, o) refl

  worker_read :
      (now : ℕ) (c : ConsoleInDev D) (k : KeyData)
      → (timer_handler device now c).keypad_err ≡ false
      → (pop_efikey_buf_head (timer_handler device now c).efi_key_queue).0 ≡ some k
      → read_key_stroke_worker device now c
        ≡ ((success, some k), popped (timer_handler device now c))
  unfolding read_key_stroke_worker
  worker_read now c k e o = rw (e, o) refl

  -- A round that begins with the worker's result `w`.
  abbrev round :
      ℕ
      → (ℕ → ℕ)
      → (EfiStatus × Option KeyData) × ConsoleInDev D
      → Option (EfiStatus × Option InputKey)
  round fuel clock w = (key_stroke w (read_key_stroke device fuel clock w.1)).0

  Answered-key :
      (k : KeyData) (n : Option (EfiStatus × Option InputKey) × ConsoleInDev D) (c : ConsoleInDev D)
      → (is_partial k ≡ true → Answered n.0)
      → Answered (key_stroke ((success, some k), c) n).0
  Answered-key k n c next =
      if-elim (λ (r : Option (EfiStatus × Option InputKey) × ConsoleInDev D). Answered r.0)
        (is_partial k) next
        (λ f. (
          (success, some (translate_ctrl k)),
          refl,
          read (translate_ctrl k) (translate_ctrl-full k f),
        ))

  from_round :
      (fuel : ℕ) (clock : ℕ → ℕ) (c : ConsoleInDev D)
      {w : (EfiStatus × Option KeyData) × ConsoleInDev D}
      → read_key_stroke_worker device (clock 0) c ≡ w
      → Answered (round fuel (λ i. clock (suc i)) w)
      → Answered (read_key_stroke device (suc fuel) clock c).0
  unfolding read_key_stroke
  from_round fuel clock c e = subst (λ w. Answered (round fuel (λ i. clock (suc i)) w)) (sym e)

  -- With a key queue that holds fewer partial keys than `fuel`, and partial keys not supported,
  -- `KeypadReadKeyStroke` returns: a device error, no key, or a key that is not null.
  pub read_key_stroke-Answered :
      (fuel : ℕ) (clock : ℕ → ℕ) {c : ConsoleInDev D}
      → Sound c
      → c.is_support_partial_key ≡ false
      → partials (contents c.efi_key_queue) < fuel
      → Answered (read_key_stroke device fuel clock c).0
  unfolding read_key_stroke
  read_key_stroke-Answered zero clock s np lt = absurd (omega arith)
  read_key_stroke-Answered (suc fuel) clock {c} s np lt =
      let c1 = timer_handler device (clock 0) c in
      let p = timer_handler-Polled device (clock 0) s in
      elim (Bool-cases c1.keypad_err) [
        | inl e ↦
            from_round fuel clock c (worker_err (clock 0) c e) ((device_error, none), refl, failed)
        | inr e ↦ elim (Option-cases (pop_efikey_buf_head c1.efi_key_queue).0) [
          | inl o ↦
              from_round fuel clock c (worker_empty (clock 0) c e o)
                ((not_ready, none), refl, empty)
          | inr (k, o) ↦ from_round fuel clock c (worker_read (clock 0) c k e o) (
              Answered-key k (read_key_stroke device fuel (λ i. clock (suc i)) (popped c1))
                (popped c1)
                (λ t.
                  read_key_stroke-Answered fuel (λ i. clock (suc i)) (popped-Sound p.sound)
                    (p.partial_kept ∙ np)
                    (fewer k p.sound.queue o t (omega (arith, p.no_more np)))))
        ]
      ]

  -- On rings in range and with partial keys not supported, 256 rounds are enough for
  -- `KeypadReadKeyStroke` to return: a device error, no key, or a key that is not null.
  pub read_key_stroke_lem :
      (clock : ℕ → ℕ) {c : ConsoleInDev D}
      → Sound c
      → c.is_support_partial_key ≡ false
      → Answered (read_key_stroke device 256 clock c).0
  read_key_stroke_lem clock {c} s np =
      read_key_stroke-Answered 256 clock s np
        (omega (arith, partials-le (contents c.efi_key_queue), length-contents c.efi_key_queue))
