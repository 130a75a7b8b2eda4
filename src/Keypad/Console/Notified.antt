-- ===== src/Keypad/Console/Notified.antt =====
-- What the notifications of HtcLeoPkg/Drivers/KeypadDxe amount to: the registrations as a list, and the
-- calls that a key causes.
use native.Mathlib.Nat.{suc-mul}
use mathlib.Core.List.{append-nil, append_assoc}
use htc_leo_pkg.Base.{
  ℕ, zero, suc, ◌+◌, ◌*◌, ◌≤◌, ◌<◌, ◌≡◌, ◌≢◌, refl, sym, ap, ap₂, ◌∙◌, Bool, true, false, List, [],
  ◌∷◌, ◌++◌, none, some, arith, length, length-append, All, if◌then◌else◌, Bool-cases, inl, inr,
  ==_ne, ==_refl,
}
use htc_leo_pkg.Uefi.{KeyData}
use htc_leo_pkg.Keypad.Queue.{KeyQueue, pop_efikey_buf_head, push_efikey_buf_tail}
use htc_leo_pkg.Keypad.Queue.Refine.{
  IsValid, contents, length-contents, pop-IsValid, pop_refines, push_refines, dequeue,
}
use htc_leo_pkg.Keypad.Console.{
  ConsoleInDev, ExNotify, success, is_key_registered, notify_one, notify_matches, return_api_push,
  is_partial,
}
use htc_leo_pkg.Keypad.Console.Push.{Sound, return_api_push-Polled, notify_one-Polled}
use htc_leo_pkg.Keypad.Console.Notify.{
  find_notify, remove_notify, register_key_notify, unregister_key_notify, calls_of, process_queue,
  key_notify_process_handler,
}

-- The calls of a list of keys, in order.
pub all_calls : List ExNotify → List KeyData → List (ℕ × KeyData)
all_calls ns [] = []
all_calls ns (k ∷ ks) = calls_of ns k ++ all_calls ns ks

process_queue-empty :
    (fuel : ℕ) (ns : List ExNotify) (q : KeyQueue)
    → (pop_efikey_buf_head q).0 ≡ none
    → process_queue (suc fuel) ns q ≡ ([], (pop_efikey_buf_head q).1)
unfolding process_queue
process_queue-empty fuel ns q e = rw (e, process_queue) refl

process_queue-next :
    (fuel : ℕ) (ns : List ExNotify) (q : KeyQueue) (k : KeyData)
    → (pop_efikey_buf_head q).0 ≡ some k
    → process_queue (suc fuel) ns q ≡ (
      calls_of ns k ++ (process_queue fuel ns (pop_efikey_buf_head q).1).0,
      (process_queue fuel ns (pop_efikey_buf_head q).1).1,
    )
unfolding process_queue
process_queue-next fuel ns q k e = rw (e, process_queue) refl

abbrev pub Processed : List (ℕ × KeyData) × KeyQueue → List ExNotify → List KeyData → Type 0
Processed r ns ks = (r.0 ≡ all_calls ns ks) × (contents r.1 ≡ [])

-- On a ring in range, with more fuel than queued keys, the loop of `KeyNotifyProcessHandler` calls, key by key, every
-- function registered for it, and leaves the queue empty.
pub process_queue_lem :
    (ns : List ExNotify) (fuel : ℕ) {q : KeyQueue} (ks : List KeyData)
    → IsValid q
    → contents q ≡ ks
    → length ks < fuel
    → Processed (process_queue fuel ns q) ns ks
unfolding all_calls
process_queue_lem ns zero ks v e lt = absurd (omega arith)
process_queue_lem ns (suc fuel) {q} [] v e lt =
    let p = pop_refines v ∙ ap dequeue e in
    rw (process_queue-empty fuel ns q (ap (λ r. r.0) p)) (refl, ap (λ r. r.1) p)
process_queue_lem ns (suc fuel) {q} (k ∷ ks) v e lt =
    let p = pop_refines v ∙ ap dequeue e in
    let r = process_queue_lem ns fuel ks (pop-IsValid v) (ap (λ r. r.1) p) (omega arith) in
    rw (process_queue-next fuel ns q k (ap (λ r. r.0) p)) (ap (λ cs. calls_of ns k ++ cs) r.0, r.1)

-- No registration has this handle.
abbrev pub Fresh : ℕ → List ExNotify → Type 0
Fresh h ns = All (λ n. n.handle ≢ h) ns

remove_notify-append :
    (ns : List ExNotify) (n : ExNotify)
    → Fresh n.handle ns
    → remove_notify (ns ++ n ∷ []) n.handle ≡ some ns
unfolding remove_notify
remove_notify-append [] n f = rw (==_refl n.handle) refl
remove_notify-append (m ∷ ns) n f =
    rw (==_ne m.handle n.handle f.0, remove_notify-append ns n f.1) refl

abbrev entry : ℕ → KeyData → ℕ → ExNotify
entry h k fn = record { handle = h; key_data = k; key_notification_fn = fn }

module _ {D : Type 0} where
  abbrev with_entry : ConsoleInDev D → ExNotify → ConsoleInDev D
  with_entry c n = record c { notify_list = c.notify_list ++ n ∷ [] }

  pub register_key_notify-with_entry :
      (c : ConsoleInDev D) (h fn : ℕ) (k : KeyData)
      → fn ≢ 0
      → find_notify c.notify_list k fn ≡ none
      → register_key_notify (some h) (some k) fn true c
        ≡ ((success, some h), with_entry c (entry h k fn))
  unfolding register_key_notify
  register_key_notify-with_entry c h fn k hf e = rw (==_ne fn 0 hf, e) refl

  unregister_key_notify-with_entry :
      (c : ConsoleInDev D) (n : ExNotify)
      → n.handle ≢ 0
      → Fresh n.handle c.notify_list
      → unregister_key_notify n.handle (with_entry c n) ≡ (success, c)
  unfolding unregister_key_notify
  unregister_key_notify-with_entry c n hh f =
      rw (==_ne n.handle 0 hh, remove_notify-append c.notify_list n f) refl

  -- Registering a function that is not registered for the key, with memory at a fresh address, returns
  -- that address as the handle, and unregistering the handle gives back the device as it was.
  pub unregister_key_notify-register_key_notify :
      (c : ConsoleInDev D) (h fn : ℕ) (k : KeyData)
      → h ≢ 0
      → fn ≢ 0
      → find_notify c.notify_list k fn ≡ none
      → Fresh h c.notify_list
      → let (answer, c1) = register_key_notify (some h) (some k) fn true c in
        (answer ≡ (success, some h)) × (unregister_key_notify h c1 ≡ (success, c))
  unregister_key_notify-register_key_notify c h fn k hh hf e f =
      let r = register_key_notify-with_entry c h fn k hf e in
      (
        ap (λ r. r.0) r,
        ap (λ r. unregister_key_notify h r.1) r
            ∙ unregister_key_notify-with_entry c (entry h k fn) hh f,
      )

-- How many registrations match a key.
pub matches : List ExNotify → KeyData → ℕ
matches [] k = 0
matches (n ∷ ns) k = (if is_key_registered n.key_data k then 1 else 0) + matches ns k

pub copies : ℕ → KeyData → List KeyData
copies zero k = []
copies (suc n) k = k ∷ copies n k

length-calls_of : (ns : List ExNotify) (k : KeyData) → length (calls_of ns k) ≡ matches ns k
unfolding calls_of matches
length-calls_of [] k = refl
length-calls_of (n ∷ ns) k = ground (arith, length-calls_of ns k)

length-all_calls :
    (ns : List ExNotify) (k : KeyData) (m : ℕ)
    → length (all_calls ns (copies m k)) ≡ m * matches ns k
unfolding all_calls copies
length-all_calls ns k zero = omega arith
length-all_calls ns k (suc m) =
    length-append (calls_of ns k) (all_calls ns (copies m k))
    ∙ ap₂ ◌+◌ (length-calls_of ns k) (length-all_calls ns k m)
    ∙ omega (arith, suc-mul m (matches ns k))

length-copies : (m : ℕ) (k : KeyData) → length (copies m k) ≡ m
unfolding copies
length-copies zero k = refl
length-copies (suc m) k = ap suc (length-copies m k)

copies_add :
    (b : Bool) (m : ℕ) (k : KeyData)
    → copies (if b then 1 else 0) k ++ copies m k ≡ copies ((if b then 1 else 0) + m) k
unfolding copies
copies_add true m k = ap (λ i. copies i k) {x = suc m} {y = 1 + m} (omega arith)
copies_add false m k = ap (λ i. copies i k) {x = m} {y = 0 + m} (omega arith)

push_one :
    (b : Bool) (k : KeyData) {q : KeyQueue}
    → IsValid q
    → length (contents q) + 1 ≤ 255
    → contents (if b then push_efikey_buf_tail q k else q)
      ≡ contents q ++ copies (if b then 1 else 0) k
unfolding copies
push_one true k {q} v room =
    push_refines k v ∙ rw (==_ne (length (contents q)) 255 (omega arith)) refl
push_one false k {q} v room = sym (append-nil (contents q))

copies-append :
    (xs : List KeyData) (b : Bool) (m : ℕ) (k : KeyData)
    → (xs ++ copies (if b then 1 else 0) k) ++ copies m k
      ≡ xs ++ copies ((if b then 1 else 0) + m) k
copies-append xs b m k = append_assoc xs _ _ ∙ ap (λ ys. xs ++ ys) (copies_add b m k)

if_le : (b : Bool) {m : ℕ} (n : ℕ) → m ≡ n + (if b then 1 else 0) → m ≤ n + 1
if_le true n e = omega arith
if_le false n e = omega arith

one_more :
    (xs : List KeyData) (b : Bool) (k : KeyData)
    → length (xs ++ copies (if b then 1 else 0) k) ≤ length xs + 1
one_more xs b k = if_le b (length xs) (
    omega (
      arith,
      length-append xs (copies (if b then 1 else 0) k),
      length-copies (if b then 1 else 0) k,
    ))

module _ {D : Type 0} where
  abbrev pub waiting : ConsoleInDev D → List KeyData
  waiting c = contents c.efi_key_queue_for_notify

  notify_one-queue :
      (n : ExNotify) (k : KeyData) (c : ConsoleInDev D)
      → (notify_one n k c).efi_key_queue_for_notify ≡ (
          if is_key_registered n.key_data k
          then push_efikey_buf_tail c.efi_key_queue_for_notify k
          else c.efi_key_queue_for_notify)
  unfolding notify_one
  notify_one-queue n k c = elim (Bool-cases (is_key_registered n.key_data k)) [
    | inl e ↦ rw (e, notify_one) refl
    | inr e ↦ rw (e, notify_one) refl
  ]

  notify_one-waiting :
      (n : ExNotify) (k : KeyData) {c : ConsoleInDev D}
      → Sound c
      → length (waiting c) + 1 ≤ 255
      → waiting (notify_one n k c)
        ≡ waiting c ++ copies (if is_key_registered n.key_data k then 1 else 0) k
  notify_one-waiting n k {c} s room =
      ap contents (notify_one-queue n k c)
      ∙ push_one (is_key_registered n.key_data k) k s.for_notify room

  pub notify_matches-waiting :
      (ns : List ExNotify) (k : KeyData) {c : ConsoleInDev D}
      → Sound c
      → length (waiting c) + length ns ≤ 255
      → waiting (notify_matches ns k c) ≡ waiting c ++ copies (matches ns k) k
  unfolding notify_matches matches copies
  notify_matches-waiting [] k {c} s room = sym (append-nil (waiting c))
  notify_matches-waiting (n ∷ ns) k {c} s room =
      let w = notify_one-waiting n k s (omega arith) in
      notify_matches-waiting ns k (notify_one-Polled n k s).sound
        (omega (arith, ap length w, one_more (waiting c) (is_key_registered n.key_data k) k))
      ∙ ap (λ ks. ks ++ copies (matches ns k) k) w
      ∙ copies-append (waiting c) (is_key_registered n.key_data k) (matches ns k) k

  return_api_push-waiting :
      (k : KeyData) (c : ConsoleInDev D)
      → is_partial k ≡ false
      → waiting (return_api_push c k) ≡ waiting (notify_matches c.notify_list k c)
  unfolding return_api_push
  return_api_push-waiting k c f = rw (f, return_api_push) refl

  processed :
      (c : ConsoleInDev D)
      → Sound c
      → (key_notify_process_handler c).0 ≡ all_calls c.notify_list (waiting c)
  unfolding key_notify_process_handler
  processed c s =
      (process_queue_lem c.notify_list 256 (waiting c) s.for_notify refl
        (omega (arith, length-contents c.efi_key_queue_for_notify))).0

  -- On a sound device with at most 255 registrations and no key waiting for them: a key that is not partial and that n
  -- registrations match is queued n times for the notify process. `KeyNotifyProcessHandler` then calls every function
  -- registered for it n times, in n rounds through the registrations, which makes n * n calls.
  pub return_api_push-calls :
      (k : KeyData) {c : ConsoleInDev D}
      → Sound c
      → is_partial k ≡ false
      → waiting c ≡ []
      → length c.notify_list ≤ 255
      → let n = matches c.notify_list k in
        let calls = (key_notify_process_handler (return_api_push c k)).0 in
        (waiting (return_api_push c k) ≡ copies n k)
        × (calls ≡ all_calls c.notify_list (copies n k))
        × (length calls ≡ n * n)
  return_api_push-calls k {c} s f e room =
      let p = return_api_push-Polled k s in
      let w =
        return_api_push-waiting k c f
        ∙ notify_matches-waiting c.notify_list k s (omega (arith, ap length e))
        ∙ ap (λ ks. ks ++ copies (matches c.notify_list k) k) e in
      let made = processed (return_api_push c k) p.sound ∙ ap₂ all_calls p.list_kept w in
      (w, made, ap length made ∙ length-all_calls c.notify_list k (matches c.notify_list k))
