-- ===== src/Keypad/Console/Wait.antt =====
-- `KeypadWaitForKey` of HtcLeoPkg/Drivers/KeypadDxe/KeypadTextIn.c against the list of queued keys.
use native.Mathlib.Decide.{ℕ_discrete}
use htc_leo_pkg.Base.{
  ℕ, zero, suc, ◌+◌, ◌%◌, ◌<◌, ◌≡◌, ◌≢◌, refl, Bool, true, false, List, [], ◌∷◌, arith, length,
  if◌then◌else◌, ==_iff, ==_ne,
}
use htc_leo_pkg.Uefi.{KeyData}
use htc_leo_pkg.Keypad.Queue.{KeyQueue, pop_efikey_buf_head, is_efikey_buf_empty}
use htc_leo_pkg.Keypad.Queue.Refine.{
  IsValid, contents, contents-empty, contents-next, length-contents,
}
use htc_leo_pkg.Keypad.Console.{is_partial, skip_partial}

-- The keys from the first one that is not partial.
pub pending : List KeyData → List KeyData
pending [] = []
pending (k ∷ ks) = if is_partial k then pending ks else k ∷ ks

pub is_cons : List KeyData → Bool
is_cons [] = false
is_cons (k ∷ ks) = true

abbrev next_queue : KeyQueue → KeyQueue
next_queue q = record q { head = (q.head + 1) % 256 }

skip_partial-empty :
    (fuel : ℕ) {q : KeyQueue} → q.head ≡ q.tail → skip_partial (suc fuel) q ≡ (false, q)
unfolding skip_partial is_efikey_buf_empty
skip_partial-empty fuel {q} e = rw ((==_iff q.head q.tail).1 e) refl

skip_partial-next :
    (fuel : ℕ) (q : KeyQueue)
    → q.head ≢ q.tail
    → skip_partial (suc fuel) q
      ≡ (if is_partial (q.buffer q.head) then skip_partial fuel (next_queue q) else (true, q))
unfolding skip_partial is_efikey_buf_empty pop_efikey_buf_head
skip_partial-next fuel q ne = rw (==_ne q.head q.tail ne) refl

-- A queue that agrees with a list of keys: the event is signalled if one is left, and they are queued.
abbrev pub Waited : Bool × KeyQueue → List KeyData → Type 0
Waited r ks = (r.0 ≡ is_cons ks) × (contents r.1 ≡ ks)

Waited-if :
    (b : Bool) (x y : Bool × KeyQueue) {ks ls : List KeyData}
    → Waited x ks
    → Waited y ls
    → Waited (if b then x else y) (if b then ks else ls)
Waited-if true x y f g = f
Waited-if false x y f g = g

-- On a ring in range, with more fuel than queued keys, the loop of `KeypadWaitForKey` removes exactly the partial keys in
-- front, and signals the event if and only if a key is left.
pub skip_partial_lem :
    (fuel : ℕ) {q : KeyQueue}
    → IsValid q
    → length (contents q) < fuel
    → Waited (skip_partial fuel q) (pending (contents q))
unfolding pending is_cons
skip_partial_lem zero v lt = absurd (omega arith)
skip_partial_lem (suc fuel) {q} v lt = elim (ℕ_discrete q.head q.tail) [
  | yes e ↦ rw (skip_partial-empty fuel {q = q} e, contents-empty q e) (refl, refl)
  | no ne ↦
      rw (skip_partial-next fuel q ne, contents-next v ne)
        (Waited-if (is_partial (q.buffer q.head)) (skip_partial fuel (next_queue q)) (true, q)
          (skip_partial_lem fuel {q = next_queue q}
            (record { head_in = omega arith; tail_in = v.tail_in })
            (omega (arith, length-contents q, length-contents (next_queue q))))
          (refl, contents-next v ne))
]
