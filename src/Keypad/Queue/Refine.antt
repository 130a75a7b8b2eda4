-- ===== src/Keypad/Queue/Refine.antt =====
-- The key ring of HtcLeoPkg/Drivers/KeypadDxe/KeypadTextIn.c against a list of keys.
use native.Mathlib.Decide.{ℕ_discrete}
use htc_leo_pkg.Base.{
  ℕ, zero, suc, ◌+◌, ◌-◌, ◌%◌, ◌<◌, ◌≡◌, ◌≢◌, refl, sym, ap, ap₂, ◌∙◌, Bool, List, [], ◌∷◌, ◌++◌,
  Option, none, some, arith, length, ◌==◌, if◌then◌else◌, ==_ne, ==_iff,
}
use htc_leo_pkg.Uefi.{KeyData}
use htc_leo_pkg.Keypad.Queue.{KeyQueue, pop_efikey_buf_head, store, push_efikey_buf_tail}

pub record IsValid (q : KeyQueue) : Type 0 where
  pub head_in : q.head < 256
  pub tail_in : q.tail < 256

-- `n` keys from index `h` on, round the ring.
unfoldable pub keys_from : (ℕ → KeyData) → ℕ → ℕ → List KeyData
keys_from f h zero = []
keys_from f h (suc n) = f h ∷ keys_from f ((h + 1) % 256) n

abbrev pub count : KeyQueue → ℕ
count q = (q.tail + 256 - q.head) % 256

-- The queued keys, the oldest first.
abbrev pub contents : KeyQueue → List KeyData
contents q = keys_from q.buffer q.head (count q)

length-keys_from : (f : ℕ → KeyData) (h n : ℕ) → length (keys_from f h n) ≡ n
unfolding keys_from
length-keys_from f h zero = refl
length-keys_from f h (suc n) = ap suc (length-keys_from f ((h + 1) % 256) n)

pub length-contents : (q : KeyQueue) → length (contents q) ≡ count q
length-contents q = length-keys_from q.buffer q.head (count q)

-- A write just past the queued keys adds its key to them.
keys_from-store :
    (f : ℕ → KeyData) (k : KeyData) (n h i : ℕ)
    → h < 256
    → n < 256
    → i ≡ (h + n) % 256
    → keys_from (store f i k) h (suc n) ≡ keys_from f h n ++ k ∷ []
unfolding keys_from
keys_from-store f k zero h i hh hn e =
    ap (λ (t : Bool). (if t then k else f h) ∷ []) ((==_iff h i).1 (omega arith))
keys_from-store f k (suc n) h i hh hn e =
    ap₂ ◌∷◌ (ap (λ (t : Bool). if t then k else f h) (==_ne h i (omega arith)))
      (keys_from-store f k n ((h + 1) % 256) i (omega arith) (omega arith) (omega arith))

-- Dropping the oldest key.
unfoldable pub drop_first : List KeyData → List KeyData
drop_first [] = []
drop_first (k ∷ ks) = ks

-- A queue that holds at most 255 keys, the oldest first.
abbrev pub enqueue : List KeyData → KeyData → List KeyData
enqueue ks k = (if length ks == 255 then drop_first ks else ks) ++ k ∷ []

abbrev pub dequeue : List KeyData → Option KeyData × List KeyData
dequeue [] = (none, [])
dequeue (k ∷ ks) = (some k, ks)

pub push-IsValid : (k : KeyData) {q : KeyQueue} → IsValid q → IsValid (push_efikey_buf_tail q k)
unfolding push_efikey_buf_tail
push-IsValid k v = ground arith

pub pop-IsValid : {q : KeyQueue} → IsValid q → IsValid (pop_efikey_buf_head q).1
unfolding pop_efikey_buf_head
pop-IsValid v = ground arith

keys_from-pos :
    (f : ℕ → KeyData) (h n : ℕ)
    → n ≢ 0
    → keys_from f h n ≡ f h ∷ keys_from f ((h + 1) % 256) (n - 1)
unfolding keys_from
keys_from-pos f h zero ne = absurd (ne refl)
keys_from-pos f h (suc n) ne = ap (λ m. f h ∷ keys_from f ((h + 1) % 256) m) (omega arith)

pub contents-empty : (q : KeyQueue) → q.head ≡ q.tail → contents q ≡ []
unfolding keys_from
contents-empty q e = let z : count q ≡ 0 = omega arith in ap (keys_from q.buffer q.head) z

-- With the oldest key out, the rest is queued.
pub contents-next :
    {q : KeyQueue}
    → IsValid q
    → q.head ≢ q.tail
    → contents q ≡ q.buffer q.head ∷ contents (record q { head = (q.head + 1) % 256 })
contents-next {q} v ne =
    keys_from-pos q.buffer q.head (count q) (omega arith)
    ∙ ap (λ n. q.buffer q.head ∷ keys_from q.buffer ((q.head + 1) % 256) n) (omega arith)

-- On a ring whose indices are in range, `PopEfikeyBufHead` takes the oldest queued key, or reports that
-- there is none.
pub pop_refines :
    {q : KeyQueue}
    → IsValid q
    → let (k, q') = pop_efikey_buf_head q in (k, contents q') ≡ dequeue (contents q)
unfolding pop_efikey_buf_head
pop_refines {q} v = elim (ℕ_discrete q.head q.tail) [
  | yes e ↦ rw ((==_iff q.head q.tail).1 e, pop_efikey_buf_head) (rw (contents-empty q e))
  | no ne ↦ rw (==_ne q.head q.tail ne, pop_efikey_buf_head) (rw (contents-next v ne))
]

contents-push_tail :
    (k : KeyData) {q : KeyQueue}
    → IsValid q
    → (q.tail + 1) % 256 ≢ q.head
    → contents (record q { buffer = store q.buffer q.tail k; tail = (q.tail + 1) % 256 })
      ≡ contents q ++ k ∷ []
contents-push_tail k {q} v ne =
    ap (keys_from (store q.buffer q.tail k) q.head) (omega arith)
    ∙ keys_from-store q.buffer k (count q) q.head q.tail v.head_in (omega arith) (omega arith)

enqueue-full :
    (k : KeyData) {q : KeyQueue}
    → IsValid q
    → (q.tail + 1) % 256 ≡ q.head
    → enqueue (contents q) k ≡ contents (record q { head = (q.head + 1) % 256 }) ++ k ∷ []
unfolding drop_first
enqueue-full k {q} v e =
    rw ((==_iff (length (contents q)) 255).1 (length-contents q ∙ omega arith))
      (ap (λ ks. drop_first ks ++ k ∷ []) (contents-next v (omega arith)))

enqueue-room :
    (k : KeyData) {q : KeyQueue}
    → IsValid q
    → (q.tail + 1) % 256 ≢ q.head
    → enqueue (contents q) k ≡ contents q ++ k ∷ []
enqueue-room k {q} v ne = rw (==_ne (length (contents q)) 255 (omega (arith, length-contents q)))

-- On a ring whose indices are in range, `PushEfikeyBufTail` appends its key to the queued keys, and
-- drops the oldest one if 255 are queued.
pub push_refines :
    (k : KeyData) {q : KeyQueue}
    → IsValid q
    → contents (push_efikey_buf_tail q k) ≡ enqueue (contents q) k
unfolding push_efikey_buf_tail
push_refines k {q} v = elim (ℕ_discrete ((q.tail + 1) % 256) q.head) [
  | yes e ↦
      rw
        (
          (==_iff ((q.tail + 1) % 256) q.head).1 e,
          push_efikey_buf_tail,
          ==_ne q.head q.tail (omega arith),
        )
        (contents-push_tail k {q = record q { head = (q.head + 1) % 256 }}
            (record { head_in = omega arith; tail_in = v.tail_in }) (omega arith)
          ∙ sym (enqueue-full k v e))
  | no ne ↦
      rw (==_ne ((q.tail + 1) % 256) q.head ne, push_efikey_buf_tail)
        (contents-push_tail k v ne ∙ sym (enqueue-room k v ne))
]
