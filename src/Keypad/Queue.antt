-- ===== src/Keypad/Queue.antt =====
-- EFI_KEY_QUEUE of HtcLeoPkg/Drivers/KeypadDxe/KeypadTextIn.c: a ring of 256 keys that drops its
-- oldest key when it is full.
pub mod Refine
use htc_leo_pkg.Base.{ℕ, ◌+◌, ◌-◌, ◌%◌, Bool, Option, none, some, ◌==◌, if◌then◌else◌}
use htc_leo_pkg.Uefi.{KeyData}

-- The array `Buffer` is a function of the index.
pub record KeyQueue : Type 0 where
  pub buffer : ℕ → KeyData
  pub head : ℕ
  pub tail : ℕ

-- `IsEfikeyBufEmpty`
unfoldable pub is_efikey_buf_empty : KeyQueue → Bool
is_efikey_buf_empty q = q.head == q.tail

-- `PopEfikeyBufHead`; without a key it is EFI_NOT_READY. The caller that passes no buffer drops it.
unfoldable pub pop_efikey_buf_head : KeyQueue → Option KeyData × KeyQueue
unfolding is_efikey_buf_empty
pop_efikey_buf_head q =
    if is_efikey_buf_empty q
    then (none, q)
    else (some (q.buffer q.head), record q { head = (q.head + 1) % 256 })

abbrev pub store : (ℕ → KeyData) → ℕ → KeyData → ℕ → KeyData
store f i k j = if j == i then k else f j

-- `PushEfikeyBufTail`
unfoldable pub push_efikey_buf_tail : KeyQueue → KeyData → KeyQueue
unfolding pop_efikey_buf_head
push_efikey_buf_tail q k =
    let q1 = if (q.tail + 1) % 256 == q.head then (pop_efikey_buf_head q).1 else q in
    record q1 { buffer = store q1.buffer q1.tail k; tail = (q1.tail + 1) % 256 }
