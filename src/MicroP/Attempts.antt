-- ===== src/MicroP/Attempts.antt =====
-- The attempts of HtcLeoPkg/Drivers/MicroPDxe/MicroPDxe.c on the bus.
use htc_leo_pkg.Base.{
  ℕ, zero, suc, ◌+◌, ◌≤◌, ◌<◌, ◌≡◌, refl, ap, ◌∙◌, inl, inr, Bool, true, false, List, [], ◌∷◌,
  Option, none, some, arith, length, ◌==◌, leb-true, leb-false, Bool-cases,
}
use htc_leo_pkg.Base.Search.{first_index, IsFirst, first_index-IsFirst}
use htc_leo_pkg.MicroP.{
  I2cMsg, write_msg, I2cProtocol, MicroP, attempts, try_xfer, write_answer, microp_i2c_write,
  write_block_size,
}

module _ {B : Type 0} (i2c : I2cProtocol B) (msgs : List I2cMsg) (wanted : ℕ) (b : B) where
  -- The bus after `k` transfers of the messages, and whether the next one does them all.
  abbrev pub bus_after : ℕ → B
  bus_after zero = b
  bus_after (suc k) = (i2c.xfer msgs (bus_after k)).1

  abbrev pub done_at : ℕ → Bool
  done_at k = (i2c.xfer msgs (bus_after k)).0.0 == wanted

  -- What is left after `n` attempts, by the first one that does all messages.
  abbrev pub answer_at : ℕ → Option ℕ → Option (List ℕ) × B
  answer_at n none = (none, bus_after n)
  answer_at n (some k) = (some (i2c.xfer msgs (bus_after k)).0.1, bus_after (suc k))

  try_xfer_from :
      (n i : ℕ)
      → try_xfer i2c n msgs wanted (bus_after i) ≡ answer_at (i + n) (first_index done_at i n)
  unfolding try_xfer
  try_xfer_from zero i = ap (λ k. (none, bus_after k)) {x = i} {y = i + 0} (omega arith)
  try_xfer_from (suc n) i = elim (Bool-cases (done_at i)) [
    | inl e ↦ rw e refl
    | inr e ↦ rw e (
        ap (λ k. try_xfer i2c n msgs wanted (bus_after k)) {x = suc i} {y = i + 1} (omega arith)
        ∙ try_xfer_from n (i + 1)
        ∙ ap (λ k. answer_at k (first_index done_at (i + 1) n)) {x = i + 1 + n} {y = i + suc n}
            (omega arith))
  ]

-- What `microp_i2c_write` answers, by the first of its attempts that sends the message.
module _ {B : Type 0} (i2c : I2cProtocol B) where
  abbrev pub written : List I2cMsg → MicroP B → Option ℕ → Bool × MicroP B
  written msgs p none = (false, record p { bus = bus_after i2c msgs 1 p.bus attempts })
  written msgs p (some k) = (true, record p { bus = bus_after i2c msgs 1 p.bus (suc k) })

  abbrev pub Written : ℕ → List ℕ → MicroP B → Option ℕ → Type 0
  Written addr cmd p none = microp_i2c_write i2c addr cmd p ≡ (false, p)
  Written addr cmd p (some c) =
      let msgs = write_msg c (addr ∷ cmd) ∷ [] in
      (write_block_size ≤ length cmd → microp_i2c_write i2c addr cmd p ≡ (false, p))
      × (length cmd < write_block_size
          → (k : Option ℕ) × IsFirst (done_at i2c msgs 1 p.bus) 0 attempts k
            × (microp_i2c_write i2c addr cmd p ≡ written msgs p k))

  answer-written :
      (msgs : List I2cMsg) (p : MicroP B) (k : Option ℕ)
      → write_answer i2c p (answer_at i2c msgs 1 p.bus attempts k) ≡ written msgs p k
  answer-written msgs p none = refl
  answer-written msgs p (some k) = refl

  write_from :
      (addr c : ℕ) (cmd : List ℕ) (p : MicroP B)
      → p.chip ≡ some c
      → length cmd < write_block_size
      → microp_i2c_write i2c addr cmd p
        ≡ write_answer i2c p (try_xfer i2c attempts (write_msg c (addr ∷ cmd) ∷ []) 1 p.bus)
  unfolding microp_i2c_write
  write_from addr c cmd p e lt = rw (e, leb-false write_block_size (length cmd) lt) refl

  write_refused :
      (addr c : ℕ) (cmd : List ℕ) (p : MicroP B)
      → p.chip ≡ some c
      → write_block_size ≤ length cmd
      → microp_i2c_write i2c addr cmd p ≡ (false, p)
  unfolding microp_i2c_write
  write_refused addr c cmd p e le = rw (e, leb-true write_block_size (length cmd) le) refl

  write_unset :
      (addr : ℕ) (cmd : List ℕ) (p : MicroP B)
      → p.chip ≡ none
      → microp_i2c_write i2c addr cmd p ≡ (false, p)
  unfolding microp_i2c_write
  write_unset addr cmd p e = rw e refl

  write_sent :
      (addr c : ℕ) (cmd : List ℕ) (p : MicroP B)
      → p.chip ≡ some c
      → length cmd < write_block_size
      → let msgs = write_msg c (addr ∷ cmd) ∷ [] in
        microp_i2c_write i2c addr cmd p
        ≡ written msgs p (first_index (done_at i2c msgs 1 p.bus) 0 attempts)
  write_sent addr c cmd p e lt =
      let msgs = write_msg c (addr ∷ cmd) ∷ [] in
      write_from addr c cmd p e lt
      ∙ ap (write_answer i2c p) (try_xfer_from i2c msgs 1 p.bus attempts 0)
      ∙ answer-written msgs p (first_index (done_at i2c msgs 1 p.bus) 0 attempts)

  write_cases :
      (addr : ℕ) (cmd : List ℕ) (p : MicroP B) (chip : Option ℕ)
      → p.chip ≡ chip
      → Written addr cmd p chip
  write_cases addr cmd p none e = write_unset addr cmd p e
  write_cases addr cmd p (some c) e =
      let done = done_at i2c (write_msg c (addr ∷ cmd) ∷ []) 1 p.bus in
      (
        write_refused addr c cmd p e,
        λ lt. (
          first_index done 0 attempts,
          first_index-IsFirst done attempts 0,
          write_sent addr c cmd p e lt,
        ),
      )

-- The write sends nothing and fails without the address of the chip, and when it has 21 bytes and more.
-- It else transfers its one message, the register and the bytes, until the bus reports it done: after
-- the first such transfer of 17 it succeeds, and after 17 that are not done it fails.
pub microp_i2c_write-Written :
    {B : Type 0} (i2c : I2cProtocol B) (addr : ℕ) (cmd : List ℕ) (p : MicroP B)
    → Written i2c addr cmd p p.chip
microp_i2c_write-Written i2c addr cmd p = write_cases i2c addr cmd p p.chip refl
