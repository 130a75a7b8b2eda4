-- ===== src/I2c/Reads.antt =====
-- What a message to read stores and asks for, HtcLeoPkg/GPLDrivers/I2CDxe/I2CDxe.c.
use htc_leo_pkg.Base.{
  ℕ, zero, suc, ◌+◌, ◌-◌, ◌≤◌, ◌≡◌, ◌⊎◌, refl, ap, ◌∙◌, inl, inr, true, false, ◌&&◌, List, [], ◌∷◌,
  ◌++◌, arith, length, ◌==◌, if◌then◌else◌, ==_ne,
}
use htc_leo_pkg.Base.Int.{pos}
use htc_leo_pkg.MicroP.{I2cMsg, read_msg}
use htc_leo_pkg.I2c.{
  I2cDev, I2cEvent, store, discard, stop_if, has_error, wr_full, rd_full, msm_i2c_interrupt_locked,
}
use htc_leo_pkg.I2c.Writes.{run, run_step, inside}

-- The controller has a byte that was read, takes one to write, and reports no error.
abbrev pub HasByte : ℕ → Type 0
HasByte status = (wr_full status ≡ false) × (rd_full status ≡ true) × (has_error status ≡ false)

abbrev pub AllHaveByte : List (ℕ × ℕ) → Type 0
AllHaveByte [] = Unit
AllHaveByte ((status, byte) ∷ sts) = HasByte status × AllHaveByte sts

-- The bytes stored one after the other from the place `p` on, with the request to stop when one more byte is due
-- behind the next
abbrev pub stores_from : ℕ → List (ℕ × ℕ) → List I2cEvent
stores_from p [] = []
stores_from p ((status, byte) ∷ sts) =
    (stop_if (length sts == 1) ++ store p byte ∷ []) ++ stores_from (p + 1) sts

module _ (base : I2cDev) (addr len : ℕ) (settled : base.need_flush ≡ false) where
  abbrev m : I2cMsg
  m = read_msg addr len

  -- Behind the last byte
  abbrev done : ℕ → ℕ → I2cDev
  done p cnt = record (inside base m [] p cnt) { need_flush = false; timeout = pos 0 }

  take_step :
      (status byte p n : ℕ)
      → HasByte status
      → (1 ≤ p) ⊎ (1 ≤ n)
      → msm_i2c_interrupt_locked status byte (inside base m [] p (suc n)) ≡ (
        stop_if (n == 1) ++ store p byte ∷ [],
        if n == 0 then done (p + 1) n else inside base m [] (p + 1) n,
      )
  unfolding msm_i2c_interrupt_locked
  take_step status byte p n (writes, reads, fine) more =
      let less : suc n - 1 ≡ n = omega arith in
      let not_only : ((suc n == 1) && (p == 0)) ≡ false = ground arith in
      let stop : (suc n == 2) ≡ (n == 1) = ground arith in
      rw fine (
        rw writes (
          rw reads (
            rw (==_ne (suc n) 0 (omega arith))
              (rw not_only (rw less (rw settled (rw stop refl)))))))

  take_all :
      (sts : List (ℕ × ℕ)) (p n : ℕ)
      → AllHaveByte sts
      → length sts ≡ suc n
      → (1 ≤ p) ⊎ (1 ≤ n)
      → run sts (inside base m [] p (suc n)) ≡ (stores_from p sts, done (p + suc n) 0)
  take_all [] p n bytes e more = absurd (omega (arith, e))
  take_all ((status, byte) ∷ []) p zero bytes e more =
      run_step (status, byte) [] (inside base m [] p 1) (done (p + 1) 0) (store p byte ∷ [])
        ([], done (p + 1) 0) (take_step status byte p zero bytes.0 more) refl
  take_all ((status, byte) ∷ []) p (suc n) bytes e more = absurd (omega (arith, e))
  take_all ((status, byte) ∷ st ∷ sts) p zero bytes e more = absurd (omega (arith, e))
  take_all ((status, byte) ∷ st ∷ sts) p (suc n) bytes e more =
      let count : length (st ∷ sts) ≡ suc n = omega (arith, e) in
      run_step (status, byte) (st ∷ sts) (inside base m [] p (suc (suc n)))
        (inside base m [] (p + 1) (suc n)) (stop_if (length (st ∷ sts) == 1) ++ store p byte ∷ [])
        (stores_from (p + 1) (st ∷ sts), done (p + suc (suc n)) 0)
        (take_step status byte p (suc n) bytes.0 more
          ∙ rw count (rw (==_ne (suc n) 0 (omega arith)) refl))
        (take_all (st ∷ sts) (p + 1) n bytes.1 count (inl (omega arith))
          ∙ ap (λ k. (stores_from (p + 1) (st ∷ sts), done k 0)) {x = p + 1 + suc n}
              {y = p + suc (suc n)} (omega arith))

  -- A single byte is expected, and one more comes.
  abbrev full : I2cDev
  full = record (inside base m [] 1 0) { need_flush = true }

  only_step :
      (status byte : ℕ)
      → HasByte status
      → msm_i2c_interrupt_locked status byte (inside base m [] 0 1)
        ≡ (stop_if true ++ store 0 byte ∷ [], full)
  unfolding msm_i2c_interrupt_locked
  only_step status byte (writes, reads, fine) = rw fine (rw writes (rw reads refl))

  drop_step :
      (status byte : ℕ)
      → HasByte status
      → base.flush_cnt ≡ 0
      → msm_i2c_interrupt_locked status byte full ≡ (discard ∷ [], done 1 0)
  unfolding msm_i2c_interrupt_locked
  drop_step status byte (writes, reads, fine) unflushed =
      rw fine (rw writes (rw reads (rw unflushed refl)))

  single :
      (first second : ℕ × ℕ)
      → HasByte first.0
      → HasByte second.0
      → base.flush_cnt ≡ 0
      → run (first ∷ second ∷ []) (inside base m [] 0 1)
        ≡ (stop_if true ++ store 0 first.1 ∷ discard ∷ [], done 1 0)
  single (status, byte) (status', byte') here there unflushed =
      run_step (status, byte) ((status', byte') ∷ []) (inside base m [] 0 1) full
        (stop_if true ++ store 0 byte ∷ []) (discard ∷ [], done 1 0) (only_step status byte here)
        (run_step (status', byte') [] full (done 1 0) (discard ∷ []) ([], done 1 0)
          (drop_step status' byte' there unflushed) refl)

-- A controller that has a byte at each interrupt fills the buffer of the last message, one place after the
-- other, with the bytes in their order; it is asked to stop exactly once, when one more byte is
-- due behind the next. With the last byte the end is reported. A buffer of a single byte is too short for that:
-- it is stopped at once, and the byte that still comes is dropped before the end is reported.
pub run-read_msg :
    (base : I2cDev) (addr : ℕ) (first second : ℕ × ℕ) (sts : List (ℕ × ℕ))
    → base.need_flush ≡ false
    → base.flush_cnt ≡ 0
    → AllHaveByte (first ∷ second ∷ sts)
    → let n = length (first ∷ second ∷ sts) in
      let ended = λ (len : ℕ). record (inside base (read_msg addr len) [] len 0) {
        need_flush = false;
        timeout = pos 0;
      } in
      (run (first ∷ second ∷ sts) (inside base (read_msg addr n) [] 0 n)
        ≡ (stores_from 0 (first ∷ second ∷ sts), ended n))
      × (run (first ∷ second ∷ []) (inside base (read_msg addr 1) [] 0 1)
          ≡ (stop_if true ++ store 0 first.1 ∷ discard ∷ [], ended 1))
run-read_msg base addr first second sts settled unflushed bytes =
    let all : List (ℕ × ℕ) = first ∷ second ∷ sts in
    let n : ℕ = length all in
    (
      take_all base addr n settled all 0 (suc (length sts)) bytes refl (inr (omega arith))
          ∙ ap (λ k. (stores_from 0 all, done base addr n settled k 0)) {x = 0 + n} {y = n}
              (omega arith),
      single base addr 1 settled first second bytes.0 bytes.1.0 unflushed,
    )
