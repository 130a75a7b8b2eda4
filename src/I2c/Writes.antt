-- ===== src/I2c/Writes.antt =====
-- What a message to write puts on the bus, HtcLeoPkg/GPLDrivers/I2CDxe/I2CDxe.c.
use htc_leo_pkg.Base.{
  ℕ, zero, suc, ◌+◌, ◌-◌, ◌≡◌, refl, ap, ◌∙◌, Bool, true, false, ◌&&◌, List, [], ◌∷◌, ◌++◌, arith,
  length, ◌==◌, if◌then◌else◌, ==_ne, lt→ltb,
}
use htc_leo_pkg.Base.Int.{pos, negsuc}
use htc_leo_pkg.MicroP.{I2cMsg, write_msg}
use htc_leo_pkg.I2c.{
  I2cDev, I2cEvent, write_data, len_of, byte_at, addr_word, marked_last, has_error, wr_full,
  rd_full, finish_at, msm_i2c_interrupt_locked,
}

-- A series of interrupts, each with the status and the byte that the controller shows
abbrev pub run : List (ℕ × ℕ) → I2cDev → List I2cEvent × I2cDev
run [] d = ([], d)
run ((status, byte) ∷ sts) d =
    let (es, d1) = msm_i2c_interrupt_locked status byte d in
    let (fs, d2) = run sts d1 in (es ++ fs, d2)

-- A series from its first interrupt and the others
pub run_step :
    (s : ℕ × ℕ) (rest : List (ℕ × ℕ)) (d d1 : I2cDev) (es : List I2cEvent)
    (q : List I2cEvent × I2cDev)
    → msm_i2c_interrupt_locked s.0 s.1 d ≡ (es, d1)
    → run rest d1 ≡ q
    → run (s ∷ rest) d ≡ (es ++ q.0, q.1)
run_step s rest d d1 es q step others =
    ap (λ (r : List I2cEvent × I2cDev). (r.0 ++ (run rest r.1).0, (run rest r.1).1)) step
    ∙ ap (λ (r : List I2cEvent × I2cDev). (es ++ r.0, r.1)) others

-- The controller takes a byte to write, has none that was read, and reports no error.
abbrev pub IsReady : ℕ → Type 0
IsReady status = (wr_full status ≡ false) × (rd_full status ≡ false) × (has_error status ≡ false)

abbrev pub AllReady : List (ℕ × ℕ) → Type 0
AllReady [] = Unit
AllReady ((status, byte) ∷ sts) = IsReady status × AllReady sts

module _ (base : I2cDev) where
  -- Before a message, and behind `p` bytes of it with `cnt` left
  abbrev pub begun : I2cMsg → List I2cMsg → I2cDev
  begun m later = record base {
    msgs = m ∷ later;
    rem = suc (length later);
    at = negsuc 0;
    cnt = len_of m;
  }

  abbrev pub inside : I2cMsg → List I2cMsg → ℕ → ℕ → I2cDev
  inside m later p cnt = record base {
    msgs = m ∷ later;
    rem = suc (length later);
    at = pos p;
    cnt = cnt;
  }

  -- Behind a message: before the next one, if there is one
  abbrev pub behind : I2cMsg → List I2cMsg → I2cDev
  behind m [] = inside m [] (len_of m) 0
  behind m (m' ∷ later) = begun m' later

-- The word of a byte with `n` bytes behind it, with the mark on the last byte of the last message
abbrev pub word_of : I2cMsg → List I2cMsg → ℕ → ℕ → I2cEvent
word_of m later p n =
    write_data (marked_last ((suc n == 1) && (suc (length later) == 1)) (byte_at m p))

-- The words of `n` bytes from the byte `p` on
abbrev pub words_from : I2cMsg → List I2cMsg → ℕ → ℕ → List I2cEvent
words_from m later p zero = []
words_from m later p (suc n) = word_of m later p n ∷ words_from m later (p + 1) n

if_same {ℓ} : {A : Type ℓ} (b : Bool) (x : A) → (if b then x else x) ≡ x
if_same true x = refl
if_same false x = refl

finish-behind :
    (base : I2cDev) (m : I2cMsg) (later : List I2cMsg)
    → finish_at (pos (len_of m)) later true (inside base m later (len_of m) 0) ≡ behind base m later
finish-behind base m [] = refl
finish-behind base m (m' ∷ later) =
    let less : suc (suc (length later)) - 1 ≡ suc (length later) = omega arith in
    rw (lt→ltb 1 (suc (suc (length later))) (omega arith)) (rw less refl)

module _ (base : I2cDev) (addr : ℕ) (bytes : List ℕ) (later : List I2cMsg) where
  abbrev m : I2cMsg
  m = write_msg addr bytes

  abbrev ended : ℕ → ℕ → I2cDev
  ended p n = finish_at (pos p) later true (inside base m later p n)

  send_step :
      (status byte p n : ℕ)
      → IsReady status
      → msm_i2c_interrupt_locked status byte (inside base m later p (suc n))
        ≡ (word_of m later p n ∷ [], ended (p + 1) n)
  unfolding msm_i2c_interrupt_locked
  send_step status byte p n (writes, reads, fine) =
      let less : suc n - 1 ≡ n = omega arith in
      rw fine (rw writes (rw reads (rw (==_ne (suc n) 0 (omega arith)) (rw less refl))))

  start_step :
      (status byte : ℕ)
      → IsReady status
      → msm_i2c_interrupt_locked status byte (begun base m later) ≡ (
        write_data (addr_word m ((suc (length later) == 1) && (length bytes == 0))) ∷ [],
        ended 0 (length bytes),
      )
  unfolding msm_i2c_interrupt_locked
  start_step status byte (writes, reads, fine) = rw fine (rw writes (rw reads refl))

  ended-more : (p n : ℕ) → ended p (suc n) ≡ inside base m later p (suc n)
  ended-more p n = rw (==_ne (suc n) 0 (omega arith)) refl

  send_all :
      (sts : List (ℕ × ℕ)) (p n : ℕ)
      → AllReady sts
      → length sts ≡ n
      → run sts (ended p n) ≡ (words_from m later p n, ended (p + n) 0)
  send_all [] p zero ready e = ap (λ k. ([], ended k 0)) {x = p} {y = p + 0} (omega arith)
  send_all [] p (suc n) ready e = absurd (omega (arith, e))
  send_all ((status, byte) ∷ sts) p zero ready e = absurd (omega (arith, e))
  send_all ((status, byte) ∷ sts) p (suc n) ready e = rw (ended-more p n) (
      rw (send_step status byte p n ready.0) (
        rw (send_all sts (p + 1) n ready.1 (omega (arith, e))) (
          ap (λ k. (words_from m later p (suc n), ended k 0)) {x = p + 1 + n} {y = p + suc n}
            (omega arith))))

-- A controller that takes a byte at each interrupt gets exactly the words of a message to write: the chip's
-- address, and the bytes in their order, with the mark of the end on the last one of the last message and
-- nowhere else. The driver then stands before the next message. Behind the last one it asks for nothing more,
-- and the next interrupt reports the end, unless a byte is to be dropped first.
pub run-write_msg :
    (base : I2cDev) (addr : ℕ) (bytes : List ℕ) (later : List I2cMsg) (first : ℕ × ℕ)
    (sts : List (ℕ × ℕ))
    → AllReady (first ∷ sts)
    → length sts ≡ length bytes
    → let m = write_msg addr bytes in
      (run (first ∷ sts) (begun base m later) ≡ (
        write_data (addr_word m ((suc (length later) == 1) && (length bytes == 0)))
            ∷ words_from m later 0 (length bytes),
        behind base m later,
      ))
      × (later ≡ []
          → base.need_flush ≡ false
          → msm_i2c_interrupt_locked first.0 first.1 (behind base m later)
            ≡ ([], record (behind base m later) { timeout = pos 0 }))
unfolding msm_i2c_interrupt_locked
run-write_msg base addr bytes later (status, byte) sts (ready, all) e =
    let m : I2cMsg = write_msg addr bytes in
    (
      rw (start_step base addr bytes later status byte ready) (
          rw (send_all base addr bytes later sts 0 (length bytes) all e) (
            ap
              (λ d. (
                write_data (addr_word m ((suc (length later) == 1) && (length bytes == 0)))
                    ∷ words_from m later 0 (length bytes),
                d,
              ))
              (ap (λ k. finish_at (pos k) later true (inside base m later k 0))
                  {x = 0 + length bytes} {y = length bytes} (omega arith)
                ∙ finish-behind base m later))),
      λ last kept. rw last (rw (ready.2) (rw (ready.0) (rw (ready.1) (rw kept refl)))),
    )
