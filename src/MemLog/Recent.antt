-- ===== src/MemLog/Recent.antt =====
-- What the log of HtcLeoPkg/Library/InMemorySerialPortLib/InMemorySerialPortLib.c holds.
use htc_leo_pkg.Base.{
  ℕ, zero, suc, ◌+◌, ◌-◌, ◌≤◌, ◌<◌, ◌≡◌, ◌≢◌, refl, sym, ◌∙◌, List, [], ◌∷◌, ◌++◌, arith, length,
  get_or, ltb, leb, if◌then◌else◌, if-elim, leb→lt,
}
use htc_leo_pkg.Base.Memory.{write_self, write_ne}
use htc_leo_pkg.MemLog.{MemLog, mem_putchar, put_chars, serial_port_write}

-- The place of the `i`-th character from the offset `o` on, in a ring of `size`, for i up to the size.
abbrev pub slot : ℕ → ℕ → ℕ → ℕ
slot size o i = if ltb (o + i) size then o + i else o + i - size

module _ (size : ℕ) where
  put_chars-append :
      (xs bs : List ℕ) (l : MemLog)
      → put_chars size (xs ++ bs) l ≡ put_chars size bs (put_chars size xs l)
  unfolding put_chars
  put_chars-append [] bs l = refl
  put_chars-append (x ∷ xs) bs l = put_chars-append xs bs (mem_putchar size x l)

  mem_putchar-offset : (c : ℕ) (l : MemLog) → 0 < size → (mem_putchar size c l).offset < size
  unfolding mem_putchar
  mem_putchar-offset c l some_room =
      if-elim (λ o. o < size) (leb size (l.offset + 1)) (λ e. some_room)
        (λ e. leb→lt size (l.offset + 1) e)

  put_chars-offset :
      (cs : List ℕ) (l : MemLog) → l.offset < size → (put_chars size cs l).offset < size
  unfolding put_chars
  put_chars-offset [] l h = h
  put_chars-offset (c ∷ cs) l h =
      put_chars-offset cs (mem_putchar size c l) (mem_putchar-offset c l (omega arith))

  -- One character on, the places are counted from the next offset.
  slot_next :
      (c i : ℕ) (l : MemLog)
      → l.offset < size
      → suc i ≤ size
      → slot size (mem_putchar size c l).offset i ≡ slot size l.offset (suc i)
  unfolding mem_putchar
  slot_next c i l h le = ground arith

  put_chars_other :
      (cs : List ℕ) (l : MemLog) (x : ℕ)
      → l.offset < size
      → length cs ≤ size
      → ((i : ℕ) → i < length cs → slot size l.offset i ≢ x)
      → (put_chars size cs l).base x ≡ l.base x
  unfolding put_chars
  put_chars_other [] l x h le away = refl
  put_chars_other (c ∷ cs) l x h le away =
      put_chars_other cs (mem_putchar size c l) x (mem_putchar-offset c l (omega arith))
        (omega arith)
        (λ i lt e. away (suc i) (omega arith) (sym (slot_next c i l h (omega arith)) ∙ e))
      ∙ unfold mem_putchar in
        write_ne l.base l.offset c x (λ e. away 0 (omega arith) (ground arith))

  slot_first : (o : ℕ) → o < size → slot size o 0 ≡ o
  slot_first o h = ground arith

  slot_ne : (o i : ℕ) → o < size → 0 < i → i < size → slot size o i ≢ slot size o 0
  slot_ne o i h pos_i lt e = ground arith

  put_chars_recent :
      (cs : List ℕ) (l : MemLog) (i : ℕ)
      → l.offset < size
      → length cs ≤ size
      → i < length cs
      → (put_chars size cs l).base (slot size l.offset i) ≡ get_or cs i 0
  unfolding put_chars
  put_chars_recent [] l i h le lt = absurd (omega arith)
  put_chars_recent (c ∷ cs) l zero h le lt =
      put_chars_other cs (mem_putchar size c l) (slot size l.offset 0)
        (mem_putchar-offset c l (omega arith)) (omega arith)
        (λ i small e.
          slot_ne l.offset (suc i) h (omega arith) (omega arith)
            (sym (slot_next c i l h (omega arith)) ∙ e))
      ∙ unfold mem_putchar in
        write_self l.base l.offset c (slot size l.offset 0) (slot_first l.offset h)
  put_chars_recent (c ∷ cs) l (suc i) h le lt = rw (sym (slot_next c i l h (omega arith))) (
      put_chars_recent cs (mem_putchar size c l) i (mem_putchar-offset c l (omega arith))
        (omega arith) (omega arith))

  -- After a text is written whose last part `recent` is not longer than the ring, the ring holds that part,
  -- from the offset on that stood before it, around the end of the ring, and the offset is within
  -- the ring. All bytes count as written.
  pub serial_port_write_lem :
      (old recent : List ℕ) (l : MemLog) (i : ℕ)
      → l.offset < size
      → length recent ≤ size
      → i < length recent
      → let (n, l') = serial_port_write size (old ++ recent) l in
        (n ≡ length (old ++ recent))
        × (l'.offset < size)
        × (l'.base (slot size (serial_port_write size old l).1.offset i) ≡ get_or recent i 0)
  unfolding serial_port_write
  serial_port_write_lem old recent l i h le lt = (
    refl,
    put_chars-offset (old ++ recent) l h,
    rw (put_chars-append old recent l)
        (put_chars_recent recent (put_chars size old l) i (put_chars-offset old l h) le lt),
  )
