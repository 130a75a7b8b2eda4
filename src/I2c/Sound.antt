-- ===== src/I2c/Sound.antt =====
-- The counters of the I2C driver stay with the current message, whatever the controller shows,
-- HtcLeoPkg/GPLDrivers/I2CDxe/I2CDxe.c.
use htc_leo_pkg.Base.{
  ℕ, zero, suc, ◌+◌, ◌%◌, ◌<◌, ◌≡◌, ◌≢◌, refl, sym, ◌∙◌, Bool, true, false, not, ◌&&◌, ◌||◌, List,
  [], ◌∷◌, ◌++◌, arith, length, ltb, ◌==◌, if◌then◌else◌, if-elim,
}
use mathlib.Core.Path.{subst}
use htc_leo_pkg.Base.Int.{ℤ, pos, negsuc}
use htc_leo_pkg.MicroP.{I2cMsg}
use htc_leo_pkg.I2c.{
  I2cDev, I2cEvent, write_data, store, discard, len_of, is_read, stop_if, has_error, wr_full,
  rd_full, flush, read_at, finish_at, fill_at, error, err_timed_out, interrupt_on, next_message,
  msm_i2c_fill_write_buffer, msm_i2c_read_buffer, move_byte, msm_i2c_interrupt_locked,
}

-- The place in the message: before its address with all bytes left, or behind `p` bytes with the others left
abbrev pub AtPlace : I2cMsg → ℤ → ℕ → Type 0
AtPlace m (negsuc k) cnt = (k ≡ 0) × (cnt ≡ len_of m)
AtPlace m (pos p) cnt = p + cnt ≡ len_of m

-- Without messages nothing is asked; else `rem` counts them and the place is one in the first.
abbrev pub Holds : List I2cMsg → I2cDev → Type 0
Holds [] d = Unit
Holds (m ∷ later) d = (d.rem ≡ suc (length later)) × AtPlace m d.at d.cnt

abbrev pub IsSound : I2cDev → Type 0
IsSound d = Holds d.msgs d

-- The places that events store to are in a buffer of the length.
abbrev pub Within : ℕ → List I2cEvent → Type 0
Within len [] = Unit
Within len (write_data val ∷ es) = Within len es
Within len (discard ∷ es) = Within len es
Within len (store p byte ∷ es) = (p < len) × Within len es

-- The length of the current buffer
abbrev pub room : List I2cMsg → ℕ
room [] = 0
room (m ∷ later) = len_of m

Within-append :
    (len : ℕ) (es fs : List I2cEvent) → Within len es → Within len fs → Within len (es ++ fs)
Within-append len [] fs h k = k
Within-append len (write_data val ∷ es) fs h k = Within-append len es fs h k
Within-append len (discard ∷ es) fs h k = Within-append len es fs h k
Within-append len (store p byte ∷ es) fs h k = (h.0, Within-append len es fs h.1 k)

Within-stop_if : (len : ℕ) (due : Bool) → Within len (stop_if due)
Within-stop_if len true = tt
Within-stop_if len false = tt

-- A step at a message: the events fit, `msgs` and `rem` stay, and so does the place.
abbrev Steps : I2cMsg → I2cDev → List I2cEvent → I2cDev → Type 0
Steps m d es d' =
    Within (len_of m) es × (d'.msgs ≡ d.msgs) × (d'.rem ≡ d.rem) × AtPlace m d'.at d'.cnt

module _ (m : I2cMsg) (d : I2cDev) where
  abbrev Filled : (Bool × List I2cEvent) × I2cDev → Type 0
  Filled r = Steps m d r.0.1 r.1

  abbrev Taken : List I2cEvent × I2cDev → Type 0
  Taken r = Steps m d r.0 r.1

  stays : (at : ℤ) → d.at ≡ at → AtPlace m at d.cnt → AtPlace m d.at d.cnt
  stays at e place = rw e place

  fill-place : (at : ℤ) → d.at ≡ at → AtPlace m at d.cnt → Filled (fill_at at m d)
  fill-place (negsuc zero) e place = (tt, refl, refl, rw e (omega (arith, place.1)))
  fill-place (negsuc (suc k)) e place = absurd (omega (arith, place.0))
  fill-place (pos p) e place =
      if-elim Filled (is_read m) (λ _. (tt, refl, refl, stays (pos p) e place))
        λ writes.
          if-elim Filled (d.cnt == 0) (λ _. (tt, refl, refl, stays (pos p) e place))
            λ more. (tt, refl, refl, ground arith)

  flush-place : (at : ℤ) → d.at ≡ at → AtPlace m at d.cnt → Taken (flush d)
  flush-place at e place =
      let due : Bool = d.flush_cnt % 2 == 1 in
      (
        Within-append (len_of m) (stop_if due) (discard ∷ []) (Within-stop_if _ due) tt,
        refl,
        refl,
        stays at e place,
      )

  read-place : (byte : ℕ) (at : ℤ) → d.at ≡ at → AtPlace m at d.cnt → Taken (read_at at byte m d)
  read-place byte (negsuc k) e place = flush-place (negsuc k) e place
  read-place byte (pos p) e place =
      if-elim Taken (is_read m && not (d.cnt == 0))
        (λ expected.
          let more : d.cnt ≢ 0 = ground arith in
          let due : Bool = ((d.cnt == 1) && (p == 0)) || (d.cnt == 2) in
          (
            Within-append (len_of m) (stop_if due) (store p byte ∷ []) (Within-stop_if _ due)
                (omega arith, tt),
            refl,
            refl,
            omega arith,
          ))
        (λ _. flush-place (pos p) e place)

-- The step to the next message, or to the end, from the place after a byte
module _ (m : I2cMsg) (later : List I2cMsg) where
  unmoved :
      (d : I2cDev)
      → d.msgs ≡ m ∷ later
      → d.rem ≡ suc (length later)
      → AtPlace m d.at d.cnt
      → IsSound d
  unmoved d e r place = subst (λ ms. Holds ms d) (sym e) (r, place)

  next_message-IsSound :
      (ms : List I2cMsg) (d : I2cDev) → d.rem ≡ suc (length ms) → IsSound (next_message ms d)
  next_message-IsSound [] d r = tt
  next_message-IsSound (m' ∷ ms) d r = (omega (arith, r), (refl, refl))

  finish-IsSound :
      (d : I2cDev) (at : ℤ) (not_done : Bool)
      → d.at ≡ at
      → d.msgs ≡ m ∷ later
      → d.rem ≡ suc (length later)
      → AtPlace m at d.cnt
      → IsSound (finish_at at later not_done d)
  finish-IsSound d (negsuc k) not_done at e r place = unmoved d e r (stays m d (negsuc k) at place)
  finish-IsSound d (pos p) not_done at e r place =
      let here : IsSound d = unmoved d e r (stays m d (pos p) at place) in
      let there : IsSound (record d { timeout = pos 0 }) =
        unmoved (record d { timeout = pos 0 }) e r (stays m d (pos p) at place) in
      if-elim IsSound (d.cnt == 0)
        (λ _.
          if-elim IsSound (ltb 1 d.rem) (λ _. next_message-IsSound later d r)
            λ _. if-elim IsSound (not not_done && not d.need_flush) (λ _. there) (λ _. here))
        (λ _. here)

  move_byte-IsSound :
      (status byte : ℕ) (d : I2cDev)
      → d.msgs ≡ m ∷ later
      → d.rem ≡ suc (length later)
      → AtPlace m d.at d.cnt
      → let (es, d') = move_byte status byte m later d in Within (len_of m) es × IsSound d'
  unfolding move_byte msm_i2c_fill_write_buffer msm_i2c_read_buffer
  move_byte-IsSound status byte d e r place =
      let w : (Bool × List I2cEvent) × I2cDev =
        if wr_full status then ((true, []), d) else fill_at d.at m d in
      let fw : Filled m d w =
        if-elim (Filled m d) (wr_full status) {x = ((true, []), d)} {y = fill_at d.at m d}
          (λ _. (tt, refl, refl, place)) (λ _. fill-place m d d.at refl place) in
      let d1 : I2cDev = w.1 in
      let t : List I2cEvent × I2cDev =
        if rd_full status then read_at d1.at byte m d1 else ([], d1) in
      let ft : Taken m d1 t =
        if-elim (Taken m d1) (rd_full status) {x = read_at d1.at byte m d1} {y = ([], d1)}
          (λ _. read-place m d1 byte d1.at refl fw.3) (λ _. (tt, refl, refl, fw.3)) in
      (
        Within-append (len_of m) (w.0).1 t.0 fw.0 ft.0,
        finish-IsSound (t.1) ((t.1).at) ((w.0).0) refl (ft.1 ∙ fw.1 ∙ e) (ft.2 ∙ fw.2 ∙ r) ft.3,
      )

interrupt_on-IsSound :
    (ms : List I2cMsg) (status byte : ℕ) (d : I2cDev)
    → d.msgs ≡ ms
    → Holds ms d
    → let (es, d') = interrupt_on ms status byte d in Within (room ms) es × IsSound d'
interrupt_on-IsSound [] status byte d e h = (tt, subst (λ ms. Holds ms d) (sym e) tt)
interrupt_on-IsSound (m ∷ later) status byte d e h =
    let failed : I2cDev = record d { ret = error; timeout = err_timed_out } in
    if-elim (λ (r : List I2cEvent × I2cDev). Within (len_of m) r.0 × IsSound r.1) (has_error status)
      (λ _. (tt, unmoved m later failed e h.0 h.1))
      (λ _. move_byte-IsSound m later status byte d e h.0 h.1)

-- Whatever status and byte the controller shows, an interrupt keeps the counters with the current
-- message: the place and the bytes left add up to its length, and the messages left are counted. Every byte that
-- it stores has a place in the message's buffer.
pub interrupt-IsSound :
    (status byte : ℕ) (d : I2cDev)
    → IsSound d
    → let (es, d') = msm_i2c_interrupt_locked status byte d in Within (room d.msgs) es × IsSound d'
unfolding msm_i2c_interrupt_locked
interrupt-IsSound status byte d v = interrupt_on-IsSound d.msgs status byte d refl v
