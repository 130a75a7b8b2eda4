-- ===== src/I2c/Transfer/Idle.antt =====
-- How a transfer of HtcLeoPkg/GPLDrivers/I2CDxe/I2CDxe.c ends.
use htc_leo_pkg.Base.{
  ℕ, zero, suc, ◌≡◌, ◌⊎◌, refl, sym, ◌∙◌, inl, inr, Bool, true, false, not, ◌&&◌, List, [], ◌∷◌,
  ltb, ◌==◌, if◌then◌else◌, arith, if-elim,
}
use mathlib.Core.Path.{subst}
use htc_leo_pkg.Base.Int.{ℤ, pos, negsuc}
use htc_leo_pkg.MicroP.{I2cMsg}
use htc_leo_pkg.I2c.{
  I2cDev, I2cEvent, error, err_not_ready, err_timed_out, fill_at, read_at, finish_at, next_message,
  is_read, has_error, wr_full, rd_full, msm_i2c_fill_write_buffer, msm_i2c_read_buffer, move_byte,
  interrupt_on, msm_i2c_interrupt_locked,
}
use htc_leo_pkg.I2c.Transfer.{
  I2cHw, I2cState, interrupt, serve, poll_notbusy, msm_i2c_poll_notbusy, msm_i2c_recover_bus_busy,
  set_up, reset, report, transfer, msm_i2c_xfer, is_timed_out, is_negative,
}

-- The return that the driver has noted: that all messages are done, or an error
abbrev pub IsReturn : ℕ → ℤ → Type 0
IsReturn num ret = (ret ≡ pos num) ⊎ (ret ≡ error)

fill-ret : (at : ℤ) (m : I2cMsg) (d : I2cDev) → (fill_at at m d).1.ret ≡ d.ret
fill-ret (negsuc k) m d = refl
fill-ret (pos p) m d =
    if-elim (λ (r : (Bool × List I2cEvent) × I2cDev). r.1.ret ≡ d.ret) (is_read m) (λ _. refl)
      λ _.
        if-elim (λ (r : (Bool × List I2cEvent) × I2cDev). r.1.ret ≡ d.ret) (d.cnt == 0) (λ _. refl)
          (λ _. refl)

read-ret : (at : ℤ) (byte : ℕ) (m : I2cMsg) (d : I2cDev) → (read_at at byte m d).1.ret ≡ d.ret
read-ret (negsuc k) byte m d = refl
read-ret (pos p) byte m d =
    if-elim (λ (r : List I2cEvent × I2cDev). r.1.ret ≡ d.ret) (is_read m && not (d.cnt == 0))
      (λ _. refl) (λ _. refl)

next-ret : (later : List I2cMsg) (d : I2cDev) → (next_message later d).ret ≡ d.ret
next-ret [] d = refl
next-ret (m ∷ later) d = refl

finish-ret :
    (at : ℤ) (later : List I2cMsg) (not_done : Bool) (d : I2cDev)
    → (finish_at at later not_done d).ret ≡ d.ret
finish-ret (negsuc k) later not_done d = refl
finish-ret (pos p) later not_done d =
    if-elim (λ (r : I2cDev). r.ret ≡ d.ret) (d.cnt == 0)
      (λ _.
        if-elim (λ (r : I2cDev). r.ret ≡ d.ret) (ltb 1 d.rem) (λ _. next-ret later d)
          λ _.
            if-elim (λ (r : I2cDev). r.ret ≡ d.ret) (not not_done && not d.need_flush) (λ _. refl)
              (λ _. refl))
      (λ _. refl)

move_byte-ret :
    (status byte : ℕ) (m : I2cMsg) (later : List I2cMsg) (d : I2cDev)
    → (move_byte status byte m later d).1.ret ≡ d.ret
unfolding move_byte msm_i2c_fill_write_buffer msm_i2c_read_buffer
move_byte-ret status byte m later d =
    let w : (Bool × List I2cEvent) × I2cDev =
      if wr_full status then ((true, []), d) else fill_at d.at m d in
    let d1 : I2cDev = w.1 in
    let t : List I2cEvent × I2cDev = if rd_full status then read_at d1.at byte m d1 else ([], d1) in
    finish-ret t.1.at later w.0.0 t.1
    ∙ if-elim (λ (r : List I2cEvent × I2cDev). r.1.ret ≡ d1.ret) (rd_full status)
        {x = read_at d1.at byte m d1} {y = ([], d1)} (λ _. read-ret d1.at byte m d1) (λ _. refl)
    ∙ if-elim (λ (r : (Bool × List I2cEvent) × I2cDev). r.1.ret ≡ d.ret) (wr_full status)
        {x = ((true, []), d)} {y = fill_at d.at m d} (λ _. refl) (λ _. fill-ret d.at m d)

interrupt-IsReturn :
    (num : ℕ) (ms : List I2cMsg) (status byte : ℕ) (d : I2cDev)
    → IsReturn num d.ret
    → IsReturn num (interrupt_on ms status byte d).1.ret
interrupt-IsReturn num [] status byte d v = v
interrupt-IsReturn num (m ∷ later) status byte d v =
    if-elim (λ (r : List I2cEvent × I2cDev). IsReturn num r.1.ret) (has_error status)
      (λ _. inr refl) (λ _. ground (arith, move_byte-ret status byte m later d))

module _ {B : Type 0} (hw : I2cHw B) where
  -- While it waits, a driver without messages keeps to that, and one with a transfer to a return.
  serve-IsReturn :
      (num : ℕ) (xs : List (ℕ × ℕ)) (s : I2cState B)
      → IsReturn num s.dev.ret
      → IsReturn num (serve hw xs s).dev.ret
  unfolding msm_i2c_interrupt_locked
  serve-IsReturn num [] s v = v
  serve-IsReturn num ((status, byte) ∷ xs) s v =
      serve-IsReturn num xs (interrupt hw (status, byte) s)
        (interrupt-IsReturn num s.dev.msgs status byte s.dev v)

  poll-IsReturn :
      (num n : ℕ) (s : I2cState B)
      → IsReturn num s.dev.ret
      → IsReturn num (poll_notbusy hw n s).1.dev.ret
  unfolding poll_notbusy
  poll-IsReturn num zero s v = v
  poll-IsReturn num (suc n) s v =
      let (xs, b) = hw.interrupts s.bus in
      let s1 : I2cState B = serve hw xs (record s { bus = b }) in
      let (status, b') = hw.read_status s1.bus in
      let s2 : I2cState B = record s1 { bus = b' } in
      let kept : IsReturn num s2.dev.ret = serve-IsReturn num xs (record s { bus = b }) v in
      if-elim (λ (r : Bool × I2cState B). IsReturn num r.1.dev.ret) _
        (λ _. poll-IsReturn num n s2 kept) (λ _. kept)

  serve-idle :
      (xs : List (ℕ × ℕ)) (s : I2cState B) → s.dev.msgs ≡ [] → (serve hw xs s).dev.msgs ≡ []
  unfolding msm_i2c_interrupt_locked
  serve-idle [] s e = e
  serve-idle ((status, byte) ∷ xs) s e =
      serve-idle xs (interrupt hw (status, byte) s)
        (subst (λ ms. (interrupt_on ms status byte s.dev).1.msgs ≡ []) (sym e) e)

  poll-idle : (n : ℕ) (s : I2cState B) → s.dev.msgs ≡ [] → (poll_notbusy hw n s).1.dev.msgs ≡ []
  unfolding poll_notbusy
  poll-idle zero s e = e
  poll-idle (suc n) s e =
      let (xs, b) = hw.interrupts s.bus in
      let s1 : I2cState B = serve hw xs (record s { bus = b }) in
      let (status, b') = hw.read_status s1.bus in
      let s2 : I2cState B = record s1 { bus = b' } in
      let kept : s2.dev.msgs ≡ [] = serve-idle xs (record s { bus = b }) e in
      if-elim (λ (r : Bool × I2cState B). r.1.dev.msgs ≡ []) _ (λ _. poll-idle n s2 kept)
        (λ _. kept)

  -- The driver has no messages, the source and the clock are off, and the return is one of four.
  abbrev pub Ends : ℕ → ℤ × I2cState B → Type 0
  Ends num (ret, s) =
      (s.dev.msgs ≡ [])
      × ((b : B) × (s.bus ≡ hw.set_clock false (hw.set_source false b)))
      × (IsReturn num ret ⊎ (ret ≡ err_timed_out) ⊎ (ret ≡ err_not_ready))

  report-Ends :
      (num : ℕ) (ret : ℤ) (s : I2cState B)
      → s.dev.msgs ≡ []
      → IsReturn num ret
      → Ends num (report hw ret s)
  report-Ends num ret s e v =
      let ret' : ℤ = if is_timed_out s.dev.timeout then err_timed_out else ret in
      let freed : I2cState B = record s { bus = (msm_i2c_recover_bus_busy hw s.bus).1 } in
      (
        if-elim (λ (s' : I2cState B). s'.dev.msgs ≡ []) (is_negative ret') {x = freed} {y = s}
            (λ _. e) (λ _. e),
        ((if is_negative ret' then freed else s).bus, refl),
        if-elim (λ (x : ℤ). IsReturn num x ⊎ (x ≡ err_timed_out) ⊎ (x ≡ err_not_ready))
            (is_timed_out s.dev.timeout) (λ _. inr (inl refl)) (λ _. inl v),
      )

  transfer-Ends :
      (msgs : List I2cMsg) (num : ℕ) (s : I2cState B) → Ends num (transfer hw msgs num s)
  unfolding msm_i2c_poll_notbusy msm_i2c_interrupt_locked
  transfer-Ends msgs num s =
      let begun : I2cState B = record s { dev = set_up hw msgs num s.dev } in
      let (status, byte) = hw.shown s.bus in
      let s1 : I2cState B = interrupt hw (status, byte) begun in
      let (free, s2) = poll_notbusy hw 200 s1 in
      let ret : ℤ = s2.dev.ret in
      let v : IsReturn num ret =
        poll-IsReturn num 200 s1 (interrupt-IsReturn num msgs status byte begun.dev (inl refl)) in
      let s3 : I2cState B = record s2 { dev = reset hw s2.dev } in
      let (freed, b) = msm_i2c_recover_bus_busy hw s3.bus in
      let s4 : I2cState B = record s3 { bus = b } in
      if-elim (Ends num) free (λ _. report-Ends num ret s3 refl v)
        λ _.
          if-elim (Ends num) freed (λ _. report-Ends num ret s4 refl v)
            (λ _. (refl, (s4.bus, refl), inl v))

-- A transfer always ends with the driver idle: without messages, so that it does nothing at a further
-- interrupt, and with its interrupt source and its clock switched off. It returns the number of the messages,
-- ERROR, ERR_TIMED_OUT or ERR_NOT_READY.
pub msm_i2c_xfer-Ends :
    {B : Type 0} (hw : I2cHw B) (msgs : List I2cMsg) (num : ℕ) (s : I2cState B)
    → s.dev.msgs ≡ []
    → Ends hw num (msm_i2c_xfer hw msgs num s)
      × ((status byte : ℕ)
          → let s' = (msm_i2c_xfer hw msgs num s).1 in
            msm_i2c_interrupt_locked status byte s'.dev ≡ ([], s'.dev))
unfolding msm_i2c_xfer msm_i2c_poll_notbusy msm_i2c_interrupt_locked
msm_i2c_xfer-Ends {B} hw msgs num s e =
    let s1 : I2cState B = record s { bus = hw.set_source true (hw.set_clock true s.bus) } in
    let (free, s2) = poll_notbusy hw 200 s1 in
    let (freed, b) = msm_i2c_recover_bus_busy hw s2.bus in
    let s3 : I2cState B = record s2 { bus = b } in
    let ends : Ends hw num (msm_i2c_xfer hw msgs num s) =
      if-elim (Ends hw num) free (λ _. transfer-Ends hw msgs num s2)
        λ _.
          if-elim (Ends hw num) freed (λ _. transfer-Ends hw msgs num s3)
            λ _. (poll-idle hw 200 s1 e, (s3.bus, refl), inr (inr refl)) in
    let s' : I2cState B = (msm_i2c_xfer hw msgs num s).1 in
    (
      ends,
      λ status byte.
          subst (λ ms. interrupt_on ms status byte s'.dev ≡ ([], s'.dev)) (sym ends.0) refl,
    )
