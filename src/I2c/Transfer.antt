-- ===== src/I2c/Transfer.antt =====
-- The transfers of HtcLeoPkg/GPLDrivers/I2CDxe/I2CDxe.c: waiting for the bus, freeing it, and starting and ending
-- a transfer. The hardware, with the interrupts that come while the driver waits, is the interface I2cHw;
-- delays are left out.
pub mod Idle
use htc_leo_pkg.Base.{
  ℕ, zero, suc, ◌+◌, ◌-◌, ◌*◌, ◌/◌, ◌%◌, ◌^◌, Bool, true, false, not, ◌&&◌, ◌||◌, List, [], ◌∷◌,
  Option, none, some, length, ltb, ◌==◌, if◌then◌else◌,
}
use htc_leo_pkg.Base.Int.{ℤ, pos, negsuc}
use htc_leo_pkg.MicroP.{I2cMsg, write_msg, read_msg, attempts}
use htc_leo_pkg.Pcom.{Modem, Pc}
use htc_leo_pkg.Pcom.Clients.{PinConfig, config_all}
use htc_leo_pkg.I2c.{
  I2cDev, I2cEvent, write_data, store, discard, err_not_ready, err_timed_out, len_of, wr_full,
  rd_full, bus_active, bus_master, last_byte, msm_i2c_interrupt_locked,
}

-- The registers of the controller, the two pins (true for the clock's), what they are switched to, the clock and
-- the interrupt source. `shown` is the status and the byte at an interrupt, `interrupts` those that come before
-- the next reading of a poll.
pub record I2cHw (B : Type 0) : Type 0 where
  pub read_status : B → ℕ × B
  pub shown : B → ℕ × ℕ
  pub interrupts : B → List (ℕ × ℕ) × B
  pub event : I2cEvent → B → B
  pub get : Bool → B → Bool × B
  pub set_low : Bool → B → B
  pub set_input : Bool → B → B
  pub set_mux : Bool → B → B
  pub write_clk_ctl : ℕ → B → B
  pub set_clock : Bool → B → B
  pub set_source : Bool → B → B
  pub register_handler : B → B

-- `dev` and the hardware
pub record I2cState (B : Type 0) : Type 0 where
  pub dev : I2cDev
  pub bus : B

-- `timeout == ERR_TIMED_OUT`, and a negative return
abbrev pub is_timed_out : ℤ → Bool
is_timed_out (pos n) = false
is_timed_out (negsuc n) = n == 12

abbrev pub is_negative : ℤ → Bool
is_negative (pos n) = false
is_negative (negsuc n) = true

abbrev pub is_count : ℕ → ℤ → Bool
is_count n (pos k) = k == n
is_count n (negsuc k) = false

abbrev pub first_len : List I2cMsg → ℕ
first_len [] = 0
first_len (m ∷ ms) = len_of m

module _ {B : Type 0} (hw : I2cHw B) where
  abbrev pub events : List I2cEvent → B → B
  events [] b = b
  events (e ∷ es) b = events es (hw.event e b)

  -- One interrupt with the status and the byte that are shown
  abbrev pub interrupt : ℕ × ℕ → I2cState B → I2cState B
  interrupt (status, byte) s =
      let (es, d) = msm_i2c_interrupt_locked status byte s.dev in
      record { dev = d; bus = events es s.bus }

  abbrev pub serve : List (ℕ × ℕ) → I2cState B → I2cState B
  serve [] s = s
  serve (x ∷ xs) s = serve xs (interrupt x s)

  -- The loop of `msm_i2c_poll_notbusy` with the readings left; true for its return of 0
  unfoldable pub poll_notbusy : ℕ → I2cState B → Bool × I2cState B
  poll_notbusy zero s = (false, s)
  poll_notbusy (suc n) s =
      let (xs, b) = hw.interrupts s.bus in
      let s1 = serve xs (record s { bus = b }) in
      let (status, b') = hw.read_status s1.bus in
      let s2 : I2cState B = record s1 { bus = b' } in
      let later = poll_notbusy n s2 in if bus_active status then later else (true, s2)

  unfoldable pub msm_i2c_poll_notbusy : I2cState B → Bool × I2cState B
  unfolding poll_notbusy
  msm_i2c_poll_notbusy s = poll_notbusy 200 s

  -- A round of the loop that drives the clock's pin; the three readings of it at its end
  abbrev pub pulse : B → Bool × B
  pulse b =
      let b1 = hw.set_input true (hw.set_low false (hw.set_low true b)) in
      let (_, b2) = hw.get true b1 in
      let (_, b3) = hw.get true b2 in let (clk, b4) = hw.get true b3 in (clk, hw.set_input false b4)

  unfoldable pub pulses : ℕ → Bool → B → B
  pulses zero clk b = b
  pulses (suc n) clk b =
      let (sda, b1) = hw.get false b in
      let (clk', b2) = pulse b1 in let later = pulses n clk' b2 in if sda && clk then b1 else later

  -- What is written before the pins are driven
  abbrev pub release : ℕ → B → B
  release status b =
      if rd_full status
      then hw.event discard (hw.event (write_data last_byte) b)
      else if bus_master status
      then hw.event (write_data (2 ^ 9 + 0xff)) b
      else b

  -- True for the return of 0, else it is ERR_NOT_READY
  unfoldable pub msm_i2c_recover_bus_busy : B → Bool × B
  unfolding pulses
  msm_i2c_recover_bus_busy b =
      let (status, b1) = hw.read_status b in
      let b2 = hw.set_mux true (pulses 9 false (release status (hw.set_mux false b1))) in
      let (status', b3) = hw.read_status b2 in
      let tried : Bool × B = (not (bus_active status'), b3) in
      if bus_active status || wr_full status then tried else (true, b1)

  -- `dev` before and after a transfer
  abbrev pub set_up : List I2cMsg → ℕ → I2cDev → I2cDev
  set_up msgs num d = record d {
    msgs = msgs;
    rem = num;
    at = negsuc 0;
    ret = pos num;
    need_flush = false;
    flush_cnt = 0;
    cnt = first_len msgs;
  }

  abbrev pub reset : I2cDev → I2cDev
  reset d = record d { msgs = []; rem = 0; at = pos 0; ret = pos 0; flush_cnt = 0; cnt = 0 }

  -- The label `err`
  abbrev pub leave : ℤ → I2cState B → ℤ × I2cState B
  leave ret s = (ret, record s { bus = hw.set_clock false (hw.set_source false s.bus) })

  -- The end of a transfer, once the bus is free or has been freed
  abbrev pub report : ℤ → I2cState B → ℤ × I2cState B
  report ret s =
      let ret' = if is_timed_out s.dev.timeout then err_timed_out else ret in
      let freed : I2cState B = record s { bus = (msm_i2c_recover_bus_busy s.bus).1 } in
      leave ret' (if is_negative ret' then freed else s)

  -- The transfer itself; a bus that stays busy afterwards leaves `dev.ret` as the return.
  abbrev pub transfer : List I2cMsg → ℕ → I2cState B → ℤ × I2cState B
  transfer msgs num s =
      let s1 = interrupt (hw.shown s.bus) (record s { dev = set_up msgs num s.dev }) in
      let (free, s2) = msm_i2c_poll_notbusy s1 in
      let ret = s2.dev.ret in
      let s3 : I2cState B = record s2 { dev = reset s2.dev } in
      let (freed, b) = msm_i2c_recover_bus_busy s3.bus in
      let s4 : I2cState B = record s3 { bus = b } in
      if free then report ret s3 else if freed then report ret s4 else leave ret s4

  unfoldable pub msm_i2c_xfer : List I2cMsg → ℕ → I2cState B → ℤ × I2cState B
  unfolding msm_i2c_recover_bus_busy msm_i2c_poll_notbusy
  msm_i2c_xfer msgs num s =
      let s1 : I2cState B = record s { bus = hw.set_source true (hw.set_clock true s.bus) } in
      let (free, s2) = msm_i2c_poll_notbusy s1 in
      let (freed, b) = msm_i2c_recover_bus_busy s2.bus in
      let s3 : I2cState B = record s2 { bus = b } in
      if free
      then transfer msgs num s2
      else if freed
      then transfer msgs num s3
      else leave err_not_ready s3

  -- The loops of `msm_i2c_write` and `msm_i2c_read`; true for their return of 0
  unfoldable pub retry_xfer : ℕ → List I2cMsg → ℕ → I2cState B → Bool × I2cState B
  retry_xfer zero msgs num s = (false, s)
  retry_xfer (suc n) msgs num s =
      let (ret, s') = msm_i2c_xfer msgs num s in
      let later = retry_xfer n msgs num s' in if is_count num ret then (true, s') else later

  unfoldable pub msm_i2c_write : Bool → ℕ → List ℕ → I2cState B → Bool × I2cState B
  unfolding retry_xfer
  msm_i2c_write installed chip bytes s =
      let sent = retry_xfer attempts (write_msg chip bytes ∷ []) 1 s in
      if installed then sent else (false, s)

  unfoldable pub msm_i2c_read : Bool → ℕ → ℕ → ℕ → I2cState B → Bool × I2cState B
  unfolding retry_xfer
  msm_i2c_read installed chip reg count s =
      let got = retry_xfer attempts (write_msg chip (reg ∷ []) ∷ read_msg chip count ∷ []) 2 s in
      if installed then got else (false, s)

  -- The divider of the bus clock in `msm_i2c_probe`, for a clock of the platform data
  unfoldable pub clk_ctl : ℕ → ℕ
  clk_ctl i2c_clock =
      let target =
        if i2c_clock == 0
        then 100000
        else if ltb i2c_clock 100000 || ltb 400000 i2c_clock
        then 100000
        else i2c_clock in
      3 * 2 ^ 8 + (19200000 / target / 2 - 3) % 2 ^ 8

  -- With whether a driver is installed and the platform data has `set_mux_to_i2c`; true for the return of 0
  unfoldable pub msm_i2c_probe : Bool → Bool → ℕ → B → Bool × B
  unfolding clk_ctl
  msm_i2c_probe installed has_mux i2c_clock b =
      let b1 = hw.set_clock true (hw.set_mux false (hw.set_source false b)) in
      let b2 = hw.set_clock false (hw.write_clk_ctl (clk_ctl i2c_clock) b1) in
      if installed
      then (false, b)
      else if has_mux
      then (true, hw.register_handler b2)
      else (false, b)

  unfoldable pub msm_i2c_remove : Bool → B → B
  msm_i2c_remove installed b =
      if installed then hw.set_mux false (hw.set_clock false (hw.set_source false b)) else b

-- The pins of the bus: outputs with 8 mA for the controller, and else inputs with 2 mA
unfoldable pub mux_pins : Bool → List PinConfig
mux_pins mux_to_i2c =
    let pin : ℕ → PinConfig = λ gpio.
      if mux_to_i2c
      then record { gpio = gpio; func = 0; dir = 1; pull = 0; drvstr = 3 }
      else record { gpio = gpio; func = 1; dir = 0; pull = 0; drvstr = 0 } in
    pin 95 ∷ pin 96 ∷ []

unfoldable pub msm_set_i2c_mux : {M : Type 0} → Modem M → ℕ → Bool → Pc M (Unit {0})
unfolding config_all mux_pins
msm_set_i2c_mux md fuel mux_to_i2c = config_all md fuel (mux_pins mux_to_i2c)
