-- ===== src/MicroP.antt =====
-- HtcLeoPkg/Drivers/MicroPDxe/MicroPDxe.c: the micro-processor behind the I2C bus, which drives the light. The
-- bus is an interface: a transfer of messages in a state of the bus gives the number of messages
-- done, the bytes read and the new state. The delay between two attempts is left out.
pub mod Attempts
use htc_leo_pkg.Base.{
  ℕ, zero, suc, ◌+◌, ◌*◌, ◌/◌, ◌%◌, Bool, true, false, List, [], ◌∷◌, Option, none, some, length,
  get_or, leb, ◌==◌, if◌then◌else◌,
}

-- `struct i2c_msg`: a message to read has a length, a message to write its bytes.
pub data I2cMsg : Type 0 where
  write_msg : ℕ → List ℕ → I2cMsg
  read_msg : ℕ → ℕ → I2cMsg

-- `Xfer` of the I2C protocol
pub record I2cProtocol (B : Type 0) : Type 0 where
  pub xfer : List I2cMsg → B → (ℕ × List ℕ) × B

-- `pdata` (the address of the chip, once it is set), `msm_microp_i2c_status`, and the bus
pub record MicroP (B : Type 0) : Type 0 where
  pub chip : Option ℕ
  pub status : ℕ
  pub bus : B

-- MSM_I2C_READ_RETRY_TIMES and MSM_I2C_WRITE_RETRY_TIMES, and the first attempt
abbrev pub attempts : ℕ
attempts = 17

abbrev pub microp_i2c_addr : ℕ
microp_i2c_addr = 0x66

abbrev pub write_block_size : ℕ
write_block_size = 21

module _ {B : Type 0} (i2c : I2cProtocol B) where
  -- The loops of `microp_i2c_read` and `microp_i2c_write`: attempts until `wanted` messages are done; the
  -- bytes read, or `none` after the last attempt.
  unfoldable pub try_xfer : ℕ → List I2cMsg → ℕ → B → Option (List ℕ) × B
  try_xfer zero msgs wanted b = (none, b)
  try_xfer (suc n) msgs wanted b =
      let (r, b') = i2c.xfer msgs b in
      let later = try_xfer n msgs wanted b' in if r.0 == wanted then (some r.1, b') else later

  -- `microp_i2c_read`; `none` is its return of -1.
  unfoldable pub microp_i2c_read : ℕ → ℕ → MicroP B → Option (List ℕ) × MicroP B
  unfolding try_xfer
  microp_i2c_read addr len p = elim p.chip [
    | none ↦ (none, p)
    | some c ↦
        let (r, b) = try_xfer attempts (write_msg c (addr ∷ []) ∷ read_msg c len ∷ []) 2 p.bus in
        (r, record p { bus = b })
  ]

  -- The return of `microp_i2c_write` after its loop
  abbrev pub write_answer : MicroP B → Option (List ℕ) × B → Bool × MicroP B
  write_answer p (none, b) = (false, record p { bus = b })
  write_answer p (some bytes, b) = (true, record p { bus = b })

  -- `microp_i2c_write`; `false` is its return of -1.
  unfoldable pub microp_i2c_write : ℕ → List ℕ → MicroP B → Bool × MicroP B
  microp_i2c_write addr cmd p = elim p.chip [
    | none ↦ (false, p)
    | some c ↦
        let sent = write_answer p (try_xfer attempts (write_msg c (addr ∷ cmd) ∷ []) 1 p.bus) in
        if leb write_block_size (length cmd) then (false, p) else sent
  ]

  -- Two bytes as a word, the high byte first
  abbrev pub word_of : List ℕ → ℕ
  word_of bytes = get_or bytes 0 0 * 256 + get_or bytes 1 0

  abbrev pub bytes_of : ℕ → List ℕ
  bytes_of mask = mask / 256 % 256 ∷ mask % 256 ∷ []

  abbrev pub read_word : ℕ → MicroP B → Option ℕ × MicroP B
  read_word addr p =
      let (r, p') = microp_i2c_read addr 2 p in
      (elim r [ none ↦ none | some bytes ↦ some (word_of bytes) ], p')

  -- `microp_read_adc`
  unfoldable pub microp_read_adc : MicroP B → Option ℕ × MicroP B
  unfolding microp_i2c_read microp_i2c_write
  microp_read_adc p =
      let (sent, p') = microp_i2c_write 0x60 (0 ∷ 1 ∷ []) p in
      let answer = read_word 0x62 p' in if sent then answer else (none, p')

  -- `microp_read_gpi_status`, `microp_interrupt_get_status` and `microp_read_gpo_status`
  unfoldable pub microp_read_gpi_status : MicroP B → Option ℕ × MicroP B
  unfolding microp_i2c_read
  microp_read_gpi_status p = read_word 0x83 p

  unfoldable pub microp_interrupt_get_status : MicroP B → Option ℕ × MicroP B
  unfolding microp_i2c_read
  microp_interrupt_get_status p = read_word 0x82 p

  unfoldable pub microp_read_gpo_status : MicroP B → Option ℕ × MicroP B
  unfolding microp_i2c_read
  microp_read_gpo_status p = read_word 0x83 p

  -- `microp_interrupt_enable`, `microp_interrupt_disable`, `microp_gpo_enable` and `microp_gpo_disable`
  unfoldable pub microp_interrupt_enable : ℕ → MicroP B → Bool × MicroP B
  unfolding microp_i2c_write
  microp_interrupt_enable mask p = microp_i2c_write 0x80 (bytes_of mask) p

  unfoldable pub microp_interrupt_disable : ℕ → MicroP B → Bool × MicroP B
  unfolding microp_i2c_write
  microp_interrupt_disable mask p = microp_i2c_write 0x81 (bytes_of mask) p

  unfoldable pub microp_gpo_enable : ℕ → MicroP B → Bool × MicroP B
  unfolding microp_i2c_write
  microp_gpo_enable mask p = microp_i2c_write 0x90 (bytes_of mask) p

  unfoldable pub microp_gpo_disable : ℕ → MicroP B → Bool × MicroP B
  unfolding microp_i2c_write
  microp_gpo_disable mask p = microp_i2c_write 0x91 (bytes_of mask) p

  -- `microp_i2c_probe`, with the bytes or a null pointer
  unfoldable pub microp_i2c_probe : Option ℕ → MicroP B → MicroP B
  unfolding microp_i2c_read
  microp_i2c_probe none p = p
  microp_i2c_probe (some c) p = elim p.chip [
    | some old ↦ p
    | none ↦
        let (r, p') = microp_i2c_read 0x30 2 (record p { chip = some c }) in
        elim r [ none ↦ record p' { status = 0 } | some bytes ↦ record p' { status = 1 } ]
  ]

  -- `htcleo_led_set_mode`
  unfoldable pub htcleo_led_set_mode : ℕ → MicroP B → MicroP B
  unfolding microp_i2c_write
  htcleo_led_set_mode mode p =
      let m = if mode == 1 then 1 else if mode == 2 then 2 else 0 in
      (microp_i2c_write 0x51 (0 ∷ m ∷ []) p).1
