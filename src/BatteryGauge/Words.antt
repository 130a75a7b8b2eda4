-- ===== src/BatteryGauge/Words.antt =====
-- The words that HtcLeoPkg/Library/DS2746Lib/DS2746.c makes of two bytes.
use htc_leo_pkg.Base.{
  ℕ, suc, ◌+◌, ◌-◌, ◌*◌, ◌/◌, ◌%◌, ◌<◌, ◌≤◌, ◌≡◌, refl, sym, ap, ◌∙◌, inl, inr, none, some, arith,
  ltb, ◌==◌, if◌then◌else◌, Bool-cases,
}
use htc_leo_pkg.Base.Int.{ℤ, pos, negsuc}
use htc_leo_pkg.BatteryGauge.{
  bit_or, extended, as_int, int16, shifted, times, quotient, ds2746_voltage, ds2746_current,
  ds2745_temperature, read_word,
}

bit_or_even : (w a b : ℕ) → bit_or (suc w) (2 * a) b ≡ b % 2 + 2 * bit_or w a (b / 2)
unfolding bit_or
bit_or_even w a b = let half : 2 * a / 2 ≡ a = omega arith in rw half (ground arith)

bit_or_right : (w a : ℕ) → bit_or (suc w) a 0 ≡ a % 2 + 2 * bit_or w (a / 2) 0
unfolding bit_or
bit_or_right w a = ground arith

bit_or_ones : (w a b : ℕ) → b % 2 ≡ 1 → bit_or (suc w) a b ≡ 1 + 2 * bit_or w (a / 2) (b / 2)
unfolding bit_or
bit_or_ones w a b e = ground arith

bit_or_double :
    (w a a2 b b2 : ℕ) → a2 ≡ 2 * a → b2 ≡ b / 2 → bit_or (suc w) a2 b ≡ b % 2 + 2 * bit_or w a b2
bit_or_double w a a2 b b2 ea eb = rw (ea, eb) (bit_or_even w a b)

bit_or_halve : (w a a1 : ℕ) → a1 ≡ a / 2 → bit_or (suc w) a 0 ≡ a % 2 + 2 * bit_or w a1 0
bit_or_halve w a a1 e = rw e (bit_or_right w a)

-- The low byte comes from one number where the other has a high byte only.
bit_or_high : (a b : ℕ) → bit_or 16 (a * 256) b ≡ b % 256 + 256 * bit_or 8 a (b / 256)
bit_or_high a b = omega (
  arith,
  bit_or_double 15 (a * 128) (a * 256) b (b / 2) (omega arith) (omega arith),
  bit_or_double 14 (a * 64) (a * 128) (b / 2) (b / 4) (omega arith) (omega arith),
  bit_or_double 13 (a * 32) (a * 64) (b / 4) (b / 8) (omega arith) (omega arith),
  bit_or_double 12 (a * 16) (a * 32) (b / 8) (b / 16) (omega arith) (omega arith),
  bit_or_double 11 (a * 8) (a * 16) (b / 16) (b / 32) (omega arith) (omega arith),
  bit_or_double 10 (a * 4) (a * 8) (b / 32) (b / 64) (omega arith) (omega arith),
  bit_or_double 9 (a * 2) (a * 4) (b / 64) (b / 128) (omega arith) (omega arith),
  bit_or_double 8 a (a * 2) (b / 128) (b / 256) (omega arith) (omega arith),
)

bit_or_none : (a : ℕ) → bit_or 0 a 0 ≡ 0
unfolding bit_or
bit_or_none a = refl

bit_or_zero : (a : ℕ) → a < 256 → bit_or 8 a 0 ≡ a
bit_or_zero a lt = omega (
  arith,
  bit_or_halve 7 a (a / 2) (omega arith),
  bit_or_halve 6 (a / 2) (a / 4) (omega arith),
  bit_or_halve 5 (a / 4) (a / 8) (omega arith),
  bit_or_halve 4 (a / 8) (a / 16) (omega arith),
  bit_or_halve 3 (a / 16) (a / 32) (omega arith),
  bit_or_halve 2 (a / 32) (a / 64) (omega arith),
  bit_or_halve 1 (a / 64) (a / 128) (omega arith),
  bit_or_halve 0 (a / 128) (a / 256) (omega arith),
  bit_or_none (a / 256),
)

bit_or_no_bits : (a b : ℕ) → bit_or 0 a b ≡ 0
unfolding bit_or
bit_or_no_bits a b = refl

bit_or_all : (a : ℕ) → bit_or 8 a 255 ≡ 255
bit_or_all a = omega (
  arith,
  bit_or_ones 7 a 255 refl,
  bit_or_ones 6 (a / 2) 127 refl,
  bit_or_ones 5 (a / 2 / 2) 63 refl,
  bit_or_ones 4 (a / 2 / 2 / 2) 31 refl,
  bit_or_ones 3 (a / 2 / 2 / 2 / 2) 15 refl,
  bit_or_ones 2 (a / 2 / 2 / 2 / 2 / 2) 7 refl,
  bit_or_ones 1 (a / 2 / 2 / 2 / 2 / 2 / 2) 3 refl,
  bit_or_ones 0 (a / 2 / 2 / 2 / 2 / 2 / 2 / 2) 1 refl,
  bit_or_no_bits (a / 2 / 2 / 2 / 2 / 2 / 2 / 2 / 2) 0,
)

-- A word of two bytes: a low byte with its sign bit hides the high byte.
bit_or_bytes : (a b : ℕ) → a < 256 → b < 256 → bit_or 16 (a * 256) b ≡ a * 256 + b
bit_or_bytes a b la lb =
    let none : b / 256 ≡ 0 = omega arith in
    let high : bit_or 8 a (b / 256) ≡ a = rw none (bit_or_zero a la) in
    omega (arith, bit_or_high a b, high)

bit_or_signed : (a b : ℕ) → 65280 ≤ b → b < 65536 → bit_or 16 (a * 256) b ≡ b
bit_or_signed a b le lt =
    let ones : b / 256 ≡ 255 = omega arith in
    let high : bit_or 8 a (b / 256) ≡ 255 = rw ones (bit_or_all a) in
    omega (arith, bit_or_high a b, high)

-- The word of two bytes, and its value without the last 2 bits and without the last 5
abbrev pub word_of : ℕ → ℕ → ℕ
word_of a b = if ltb b 128 then a * 256 + b else 65280 + b

abbrev pub quarters : ℕ → ℕ → ℤ
quarters a b =
    if ltb b 128
    then if ltb a 128 then pos (a * 64 + b / 4) else negsuc (16383 - (a * 64 + b / 4))
    else negsuc ((255 - b) / 4)

abbrev pub eighths : ℕ → ℕ → ℤ
eighths a b =
    if ltb b 128
    then if ltb a 128 then pos (a * 8 + b / 32) else negsuc (2047 - (a * 8 + b / 32))
    else negsuc ((255 - b) / 32)

module _ (read : ℕ → ℕ → ℕ) (addr : ℕ) (byte : (reg : ℕ) → read addr reg < 256) where
  read_word_lem :
      (msb lsb : ℕ) → read_word read addr msb lsb ≡ word_of (read addr msb) (read addr lsb)
  unfolding read_word extended
  read_word_lem msb lsb = elim (Bool-cases (ltb (read addr lsb) 128)) [
    | inl e ↦ rw e (bit_or_bytes (read addr msb) (read addr lsb) (byte msb) (byte lsb))
    | inr e ↦ rw e (
        bit_or_signed (read addr msb) (65280 + read addr lsb) (omega arith)
          (omega (arith, byte lsb)))
  ]

quarters_lem : (a b : ℕ) → a < 256 → b < 256 → shifted 2 (as_int (word_of a b)) ≡ quarters a b
unfolding shifted as_int
quarters_lem a b la lb = grind arith

eighths_lem : (a b : ℕ) → a < 256 → b < 256 → shifted 5 (as_int (word_of a b)) ≡ eighths a b
unfolding shifted as_int
eighths_lem a b la lb = grind arith

module _ (read : ℕ → ℕ → ℕ) (addr : ℕ) (byte : (reg : ℕ) → read addr reg < 256) where
  current_lem :
      (r : ℕ)
      → ds2746_current read addr r ≡ (
          if r == 0
          then none
          else some (int16 (quotient (times (quarters (read addr 0x0e) (read addr 0x0f)) 645) r)))
  unfolding ds2746_current
  current_lem r =
      ap (λ v. if r == 0 then none else some (int16 (quotient (times v 645) r)))
        (ap (λ w. shifted 2 (as_int w)) (read_word_lem read addr byte 0x0e 0x0f)
          ∙ quarters_lem (read addr 0x0e) (read addr 0x0f) (byte 0x0e) (byte 0x0f))

  temperature_lem :
      ds2745_temperature read addr ≡ int16 (times (eighths (read addr 0x0a) (read addr 0x0b)) 125)
  unfolding ds2745_temperature
  temperature_lem =
      ap (λ v. int16 (times v 125))
        (ap (λ w. shifted 5 (as_int w)) (read_word_lem read addr byte 0x0a 0x0b)
          ∙ eighths_lem (read addr 0x0a) (read addr 0x0b) (byte 0x0a) (byte 0x0b))

  voltage_lem : ds2746_voltage read addr ≡ (read addr 0x0c * 16 + read addr 0x0d / 16) * 2440 / 1000
  unfolding ds2746_voltage
  voltage_lem =
      let value : read addr 0x0c * 256 + read addr 0x0d
          ≡ bit_or 16 (read addr 0x0c * 256) (read addr 0x0d) =
        sym (bit_or_bytes (read addr 0x0c) (read addr 0x0d) (byte 0x0c) (byte 0x0d)) in
      omega (arith, value)

  -- Where each reading is a byte: the voltage is that of the upper 12 bits of its two bytes. The current is
  -- that of the signed word of its two bytes without the last 2 bits, and the temperature that of its word without the
  -- last 5, where the low byte has its top bit clear; where that bit is set, the high byte does not count. A resistance of 0 divides
  -- by zero. The current and the temperature are cut to 16 bits.
  pub readings_lem :
      (r : ℕ)
      → (ds2746_voltage read addr ≡ (read addr 0x0c * 16 + read addr 0x0d / 16) * 2440 / 1000)
        × (ds2746_current read addr r ≡ (
            if r == 0
            then none
            else some
                (int16 (quotient (times (quarters (read addr 0x0e) (read addr 0x0f)) 645) r))))
        × (ds2745_temperature read addr
            ≡ int16 (times (eighths (read addr 0x0a) (read addr 0x0b)) 125))
  readings_lem r = (voltage_lem, current_lem r, temperature_lem)
