-- ===== src/BatteryGauge.antt =====
-- HtcLeoPkg/Library/DS2746Lib/DS2746.c: the gauge of the battery. What the byte of a register is after the call of
-- gI2C->Read, whose status the code does not look at, is the argument `read`. Words of 16 bits are kept without sign.
pub mod Words
use htc_leo_pkg.Base.{
  ℕ, zero, suc, ◌+◌, ◌-◌, ◌*◌, ◌/◌, ◌%◌, ◌^◌, Bool, true, false, ◌&&◌, Option, none, some, ltb,
  ◌==◌, if◌then◌else◌,
}
use htc_leo_pkg.Base.Int.{ℤ, pos, negsuc}

-- Bitwise or, of `w` bits
unfoldable pub bit_or : ℕ → ℕ → ℕ → ℕ
bit_or zero a b = 0
bit_or (suc w) a b = (if (a % 2 == 0) && (b % 2 == 0) then 0 else 1) + 2 * bit_or w (a / 2) (b / 2)

-- An `int8_t` in 16 bits
unfoldable pub extended : ℕ → ℕ
extended s = if ltb s 128 then s else 2 ^ 16 - 2 ^ 8 + s

-- An `int16_t` as an `int`, and an `int` cut to an `int16_t`
unfoldable pub as_int : ℕ → ℤ
as_int v = if ltb v 32768 then pos v else negsuc (65535 - v)

unfoldable pub as_word : ℤ → ℕ
as_word (pos n) = n % 2 ^ 16
as_word (negsuc n) = 65535 - n % 2 ^ 16

unfoldable pub int16 : ℤ → ℤ
unfolding as_int as_word
int16 v = as_int (as_word v)

-- `>>` on an `int`, by a power of two
unfoldable pub shifted : ℕ → ℤ → ℤ
shifted zero v = v
shifted (suc k) (pos n) = shifted k (pos (n / 2))
shifted (suc k) (negsuc n) = shifted k (negsuc (n / 2))

-- The product with a positive number, and the quotient, which is cut toward zero
unfoldable pub times : ℤ → ℕ → ℤ
times (pos n) m = pos (n * m)
times (negsuc n) m = negsuc (suc n * m - 1)

unfoldable pub quotient : ℤ → ℕ → ℤ
quotient (pos n) m = pos (n / m)
quotient (negsuc n) m = let q = suc n / m in if q == 0 then pos 0 else negsuc (q - 1)

module _ (read : ℕ → ℕ → ℕ) where
  unfoldable pub ds2746_voltage : ℕ → ℕ
  ds2746_voltage addr =
      let vol = bit_or 16 (read addr 0x0c * 256) (read addr 0x0d) in vol / 16 * 2440 / 1000

  -- `cur` and `temp` before they are scaled: the byte at `msb` and the one at `lsb`, both with sign
  unfoldable pub read_word : ℕ → ℕ → ℕ → ℕ
  read_word addr msb lsb = bit_or 16 (read addr msb * 256) (extended (read addr lsb))

  -- `none` is a division by zero.
  unfoldable pub ds2746_current : ℕ → ℕ → Option ℤ
  ds2746_current addr resistance =
      let cur = as_int (read_word addr 0x0e 0x0f) in
      if resistance == 0
      then none
      else some (int16 (quotient (times (shifted 2 cur) 645) resistance))

  unfoldable pub ds2745_temperature : ℕ → ℤ
  ds2745_temperature addr =
      let temp = as_int (read_word addr 0x0a 0x0b) in int16 (times (shifted 5 temp) 125)
