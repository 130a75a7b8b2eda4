-- ===== src/I2c.antt =====
-- HtcLeoPkg/GPLDrivers/I2CDxe/I2CDxe.c: the I2C controller's driver. Here is its interrupt handler, which moves
-- one byte each time; what it does to the controller and to the caller's buffer is a list of events.
-- The messages are those of MicroP.
pub mod Transfer
pub mod Sound
pub mod Writes
pub mod Reads
use Prim.Native.Nat.{bit_or}
use htc_leo_pkg.Base.{
  ℕ, zero, suc, ◌+◌, ◌-◌, ◌*◌, ◌/◌, ◌%◌, ◌^◌, Bool, true, false, not, ◌&&◌, ◌||◌, List, [], ◌∷◌,
  ◌++◌, length, get_or, ltb, ◌==◌, if◌then◌else◌,
}
use htc_leo_pkg.Base.Int.{ℤ, pos, negsuc}
use htc_leo_pkg.MicroP.{I2cMsg, write_msg, read_msg}

-- `struct msm_i2c_dev` and `timeout`: `msgs` are the messages from the current one on, and none for a null
-- pointer.
pub record I2cDev : Type 0 where
  pub msgs : List I2cMsg
  pub rem : ℕ
  pub at : ℤ
  pub cnt : ℕ
  pub ret : ℤ
  pub need_flush : Bool
  pub flush_cnt : ℕ
  pub timeout : ℤ

-- A write to I2C_WRITE_DATA, a byte of I2C_READ_DATA stored at a place of the buffer, or one dropped
pub data I2cEvent : Type 0 where
  write_data : ℕ → I2cEvent
  store : ℕ → ℕ → I2cEvent
  discard : I2cEvent

abbrev pub error : ℤ
error = negsuc 0

abbrev pub err_not_ready : ℤ
err_not_ready = negsuc 2

abbrev pub err_timed_out : ℤ
err_timed_out = negsuc 12

abbrev pub is_read : I2cMsg → Bool
is_read (write_msg addr bytes) = false
is_read (read_msg addr len) = true

abbrev pub len_of : I2cMsg → ℕ
len_of (write_msg addr bytes) = length bytes
len_of (read_msg addr len) = len

abbrev pub addr_of : I2cMsg → ℕ
addr_of (write_msg addr bytes) = addr
addr_of (read_msg addr len) = addr

-- `buf[i]` of a message to write
abbrev pub byte_at : I2cMsg → ℕ → ℕ
byte_at (write_msg addr bytes) i = get_or bytes i 0
byte_at (read_msg addr len) i = 0

-- The bits of the status: I2C_STATUS_WR_BUFFER_FULL, I2C_STATUS_RD_BUFFER_FULL, I2C_STATUS_ERROR_MASK,
-- I2C_STATUS_BUS_ACTIVE and I2C_STATUS_BUS_MASTER
abbrev pub wr_full : ℕ → Bool
wr_full status = status % 2 == 1

abbrev pub rd_full : ℕ → Bool
rd_full status = status / 2 % 2 == 1

abbrev pub has_error : ℕ → Bool
has_error status = not (status / 4 % 64 == 0)

abbrev pub bus_active : ℕ → Bool
bus_active status = status / 2 ^ 8 % 2 == 1

abbrev pub bus_master : ℕ → Bool
bus_master status = status / 2 ^ 9 % 2 == 1

-- I2C_WRITE_DATA_LAST_BYTE
abbrev pub last_byte : ℕ
last_byte = 2 ^ 9

abbrev pub marked_last : Bool → ℕ → ℕ
marked_last last val = if last then bit_or val last_byte else val

-- The word that starts a message
abbrev pub addr_word : I2cMsg → Bool → ℕ
addr_word m last =
    let val = bit_or (2 ^ 8) (addr_of m * 2) % 2 ^ 16 in
    marked_last last (if is_read m then bit_or val 1 else val)

-- `dev.pos++`
abbrev pub next : ℤ → ℤ
next (pos p) = pos (p + 1)
next (negsuc zero) = pos 0
next (negsuc (suc k)) = negsuc k

abbrev pub start_message : I2cMsg → I2cDev → (Bool × List I2cEvent) × I2cDev
start_message m d = (
  (true, write_data (addr_word m ((d.rem == 1) && (len_of m == 0))) ∷ []),
  record d { at = next d.at },
)

abbrev pub send_byte : I2cMsg → ℕ → I2cDev → (Bool × List I2cEvent) × I2cDev
send_byte m p d = (
  (true, write_data (marked_last ((d.cnt == 1) && (d.rem == 1)) (byte_at m p)) ∷ []),
  record d { at = pos (p + 1); cnt = d.cnt - 1 },
)

abbrev pub fill_at : ℤ → I2cMsg → I2cDev → (Bool × List I2cEvent) × I2cDev
fill_at (negsuc k) m d = start_message m d
fill_at (pos p) m d =
    if is_read m then ((false, []), d) else if d.cnt == 0 then ((false, []), d) else send_byte m p d

unfoldable pub msm_i2c_fill_write_buffer : I2cMsg → I2cDev → (Bool × List I2cEvent) × I2cDev
msm_i2c_fill_write_buffer m d = fill_at d.at m d

-- The write of a stop request, if it is due
abbrev pub stop_if : Bool → List I2cEvent
stop_if due = if due then write_data last_byte ∷ [] else []

-- The switch on `dev.cnt` when a byte is expected at `p`
abbrev pub take_byte : ℕ → ℕ → I2cDev → List I2cEvent × I2cDev
take_byte byte p d =
    let only = (d.cnt == 1) && (p == 0) in
    (
      stop_if (only || (d.cnt == 2)) ++ store p byte ∷ [],
      record d { need_flush = only || d.need_flush; cnt = d.cnt - 1; at = pos (p + 1) },
    )

abbrev pub flush : I2cDev → List I2cEvent × I2cDev
flush d = (
  stop_if (d.flush_cnt % 2 == 1) ++ discard ∷ [],
  record d {
    need_flush = false;
    flush_cnt = if d.need_flush then d.flush_cnt else d.flush_cnt + 1;
  },
)

abbrev read_at : ℤ → ℕ → I2cMsg → I2cDev → List I2cEvent × I2cDev
read_at (negsuc k) byte m d = flush d
read_at (pos p) byte m d = if is_read m && not (d.cnt == 0) then take_byte byte p d else flush d

unfoldable pub msm_i2c_read_buffer : ℕ → I2cMsg → I2cDev → List I2cEvent × I2cDev
msm_i2c_read_buffer byte m d = read_at d.at byte m d

-- `dev.msg++`
abbrev pub next_message : List I2cMsg → I2cDev → I2cDev
next_message [] d = record d { msgs = []; rem = d.rem - 1; at = negsuc 0; cnt = 0 }
next_message (m ∷ later) d = record d {
  msgs = m ∷ later;
  rem = d.rem - 1;
  at = negsuc 0;
  cnt = len_of m;
}

abbrev pub finish_at : ℤ → List I2cMsg → Bool → I2cDev → I2cDev
finish_at (negsuc k) later not_done d = d
finish_at (pos p) later not_done d =
    if d.cnt == 0
    then (if ltb 1 d.rem
        then next_message later d
        else if not not_done && not d.need_flush
        then record d { timeout = pos 0 }
        else d)
    else d

-- The handler without an error, for the current message and those after it
unfoldable pub move_byte : ℕ → ℕ → I2cMsg → List I2cMsg → I2cDev → List I2cEvent × I2cDev
unfolding msm_i2c_fill_write_buffer msm_i2c_read_buffer
move_byte status byte m later d =
    let w : (Bool × List I2cEvent) × I2cDev =
      if wr_full status then ((true, []), d) else msm_i2c_fill_write_buffer m d in
    let r : List I2cEvent × I2cDev =
      if rd_full status then msm_i2c_read_buffer byte m (w.1) else ([], w.1) in
    ((w.0).1 ++ r.0, finish_at (r.1).at later ((w.0).0) (r.1))

abbrev interrupt_on : List I2cMsg → ℕ → ℕ → I2cDev → List I2cEvent × I2cDev
interrupt_on [] status byte d = ([], d)
interrupt_on (m ∷ later) status byte d =
    if has_error status
    then ([], record d { ret = error; timeout = err_timed_out })
    else move_byte status byte m later d

-- With the status and the byte that the controller shows
unfoldable pub msm_i2c_interrupt_locked : ℕ → ℕ → I2cDev → List I2cEvent × I2cDev
unfolding move_byte
msm_i2c_interrupt_locked status byte d = interrupt_on d.msgs status byte d
