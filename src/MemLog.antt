-- ===== src/MemLog.antt =====
-- HtcLeoPkg/Library/InMemorySerialPortLib/InMemorySerialPortLib.c: the log that survives a restart, a ring of
-- `size` bytes (PcdPstoreSize). The flush of the cache is left out.
pub mod Recent
use htc_leo_pkg.Base.{ℕ, ◌+◌, List, [], ◌∷◌, length, leb, if◌then◌else◌}
use htc_leo_pkg.Base.Memory.{Memory, write}

-- The bytes from `base` on, and `offset`
pub record MemLog : Type 0 where
  pub base : Memory
  pub offset : ℕ

-- `mem_putchar`
unfoldable pub mem_putchar : ℕ → ℕ → MemLog → MemLog
mem_putchar size c l = record {
  base = write l.base l.offset c;
  offset = if leb size (l.offset + 1) then 0 else l.offset + 1;
}

-- `SerialPortWrite`: the log, and the number of bytes.
unfoldable pub put_chars : ℕ → List ℕ → MemLog → MemLog
unfolding mem_putchar
put_chars size [] l = l
put_chars size (c ∷ cs) l = put_chars size cs (mem_putchar size c l)

unfoldable pub serial_port_write : ℕ → List ℕ → MemLog → ℕ × MemLog
unfolding put_chars
serial_port_write size cs l = (length cs, put_chars size cs l)
