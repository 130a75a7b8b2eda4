-- ===== src/Tests/Boot.antt =====
-- The reserved regions at concrete blocks, and the gauge of the battery at a concrete reading.
use htc_leo_pkg.Base.{
  ℕ, ◌+◌, ◌*◌, ◌/◌, ◌<◌, ◌==◌, if◌then◌else◌, ◌≡◌, refl, List, [], ◌∷◌, ◌++◌, some, arith,
}
use htc_leo_pkg.BatteryGauge.{
  ds2746_voltage, ds2746_current, ds2745_temperature, int16, quotient, times,
}
use htc_leo_pkg.BatteryGauge.Words.{quarters, eighths, readings_lem}
use htc_leo_pkg.MemoryMap.{
  Pcds, Region, Hob, memory_reserved, resource_hobs, reserved_memory_buffer, system_hob,
}
use htc_leo_pkg.MemoryMap.Carving.{Carves, resource_hobs-Carves, carve-stays}

-- A board with its memory from 0 on, and a reserved block that is there before
abbrev pcds : Pcds
pcds = record {
  memory_base = 0;
  memory_size = 0x20000000;
  fb_address = 0x02A00000;
  fb_width = 480;
  fb_height = 800;
  fb_bpp = 32;
  fd_base = 0x2C000000;
  fd_size = 0x00100000;
}

abbrev flash : Hob
flash = record { resource = memory_reserved; attribute = 1; start = 0x2C000000; len = 0x00100000 }

resource_hobs_example :
    (q : List Region × List Hob) × (resource_hobs pcds 7 13 (flash ∷ []) ≡ some q)
    × Carves (reserved_memory_buffer pcds) ((flash ∷ []) ++ system_hob pcds 7 ∷ []) q
resource_hobs_example =
    resource_hobs-Carves pcds 7 13 (flash ∷ []) (omega arith) (omega arith) (omega arith, tt)
      (omega arith)

abbrev shipped : Pcds
shipped = record pcds { memory_base = 0x11800000; memory_size = 0x1E800000 }

-- With the constants of HtcLeoPkg/HtcLeoPkg.dsc no region is reserved.
shipped_regions :
    resource_hobs shipped 7 13 [] ≡ some (reserved_memory_buffer shipped, system_hob shipped 7 ∷ [])
unfolding resource_hobs
shipped_regions =
    carve-stays 13 (record { offset = 0; size = 0x00100000 }) _ [] (system_hob shipped 7 ∷ [])
      (refl, tt) (omega arith)

-- The bytes of a word of 0x0180, whose low byte has its top bit set
abbrev shown : ℕ → ℕ → ℕ
shown addr reg = if reg == 0x0f then 0x80 else 1

shown-byte : (reg : ℕ) → shown 0x26 reg < 256
shown-byte reg = ground arith

readings_example :
    (ds2746_voltage shown 0x26 ≡ (1 * 16 + 1 / 16) * 2440 / 1000)
    × (ds2746_current shown 0x26 1200 ≡ some (int16 (quotient (times (quarters 1 0x80) 645) 1200)))
    × (ds2745_temperature shown 0x26 ≡ int16 (times (eighths 1 1) 125))
readings_example = readings_lem shown 0x26 shown-byte 1200
