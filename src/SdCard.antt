-- ===== src/SdCard.antt =====
-- HtcLeoPkg/GPLDrivers/SdCardDxe/SdCardDxe.c: the card as a block device. The driver of the controller, mmc.c,
-- is the interface BlockDev; messages and their delays are left out.
pub mod Mbr
pub mod Blocks
use htc_leo_pkg.Base.{
  ℕ, zero, suc, ◌+◌, ◌-◌, ◌*◌, ◌/◌, ◌%◌, ◌^◌, Bool, true, false, not, ◌&&◌, List, [], ◌∷◌, Option,
  none, some, get_or, min, ◌==◌, if◌then◌else◌,
}

-- `block_dev_desc_t`: the number of blocks done (0 for an error), the bytes read, and the new state
pub record BlockDev (B : Type 0) : Type 0 where
  pub lba : ℕ
  pub blksz : ℕ
  pub block_read : ℕ → ℕ → B → (ℕ × List ℕ) × B
  pub block_write : ℕ → ℕ → List ℕ → B → ℕ × B

-- The fields of `gMMCHSMedia` that change
pub record Media : Type 0 where
  pub block_size : ℕ
  pub last_block : ℕ

pub data EfiStatus : Type 0 where
  success : EfiStatus
  device_error : EfiStatus
  bad_buffer_size : EfiStatus
  invalid_parameter : EfiStatus
  out_of_resources : EfiStatus
  already_started : EfiStatus

-- The media that the firmware has after `InstallMultipleProtocolInterfaces` has returned a status: an
-- error leaves nothing installed.
abbrev pub published : EfiStatus → Media → Option Media
published success media = some media
published _ media = none

-- (ulong) of a block's number
abbrev pub ulong : ℕ → ℕ
ulong n = n % 2 ^ 32

module _ {B : Type 0} (dev : BlockDev B) where
  -- With whether there is a buffer; the bytes are what is read into it.
  unfoldable pub mmchs_read_blocks : Media → ℕ → ℕ → Bool → B → (EfiStatus × List ℕ) × B
  mmchs_read_blocks media lba buffer_size buffer b =
      let (ret, b') = dev.block_read (ulong lba) (buffer_size / media.block_size) b in
      if not (buffer_size % media.block_size == 0)
      then ((bad_buffer_size, []), b)
      else if not buffer
      then ((invalid_parameter, []), b)
      else if buffer_size == 0
      then ((success, []), b)
      else if ret.0 == 0
      then ((device_error, ret.1), b')
      else ((success, ret.1), b')

  -- The bytes of the buffer, or none
  unfoldable pub mmchs_write_blocks : Media → ℕ → ℕ → Option (List ℕ) → B → EfiStatus × B
  mmchs_write_blocks media lba buffer_size none b =
      if not (buffer_size % media.block_size == 0)
      then (bad_buffer_size, b)
      else (invalid_parameter, b)
  mmchs_write_blocks media lba buffer_size (some bytes) b =
      let (ret, b') = dev.block_write (ulong lba) (buffer_size / media.block_size) bytes b in
      if not (buffer_size % media.block_size == 0)
      then (bad_buffer_size, b)
      else if buffer_size == 0
      then (success, b)
      else if ret == 0
      then (device_error, b')
      else (success, b')

  unfoldable pub is_mbr : List ℕ → Bool
  is_mbr bytes = (get_or bytes 510 0 == 0x55) && (get_or bytes 511 0 == 0xAA)

  -- The loop over the first blocks, `n` of them from `i` on: whether one has the mark
  unfoldable pub find_mbr : ℕ → ℕ → B → Bool × B
  unfolding is_mbr
  find_mbr zero i b = (false, b)
  find_mbr (suc n) i b =
      let (blk, b') = dev.block_read i 1 b in
      let later = find_mbr n (i + 1) b' in
      if not (blk.0 == 0) && is_mbr blk.1 then (true, b') else later

  -- With the level of HTCLEO_GPIO_SD_STATUS and what `InstallMultipleProtocolInterfaces` returns if it is called.
  -- `CpuDeadLoop` is `none`.
  unfoldable pub sd_card_initialize : Bool → EfiStatus → B → Option (EfiStatus × Option Media) × B
  unfolding find_mbr
  sd_card_initialize sd_status install b =
      let media : Media = record { block_size = dev.blksz; last_block = dev.lba } in
      let (found, b') = find_mbr (min dev.lba 50 + 1) 0 b in
      let inserted = if found then (some (install, published install media), b') else (none, b') in
      if sd_status then (some (device_error, none), b) else inserted
