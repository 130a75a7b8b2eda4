-- ===== src/Smem.antt =====
-- HtcLeoPkg/Drivers/SmemDxe/smem.c: entries of the memory shared with the modem. `readl` is the word
-- that a register or the shared memory has at an address, and does not change during a call;
-- `base` is PcdMsmSharedBase. A length is not negative.
pub mod Read
use htc_leo_pkg.Base.{
  ℕ, zero, suc, ◌+◌, ◌*◌, ◌/◌, ◌%◌, ◌^◌, Bool, not, ◌||◌, Option, none, some, ltb, ◌==◌,
  if◌then◌else◌,
}
use htc_leo_pkg.Base.Memory.{Memory, write_word}

-- SMEM_FIRST_VALID_TYPE, SMEM_LAST_VALID_TYPE
abbrev pub first_valid_type : ℕ
first_valid_type = 7

abbrev pub last_valid_type : ℕ
last_valid_type = 418

abbrev pub bad_type : ℕ → Bool
bad_type type = ltb type first_valid_type || ltb last_valid_type type

abbrev pub unaligned : ℕ → ℕ → Bool
unaligned len buf = not (len % 4 == 0) || not (buf % 4 == 0)

-- The loop that copies words, with `n` to go.
unfoldable pub copy_words : (ℕ → ℕ) → ℕ → ℕ → ℕ → Memory → Memory
copy_words readl dest src zero m = m
copy_words readl dest src (suc n) m =
    copy_words readl (dest + 4) ((src + 4) % 2 ^ 32) n (write_word m dest (readl src))

-- The addresses of the fields of `smem->alloc_info[type]`
abbrev pub alloc_info : ℕ → ℕ → ℕ
alloc_info base type = base + 208 + 16 * type

abbrev pub allocated : (ℕ → ℕ) → ℕ → ℕ → ℕ
allocated readl base type = readl (alloc_info base type)

abbrev pub offset_of : (ℕ → ℕ) → ℕ → ℕ → ℕ
offset_of readl base type = readl (alloc_info base type + 4)

abbrev pub size_of : (ℕ → ℕ) → ℕ → ℕ → ℕ
size_of readl base type = readl (alloc_info base type + 8)

abbrev pub base_ext_of : (ℕ → ℕ) → ℕ → ℕ → ℕ
base_ext_of readl base type = readl (alloc_info base type + 12)

module _ (readl : ℕ → ℕ) (base : ℕ) where
  -- `smem_read_alloc_entry`: the status, and the memory with the buffer.
  unfoldable pub smem_read_alloc_entry : ℕ → ℕ → ℕ → Memory → ℕ × Memory
  smem_read_alloc_entry type buf len m =
      if unaligned len buf
      then (1, m)
      else if bad_type type
      then (1, m)
      else if allocated readl base type == 0
      then (1, m)
      else if ltb (size_of readl base type) ((len + 7) / 8 * 8)
      then (1, m)
      else (0, copy_words readl buf ((base + offset_of readl base type) % 2 ^ 32) (len / 4) m)

  -- `smem_get_alloc_entry`: the address, and `*size` if it is written.
  unfoldable pub smem_get_alloc_entry : ℕ → Option (ℕ × ℕ)
  smem_get_alloc_entry type =
      if bad_type type
      then none
      else if allocated readl base type == 0
      then none
      else let ext = base_ext_of readl base type in
        let offset = offset_of readl base type in
        some (
          (if ext == 0 then (base + offset) % 2 ^ 32 else (ext + offset) % 2 ^ 32),
          size_of readl base type,
        )

  -- `smem_read_alloc_entry_offset`
  unfoldable pub smem_read_alloc_entry_offset : ℕ → ℕ → ℕ → ℕ → Memory → ℕ × Memory
  smem_read_alloc_entry_offset type buf len offset m =
      if unaligned len buf
      then (1, m)
      else if bad_type type
      then (1, m)
      else if allocated readl base type == 0
      then (1, m)
      else (
        0,
        copy_words readl buf ((base + offset_of readl base type + offset) % 2 ^ 32) (len / 4) m,
      )
