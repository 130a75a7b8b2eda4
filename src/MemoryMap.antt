-- ===== src/MemoryMap.antt =====
-- HtcLeoPkg/Library/HtcLeoPkgLib/HtcLeoPkgMem.c: how the memory is described to the system, first as a list of
-- hand-off blocks from which the reserved regions are carved, then as a table for the MMU.
pub mod Carving
use htc_leo_pkg.Base.{
  ℕ, zero, suc, ◌+◌, ◌-◌, ◌*◌, ◌/◌, ◌%◌, ◌^◌, Bool, true, false, not, ◌&&◌, List, [], ◌∷◌, ◌++◌,
  Option, none, some, length, ltb, leb, ◌==◌, if◌then◌else◌,
}

-- `struct ReservedMemory`
pub record Region : Type 0 where
  pub offset : ℕ
  pub size : ℕ

pub data ResourceType : Type 0 where
  system_memory : ResourceType
  memory_reserved : ResourceType

-- A resource descriptor block
pub record Hob : Type 0 where
  pub resource : ResourceType
  pub attribute : ℕ
  pub start : ℕ
  pub len : ℕ

-- The build's constants
pub record Pcds : Type 0 where
  pub memory_base : ℕ
  pub memory_size : ℕ
  pub fb_address : ℕ
  pub fb_width : ℕ
  pub fb_height : ℕ
  pub fb_bpp : ℕ
  pub fd_base : ℕ
  pub fd_size : ℕ

abbrev pub fb_size : Pcds → ℕ
fb_size p = p.fb_width * p.fb_height * (p.fb_bpp / 8)

-- `ReservedMemoryBuffer`
unfoldable pub reserved_memory_buffer : Pcds → List Region
reserved_memory_buffer p =
    record { offset = 0; size = 0x00100000 }
    ∷ record { offset = 0x00100000; size = 0x00100000 }
    ∷ record { offset = 0x00200000; size = 0x00200000 }
    ∷ record { offset = 0x00400000; size = 0x02100000 }
    ∷ record { offset = p.fb_address; size = fb_size p }
    ∷ []

abbrev pub is_system : ResourceType → Bool
is_system system_memory = true
is_system memory_reserved = false

-- The end of a region, in 64 bits in the test and in 32 bits where it is kept in a UINTN
abbrev pub end_of : Region → ℕ
end_of r = (r.offset + r.size) % 2 ^ 64

abbrev pub reserved_top : Region → ℕ
reserved_top r = (r.offset + r.size) % 2 ^ 32

-- The end of a block
abbrev pub resource_top : Hob → ℕ
resource_top h = (h.start + h.len) % 2 ^ 64

-- The region lies in a block of system memory.
abbrev pub lies_in : Region → Hob → Bool
lies_in r h = is_system h.resource && (leb h.start r.offset && leb (end_of r) (resource_top h))

-- EFI_RESOURCE_ATTRIBUTE_PRESENT
abbrev pub present : ℕ
present = 1

-- The blocks that are made for a region of a block, and what is left of the block
abbrev pub carved : Region → Hob → List Hob
carved r h =
    let top = reserved_top r in
    let end = resource_top h in
    let above = if ltb top end then record h { start = top; len = end - top } ∷ [] else [] in
    record { resource = memory_reserved; attribute = present; start = r.offset; len = r.size }
    ∷ above

abbrev pub below : Region → Hob → Hob
below r h = record h { len = r.offset - h.start }

-- The loop over the blocks, those seen in front: a new block comes last and is seen later. The regions from
-- `Index` on are left. `none` is out of fuel.
unfoldable pub carve : ℕ → List Region → List Hob → List Hob → Option (List Region × List Hob)
carve zero rs seen hobs = none
carve (suc fuel) [] seen hobs = some ([], seen ++ hobs)
carve (suc fuel) (r ∷ rs) seen [] = some (r ∷ rs, seen)
carve (suc fuel) (r ∷ rs) seen (h ∷ hobs) =
    let hit = carve fuel rs (seen ++ below r h ∷ []) (hobs ++ carved r h) in
    let miss = carve fuel (r ∷ rs) (seen ++ h ∷ []) hobs in if lies_in r h then hit else miss

-- The block of the system's memory
abbrev pub system_hob : Pcds → ℕ → Hob
system_hob p attributes = record {
  resource = system_memory;
  attribute = attributes;
  start = p.memory_base;
  len = p.memory_size;
}

-- The blocks with the system's memory, for the blocks that are there before
unfoldable pub resource_hobs : Pcds → ℕ → ℕ → List Hob → Option (List Region × List Hob)
unfolding carve reserved_memory_buffer
resource_hobs p attributes fuel hobs =
    carve fuel (reserved_memory_buffer p) [] (hobs ++ system_hob p attributes ∷ [])

pub data MemoryAttribute : Type 0 where
  write_back : MemoryAttribute
  uncached_unbuffered : MemoryAttribute
  device : MemoryAttribute
  no_attribute : MemoryAttribute

-- ARM_MEMORY_REGION_DESCRIPTOR; the virtual base is the physical one.
pub record Descriptor : Type 0 where
  pub physical_base : ℕ
  pub len : ℕ
  pub attributes : MemoryAttribute

-- The table for the MMU, where the pages for it are there
unfoldable pub virtual_memory_map : Bool → Pcds → Option (List Descriptor)
virtual_memory_map false p = none
virtual_memory_map true p =
    let before : List Descriptor =
      if p.memory_base == 0
      then []
      else record { physical_base = 0; len = p.memory_base; attributes = device } ∷ [] in
    some (
      (record { physical_base = p.memory_base; len = p.memory_size; attributes = write_back }
        ∷ before)
      ++ record { physical_base = p.fb_address; len = fb_size p; attributes = uncached_unbuffered }
        ∷ record { physical_base = p.fd_base; len = p.fd_size; attributes = write_back }
        ∷ record { physical_base = 0xA0000000; len = 0x0C300000; attributes = device }
        ∷ record { physical_base = 0; len = 0; attributes = no_attribute }
        ∷ [])
