-- ===== src/SmemPtable/Ram.antt =====
-- The RAM partition table of HtcLeoPkg/Drivers/SmemPtableDxe/smem_ptable.c. An address counts from the
-- beginning of `buffer`. The arrays have no end: the source tests no index against their 32 entries.
pub mod Parts
use htc_leo_pkg.Base.{
  ℕ, zero, suc, ◌+◌, ◌*◌, ◌%◌, ◌^◌, Bool, ◌||◌, ◌&&◌, not, Option, none, some, ◌==◌, if◌then◌else◌,
}
use htc_leo_pkg.Base.Memory.{Memory, word}
use htc_leo_pkg.SmemPtable.{SmemProtocol}

-- `ram_partition`, which is `struct smem_ram_ptn_v2`
pub record RamPartition : Type 0 where
  pub name : ℕ → ℕ
  pub start : ℕ
  pub size : ℕ
  pub attr : ℕ
  pub category : ℕ
  pub domain : ℕ
  pub ptype : ℕ
  pub num_partitions : ℕ
  pub hw_info : ℕ
  pub reserved : ℕ
  pub available_length : ℕ

-- `ram_partition_table`, which is `struct smem_ram_ptable_v2`, with the fields of its header
pub record RamTable : Type 0 where
  pub magic : ℕ × ℕ
  pub version : ℕ
  pub reserved1 : ℕ
  pub len : ℕ
  pub reserved2 : ℕ
  pub parts : ℕ → RamPartition

abbrev pub long : Memory → ℕ → ℕ
long m a = word m a + 2 ^ 32 * word m (a + 4)

-- The five words after the size, in all versions
abbrev pub with_words : Memory → ℕ → RamPartition → RamPartition
with_words m a p = record p {
  attr = word m a;
  category = word m (a + 4);
  domain = word m (a + 8);
  ptype = word m (a + 12);
  num_partitions = word m (a + 16);
}

-- The copies of one entry from a table of version 0 or 1, and an entry of version 2.
unfoldable pub copy_v0 : Memory → ℕ → RamPartition → RamPartition
copy_v0 m i p =
    let a = 20 + 56 * i in
    with_words m (a + 24) (record p { start = word m (a + 16); size = word m (a + 20) })

unfoldable pub copy_v1 : Memory → ℕ → RamPartition → RamPartition
copy_v1 m i p =
    let a = 24 + 64 * i in
    with_words m (a + 32) (record p { start = long m (a + 16); size = long m (a + 24) })

unfoldable pub entry_v2 : Memory → ℕ → RamPartition
entry_v2 m i =
    let a = 24 + 72 * i in
    record {
      name = λ k. m (a + k);
      start = long m (a + 16);
      size = long m (a + 24);
      attr = word m (a + 32);
      category = word m (a + 36);
      domain = word m (a + 40);
      ptype = word m (a + 44);
      num_partitions = word m (a + 48);
      hw_info = word m (a + 52);
      reserved = long m (a + 56);
      available_length = long m (a + 64);
    }

-- The loop over the entries, from `i` with `n` left.
unfoldable pub copy_parts :
    (ℕ → RamPartition → RamPartition) → ℕ → ℕ → (ℕ → RamPartition) → ℕ → RamPartition
copy_parts copy i zero parts = parts
copy_parts copy i (suc n) parts =
    copy_parts copy (i + 1) n (λ j. if j == i then copy i (parts i) else parts j)

-- The header, `ptable.hdr = *(struct smem_ram_ptable_hdr *)buf`
abbrev pub with_header : Memory → RamTable → RamTable
with_header m t = record t {
  magic = (word m 0, word m 4);
  version = word m 8;
  reserved1 = word m 12;
  len = word m 16;
}

-- `smem_copy_ram_ptable`. The copy of version 2 takes the whole array of 32 entries.
unfoldable pub smem_copy_ram_ptable : Memory → RamTable → Option RamTable
unfolding copy_v0 copy_v1 entry_v2 copy_parts
smem_copy_ram_ptable m t =
    let h = with_header m t in
    if h.version == 2
    then some
        (record h { reserved2 = word m 20; parts = copy_parts (λ i p. entry_v2 m i) 0 32 t.parts })
    else if h.version == 1
    then some (record h { parts = copy_parts (copy_v1 m) 0 (word m 16) t.parts })
    else if h.version == 0
    then some (record h { parts = copy_parts (copy_v0 m) 0 (word m 16) t.parts })
    else none

-- The sizes of the three tables
abbrev pub ram_table_size : ℕ → Option ℕ
ram_table_size v =
    if v == 2 then some 2328 else if v == 1 then some 2072 else if v == 0 then some 1816 else none

pub record RamState : Type 0 where
  pub buffer : Memory
  pub ptable : RamTable

-- The second half of `smem_ram_ptable_init_v1`, once the size is known.
unfoldable pub read_ram_table : SmemProtocol → ℕ → RamState → Option (ℕ × RamState)
unfolding smem_copy_ram_ptable
read_ram_table smem size s =
    let (i, m) = smem.read_entry 402 0 size s.buffer in
    if not (i == 0)
    then some (0, record s { buffer = m })
    else if not (word m 0 == 2644893864) || not (word m 4 == 2946417890)
    then some (0, record s { buffer = m })
    else elim (smem_copy_ram_ptable m s.ptable) [
      | none ↦ none
      | some t ↦ some (1, record { buffer = m; ptable = t })
    ]

-- `smem_ram_ptable_init_v1`; the local `version` is a memory of its own.
unfoldable pub smem_ram_ptable_init_v1 : SmemProtocol → Memory → RamState → Option (ℕ × RamState)
unfolding read_ram_table
smem_ram_ptable_init_v1 smem stack s =
    let (ret, v) = smem.read_entry_offset 402 0 4 8 stack in
    if not (ret == 0)
    then some (0, s)
    else elim (ram_table_size (word v 0)) [ none ↦ none | some size ↦ read_ram_table smem size s ]

-- Is the partition system memory in SDRAM or IMEM?
abbrev pub is_ddr : RamPartition → Bool
is_ddr p = (p.ptype == 1) && ((p.category == 14) || (p.category == 5))

-- The loop of `get_ddr_start`, from `i` with `n` left. The assertion after it, on a string, holds.
unfoldable pub ddr_from : RamTable → ℕ → ℕ → Option ℕ
ddr_from t i zero = some 0
ddr_from t i (suc n) =
    let rest = ddr_from t (i + 1) n in
    if is_ddr (t.parts i)
    then (if (t.parts i).start % 2 ^ 20 == 0 then some ((t.parts i).start % 2 ^ 32) else none)
    else rest

-- `get_ddr_start`
unfoldable pub get_ddr_start : RamTable → Option ℕ
unfolding ddr_from
get_ddr_start t = ddr_from t 0 t.len
