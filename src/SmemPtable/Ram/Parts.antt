-- ===== src/SmemPtable/Ram/Parts.antt =====
-- What the copied RAM table of HtcLeoPkg/Drivers/SmemPtableDxe/smem_ptable.c holds, and the start of the
-- memory in it.
use htc_leo_pkg.Base.{
  ℕ, zero, suc, ◌+◌, ◌*◌, ◌%◌, ◌^◌, ◌≤◌, ◌<◌, ◌≡◌, ◌⊎◌, refl, ap, ◌∙◌, inl, inr, Option, none, some,
  arith, ◌==◌, if◌then◌else◌, ==_iff, ==_ne, Bool-cases, if-both,
}
use htc_leo_pkg.Base.Memory.{Memory, word}
use htc_leo_pkg.Base.Search.{first_index, IsFirst, first_index-IsFirst}
use htc_leo_pkg.SmemPtable.Ram.{
  RamPartition, RamTable, long, copy_v0, copy_v1, entry_v2, copy_parts, with_header,
  smem_copy_ram_ptable, is_ddr, ddr_from, get_ddr_start,
}

copy_parts_other :
    (copy : ℕ → RamPartition → RamPartition) (n i : ℕ) (parts : ℕ → RamPartition) (j : ℕ)
    → (j < i) ⊎ (i + n ≤ j)
    → copy_parts copy i n parts j ≡ parts j
unfolding copy_parts
copy_parts_other copy zero i parts j out = refl
copy_parts_other copy (suc n) i parts j out =
    copy_parts_other copy n (i + 1) (λ k. if k == i then copy i (parts i) else parts k) j
      (omega arith)
    ∙ rw (==_ne j i (λ e. omega arith)) refl

copy_parts_in :
    (copy : ℕ → RamPartition → RamPartition) (n i : ℕ) (parts : ℕ → RamPartition) (j : ℕ)
    → i ≤ j
    → j < i + n
    → copy_parts copy i n parts j ≡ copy j (parts j)
unfolding copy_parts
copy_parts_in copy zero i parts j lo hi = absurd (omega arith)
copy_parts_in copy (suc n) i parts j lo hi = elim (Bool-cases (j == i)) [
  | inl e ↦
      let at : j ≡ i = ground arith in
      rw at (
        copy_parts_other copy n (i + 1) (λ k. if k == i then copy i (parts i) else parts k) i
          (omega arith)
        ∙ rw ((==_iff i i).1 refl) refl)
  | inr ne ↦
      copy_parts_in copy n (i + 1) (λ k. if k == i then copy i (parts i) else parts k) j
        (ground arith) (omega arith)
      ∙ rw ne refl
]

-- The fields that every version of the table has, of a partition with its first field at `a`: the
-- start and the size take `w` bytes each.
pub record Fields (m : Memory) (a w : ℕ) (p : RamPartition) : Type 0 where
  pub start : p.start ≡ (if w == 8 then long m a else word m a)
  pub size : p.size ≡ (if w == 8 then long m (a + w) else word m (a + w))
  pub attr : p.attr ≡ word m (a + 2 * w)
  pub category : p.category ≡ word m (a + 2 * w + 4)
  pub domain : p.domain ≡ word m (a + 2 * w + 8)
  pub ptype : p.ptype ≡ word m (a + 2 * w + 12)
  pub num_partitions : p.num_partitions ≡ word m (a + 2 * w + 16)

-- Partition `i` of a table of the version: where its fields begin and how wide the first two are.
abbrev pub PartOf : Memory → ℕ → ℕ → RamPartition → Type 0
PartOf m zero i p = Fields m (36 + 56 * i) 4 p
PartOf m (suc zero) i p = Fields m (40 + 64 * i) 8 p
PartOf m (suc (suc v)) i p = Fields m (40 + 72 * i) 8 p

copy_v0_lem : (m : Memory) (i : ℕ) (p : RamPartition) → PartOf m 0 i (copy_v0 m i p)
unfolding copy_v0
copy_v0_lem m i p = record {
  start = ap (word m) (omega arith);
  size = ap (word m) (omega arith);
  attr = ap (word m) (omega arith);
  category = ap (word m) (omega arith);
  domain = ap (word m) (omega arith);
  ptype = ap (word m) (omega arith);
  num_partitions = ap (word m) (omega arith);
}

copy_v1_lem : (m : Memory) (i : ℕ) (p : RamPartition) → PartOf m 1 i (copy_v1 m i p)
unfolding copy_v1
copy_v1_lem m i p = record {
  start = ap (long m) (omega arith);
  size = ap (long m) (omega arith);
  attr = ap (word m) (omega arith);
  category = ap (word m) (omega arith);
  domain = ap (word m) (omega arith);
  ptype = ap (word m) (omega arith);
  num_partitions = ap (word m) (omega arith);
}

entry_v2_lem : (m : Memory) (i : ℕ) → PartOf m 2 i (entry_v2 m i)
unfolding entry_v2
entry_v2_lem m i = record {
  start = ap (long m) (omega arith);
  size = ap (long m) (omega arith);
  attr = ap (word m) (omega arith);
  category = ap (word m) (omega arith);
  domain = ap (word m) (omega arith);
  ptype = ap (word m) (omega arith);
  num_partitions = ap (word m) (omega arith);
}

parts-PartOf :
    (m : Memory) (v n : ℕ) (copy : ℕ → RamPartition → RamPartition) (parts : ℕ → RamPartition)
    → ((i : ℕ) (p : RamPartition) → PartOf m v i (copy i p))
    → (i : ℕ) → i < n
    → PartOf m v i (copy_parts copy 0 n parts i)
parts-PartOf m v n copy parts each i lt =
    rw (copy_parts_in copy n 0 parts i (omega arith) (omega arith)) (each i (parts i))

-- For a table of the versions 0, 1 or 2 with at most 32 entries, `smem_copy_ram_ptable` succeeds, the copy
-- has the version and the length of the table, and start, size, attribute, category, domain, type
-- and number of each of its entries are those of the entry in the layout of that version.
pub smem_copy_ram_ptable_lem :
    (m : Memory) (t : RamTable) (v : ℕ)
    → word m 8 ≡ v
    → v ≤ 2
    → word m 16 ≤ 32
    → (t' : RamTable) × (smem_copy_ram_ptable m t ≡ some t')
      × (t'.version ≡ v)
      × (t'.len ≡ word m 16)
      × ((i : ℕ) → i < t'.len → PartOf m v i (t'.parts i))
unfolding smem_copy_ram_ptable
smem_copy_ram_ptable_lem m t zero vers le fits = (
  record (with_header m t) { parts = copy_parts (copy_v0 m) 0 (word m 16) t.parts },
  rw vers refl,
  vers,
  refl,
  parts-PartOf m 0 (word m 16) (copy_v0 m) t.parts (copy_v0_lem m),
)
smem_copy_ram_ptable_lem m t (suc zero) vers le fits = (
  record (with_header m t) { parts = copy_parts (copy_v1 m) 0 (word m 16) t.parts },
  rw vers refl,
  vers,
  refl,
  parts-PartOf m 1 (word m 16) (copy_v1 m) t.parts (copy_v1_lem m),
)
smem_copy_ram_ptable_lem m t (suc (suc zero)) vers le fits = (
  record (with_header m t) {
    reserved2 = word m 20;
    parts = copy_parts (λ i p. entry_v2 m i) 0 32 t.parts;
  },
  rw vers refl,
  vers,
  refl,
  λ i lt.
      parts-PartOf m 2 32 (λ j p. entry_v2 m j) t.parts (λ j p. entry_v2_lem m j) i (omega arith),
)
smem_copy_ram_ptable_lem m t (suc (suc (suc v))) vers le fits = absurd (omega arith)

-- The answer for the first partition of system memory.
abbrev pub start_at : RamTable → Option ℕ → Option ℕ
start_at t none = some 0
start_at t (some k) =
    if (t.parts k).start % 2 ^ 20 == 0 then some ((t.parts k).start % 2 ^ 32) else none

ddr_from_lem :
    (t : RamTable) (n i : ℕ)
    → ddr_from t i n ≡ start_at t (first_index (λ j. is_ddr (t.parts j)) i n)
unfolding ddr_from
ddr_from_lem t zero i = refl
ddr_from_lem t (suc n) i =
    if-both (λ (o : Option ℕ) (k : Option ℕ). o ≡ start_at t k) (is_ddr (t.parts i)) refl
      (ddr_from_lem t n (i + 1))

-- `get_ddr_start` answers for the first entry of the table that is system memory in SDRAM or IMEM: with
-- the low 32 bits of its start if that is a multiple of 1 MB, and with a failed assertion if not.
-- Without such an entry the answer is 0.
pub get_ddr_start_lem :
    (t : RamTable)
    → (k : Option ℕ) × IsFirst (λ j. is_ddr (t.parts j)) 0 t.len k
      × (get_ddr_start t ≡ start_at t k)
unfolding get_ddr_start
get_ddr_start_lem t = (
  first_index (λ j. is_ddr (t.parts j)) 0 t.len,
  first_index-IsFirst (λ j. is_ddr (t.parts j)) t.len 0,
  ddr_from_lem t t.len 0,
)
