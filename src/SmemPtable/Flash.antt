-- ===== src/SmemPtable/Flash.antt =====
-- smem_ptable_init of HtcLeoPkg/Drivers/SmemPtableDxe/smem_ptable.c, on the shared memory of
-- HtcLeoPkg/Drivers/SmemDxe/smem.c.
use htc_leo_pkg.Base.{
  ℕ, zero, suc, ◌+◌, ◌*◌, ◌/◌, ◌%◌, ◌^◌, ◌≤◌, ◌<◌, ◌≡◌, refl, sym, ap, ◌∙◌, inl, inr, Bool, true,
  List, Option, none, some, arith, leb, Option-cases, leb-true,
}
use htc_leo_pkg.Base.Memory.{Memory, word}
use htc_leo_pkg.Base.Search.{IsFirst, first_index, first_index-IsFirst}
use htc_leo_pkg.Smem.{offset_of, smem_read_alloc_entry, smem_read_alloc_entry_offset}
use htc_leo_pkg.Smem.Read.{
  IsReadable, Copied, smem_read_alloc_entry-Reads, smem_read_alloc_entry_offset-Reads,
}
use htc_leo_pkg.SmemPtable.{
  SmemProtocol, SmemPtable, magic_ok, version, len, name_of, start_of, table_len, apps_name,
  find_apps, read_table, smem_ptable_init,
}

-- The protocol gives the words of a table, of `l` bytes, for the partition table.
pub record Serves (smem : SmemProtocol) (words : ℕ → ℕ) (l : ℕ) : Type 0 where
  pub header : (m : Memory) → (smem.read_entry_offset 9 0 16 0 m).0 ≡ 0
  pub header_words :
      (m : Memory) (i : ℕ) → i < 4 → word (smem.read_entry_offset 9 0 16 0 m).1 (4 * i) ≡ words i
  pub whole : (m : Memory) → (smem.read_entry 9 0 l m).0 ≡ 0
  pub whole_words :
      (m : Memory) (i : ℕ) → i < l / 4 → word (smem.read_entry 9 0 l m).1 (4 * i) ≡ words i

-- The functions of the driver as the protocol.
abbrev pub smem_driver : (ℕ → ℕ) → ℕ → SmemProtocol
smem_driver readl base = record {
  read_entry = smem_read_alloc_entry readl base;
  read_entry_offset = smem_read_alloc_entry_offset readl base;
}

abbrev pub entry_words : (ℕ → ℕ) → ℕ → ℕ → ℕ
entry_words readl base i = readl (((base + offset_of readl base 9) % 2 ^ 32 + 4 * i) % 2 ^ 32)

module _ (readl : ℕ → ℕ) (words : (a : ℕ) → readl a < 2 ^ 32) (base l : ℕ) where
  header_read :
      IsReadable readl base 9 0 l
      → (m : Memory)
      → ((smem_read_alloc_entry_offset readl base 9 0 16 0 m).0 ≡ 0)
        × Copied readl base 9 0 16
            ((base + offset_of readl base 9 + 0) % 2 ^ 32)
            m
            (smem_read_alloc_entry_offset readl base 9 0 16 0 m).1
  header_read ok m = elim (smem_read_alloc_entry_offset-Reads readl words base 9 0 16 0 m) [
    | inl (s, same, fails) ↦ absurd (
        fails (record {
          whole_words = omega arith;
          aligned = omega arith;
          from_first = omega arith;
          to_last = omega arith;
          in_use = ok.is_allocated.in_use;
        }))
    | inr (s, cond, copied) ↦ (s, copied)
  ]

  whole_read :
      IsReadable readl base 9 0 l
      → (m : Memory)
      → ((smem_read_alloc_entry readl base 9 0 l m).0 ≡ 0)
        × Copied readl base 9 0 l
            ((base + offset_of readl base 9) % 2 ^ 32)
            m
            (smem_read_alloc_entry readl base 9 0 l m).1
  whole_read ok m = elim (smem_read_alloc_entry-Reads readl words base 9 0 l m) [
    | inl (s, same, fails) ↦ absurd (fails ok)
    | inr (s, cond, copied) ↦ (s, copied)
  ]

  -- The driver serves the words of the entry, if it is allocated and not shorter than the table.
  pub smem_driver-Serves :
      IsReadable readl base 9 0 l → Serves (smem_driver readl base) (entry_words readl base) l
  smem_driver-Serves ok = record {
    header = λ m. (header_read ok m).0;
    header_words = λ m i lt.
        ap (word (smem_read_alloc_entry_offset readl base 9 0 16 0 m).1) {x = 4 * i} {y = 0 + 4 * i}
          (omega arith)
        ∙ (header_read ok m).1.words i (omega arith)
        ∙ ap (λ a. readl ((a % 2 ^ 32 + 4 * i) % 2 ^ 32)) {x = base + offset_of readl base 9 + 0}
            {y = base + offset_of readl base 9} (omega arith);
    whole = λ m. (whole_read ok m).0;
    whole_words = λ m i lt.
        ap (word (smem_read_alloc_entry readl base 9 0 l m).1) {x = 4 * i} {y = 0 + 4 * i}
          (omega arith)
        ∙ (whole_read ok m).1.words i lt;
  }

-- The test of the search for the partition "0:APPS".
abbrev pub is_apps : (Memory → ℕ → List ℕ → Bool) → Memory → ℕ → Bool
is_apps same m j = same m (name_of j) apps_name

module _ (same : Memory → ℕ → List ℕ → Bool) where
  find_apps_lem : (n i : ℕ) (m : Memory) → find_apps same m i n ≡ first_index (is_apps same m) i n
  unfolding find_apps
  find_apps_lem zero i m = refl
  find_apps_lem (suc n) i m = rw (find_apps_lem n (i + 1) m) refl

  -- What the start leaves: the words of the table, and the start of the first partition among them that
  -- is named "0:APPS", or the old one if there is none.
  pub record Initialized (words : ℕ → ℕ) (l : ℕ) (s s' : SmemPtable) : Type 0 where
    pub found : Option ℕ
    pub table_words : (i : ℕ) → i < l / 4 → word s'.table (4 * i) ≡ words i
    pub first : IsFirst (is_apps same s'.table) 0 (words 3) found
    pub flash_start :
        s'.apps_flash_start ≡ elim found [ none ↦ s.apps_flash_start | some k ↦ words (8 + 7 * k) ]

  read_table_lem :
      (smem : SmemProtocol) (words : ℕ → ℕ) (l : ℕ) (s : SmemPtable)
      → Serves smem words l
      → 16 + 28 * words 3 ≤ l
      → (s' : SmemPtable) × (read_table smem same l s ≡ some s') × Initialized words l s s'
  unfolding read_table
  read_table_lem smem words l s serves fits =
      let m = (smem.read_entry 9 0 l s.table).1 in
      let count : len m ≡ words 3 = serves.whole_words s.table 3 (omega arith) in
      let first : IsFirst (is_apps same m) 0 (words 3) (find_apps same m 0 (len m)) =
        rw (sym count)
          (rw (find_apps_lem (len m) 0 m) (first_index-IsFirst (is_apps same m) (len m) 0)) in
      elim (Option-cases (find_apps same m 0 (len m))) [
        | inl e ↦ (
          record s { table = m },
          rw (serves.whole s.table) (rw (e, read_table) refl),
          record {
            found = none;
            table_words = λ i lt. serves.whole_words s.table i lt;
            first = (rw e at first);
            flash_start = refl;
          },
        )
        | inr (k, e) ↦
            let at : IsFirst (is_apps same m) 0 (words 3) (some k) = (rw e at first) in
            (
              record { table = m; apps_flash_start = start_of m k },
              rw (serves.whole s.table) (rw (e, read_table) refl),
              record {
                found = some k;
                table_words = λ i lt. serves.whole_words s.table i lt;
                first = at;
                flash_start =
                    ap (word m) {x = 32 + 28 * k} {y = 4 * (8 + 7 * k)} (omega arith)
                    ∙ serves.whole_words s.table (8 + 7 * k) (omega (arith, at.1));
              },
            )
      ]

  magic_lem : (m : Memory) → word m 0 ≡ 1441690538 → word m 4 ≡ 3814637019 → magic_ok m ≡ true
  magic_lem m a b = rw a (rw b refl)

  table_len_le : (v l : ℕ) → table_len v ≡ some l → l ≤ 912
  table_len_le v l e = ground arith

  -- If the shared memory serves a table with its magic numbers, of a version 4 at most, whose partitions
  -- fit the length for its version, `smem_ptable_init` succeeds: it holds the words of the table,
  -- and the start of the first partition named "0:APPS", or the old start if there is none.
  pub smem_ptable_init_lem :
      (smem : SmemProtocol) (words : ℕ → ℕ) (l : ℕ) (s : SmemPtable)
      → Serves smem words l
      → words 0 ≡ 1441690538
      → words 1 ≡ 3814637019
      → table_len (words 2) ≡ some l
      → 16 + 28 * words 3 ≤ l
      → (s' : SmemPtable) × (smem_ptable_init smem same s ≡ some s') × Initialized words l s s'
  unfolding smem_ptable_init
  smem_ptable_init_lem smem words l s serves first second known fits =
      let m = (smem.read_entry_offset 9 0 16 0 s.table).1 in
      let count : len m ≡ words 3 = serves.header_words s.table 3 (omega arith) in
      let vers : version m ≡ words 2 = serves.header_words s.table 2 (omega arith) in
      let magic : magic_ok m ≡ true =
        magic_lem m (serves.header_words s.table 0 (omega arith) ∙ first)
          (serves.header_words s.table 1 (omega arith) ∙ second) in
      let small : leb (len m) 32 ≡ true =
        leb-true (len m) 32 (omega (arith, table_len_le (words 2) l known)) in
      let (s', run, init) = read_table_lem smem words l (record s { table = m }) serves fits in
      (
        s',
        rw (serves.header s.table)
            (rw magic (rw small (rw ((ap table_len vers ∙ known), smem_ptable_init) run))),
        record {
          found = init.found;
          table_words = init.table_words;
          first = init.first;
          flash_start = init.flash_start;
        },
      )

  -- On the shared memory driver: if the entry of the partition table is allocated and large enough for a
  -- table of its version, which is 4 at most, and the table has its magic numbers and partitions that
  -- fit, then `smem_ptable_init` succeeds. It holds the words of the entry, and the start of the
  -- first partition named "0:APPS", or the old start if there is none.
  pub smem_ptable_init-smem_driver :
      (readl : ℕ → ℕ) (base l : ℕ) (s : SmemPtable)
      → ((a : ℕ) → readl a < 2 ^ 32)
      → IsReadable readl base 9 0 l
      → entry_words readl base 0 ≡ 1441690538
      → entry_words readl base 1 ≡ 3814637019
      → table_len (entry_words readl base 2) ≡ some l
      → 16 + 28 * entry_words readl base 3 ≤ l
      → (s' : SmemPtable) × (smem_ptable_init (smem_driver readl base) same s ≡ some s')
        × Initialized (entry_words readl base) l s s'
  smem_ptable_init-smem_driver readl base l s words ok first second known fits =
      smem_ptable_init_lem (smem_driver readl base) (entry_words readl base) l s
        (smem_driver-Serves readl words base l ok) first second known fits
