-- ===== src/Tests/Shared.antt =====
-- The theorems on texts and the shared memory at concrete contents.
use htc_leo_pkg.Base.{
  ℕ, ◌+◌, ◌-◌, ◌%◌, ◌^◌, ◌≤◌, ◌<◌, ◌≡◌, ◌⊎◌, refl, inl, Bool, List, [], ◌∷◌, ◌++◌, some, arith,
  length, get_or, take, ◌==◌, if◌then◌else◌,
}
use htc_leo_pkg.Base.Memory.{Memory, Holds}
use htc_leo_pkg.StrLib.{Token, strtok_r, strlcat}
use htc_leo_pkg.StrLib.Tokens.{drop_delims, Tokenized, strtok_r-Tokenized}
use htc_leo_pkg.StrLib.Scans.{strlcat_lem}
use htc_leo_pkg.PTable.{PTable}
use htc_leo_pkg.Smem.{offset_of, smem_read_alloc_entry}
use htc_leo_pkg.Smem.Read.{IsReadable, Reads, smem_read_alloc_entry-Reads}
use htc_leo_pkg.SmemPtable.{SmemPtable, colon, len, smem_add_modem_partitions, smem_ptable_init}
use htc_leo_pkg.SmemPtable.Modem.{modem_entries, ptable_adds, Agrees, smem_add_modem_partitions_lem}
use htc_leo_pkg.SmemPtable.Flash.{
  smem_driver, entry_words, Initialized, smem_ptable_init-smem_driver,
}
use htc_leo_pkg.SmemPtable.Ram.{RamPartition}

-- "0:MODEM"
abbrev modem_name : List ℕ
modem_name = 48 ∷ 58 ∷ 77 ∷ 79 ∷ 68 ∷ 69 ∷ 77 ∷ []

abbrev named : Memory
named a = get_or modem_name a 0

named-Holds : Holds named 0 modem_name
named-Holds = (
  refl,
  (λ e. omega arith),
  (
    refl,
    (λ e. omega arith),
    (
      refl,
      (λ e. omega arith),
      (
        refl,
        (λ e. omega arith),
        (refl, (λ e. omega arith), (refl, (λ e. omega arith), (refl, (λ e. omega arith), refl))),
      ),
    ),
  ),
)

strtok_r_example :
    (t : Token) × (strtok_r 8 named (some 0) colon (some 3) ≡ some t)
    × Tokenized colon named 0 (0 + length modem_name) (drop_delims colon modem_name) t
strtok_r_example = strtok_r-Tokenized colon 8 named 0 modem_name (some 3) named-Holds (omega arith)

-- "ab" at 0 and "cd" at 16.
abbrev two_texts : Memory
two_texts a =
    if a == 0 then 97 else if a == 1 then 98 else if a == 16 then 99 else if a == 17 then 100 else 0

strlcat_example :
    (m' : Memory) × (strlcat (λ m s. 2) 3 two_texts 0 16 4 ≡ some (2 + 2, m'))
    × Holds m' 0 ((97 ∷ 98 ∷ []) ++ take (4 - 2 - 1) (99 ∷ 100 ∷ []))
    × ((x : ℕ) → (x < 0) ⊎ (0 + 4 ≤ x) → m' x ≡ two_texts x)
strlcat_example =
    strlcat_lem (λ m s. 2) 3 two_texts 0 16 4 (97 ∷ 98 ∷ []) (99 ∷ 100 ∷ [])
      (refl, (λ e. omega arith), (refl, (λ e. omega arith), refl))
      (refl, (λ e. omega arith), (refl, (λ e. omega arith), refl)) (omega arith) (omega arith)
      (inl (omega arith))

-- A table of version 3 with one partition: header, name, start 2, size 5, attribute.
abbrev table_bytes : List ℕ
table_bytes =
    170 ∷ 115 ∷ 238 ∷ 85 ∷ 219 ∷ 189 ∷ 94 ∷ 227 ∷ 3 ∷ 0 ∷ 0 ∷ 0 ∷ 1 ∷ 0 ∷ 0 ∷ 0 ∷ 48 ∷ 58 ∷ 77 ∷ 79
    ∷ 68 ∷ 69 ∷ 77 ∷ 0 ∷ 0 ∷ 0 ∷ 0 ∷ 0 ∷ 0 ∷ 0 ∷ 0 ∷ 0 ∷ 2 ∷ 0 ∷ 0 ∷ 0 ∷ 5 ∷ 0 ∷ 0 ∷ 0 ∷ []

abbrev table : Memory
table a = get_or table_bytes a 0

abbrev no_flash : PTable (List ℕ)
no_flash = record {
  parts = λ i. record { name = []; start = 0; size = 0; flags = 0; ptype = 0; perm = 0 };
  count = 0;
}

smem_add_modem_partitions_example :
    Agrees
      (ptable_adds (take 15) no_flash (modem_entries table (λ i. modem_name) 0 (len table)))
      (smem_add_modem_partitions (take 15) 17 table no_flash)
smem_add_modem_partitions_example =
    smem_add_modem_partitions_lem (take 15) 17 (omega arith) (λ i. modem_name) table no_flash refl
      (λ j lo hi.
        let first : j ≡ 0 = omega arith in
        rw first (
          (
            refl,
            (λ e. omega arith),
            (
              refl,
              (λ e. omega arith),
              (
                refl,
                (λ e. omega arith),
                (
                  refl,
                  (λ e. omega arith),
                  (
                    refl,
                    (λ e. omega arith),
                    (refl, (λ e. omega arith), (refl, (λ e. omega arith), refl)),
                  ),
                ),
              ),
            ),
          ),
          omega arith,
        ))

-- A shared memory at 0, with the entry for the partition table at 8192.
abbrev shared : ℕ → ℕ
shared a =
    if a == 352
    then 1
    else if a == 356
    then 8192
    else if a == 360
    then 464
    else if a == 8192
    then 1441690538
    else if a == 8196
    then 3814637019
    else if a == 8200
    then 3
    else if a == 8204
    then 1
    else 0

shared_words : (a : ℕ) → shared a < 2 ^ 32
shared_words a = ground arith

smem_read_alloc_entry_example :
    Reads shared 0 9 64 16
      (IsReadable shared 0 9 64 16)
      ((0 + offset_of shared 0 9) % 2 ^ 32)
      (λ x. 0)
      (smem_read_alloc_entry shared 0 9 64 16 (λ x. 0))
smem_read_alloc_entry_example = smem_read_alloc_entry-Reads shared shared_words 0 9 64 16 (λ x. 0)

abbrev same : Memory → ℕ → List ℕ → Bool
same m a n = m a == 48

abbrev unread : SmemPtable
unread = record { table = λ x. 0; apps_flash_start = 4294967295 }

smem_ptable_init_example :
    (s' : SmemPtable) × (smem_ptable_init (smem_driver shared 0) same unread ≡ some s')
    × Initialized same (entry_words shared 0) 464 unread s'
smem_ptable_init_example =
    smem_ptable_init-smem_driver same shared 0 464 unread shared_words
      (record {
        is_allocated = record {
          whole_words = refl;
          aligned = refl;
          from_first = omega arith;
          to_last = omega arith;
          in_use = λ e. omega arith;
        };
        fits = omega arith;
      })
      refl refl refl (omega arith)

abbrev ram_part : RamPartition
ram_part = record {
  name = λ i. 0;
  start = 16777216;
  size = 4096;
  attr = 0;
  category = 14;
  domain = 0;
  ptype = 1;
  num_partitions = 1;
  hw_info = 0;
  reserved = 0;
  available_length = 0;
}
