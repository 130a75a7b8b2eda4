-- ===== src/SmemPtable.antt =====
-- HtcLeoPkg/Drivers/SmemPtableDxe/smem_ptable.c: the tables of flash and RAM partitions in the shared
-- memory. The static `smem_ptable` is a memory whose addresses count from its beginning. The
-- functions of the shared memory protocol are an interface, which Smem implements. An assertion that
-- fails is `none`. `strcmp` is an argument, as it is not in the package.
pub mod Names
pub mod Modem
pub mod Flash
pub mod Ram
use htc_leo_pkg.Base.{
  ℕ, zero, suc, ◌+◌, ◌*◌, Bool, ◌||◌, ◌&&◌, not, List, [], ◌∷◌, Option, none, some, leb, ◌==◌,
  if◌then◌else◌,
}
use htc_leo_pkg.Base.Memory.{Memory, word, text_at}
use htc_leo_pkg.StrLib.{Token, strtok_r}
use htc_leo_pkg.PTable.{PTable, PtEntry, ptable_add}

-- What `gSMEM` is used for: type, buffer, length (and offset) give a status and the memory.
pub record SmemProtocol : Type 0 where
  pub read_entry : ℕ → ℕ → ℕ → Memory → ℕ × Memory
  pub read_entry_offset : ℕ → ℕ → ℕ → ℕ → Memory → ℕ × Memory

pub record SmemPtable : Type 0 where
  pub table : Memory
  pub apps_flash_start : ℕ

-- The fields of `struct smem_ptable` and of its `parts[i]`
abbrev pub magic_ok : Memory → Bool
magic_ok m = (word m 0 == 1441690538) && (word m 4 == 3814637019)

abbrev pub version : Memory → ℕ
version m = word m 8

abbrev pub len : Memory → ℕ
len m = word m 12

abbrev pub name_of : ℕ → ℕ
name_of i = 16 + 28 * i

abbrev pub start_of : Memory → ℕ → ℕ
start_of m i = word m (32 + 28 * i)

abbrev pub part_size_of : Memory → ℕ → ℕ
part_size_of m i = word m (36 + 28 * i)

-- The length of the table of a version: the header and 16 or 32 partitions.
abbrev pub table_len : ℕ → Option ℕ
table_len v = if leb v 3 then some 464 else if v == 4 then some 912 else none

-- "0:APPS"
abbrev pub apps_name : List ℕ
apps_name = 48 ∷ 58 ∷ 65 ∷ 80 ∷ 80 ∷ 83 ∷ []

-- The search for the partition, from `i` with `n` left; `same` is strcmp being 0.
unfoldable pub find_apps : (Memory → ℕ → List ℕ → Bool) → Memory → ℕ → ℕ → Option ℕ
find_apps same m i zero = none
find_apps same m i (suc n) =
    let rest = find_apps same m (i + 1) n in if same m (name_of i) apps_name then some i else rest

-- The second half of `smem_ptable_init`, once the length is known.
unfoldable pub read_table :
    SmemProtocol → (Memory → ℕ → List ℕ → Bool) → ℕ → SmemPtable → Option SmemPtable
unfolding find_apps
read_table smem same l s =
    let (ret, m) = smem.read_entry 9 0 l s.table in
    if ret == 0
    then elim (find_apps same m 0 (len m)) [
      | none ↦ some (record s { table = m })
      | some i ↦ some (record { table = m; apps_flash_start = start_of m i })
    ]
    else none

-- `smem_ptable_init`
unfoldable pub smem_ptable_init :
    SmemProtocol → (Memory → ℕ → List ℕ → Bool) → SmemPtable → Option SmemPtable
unfolding read_table
smem_ptable_init smem same s =
    let (ret, m) = smem.read_entry_offset 9 0 16 0 s.table in
    let s' = record s { table = m } in
    if not (ret == 0)
    then some s'
    else if not (magic_ok m)
    then some s'
    else if not (leb (len m) 32)
    then none
    else elim (table_len (version m)) [ none ↦ none | some l ↦ read_table smem same l s' ]

-- ":"
abbrev pub colon : List ℕ
colon = 58 ∷ []

-- The loop over the tokens of a name, with the last answer of `strtok`: the last token, if there is
-- one, and the memory. Both loops get the same fuel.
unfoldable pub last_token : ℕ → ℕ → Token → Option ℕ → Option (Option ℕ × Memory)
last_token f zero t pname = none
last_token f (suc n) t pname =
    let next = strtok_r f t.memory none colon t.last in
    elim t.tok [
      | none ↦ some (pname, t.memory)
      | some a ↦ elim next [ none ↦ none | some t' ↦ last_token f n t' (some a) ]
    ]

-- The token that the body of the loop of `smem_add_modem_partitions` ends with for a name.
unfoldable pub name_token : ℕ → Memory → ℕ → Option (Option ℕ × Memory)
unfolding last_token
name_token f m p = elim (strtok_r f m (some p) colon none) [
  | none ↦ none
  | some t ↦ last_token f f t none
]

-- The arguments of `ptable_add` for the name at `a`, with TYPE_MODEM_PARTITION and PERM_WRITEABLE.
abbrev pub modem_entry : ℕ → Memory → ℕ → ℕ → PtEntry (List ℕ)
modem_entry f m i a = record {
  name = text_at f m a;
  start = start_of m i;
  size = part_size_of m i;
  flags = 0;
  ptype = 1;
  perm = 1;
}

module _ (copied : List ℕ → List ℕ) (f : ℕ) where
  -- The body of the loop of `smem_add_modem_partitions` for the partition `i`.
  unfoldable pub add_modem : Memory → PTable (List ℕ) → ℕ → Option (Memory × PTable (List ℕ))
  unfolding name_token
  add_modem m flash i =
      if m (name_of i) == 0 then some (m, flash) else elim (name_token f m (name_of i)) [
        | none ↦ none
        | some (none, m') ↦ some (m', flash)
        | some (some a, m') ↦ elim (ptable_add copied flash (modem_entry f m' i a)) [
          | none ↦ none
          | some flash' ↦ some (m', flash')
        ]
      ]

  -- The loop, from the partition `i` with `n` left.
  unfoldable pub add_modems : ℕ → ℕ → Memory → PTable (List ℕ) → Option (Memory × PTable (List ℕ))
  unfolding add_modem
  add_modems i zero m flash = some (m, flash)
  add_modems i (suc n) m flash = elim (add_modem m flash i) [
    | none ↦ none
    | some (m', flash') ↦ add_modems (i + 1) n m' flash'
  ]

  -- `smem_add_modem_partitions`
  unfoldable pub smem_add_modem_partitions :
      Memory → PTable (List ℕ) → Option (Memory × PTable (List ℕ))
  unfolding add_modems
  smem_add_modem_partitions m flash =
      if magic_ok m then add_modems 0 (len m) m flash else some (m, flash)
