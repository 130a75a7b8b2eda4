-- ===== src/PTable.antt =====
-- HtcLeoPkg/Library/PTableLib/ptable.c: the partition table. `same` is strcmp being 0, and `copied`
-- is what strlcpy leaves of a name in MAX_PTENTRY_NAME characters; neither is in the package.
pub mod Lookup
use htc_leo_pkg.Base.{
  ℕ, zero, suc, ◌+◌, Bool, true, false, Option, none, some, ltb, leb, ◌==◌, if◌then◌else◌,
}
use htc_leo_pkg.Base.Int.{ℤ, pos, negsuc}

-- `struct ptentry`, over a type of names
pub record PtEntry (N : Type 0) : Type 0 where
  pub name : N
  pub start : ℕ
  pub size : ℕ
  pub flags : ℕ
  pub ptype : ℕ
  pub perm : ℕ

-- `struct ptable`: the array is a function of the index.
pub record PTable (N : Type 0) : Type 0 where
  pub parts : ℕ → PtEntry N
  pub count : ℕ

abbrev pub max_ptable_parts : ℕ
max_ptable_parts = 32

module _ {N : Type 0} where
  abbrev pub put_part : (ℕ → PtEntry N) → ℕ → PtEntry N → ℕ → PtEntry N
  put_part parts i e j = if j == i then e else parts j

  -- `ptable_get`
  unfoldable pub ptable_get : PTable N → ℕ → Option (PtEntry N)
  ptable_get t n = if leb t.count n then none else some (t.parts n)

-- `ptable_add`; `none` is its assertion that the table is not full.
unfoldable pub ptable_add : {N : Type 0} → (N → N) → PTable N → PtEntry N → Option (PTable N)
ptable_add copied t e =
    if ltb t.count max_ptable_parts
    then some (record {
      parts = put_part t.parts t.count (record e { name = copied e.name });
      count = t.count + 1;
    })
    else none

module _ {N : Type 0} (same : N → N → Bool) where
  -- The loop of `ptable_find`, from the index `i`, with `n` entries left.
  unfoldable pub find_from : (ℕ → PtEntry N) → N → ℕ → ℕ → Option (PtEntry N)
  find_from parts name i zero = none
  find_from parts name i (suc n) =
      let rest = find_from parts name (i + 1) n in
      if same (parts i).name name then some (parts i) else rest

  -- `ptable_find`
  unfoldable pub ptable_find : PTable N → N → Option (PtEntry N)
  unfolding find_from
  ptable_find t name = find_from t.parts name 0 t.count

  -- The loop of `ptable_get_index`
  unfoldable pub index_from : (ℕ → PtEntry N) → N → ℕ → ℕ → ℤ
  index_from parts name i zero = negsuc 0
  index_from parts name i (suc n) =
      let rest = index_from parts name (i + 1) n in if same (parts i).name name then pos i else rest

  -- `ptable_get_index`
  unfoldable pub ptable_get_index : PTable N → N → ℤ
  unfolding index_from
  ptable_get_index t name = index_from t.parts name 0 t.count
