-- ===== src/PTable/Lookup.antt =====
-- Lookup in the partition table of HtcLeoPkg/Library/PTableLib/ptable.c.
use htc_leo_pkg.Base.{
  ℕ, zero, suc, ◌+◌, ◌<◌, ◌≡◌, ◌≢◌, refl, sym, ap, ◌∙◌, Bool, Option, none, some, arith,
  if◌then◌else◌, ==_iff, ==_ne, leb-false, lt→ltb, if-both,
}
use htc_leo_pkg.Base.Int.{ℤ, pos, negsuc}
use htc_leo_pkg.PTable.{
  PtEntry, PTable, max_ptable_parts, put_part, ptable_get, ptable_add, find_from, ptable_find,
  index_from, ptable_get_index,
}

module _ {N : Type 0} where
  -- The entry that the result of `ptable_get_index` stands for.
  abbrev pub part_at : PTable N → ℤ → Option (PtEntry N)
  part_at t (pos i) = ptable_get t i
  part_at t (negsuc i) = none

  ptable_get-lt : (t : PTable N) (i : ℕ) → i < t.count → ptable_get t i ≡ some (t.parts i)
  unfolding ptable_get
  ptable_get-lt t i h = rw (leb-false t.count i h) refl

  -- The first of two answers.
  abbrev pub first : Option (PtEntry N) → Option (PtEntry N) → Option (PtEntry N)
  first none y = y
  first (some x) y = some x

  put_part_self :
      (parts : ℕ → PtEntry N) (i j : ℕ) (e : PtEntry N) → j ≡ i → put_part parts i e j ≡ e
  put_part_self parts i j e h = rw ((==_iff j i).1 h) refl

  put_part_ne :
      (parts : ℕ → PtEntry N) (i j : ℕ) (e : PtEntry N) → j ≢ i → put_part parts i e j ≡ parts j
  put_part_ne parts i j e h = rw (==_ne j i h) refl

  -- An entry with its name as it is copied.
  abbrev pub stored : (N → N) → PtEntry N → PtEntry N
  stored copied e = record e { name = copied e.name }

module _ {N : Type 0} (same : N → N → Bool) where
  find_from-index_from :
      (t : PTable N) (name : N) (n i : ℕ)
      → i + n ≡ t.count
      → find_from same t.parts name i n ≡ part_at t (index_from same t.parts name i n)
  unfolding find_from index_from
  find_from-index_from t name zero i e = refl
  find_from-index_from t name (suc n) i e =
      if-both (λ (o : Option (PtEntry N)) (z : ℤ). o ≡ part_at t z) (same (t.parts i).name name)
        (sym (ptable_get-lt t i (omega arith)))
        (find_from-index_from t name n (i + 1) (omega arith))

  -- `ptable_find` and `ptable_get_index` agree: the entry found is the one at the index found, and no
  -- entry is found exactly when the index is -1.
  pub ptable_find-ptable_get_index :
      (t : PTable N) (name : N) → ptable_find same t name ≡ part_at t (ptable_get_index same t name)
  unfolding ptable_find ptable_get_index
  ptable_find-ptable_get_index t name = find_from-index_from t name t.count 0 (omega arith)

  -- What an entry gives for a name.
  abbrev pub answer : PtEntry N → N → Option (PtEntry N)
  answer e name = if same e.name name then some e else none

  find_from-put_part :
      (parts : ℕ → PtEntry N) (e : PtEntry N) (name : N) (c n i : ℕ)
      → i + n ≡ c
      → find_from same (put_part parts c e) name i (suc n)
        ≡ first (find_from same parts name i n) (answer e name)
  unfolding find_from
  find_from-put_part parts e name c zero i h =
      ap (λ p. answer p name) (put_part_self parts c i e (omega arith))
  find_from-put_part parts e name c (suc n) i h =
      ap
        (λ (p : PtEntry N).
          if same p.name name
          then some p
          else find_from same (put_part parts c e) name (i + 1) (suc n))
        (put_part_ne parts c i e (omega arith))
      ∙ if-both (λ (o z : Option (PtEntry N)). o ≡ first z (answer e name))
          (same (parts i).name name) refl
          (find_from-put_part parts e name c n (i + 1) (omega arith))

  -- Adding an entry to a table that is not full succeeds, and every name is then looked up as before,
  -- with the new entry, under its name as it was copied, for a name that was not found.
  pub ptable_find-ptable_add :
      (copied : N → N) (t : PTable N) (e : PtEntry N) (name : N)
      → t.count < max_ptable_parts
      → (t' : PTable N) × (ptable_add copied t e ≡ some t')
        × (t'.count ≡ t.count + 1)
        × (ptable_find same t' name
            ≡ first (ptable_find same t name) (answer (stored copied e) name))
  unfolding ptable_add ptable_find
  ptable_find-ptable_add copied t e name h = (
    record { parts = put_part t.parts t.count (stored copied e); count = t.count + 1 },
    rw (lt→ltb t.count max_ptable_parts h) refl,
    refl,
    ap (λ n. find_from same (put_part t.parts t.count (stored copied e)) name 0 n) {x = t.count + 1}
          {y = suc t.count} (omega arith)
        ∙ find_from-put_part t.parts (stored copied e) name t.count t.count 0 (omega arith),
  )
