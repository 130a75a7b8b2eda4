-- ===== src/SmemPtable/Modem.antt =====
-- smem_add_modem_partitions of HtcLeoPkg/Drivers/SmemPtableDxe/smem_ptable.c: the partitions that it
-- adds to a table.
use htc_leo_pkg.Base.{
  ℕ, zero, suc, ◌+◌, ◌*◌, ◌≤◌, ◌<◌, ◌≡◌, ◌≢◌, ◌⊎◌, refl, sym, ap, ◌∙◌, inl, inr, true, List, [],
  ◌∷◌, Option, none, some, arith, length, ==_ne, Option-cases,
}
use htc_leo_pkg.Base.Memory.{Memory, Holds, Holds-frame, text_at, text_at-Holds, word-same}
use htc_leo_pkg.PTable.{PtEntry, PTable, ptable_add}
use htc_leo_pkg.SmemPtable.{
  colon, name_of, start_of, part_size_of, len, magic_ok, modem_entry, name_token, add_modem,
  add_modems, smem_add_modem_partitions,
}
use htc_leo_pkg.SmemPtable.Names.{final_token, LastIs, name_token-LastIs}

-- The last token of a name.
abbrev pub last_text : List ℕ → Option (List ℕ)
last_text cs = final_token colon none [] cs

-- The entry for partition `i` under the name `w`.
abbrev pub named_entry : Memory → ℕ → List ℕ → PtEntry (List ℕ)
named_entry m i w = record {
  name = w;
  start = start_of m i;
  size = part_size_of m i;
  flags = 0;
  ptype = 1;
  perm = 1;
}

-- One entry for each of the `n` partitions from `i` on whose name has a token.
abbrev pub prepend :
    Memory → ℕ → Option (List ℕ) → List (PtEntry (List ℕ)) → List (PtEntry (List ℕ))
prepend m i none es = es
prepend m i (some w) es = named_entry m i w ∷ es

abbrev pub modem_entries : Memory → (ℕ → List ℕ) → ℕ → ℕ → List (PtEntry (List ℕ))
modem_entries m names i zero = []
modem_entries m names i (suc n) =
    prepend m i (last_text (names i)) (modem_entries m names (i + 1) n)

-- Adding entries one after the other, each to a table that is not full.
abbrev pub ptable_adds :
    (List ℕ → List ℕ) → PTable (List ℕ) → List (PtEntry (List ℕ)) → Option (PTable (List ℕ))
ptable_adds copied t [] = some t
ptable_adds copied t (e ∷ es) = elim (ptable_add copied t e) [
  | none ↦ none
  | some t' ↦ ptable_adds copied t' es
]

-- The partitions from `i` to `top` have the names, which end within their 16 characters.
abbrev pub Named : Memory → (ℕ → List ℕ) → ℕ → ℕ → Type 0
Named m names i top =
    (j : ℕ) → i ≤ j → j < top → Holds m (name_of j) (names j) × (length (names j) ≤ 15)

-- The run ends as the adding of the entries does.
abbrev pub Agrees : Option (PTable (List ℕ)) → Option (Memory × PTable (List ℕ)) → Type 0
Agrees none r = r ≡ none
Agrees (some t) r = (m' : Memory) × (r ≡ some (m', t))

prepend_same :
    (m m' : Memory) (i : ℕ) (o : Option (List ℕ)) (es : List (PtEntry (List ℕ)))
    → start_of m' i ≡ start_of m i
    → part_size_of m' i ≡ part_size_of m i
    → prepend m' i o es ≡ prepend m i o es
prepend_same m m' i none es start size = refl
prepend_same m m' i (some w) es start size = cc

entries_same :
    (m m' : Memory) (names : ℕ → List ℕ) (n i : ℕ)
    → ((x : ℕ) → 16 + 28 * i ≤ x → m' x ≡ m x)
    → modem_entries m' names i n ≡ modem_entries m names i n
entries_same m m' names zero i same = refl
entries_same m m' names (suc n) i same =
    let rest = entries_same m m' names n (i + 1) (λ x le. same x (omega arith)) in
    let start : start_of m' i ≡ start_of m i =
      word-same m m' (32 + 28 * i) (λ x lo hi. same x (omega arith)) in
    let size : part_size_of m' i ≡ part_size_of m i =
      word-same m m' (36 + 28 * i) (λ x lo hi. same x (omega arith)) in
    ap (prepend m' i (last_text (names i))) rest
    ∙ prepend_same m m' i (last_text (names i)) (modem_entries m names (i + 1) n) start size

module _ (copied : List ℕ → List ℕ) (f : ℕ) (fuel : 16 < f) where
  -- What the body of the loop does for the partition `i`.
  abbrev AddsOne :
      Memory → PTable (List ℕ) → ℕ → Option (List ℕ) → Option (Memory × PTable (List ℕ)) → Type 0
  AddsOne m flash i none r =
      (m' : Memory) × (r ≡ some (m', flash))
      × ((x : ℕ) → (x < name_of i) ⊎ (name_of i + 15 < x) → m' x ≡ m x)
  AddsOne m flash i (some w) r =
      (m' : Memory) × (r ≡ elim (ptable_add copied flash (named_entry m i w)) [
        | none ↦ none
        | some t ↦ some (m', t)
      ])
      × ((x : ℕ) → (x < name_of i) ⊎ (name_of i + 15 < x) → m' x ≡ m x)

  modem_entry-named_entry :
      (m m' : Memory) (i a : ℕ) (w : List ℕ)
      → Holds m' a w
      → length w < f
      → ((x : ℕ) → (x < name_of i) ⊎ (name_of i + 15 < x) → m' x ≡ m x)
      → modem_entry f m' i a ≡ named_entry m i w
  modem_entry-named_entry m m' i a w holds lt same =
      let text : text_at f m' a ≡ w = text_at-Holds f m' a w holds lt in
      let start : start_of m' i ≡ start_of m i =
        word-same m m' (32 + 28 * i) (λ x lo hi. same x (omega arith)) in
      let size : part_size_of m' i ≡ part_size_of m i =
        word-same m m' (36 + 28 * i) (λ x lo hi. same x (omega arith)) in
      cc

  add_modem_from :
      (m : Memory) (flash : PTable (List ℕ)) (i : ℕ) (cs : List ℕ) (p : Option ℕ) (m' : Memory)
      (o : Option (List ℕ))
      → m (name_of i) ≢ 0
      → length cs ≤ 15
      → name_token f m (name_of i) ≡ some (p, m')
      → LastIs m (name_of i) (name_of i + length cs) o (p, m')
      → AddsOne m flash i o (add_modem copied f m flash i)
  unfolding add_modem
  add_modem_from m flash i cs p m' none ne short run last = (
    m',
    rw (==_ne (m (name_of i)) 0 ne) (rw (run, add_modem) (rw last.0 refl)),
    λ x out. last.1 x (omega arith),
  )
  add_modem_from m flash i cs p m' (some w) ne short run (a, at, holds, lo, hi, frame) = (
    m',
    rw (==_ne (m (name_of i)) 0 ne) (
        rw (run, add_modem)
          (rw at (
            rw
              (modem_entry-named_entry m m' i a w holds (omega arith)
                (λ x out. frame x (omega arith)))
              refl))),
    λ x out. frame x (omega arith),
  )

  add_modem_lem :
      (m : Memory) (flash : PTable (List ℕ)) (i : ℕ) (cs : List ℕ)
      → Holds m (name_of i) cs
      → length cs ≤ 15
      → AddsOne m flash i (last_text cs) (add_modem copied f m flash i)
  add_modem_lem m flash i [] h short = unfold add_modem in (m, rw h refl, λ x out. refl)
  add_modem_lem m flash i (c ∷ cs) h short =
      let (r, run, last) = name_token-LastIs f m (name_of i) (c ∷ cs) h (omega arith) in
      add_modem_from m flash i (c ∷ cs) r.0 r.1 (last_text (c ∷ cs)) (λ z. h.1 (sym h.0 ∙ z)) short
        run last

  add_modems_lem :
      (names : ℕ → List ℕ) (n : ℕ) (m : Memory) (flash : PTable (List ℕ)) (i : ℕ)
      → Named m names i (i + n)
      → Agrees
          (ptable_adds copied flash (modem_entries m names i n))
          (add_modems copied f i n m flash)
  unfolding add_modems
  add_modems_lem names zero m flash i named = (m, refl)
  add_modems_lem names (suc n) m flash i named =
      let (holds, short) = named i (omega arith) (omega arith) in
      let step = add_modem_lem m flash i (names i) holds short in
      let go : (m' : Memory) (t : PTable (List ℕ))
          → ((x : ℕ) → (x < name_of i) ⊎ (name_of i + 15 < x) → m' x ≡ m x)
          → Agrees (ptable_adds copied t (modem_entries m names (i + 1) n))
              (add_modems copied f (i + 1) n m' t) =
        λ m' t frame. rw (sym (entries_same m m' names n (i + 1) (λ x le. frame x (omega arith)))) (
          add_modems_lem names n m' t (i + 1) (λ j lo hi.
            let (h, s) = named j (omega arith) (omega arith) in
            (Holds-frame m m' (name_of j) (names j) (λ x l u. frame x (omega arith)) h, s))) in
      elim (Option-cases (last_text (names i))) [
        | inl e ↦
            let (m', run, frame) = (rw e at step) in rw e (rw (run, add_modems) (go m' flash frame))
        | inr (w, e) ↦
            let (m', run, frame) = (rw e at step) in
            rw e (elim (Option-cases (ptable_add copied flash (named_entry m i w))) [
              | inl full ↦ rw (full, ptable_adds) (rw ((rw full at run), add_modems) refl)
              | inr (t, added) ↦
                  rw (added, ptable_adds) (rw ((rw added at run), add_modems) (go m' t frame))
            ])
      ]

  -- For a table with its magic numbers, whose names end within their 16 characters, and with more than 16
  -- rounds for each loop over a name, `smem_add_modem_partitions` adds to the flash table, in their
  -- order, one modem partition for each partition whose name is more than colons: under the last
  -- token of that name, with its start and its size. It fails exactly if the table gets full.
  pub smem_add_modem_partitions_lem :
      (names : ℕ → List ℕ) (m : Memory) (flash : PTable (List ℕ))
      → magic_ok m ≡ true
      → Named m names 0 (len m)
      → Agrees
          (ptable_adds copied flash (modem_entries m names 0 (len m)))
          (smem_add_modem_partitions copied f m flash)
  unfolding smem_add_modem_partitions
  smem_add_modem_partitions_lem names m flash magic named =
      rw magic (add_modems_lem names (len m) m flash 0 (λ j lo hi. named j lo (omega arith)))
