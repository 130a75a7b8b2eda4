-- ===== src/Smem/Read.antt =====
-- Reading an entry of the shared memory, HtcLeoPkg/Drivers/SmemDxe/smem.c.
use htc_leo_pkg.Base.{
  ℕ, zero, suc, ◌+◌, ◌*◌, ◌/◌, ◌%◌, ◌^◌, ◌≤◌, ◌<◌, ◌≡◌, ◌≢◌, ◌⊎◌, refl, ◌∙◌, inl, inr, false, arith,
  Bool-cases, ltb, ◌==◌,
}
use htc_leo_pkg.Base.Memory.{Memory, word, write_word, word-write_word, write_word_ne, word-same}
use htc_leo_pkg.Smem.{
  first_valid_type, last_valid_type, copy_words, allocated, offset_of, size_of, bad_type, unaligned,
  smem_read_alloc_entry, smem_read_alloc_entry_offset,
}

module _ (readl : ℕ → ℕ) (words : (a : ℕ) → readl a < 2 ^ 32) where
  copy_words_ne :
      (n dest src : ℕ) (m : Memory) (x : ℕ)
      → (x < dest) ⊎ (dest + 4 * n ≤ x)
      → copy_words readl dest src n m x ≡ m x
  unfolding copy_words
  copy_words_ne zero dest src m x out = refl
  copy_words_ne (suc n) dest src m x out =
      copy_words_ne n (dest + 4) ((src + 4) % 2 ^ 32) (write_word m dest (readl src)) x
        (omega arith)
      ∙ write_word_ne m dest (readl src) x (omega arith)

  word-copy_words :
      (n dest src : ℕ) (m : Memory) (i : ℕ)
      → i < n
      → src < 2 ^ 32
      → word (copy_words readl dest src n m) (dest + 4 * i) ≡ readl ((src + 4 * i) % 2 ^ 32)
  unfolding copy_words
  word-copy_words zero dest src m i lt small = absurd (omega arith)
  word-copy_words (suc n) dest src m zero lt small =
      let after : Memory = write_word m dest (readl src) in
      let at : dest + 4 * zero ≡ dest = omega arith in
      let from : (src + 4 * zero) % 2 ^ 32 ≡ src = omega arith in
      rw at (
        rw from (
          word-same after (copy_words readl (dest + 4) ((src + 4) % 2 ^ 32) n after) dest
            (λ x lo hi. copy_words_ne n (dest + 4) ((src + 4) % 2 ^ 32) after x (omega arith))
          ∙ word-write_word m dest (readl src) (words src)))
  word-copy_words (suc n) dest src m (suc i) lt small =
      let at : dest + 4 * suc i ≡ dest + 4 + 4 * i = omega arith in
      let from : (src + 4 * suc i) % 2 ^ 32 ≡ ((src + 4) % 2 ^ 32 + 4 * i) % 2 ^ 32 = omega arith in
      rw at (
        rw from (
          word-copy_words n (dest + 4) ((src + 4) % 2 ^ 32) (write_word m dest (readl src)) i
            (omega arith) (omega arith)))

module _ (readl : ℕ → ℕ) (base type buf len : ℕ) where
  -- Buffer and length are aligned, and the entry of a valid type is allocated.
  pub record IsAllocated : Type 0 where
    pub whole_words : len % 4 ≡ 0
    pub aligned : buf % 4 ≡ 0
    pub from_first : first_valid_type ≤ type
    pub to_last : type ≤ last_valid_type
    pub in_use : allocated readl base type ≢ 0

  -- It also holds the length, rounded up to eight.
  pub record IsReadable : Type 0 where
    pub is_allocated : IsAllocated
    pub fits : (len + 7) / 8 * 8 ≤ size_of readl base type

  -- The words from the address `src` on stand in the buffer, and nothing else has changed.
  pub record Copied (src : ℕ) (m m' : Memory) : Type 0 where
    pub words : (i : ℕ) → i < len / 4 → word m' (buf + 4 * i) ≡ readl ((src + 4 * i) % 2 ^ 32)
    pub frame : (x : ℕ) → (x < buf) ⊎ (buf + len ≤ x) → m' x ≡ m x

  -- What a read that may fail has done: the status is 1, nothing is written and the condition is
  -- false, or it is 0, the condition holds and the words from `src` are copied.
  abbrev pub Reads : Type 0 → ℕ → Memory → ℕ × Memory → Type 0
  Reads cond src m r = ((r.0 ≡ 1) × (r.1 ≡ m) × ¬ cond) ⊎ ((r.0 ≡ 0) × cond × Copied src m r.1)

  refused : {cond : Type 0} (src : ℕ) (m : Memory) → ¬ cond → Reads cond src m (1, m)
  refused src m fails = inl (refl, refl, fails)

module _ (readl : ℕ → ℕ) (words : (a : ℕ) → readl a < 2 ^ 32) (base type buf len : ℕ) where
  copy_words-Copied :
      (src : ℕ) (m : Memory)
      → src < 2 ^ 32
      → len % 4 ≡ 0
      → Copied readl base type buf len src m (copy_words readl buf src (len / 4) m)
  copy_words-Copied src m small whole = record {
    words = λ i lt. word-copy_words readl words (len / 4) buf src m i lt small;
    frame = λ x out. copy_words_ne readl words (len / 4) buf src m x (omega arith);
  }

  tests-IsAllocated :
      unaligned len buf ≡ false
      → bad_type type ≡ false
      → (allocated readl base type == 0) ≡ false
      → IsAllocated readl base type buf len
  tests-IsAllocated aligned good used = record {
    whole_words = ground arith;
    aligned = ground arith;
    from_first = ground arith;
    to_last = ground arith;
    in_use = ground arith;
  }

  -- `smem_read_alloc_entry` fails, with the status 1 and nothing written, exactly unless buffer and length
  -- are aligned to words, the type is valid, its entry allocated, and the length rounded up
  -- to eight within the entry's size; then it returns 0, the buffer holds the words of the
  -- entry, and nothing else has changed. The length need not be a multiple of eight: any multiple of four will do.
  pub smem_read_alloc_entry-Reads :
      (m : Memory)
      → Reads readl base type buf len
          (IsReadable readl base type buf len)
          ((base + offset_of readl base type) % 2 ^ 32)
          m
          (smem_read_alloc_entry readl base type buf len m)
  unfolding smem_read_alloc_entry
  smem_read_alloc_entry-Reads m =
      let src = (base + offset_of readl base type) % 2 ^ 32 in
      let bad = refused readl base type buf len {cond = IsReadable readl base type buf len} src m in
      elim (Bool-cases (unaligned len buf)) [
        | inl e ↦ rw e (bad (λ r. ground arith))
        | inr aligned ↦ rw aligned (elim (Bool-cases (bad_type type)) [
          | inl e ↦ rw e (bad (λ r. ground arith))
          | inr good ↦ rw good (elim (Bool-cases (allocated readl base type == 0)) [
            | inl e ↦ rw e (bad (λ r. ground arith))
            | inr used ↦
                rw used (elim (Bool-cases (ltb (size_of readl base type) ((len + 7) / 8 * 8))) [
                  | inl e ↦ rw e (bad (λ r. ground arith))
                  | inr fits ↦ rw fits (
                      inr (
                        refl,
                        record {
                          is_allocated = tests-IsAllocated aligned good used;
                          fits = ground arith;
                        },
                        copy_words-Copied src m (omega arith)
                            (tests-IsAllocated aligned good used).whole_words,
                      ))
                ])
          ])
        ])
      ]

  -- `smem_read_alloc_entry_offset` fails, with the status 1 and nothing written, exactly unless buffer and
  -- length are aligned to words, the type is valid and its entry allocated. Then it returns 0 and
  -- the buffer holds the words from the offset on, whatever the size of the entry is.
  pub smem_read_alloc_entry_offset-Reads :
      (offset : ℕ) (m : Memory)
      → Reads readl base type buf len
          (IsAllocated readl base type buf len)
          ((base + offset_of readl base type + offset) % 2 ^ 32)
          m
          (smem_read_alloc_entry_offset readl base type buf len offset m)
  unfolding smem_read_alloc_entry_offset
  smem_read_alloc_entry_offset-Reads offset m =
      let src = (base + offset_of readl base type + offset) % 2 ^ 32 in
      let bad =
        refused readl base type buf len {cond = IsAllocated readl base type buf len} src m in
      elim (Bool-cases (unaligned len buf)) [
        | inl e ↦ rw e (bad (λ r. ground arith))
        | inr aligned ↦ rw aligned (elim (Bool-cases (bad_type type)) [
          | inl e ↦ rw e (bad (λ r. ground arith))
          | inr good ↦ rw good (elim (Bool-cases (allocated readl base type == 0)) [
            | inl e ↦ rw e (bad (λ r. ground arith))
            | inr used ↦ rw used (
                inr (
                  refl,
                  tests-IsAllocated aligned good used,
                  copy_words-Copied src m (omega arith)
                      (tests-IsAllocated aligned good used).whole_words,
                ))
          ])
        ])
      ]
