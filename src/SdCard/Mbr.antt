-- ===== src/SdCard/Mbr.antt =====
-- The search for the boot record in HtcLeoPkg/GPLDrivers/SdCardDxe/SdCardDxe.c.
use htc_leo_pkg.Base.{
  ℕ, zero, suc, ◌+◌, ◌≡◌, ◌⊎◌, refl, ap, ◌∙◌, inl, inr, Bool, true, false, not, ◌&&◌, Option, none,
  some, arith, min, ◌==◌, Bool-cases,
}
use htc_leo_pkg.Base.Search.{first_index, IsFirst, first_index-IsFirst}
use htc_leo_pkg.SdCard.{
  BlockDev, Media, EfiStatus, published, device_error, is_mbr, find_mbr, sd_card_initialize,
}

module _ {B : Type 0} (dev : BlockDev B) (b : B) where
  -- The card after the blocks before the `k`-th are read, and whether the `k`-th is then read and has the mark
  abbrev pub card_after : ℕ → B
  card_after zero = b
  card_after (suc k) = (dev.block_read k 1 (card_after k)).1

  abbrev pub marked : ℕ → Bool
  marked k = let blk = (dev.block_read k 1 (card_after k)).0 in not (blk.0 == 0) && is_mbr dev blk.1

  abbrev pub found_at : ℕ → Option ℕ → Bool × B
  found_at n none = (false, card_after n)
  found_at n (some k) = (true, card_after (suc k))

  find_from :
      (n i : ℕ) → find_mbr dev n i (card_after i) ≡ found_at (i + n) (first_index marked i n)
  unfolding find_mbr
  find_from zero i = ap (λ k. (false, card_after k)) {x = i} {y = i + 0} (omega arith)
  find_from (suc n) i = elim (Bool-cases (marked i)) [
    | inl e ↦ rw e refl
    | inr e ↦ rw e (
        ap (λ k. find_mbr dev n (i + 1) (card_after k)) {x = suc i} {y = i + 1} (omega arith)
        ∙ find_from n (i + 1)
        ∙ ap (λ k. found_at k (first_index marked (i + 1) n)) {x = i + 1 + n} {y = i + suc n}
            (omega arith))
  ]

  -- What the start of the driver comes to, by the status of the installation and the block with the mark
  abbrev pub started : EfiStatus → ℕ → Option ℕ → Option (EfiStatus × Option Media) × B
  started install n none = (none, card_after n)
  started install n (some k) = (
    some (install, published install (record { block_size = dev.blksz; last_block = dev.lba })),
    card_after (suc k),
  )

-- The end of the start, after the search
abbrev ended :
    {B : Type 0} → BlockDev B → EfiStatus → Bool × B → Option (EfiStatus × Option Media) × B
ended dev install (true, b) =
    (some (install, published install (record { block_size = dev.blksz; last_block = dev.lba })), b)
ended dev install (false, b) = (none, b)

ended-found_at :
    {B : Type 0} (dev : BlockDev B) (install : EfiStatus) (b : B) (n : ℕ) (k : Option ℕ)
    → ended dev install (found_at dev b n k) ≡ started dev b install n k
ended-found_at dev install b n none = refl
ended-found_at dev install b n (some k) = refl

initialize-ended :
    {B : Type 0} (dev : BlockDev B) (install : EfiStatus) (b : B)
    → sd_card_initialize dev false install b
      ≡ ended dev install (find_mbr dev (min dev.lba 50 + 1) 0 b)
unfolding sd_card_initialize
initialize-ended dev install b = ground arith

-- With a card the driver reads the blocks from 0 to 50, or to its number of blocks `lba` if that is less, in order up to the first one that
-- is read and ends in 55 AA. If there is one, the driver returns the status of the installation of its protocols,
-- and the card is published with its block size and number exactly if that is a success. If no block has
-- the mark, it never returns. Without a card it gives EFI_DEVICE_ERROR, reads nothing and
-- publishes nothing, whatever an installation would return.
pub sd_card_initialize_lem :
    {B : Type 0} (dev : BlockDev B) (sd_status : Bool) (install : EfiStatus) (b : B)
    → ((sd_status ≡ true)
        × (sd_card_initialize dev sd_status install b ≡ (some (device_error, none), b)))
      ⊎ ((sd_status ≡ false)
          × (k : Option ℕ) × IsFirst (marked dev b) 0 (min dev.lba 50 + 1) k
          × (sd_card_initialize dev sd_status install b
              ≡ started dev b install (min dev.lba 50 + 1) k))
unfolding sd_card_initialize
sd_card_initialize_lem dev true install b = inl (refl, refl)
sd_card_initialize_lem dev false install b =
    let n : ℕ = min dev.lba 50 + 1 in
    let k = first_index (marked dev b) 0 n in
    inr (
      refl,
      k,
      first_index-IsFirst (marked dev b) n 0,
      initialize-ended dev install b
          ∙ ap (ended dev install) (find_from dev b n 0)
          ∙ ap (λ m. ended dev install (found_at dev b m k)) {x = 0 + n} {y = n} (omega arith)
          ∙ ended-found_at dev install b n k,
    )
