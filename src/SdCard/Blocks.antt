-- ===== src/SdCard/Blocks.antt =====
-- Reading and writing blocks, HtcLeoPkg/GPLDrivers/SdCardDxe/SdCardDxe.c.
use htc_leo_pkg.Base.{
  ℕ, ◌*◌, ◌/◌, ◌%◌, ◌<◌, ◌≡◌, ◌≢◌, ◌⊎◌, ◌↔◌, refl, inl, inr, Bool, true, false, List, arith, ◌==◌,
  Bool-cases, ==_iff,
}
use native.Mathlib.Nat.{div-add-mod'}
use htc_leo_pkg.SdCard.{BlockDev, Media, EfiStatus, success, ulong, mmchs_read_blocks}

-- A request that reaches the card: a buffer of whole blocks, and one at least
abbrev pub IsRequest : Media → ℕ → Bool → Type 0
IsRequest media size buffer = (size % media.block_size ≡ 0) × (buffer ≡ true) × (0 < size)

-- What a read comes to, in its two cases
abbrev pub Sent :
    {B : Type 0} → BlockDev B → Media → ℕ → ℕ → Bool → B → (EfiStatus × List ℕ) × B → Type 0
Sent dev media lba size buffer b r =
    (n : ℕ) × IsRequest media size buffer
    × (n * media.block_size ≡ size)
    × (r.1 ≡ (dev.block_read (ulong lba) n b).1)
    × (r.0.1 ≡ (dev.block_read (ulong lba) n b).0.1)
    × ((r.0.0 ≡ success) ↔ ((dev.block_read (ulong lba) n b).0.0 ≢ 0))

abbrev pub Kept : {B : Type 0} → ℕ → Bool → B → (EfiStatus × List ℕ) × B → Type 0
Kept size buffer b r = (r.1 ≡ b) × ((r.0.0 ≡ success) ↔ ((size ≡ 0) × (buffer ≡ true)))

module _ {B : Type 0} (dev : BlockDev B) (media : Media) (lba size : ℕ) (b : B) where
  read_null :
      (size % media.block_size == 0) ≡ true
      → Kept size false b (mmchs_read_blocks dev media lba size false b)
  unfolding mmchs_read_blocks
  read_null whole = rw whole (refl, (λ h. cc h, λ h. cc (h.1)))

  read_empty :
      (size % media.block_size == 0) ≡ true
      → (size == 0) ≡ true
      → Kept size true b (mmchs_read_blocks dev media lba size true b)
  unfolding mmchs_read_blocks
  read_empty whole none_left =
      rw whole (rw none_left (refl, (λ h. ((==_iff size 0).0 none_left, refl), λ h. refl)))

  read-Sent :
      (size % media.block_size == 0) ≡ true
      → (size == 0) ≡ false
      → Sent dev media lba size true b (mmchs_read_blocks dev media lba size true b)
  unfolding mmchs_read_blocks
  read-Sent whole more =
      let n : ℕ = size / media.block_size in
      let even : size % media.block_size ≡ 0 = (==_iff _ _).0 whole in
      let ret : ℕ = (dev.block_read (ulong lba) n b).0.0 in
      (
        n,
        (even, refl, ground arith),
        omega (arith, div-add-mod' size media.block_size),
        elim (Bool-cases (ret == 0)) [
          | inl e ↦ rw whole (rw more (rw e refl))
          | inr e ↦ rw whole (rw more (rw e refl))
        ],
        elim (Bool-cases (ret == 0)) [
          | inl e ↦ rw whole (rw more (rw e refl))
          | inr e ↦ rw whole (rw more (rw e refl))
        ],
        elim (Bool-cases (ret == 0)) [
          | inl e ↦ rw whole (rw more (rw e (λ h. cc h, λ h. absurd (h ((==_iff ret 0).0 e)))))
          | inr e ↦ rw whole (rw more (rw e (λ h. λ z. cc (e, (==_iff ret 0).1 z), λ h. refl)))
        ],
      )

  read_ragged :
      (buffer : Bool)
      → (size % media.block_size == 0) ≡ false
      → Kept size buffer b (mmchs_read_blocks dev media lba size buffer b)
  unfolding mmchs_read_blocks
  read_ragged buffer ragged =
      let full : size ≢ 0 = λ e. grind (arith, e, ragged) in
      rw ragged (refl, (λ h. cc h, λ h. absurd (full h.0)))

-- A read that reaches the card asks it for as many blocks as the buffer is long, from the number of
-- the first one modulo 2 ^ 32, and succeeds exactly when the card reports some. Any other read leaves the card
-- alone, and succeeds only with an empty buffer.
pub mmchs_read_blocks_lem :
    {B : Type 0} (dev : BlockDev B) (media : Media) (lba size : ℕ) (buffer : Bool) (b : B)
    → let r = mmchs_read_blocks dev media lba size buffer b in
      Sent dev media lba size buffer b r ⊎ Kept size buffer b r
mmchs_read_blocks_lem dev media lba size false b =
    elim (Bool-cases (size % media.block_size == 0)) [
      | inr ragged ↦ inr (read_ragged dev media lba size b false ragged)
      | inl whole ↦ inr (read_null dev media lba size b whole)
    ]
mmchs_read_blocks_lem dev media lba size true b = elim (Bool-cases (size % media.block_size == 0)) [
  | inr ragged ↦ inr (read_ragged dev media lba size b true ragged)
  | inl whole ↦ elim (Bool-cases (size == 0)) [
    | inl none_left ↦ inr (read_empty dev media lba size b whole none_left)
    | inr more ↦ inl (read-Sent dev media lba size b whole more)
  ]
]
