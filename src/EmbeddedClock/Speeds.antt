-- ===== src/EmbeddedClock/Speeds.antt =====
-- The speeds of `CotullaClkSetRate`, HtcLeoPkg/GPLDrivers/ClockDxe/ClockDxe.c.
use htc_leo_pkg.Base.{
  ℕ, suc, ◌+◌, ◌^◌, ◌≤◌, ◌<◌, ◌≡◌, refl, ap, Bool, true, false, List, [], ◌∷◌, Option, none, some,
  arith, length, ltb, ◌==◌, if◌then◌else◌,
}
use htc_leo_pkg.EmbeddedClock.{speed, speed_above, steps, choose}

-- The steps below a rate
abbrev pub count_below : ℕ → List ℕ → ℕ
count_below rate [] = 0
count_below rate (t ∷ ts) = (if ltb t rate then 1 else 0) + count_below rate ts

-- Steps that fall, all below a number
abbrev Falls : ℕ → List ℕ → Type 0
Falls top [] = Unit
Falls top (t ∷ ts) = (t < top) × Falls t ts

abbrev AllFall : Option (List ℕ) → Type 0
AllFall none = Unit
AllFall (some ts) = Falls (2 ^ 32) ts

count_below-le : (rate : ℕ) (ts : List ℕ) → count_below rate ts ≤ length ts
count_below-le rate [] = omega arith
count_below-le rate (t ∷ ts) = ground (arith, count_below-le rate ts)

count_below-all :
    (rate top : ℕ) (ts : List ℕ) → top < rate → Falls top ts → count_below rate ts ≡ length ts
count_below-all rate top [] lt falls = refl
count_below-all rate top (t ∷ ts) lt (below, falls) = ground (arith, count_below-all rate t ts)

count_below_mono :
    (rate rate' : ℕ) (ts : List ℕ) → rate ≤ rate' → count_below rate ts ≤ count_below rate' ts
count_below_mono rate rate' [] le = omega arith
count_below_mono rate rate' (t ∷ ts) le = ground (arith, count_below_mono rate rate' ts)

speed_above-count :
    (rate top : ℕ) (ts : List ℕ) → Falls top ts → speed_above rate ts ≡ suc (count_below rate ts)
speed_above-count rate top [] falls = refl
speed_above-count rate top (t ∷ ts) (below, falls) =
    ground (arith, count_below-all rate t ts, speed_above-count rate t ts falls)

or_falls : (b : Bool) (x y : Option (List ℕ)) → AllFall x → AllFall y → AllFall (if b then x else y)
or_falls true x y f g = f
or_falls false x y f g = g

steps-AllFall : (id : ℕ) → AllFall (steps id)
steps-AllFall id = or_falls (id == 10) _ _ (omega arith) (
    or_falls (id == 11) _ _ (omega arith) (
      or_falls (id == 87) _ _ (omega arith) (
        or_falls (id == 34) _ _ (omega arith) (
          or_falls (id == 35) _ _ (omega arith) (
            or_falls (id == 5) _ _ (omega arith) (
              or_falls (id == 45) _ _ (omega arith) (
                or_falls (id == 19) _ _ (omega arith)
                  (or_falls (id == 21) _ _ (omega arith) tt))))))))

choose_from :
    (id rate : ℕ) (o : Option (List ℕ)) {ts : List ℕ}
    → steps id ≡ o
    → AllFall o
    → o ≡ some ts
    → choose id rate ≡ speed (suc (count_below rate ts))
unfolding choose
choose_from id rate none e falls is = cc
choose_from id rate (some us) {ts} e falls is =
    let same : us ≡ ts = cc is in
    rw (e, choose) (ap speed (rw (← same) (speed_above-count rate (2 ^ 32) us falls)))

-- A clock whose speeds are steps gets the speed 1 and one more for each step that the rate is above, so never a
-- lower speed for a higher rate.
pub choose-steps :
    (id rate : ℕ) {ts : List ℕ}
    → steps id ≡ some ts
    → (choose id rate ≡ speed (suc (count_below rate ts)))
      × (count_below rate ts ≤ length ts)
      × ((rate' : ℕ) → rate ≤ rate' → count_below rate ts ≤ count_below rate' ts)
choose-steps id rate {ts} is = (
  choose_from id rate (steps id) refl (steps-AllFall id) is,
  count_below-le rate ts,
  λ rate' le. count_below_mono rate rate' ts le,
)
