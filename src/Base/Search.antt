-- ===== src/Base/Search.antt =====
-- The first index of a range that passes a test.
use Prim.Native.Nat.{ℕ, zero, suc, ◌+◌, ◌≤◌, ◌<◌}
use mathlib.Core.Path.{◌≡◌}
use mathlib.Core.Logic.{inl, inr}
use mathlib.Core.Bool.{Bool, true, false}
use mathlib.Core.Option.{Option, none, some}
use native.Mathlib.Omega.{arith}
use htc_leo_pkg.Base.Tests.{Bool-cases, ◌==◌, if◌then◌else◌}

-- Of the `n` indices from `i` on, `some k` is the first that passes, and `none` says that none does.
abbrev pub IsFirst : (ℕ → Bool) → ℕ → ℕ → Option ℕ → Type 0
IsFirst test i n none = (j : ℕ) → i ≤ j → j < i + n → test j ≡ false
IsFirst test i n (some k) =
    (i ≤ k) × (k < i + n) × (test k ≡ true) × ((j : ℕ) → i ≤ j → j < k → test j ≡ false)

abbrev pub first_index : (ℕ → Bool) → ℕ → ℕ → Option ℕ
first_index test i zero = none
first_index test i (suc n) = if test i then some i else first_index test (i + 1) n

module _ (test : ℕ → Bool) where
  before :
      (i top : ℕ)
      → test i ≡ false
      → ((j : ℕ) → i + 1 ≤ j → j < top → test j ≡ false)
      → (j : ℕ) → i ≤ j
      → j < top
      → test j ≡ false
  before i top here later j lo hi = elim (Bool-cases (i == j)) [
    | inl e ↦ let at : j ≡ i = ground arith in rw at here
    | inr ne ↦ later j (ground arith) hi
  ]

  pub IsFirst-later :
      (i n : ℕ) (o : Option ℕ)
      → test i ≡ false
      → IsFirst test (i + 1) n o
      → IsFirst test i (suc n) o
  IsFirst-later i n none here h = before i (i + suc n) here (λ j lo hi. h j lo (omega arith))
  IsFirst-later i n (some k) here (lo, hi, passes, none_before) =
      (omega arith, omega arith, passes, before i k here none_before)

  pub first_index-IsFirst : (n i : ℕ) → IsFirst test i n (first_index test i n)
  first_index-IsFirst zero i = λ j lo hi. absurd (omega arith)
  first_index-IsFirst (suc n) i = elim (Bool-cases (test i)) [
    | inl e ↦ rw e (omega arith, omega arith, e, λ j lo hi. absurd (omega arith))
    | inr e ↦
        rw e (IsFirst-later i n (first_index test (i + 1) n) e (first_index-IsFirst n (i + 1)))
  ]
