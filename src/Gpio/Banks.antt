-- ===== src/Gpio/Banks.antt =====
-- The table of HtcLeoPkg/Drivers/GpioDxe/GpioDxe.c: every pin is a bit of one register word of its own.
use htc_leo_pkg.Base.{
  ℕ, suc, ◌+◌, ◌-◌, ◌≤◌, ◌<◌, ◌≡◌, refl, ◌∙◌, Bool, true, false, ◌&&◌, List, [], ◌∷◌, Option, none,
  some, arith, length, get_or, leb, if◌then◌else◌, inl, inr, Bool-cases, le→ltb, leb-true,
  leb-false, leb→le, leb→lt,
}
use htc_leo_pkg.Gpio.{GpioRegs, gpio_regs, find_gpio, search_banks, bank_7}

-- A bank that holds the pin, at its place in the list; its pins fit a word.
pub record Holds (r : GpioRegs) (n : ℕ) : Type 0 where
  pub above : r.start ≤ n
  pub below : n ≤ r.end_
  pub narrow : r.end_ < r.start + 32

abbrev pub Found : List GpioRegs → ℕ → Option (GpioRegs × Option ℕ) → Type 0
Found rs n last =
    (i : ℕ) × (i < length rs)
    × (search_banks rs n last ≡ some (get_or rs i bank_7, some (n - (get_or rs i bank_7).start)))
    × Holds (get_or rs i bank_7) n

-- Banks that follow one another from the pin `s` up to the pin before `e`, each in one word.
abbrev Contiguous : ℕ → List GpioRegs → ℕ → Type 0
Contiguous s [] e = s ≡ e
Contiguous s (r ∷ rs) e =
    (r.start ≡ s) × (r.start ≤ r.end_ + 1) × (r.end_ < r.start + 32) × Contiguous (r.end_ + 1) rs e

search_banks-here :
    (r : GpioRegs) (rs : List GpioRegs) (n : ℕ) (last : Option (GpioRegs × Option ℕ))
    → r.start ≤ n
    → n ≤ r.end_
    → search_banks (r ∷ rs) n last ≡ some (r, some (n - r.start))
unfolding search_banks
search_banks-here r rs n last a b = rw (leb-true r.start n a, leb-true n r.end_ b) refl

skip_if {ℓ} : {A : Type ℓ} (a b : Bool) (x y : A) → b ≡ false → (if a && b then x else y) ≡ y
skip_if true true x y e = absurd (ground arith)
skip_if true false x y e = refl
skip_if false b x y e = refl

search_banks-next :
    (r : GpioRegs) (rs : List GpioRegs) (n : ℕ) (last : Option (GpioRegs × Option ℕ))
    → r.end_ < n
    → search_banks (r ∷ rs) n last ≡ search_banks rs n (some (r, none))
unfolding search_banks
search_banks-next r rs n last b = skip_if (leb r.start n) (leb n r.end_) _ _ (leb-false n r.end_ b)

search_banks-Found :
    (rs : List GpioRegs) (s e n : ℕ) (last : Option (GpioRegs × Option ℕ))
    → Contiguous s rs e
    → s ≤ n
    → n < e
    → Found rs n last
search_banks-Found [] s e n last c a b = absurd (omega (arith, c))
search_banks-Found (r ∷ rs) s e n last c a b = elim (Bool-cases (leb n r.end_)) [
  | inl h ↦ (
    0,
    omega arith,
    search_banks-here r rs n last (omega (arith, c.0)) (leb→le n r.end_ h),
    record { above = omega (arith, c.0); below = leb→le n r.end_ h; narrow = c.2 },
  )
  | inr h ↦
      let (i, lt, f, p) =
        search_banks-Found rs (r.end_ + 1) e n (some (r, none)) c.3
          (omega (arith, leb→lt n r.end_ h)) b in
      (suc i, omega arith, search_banks-next r rs n last (leb→lt n r.end_ h) ∙ f, p)
]

gpio_regs-Contiguous : Contiguous 0 gpio_regs 165
gpio_regs-Contiguous = ground arith

-- `find_gpio` puts every pin up to 164 in a bank of the table that holds it, at its distance from the
-- bank's first pin, which is a bit of a 32-bit word.
pub find_gpio_lem :
    (n : ℕ)
    → n ≤ 164
    → (i : ℕ) × (i < 8)
      × (find_gpio n
          ≡ some (get_or gpio_regs i bank_7, some (n - (get_or gpio_regs i bank_7).start)))
      × Holds (get_or gpio_regs i bank_7) n
unfolding find_gpio
find_gpio_lem n h =
    rw (le→ltb 164 n h)
      (search_banks-Found gpio_regs 0 165 n none gpio_regs-Contiguous (omega arith) (omega arith))
