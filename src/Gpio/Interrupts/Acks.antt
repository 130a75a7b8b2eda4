-- ===== src/Gpio/Interrupts/Acks.antt =====
-- What the interrupt handler of HtcLeoPkg/Drivers/GpioDxe/GpioDxe.c acknowledges.
use Prim.{tt}
use htc_leo_pkg.Base.{
  ℕ, zero, suc, ◌+◌, ◌≤◌, ◌≡◌, refl, ap, ◌∙◌, inl, inr, Bool, true, false, ◌&&◌, List, [], ◌∷◌,
  ◌++◌, Option, none, some, arith, All, length, Bool-cases, if◌then◌else◌,
}
use htc_leo_pkg.Gpio.{GpioRegs, gpio_regs, find_gpio}
use htc_leo_pkg.Gpio.Interrupts.{
  Bits, GpioHw, GpioWrite, writel, bit_word, edge_round, edge_rounds,
  msm_gpio_update_both_edge_detect, msm_gpio_irq_clear, msm_gpio_irq_ack, ack_bits, ack_bank,
  ack_banks, msm_gpio_isr,
}

-- A pin of a bank is found in that bank.
abbrev pub Finds : GpioRegs → Type 0
Finds r = (j : ℕ) → r.start + j ≤ r.end_ → find_gpio (r.start + j) ≡ some (r, some j)

gpio_regs-Finds : All Finds gpio_regs
unfolding find_gpio
gpio_regs-Finds = (
  λ j le. ground arith,
  (
    λ j le. ground arith,
    (
      λ j le. ground arith,
      (
        λ j le. ground arith,
        (
          λ j le. ground arith,
          (λ j le. ground arith, (λ j le. ground arith, (λ j le. ground arith, tt))),
        ),
      ),
    ),
  ),
)

-- A write to the polarity register of a bank
abbrev pub IsPolarity : GpioRegs → GpioWrite → Type 0
IsPolarity r (writel w a) = a ≡ r.int_pos

-- For each bit of a list its interrupt is cleared, once, and then the polarity is written at most 101 times.
pub data Acks (r : GpioRegs) : List ℕ → List GpioWrite → Type 0 where
  no_acks : Acks r [] []
  ack :
      {js : List ℕ} {ws : List GpioWrite} (j : ℕ) (ps : List GpioWrite)
      → 1 ≤ length ps
      → length ps ≤ 101
      → All (IsPolarity r) ps
      → Acks r js ws
      → Acks r (j ∷ js) ((writel (bit_word (some j)) r.int_clear ∷ ps) ++ ws)

-- The bits of a word that are set, `n` of them from `j` on
unfoldable pub set_bits : ℕ → ℕ → Bits → List ℕ
set_bits zero j w = []
set_bits (suc n) j w = let rest = set_bits n (j + 1) w in if w j then j ∷ rest else rest

-- Polarity writes, at least one and at most `n`
abbrev pub Polarities : ℕ → GpioRegs → List GpioWrite → Type 0
Polarities n r ws = (length ws ≤ n) × All (IsPolarity r) ws

Polarities-one :
    {S : Type 0} (n : ℕ) (r : GpioRegs) (w : Bits) (stable : Bool) (s : S)
    (rest : List GpioWrite × S)
    → Polarities n r rest.0
    → (let q : List GpioWrite × S =
          if stable then (writel w r.int_pos ∷ [], s) else (writel w r.int_pos ∷ rest.0, rest.1) in
        (1 ≤ length q.0) × Polarities (suc n) r q.0)
Polarities-one n r w true s rest h = (omega arith, (omega arith, (refl, tt)))
Polarities-one n r w false s rest h = (omega arith, (omega (arith, h.0), (refl, h.1)))

module _ {S : Type 0} (hw : GpioHw S) where
  edge_rounds-Polarities : (n : ℕ) (r : GpioRegs) (s : S) → Polarities n r (edge_rounds hw n r s).0
  unfolding edge_rounds
  edge_rounds-Polarities zero r s = (omega arith, tt)
  edge_rounds-Polarities (suc n) r s =
      (Polarities-one n r _ _ _ _ (edge_rounds-Polarities n r (edge_round hw r s).2)).1

  edge_rounds-some : (n : ℕ) (r : GpioRegs) (s : S) → 1 ≤ length (edge_rounds hw (suc n) r s).0
  unfolding edge_rounds
  edge_rounds-some n r s =
      (Polarities-one n r _ _ _ _ (edge_rounds-Polarities n r (edge_round hw r s).2)).0

  clear-found :
      (gpio j : ℕ) (r : GpioRegs) (s : S)
      → find_gpio gpio ≡ some (r, some j)
      → msm_gpio_irq_clear hw gpio s
        ≡ (writel (bit_word (some j)) r.int_clear ∷ [], hw.writel (bit_word (some j)) r.int_clear s)
  unfolding msm_gpio_irq_clear
  clear-found gpio j r s found =
      ap
        (λ (o : Option (GpioRegs × Option ℕ)). elim o [
          | none ↦ ([], s)
          | some (r, b) ↦
              (writel (bit_word b) r.int_clear ∷ [], hw.writel (bit_word b) r.int_clear s)
        ])
        found

  edge-found :
      (gpio j : ℕ) (r : GpioRegs) (s : S)
      → find_gpio gpio ≡ some (r, some j)
      → msm_gpio_update_both_edge_detect hw gpio s ≡ edge_rounds hw 101 r s
  unfolding msm_gpio_update_both_edge_detect
  edge-found gpio j r s found =
      ap
        (λ (o : Option (GpioRegs × Option ℕ)). elim o [
          | none ↦ ([], s)
          | some (r, b) ↦ edge_rounds hw 101 r s
        ])
        found

  ack_one :
      (gpio j : ℕ) (r : GpioRegs) (s : S)
      → find_gpio gpio ≡ some (r, some j)
      → (ps : List GpioWrite) × ((msm_gpio_irq_ack hw gpio s).0
          ≡ writel (bit_word (some j)) r.int_clear ∷ ps)
        × (1 ≤ length ps)
        × (length ps ≤ 101)
        × All (IsPolarity r) ps
  unfolding msm_gpio_irq_ack
  ack_one gpio j r s found =
      let s1 = hw.writel (bit_word (some j)) r.int_clear s in
      let few = edge_rounds-Polarities 101 r s1 in
      (
        (edge_rounds hw 101 r s1).0,
        ap (λ (c : List GpioWrite × S). c.0 ++ (msm_gpio_update_both_edge_detect hw gpio c.1).0)
              (clear-found gpio j r s found)
            ∙ ap (λ (c : List GpioWrite × S). writel (bit_word (some j)) r.int_clear ∷ c.0)
                (edge-found gpio j r s1 found),
        edge_rounds-some 100 r s1,
        few.0,
        few.1,
      )

  ack_bits-Acks :
      (n j : ℕ) (w : Bits) (r : GpioRegs) (s : S)
      → Finds r
      → ((k : ℕ) → w k ≡ true → r.start + k ≤ r.end_)
      → Acks r (set_bits n j w) (ack_bits hw n j w r s).0
  unfolding ack_bits set_bits
  ack_bits-Acks zero j w r s finds own = no_acks
  ack_bits-Acks (suc n) j w r s finds own = elim (Bool-cases (w j)) [
    | inl e ↦
        let (ps, first, some_writes, few, all) = ack_one (r.start + j) j r s (finds j (own j e)) in
        rw (e, first)
          (ack j ps some_writes few all
            (ack_bits-Acks n (j + 1) w r (msm_gpio_irq_ack hw (r.start + j) s).1 finds own))
    | inr e ↦ rw e (ack_bits-Acks n (j + 1) w r s finds own)
  ]

  -- The pins of a bank that are pending and enabled when it is looked at
  abbrev pub pending_of : GpioRegs → S → Bits
  pending_of r s =
      let (st, s1) = hw.readl r.int_status s in
      let (en, s2) = hw.readl r.int_en s1 in (λ j. en j && st j)

  -- The writes, bank by bank
  abbrev pub BankAcks : List GpioRegs → S → List GpioWrite → Type 0
  BankAcks [] s ws = ws ≡ []
  BankAcks (r ∷ rs) s ws =
      (us vs : List GpioWrite) × (ws ≡ us ++ vs)
      × Acks r (set_bits 32 0 (pending_of r s)) us
      × BankAcks rs (ack_bank hw r s).1 vs

  -- Interrupts are enabled for pins of the bank only.
  abbrev pub EnablesOwn : GpioRegs → Type 0
  EnablesOwn r = (s : S) (j : ℕ) → (hw.readl r.int_en s).0 j ≡ true → r.start + j ≤ r.end_

  both : (a b : Bool) → (a && b) ≡ true → a ≡ true
  both true b e = refl
  both false b e = e

  ack_bank-Acks :
      (r : GpioRegs) (s : S)
      → Finds r
      → EnablesOwn r
      → Acks r (set_bits 32 0 (pending_of r s)) (ack_bank hw r s).0
  unfolding ack_bank
  ack_bank-Acks r s finds own =
      let (st, s1) = hw.readl r.int_status s in
      let (en, s2) = hw.readl r.int_en s1 in
      ack_bits-Acks 32 0 (pending_of r s) r s2 finds (λ k e. own s1 k (both (en k) (st k) e))

  ack_banks-BankAcks :
      (rs : List GpioRegs) (s : S)
      → All Finds rs
      → All EnablesOwn rs
      → BankAcks rs s (ack_banks hw rs s).0
  unfolding ack_banks
  ack_banks-BankAcks [] s finds own = refl
  ack_banks-BankAcks (r ∷ rs) s finds own = (
    (ack_bank hw r s).0,
    (ack_banks hw rs (ack_bank hw r s).1).0,
    refl,
    ack_bank-Acks r s finds.0 own.0,
    ack_banks-BankAcks rs (ack_bank hw r s).1 finds.1 own.1,
  )

  -- With a controller that enables interrupts of each bank's own pins only: the handler goes through the banks in
  -- order, and in each, for every pin that is pending and enabled when it reads the bank, from the lowest on and for no
  -- other, it clears the pin's interrupt once and then writes the polarity of that bank between 1 and 101 times.
  pub msm_gpio_isr-BankAcks :
      (s : S) → All EnablesOwn gpio_regs → BankAcks gpio_regs s (msm_gpio_isr hw s).0
  unfolding msm_gpio_isr
  msm_gpio_isr-BankAcks s own = ack_banks-BankAcks gpio_regs s gpio_regs-Finds own
