-- ===== src/Gpio/Interrupts.antt =====
-- The interrupt handler of HtcLeoPkg/Drivers/GpioDxe/GpioDxe.c and config_gpio_table. The registers change between two
-- readings: the hardware is an interface, and the writes are listed.
pub mod Acks
use htc_leo_pkg.Base.{
  ℕ, zero, suc, ◌+◌, Bool, true, false, not, ◌&&◌, ◌||◌, List, [], ◌∷◌, ◌++◌, Option, none, some,
  ◌==◌, if◌then◌else◌,
}
use htc_leo_pkg.Gpio.{GpioRegs, gpio_regs, find_gpio}
use htc_leo_pkg.Pcom.{◌>>=◌, ◌>>◌, pure, Pc, Modem, msm_proc_comm}

-- A word as its bits
abbrev pub Bits : Type 0
Bits = ℕ → Bool

pub record GpioHw (S : Type 0) : Type 0 where
  pub readl : ℕ → S → Bits × S
  pub writel : Bits → ℕ → S → S

pub data GpioWrite : Type 0 where
  writel : Bits → ℕ → GpioWrite

-- `b` of `find_gpio`
abbrev pub bit_word : Option ℕ → Bits
bit_word none j = false
bit_word (some i) j = j == i

-- Whether one of the lowest `n` bits is set
unfoldable pub any_bit : ℕ → Bits → Bool
any_bit zero w = false
any_bit (suc n) w = w n || any_bit n w

abbrev pub differ : Bool → Bool → Bool
differ true b = not b
differ false b = b

module _ {S : Type 0} (hw : GpioHw S) where
  -- One round of the loop of `msm_gpio_update_both_edge_detect`, with whether the pins are stable
  unfoldable pub edge_round : GpioRegs → S → Bool × List GpioWrite × S
  unfolding any_bit
  edge_round r s0 =
      let (val, s1) = hw.readl r.in_ s0 in
      let (old, s2) = hw.readl r.int_pos s1 in
      let pol : Bits = λ j. old j || not (val j) in
      let s3 = hw.writel pol r.int_pos s2 in
      let (intstat, s4) = hw.readl r.int_status s3 in
      let (val2, s5) = hw.readl r.in_ s4 in
      let moved = any_bit 32 (λ j. differ (val j) (val2 j) && not (intstat j)) in
      (not moved, writel pol r.int_pos ∷ [], s5)

  -- At most so many rounds
  unfoldable pub edge_rounds : ℕ → GpioRegs → S → List GpioWrite × S
  unfolding edge_round
  edge_rounds zero r s = ([], s)
  edge_rounds (suc n) r s =
      let (stable, ws, s') = edge_round r s in
      let rest = edge_rounds n r s' in if stable then (ws, s') else (ws ++ rest.0, rest.1)

  -- `loop_limit` is 100, and is tested behind the round.
  unfoldable pub msm_gpio_update_both_edge_detect : ℕ → S → List GpioWrite × S
  unfolding edge_rounds
  msm_gpio_update_both_edge_detect gpio s = elim (find_gpio gpio) [
    | none ↦ ([], s)
    | some (r, b) ↦ edge_rounds 101 r s
  ]

  unfoldable pub msm_gpio_irq_clear : ℕ → S → List GpioWrite × S
  msm_gpio_irq_clear gpio s = elim (find_gpio gpio) [
    | none ↦ ([], s)
    | some (r, b) ↦ (writel (bit_word b) r.int_clear ∷ [], hw.writel (bit_word b) r.int_clear s)
  ]

  unfoldable pub msm_gpio_irq_ack : ℕ → S → List GpioWrite × S
  unfolding msm_gpio_irq_clear msm_gpio_update_both_edge_detect
  msm_gpio_irq_ack gpio s =
      let (ws, s1) = msm_gpio_irq_clear gpio s in
      let (vs, s2) = msm_gpio_update_both_edge_detect gpio s1 in (ws ++ vs, s2)

  -- The loop over the bits: `n` of them, from `j` on
  unfoldable pub ack_bits : ℕ → ℕ → Bits → GpioRegs → S → List GpioWrite × S
  unfolding msm_gpio_irq_ack
  ack_bits zero j pending r s = ([], s)
  ack_bits (suc n) j pending r s =
      let (ws, s1) = if pending j then msm_gpio_irq_ack (r.start + j) s else ([], s) in
      let (vs, s2) = ack_bits n (j + 1) pending r s1 in (ws ++ vs, s2)

  unfoldable pub ack_bank : GpioRegs → S → List GpioWrite × S
  unfolding ack_bits
  ack_bank r s0 =
      let (st, s1) = hw.readl r.int_status s0 in
      let (en, s2) = hw.readl r.int_en s1 in ack_bits 32 0 (λ j. en j && st j) r s2

  unfoldable pub ack_banks : List GpioRegs → S → List GpioWrite × S
  unfolding ack_bank
  ack_banks [] s = ([], s)
  ack_banks (r ∷ rs) s =
      let (ws, s1) = ack_bank r s in let (vs, s2) = ack_banks rs s1 in (ws ++ vs, s2)

  unfoldable pub msm_gpio_isr : S → List GpioWrite × S
  unfolding ack_banks
  msm_gpio_isr s = ack_banks gpio_regs s

-- `config_gpio_table`: a call of PCOM_RPC_GPIO_TLMM_CONFIG_EX for each word of the table
unfoldable pub config_gpio_table : {M : Type 0} → Modem M → ℕ → List ℕ → Pc M (Unit {0})
unfolding msm_proc_comm
config_gpio_table md fuel [] = pure tt
config_gpio_table md fuel (id ∷ table) = do
  _ ← msm_proc_comm md fuel 37 (some id) none
  config_gpio_table md fuel table
