-- ===== src/Interrupt/Masks.antt =====
-- The enabled sources under the writes of HtcLeoPkg/Drivers/InterruptDxe/InterruptDxe.c. What a write does
-- to them is hardware, and comes as an interface with the laws of the two kinds of registers.
use htc_leo_pkg.Base.{
  ℕ, zero, suc, ◌+◌, ◌*◌, ◌/◌, ◌%◌, ◌^◌, ◌≤◌, ◌<◌, ◌≡◌, refl, sym, ◌∙◌, inl, inr, Bool, true, false,
  not, ◌&&◌, ◌||◌, List, [], ◌∷◌, ◌++◌, arith, ltb, ◌==◌, if◌then◌else◌, Bool-cases, all_below,
  all_below_lem, if-both, le→ltb,
}
use htc_leo_pkg.Interrupt.{
  IrqEvent, mmio_write, vic_reg, nr_irqs, vic_int_enset, vic_int_enclear, source_bit,
  enable_interrupt_source, disable_interrupt_source, disable_from,
}

abbrev pub Enabled : Type 0
Enabled = ℕ → Bool

abbrev pub has_bit : ℕ → ℕ → Bool
has_bit v k = v / 2 ^ k % 2 == 1

-- The controller: a word written to an ENSET register enables the sources of its bank whose bits are
-- set, a word written to an ENCLEAR register disables them.
pub record Vic : Type 0 where
  pub apply : IrqEvent → Enabled → Enabled
  pub enset :
      (bank v s : ℕ) (e : Enabled)
      → bank < 2
      → apply (mmio_write (vic_reg (0x30 + 4 * bank)) v) e s
        ≡ (if s / 32 == bank then has_bit v (s % 32) || e s else e s)
  pub enclear :
      (bank v s : ℕ) (e : Enabled)
      → bank < 2
      → apply (mmio_write (vic_reg (0x20 + 4 * bank)) v) e s
        ≡ (if s / 32 == bank then not (has_bit v (s % 32)) && e s else e s)

abbrev same : Bool → Bool → Bool
same true b = b
same false b = not b

same_Bool : (a b : Bool) → same a b ≡ true → a ≡ b
same_Bool true b h = sym h
same_Bool false true h = h
same_Bool false false h = refl

bit_eq : (a b : ℕ) → a < 32 → b < 32 → has_bit (2 ^ a) b ≡ (b == a)
bit_eq a b ha hb = same_Bool (has_bit (2 ^ a) b) (b == a) (
    all_below_lem 32 (λ y. same (has_bit (2 ^ a) y) (y == a)) b
      (all_below_lem 32 (λ x. all_below 32 (λ y. same (has_bit (2 ^ x) y) (y == x))) a refl ha) hb)

or_if : (p q x : Bool) → (if p then q || x else x) ≡ ((p && q) || x)
or_if true q x = refl
or_if false q x = refl

and_if : (p q x : Bool) → (if p then not q && x else x) ≡ (not (p && q) && x)
and_if true q x = refl
and_if false q x = refl

stays_off : (p q : Bool) → (if p then not q && false else false) ≡ false
stays_off true true = refl
stays_off true false = refl
stays_off false q = refl

abbrev bank : ℕ → ℕ
bank source = if ltb 31 source then 1 else 0

enset_bank : (source : ℕ) → vic_int_enset source ≡ vic_reg (0x30 + 4 * bank source)
enset_bank source = if-both (λ (x y : ℕ). x ≡ vic_reg (0x30 + 4 * y)) (ltb 31 source) refl refl

enclear_bank : (source : ℕ) → vic_int_enclear source ≡ vic_reg (0x20 + 4 * bank source)
enclear_bank source = if-both (λ (x y : ℕ). x ≡ vic_reg (0x20 + 4 * y)) (ltb 31 source) refl refl

bank_lt : (source : ℕ) → bank source < 2
bank_lt source = ground arith

place :
    (s source : ℕ)
    → s < 64
    → source < 64
    → ((s / 32 == bank source) && (s % 32 == source % 32)) ≡ (s == source)
place s source hs hx = ground arith

-- Events from the first to the last.
abbrev pub run_events : Vic → List IrqEvent → Enabled → Enabled
run_events vic [] e = e
run_events vic (ev ∷ evs) e = run_events vic evs (vic.apply ev e)

module _ (vic : Vic) (e : Enabled) (source s : ℕ) (small : s < 64) where
  enable_at :
      source < 64
      → vic.apply (mmio_write (vic_int_enset source) (source_bit source)) e s
        ≡ ((s == source) || e s)
  enable_at lt = rw (enset_bank source) (
      vic.enset (bank source) (source_bit source) s e (bank_lt source)
      ∙ rw (bit_eq (source % 32) (s % 32) (omega arith) (omega arith)) (
          rw (sym (place s source small lt))
            (or_if (s / 32 == bank source) (s % 32 == source % 32) (e s))))

  disable_at :
      source < 64
      → vic.apply (mmio_write (vic_int_enclear source) (source_bit source)) e s
        ≡ (not (s == source) && e s)
  disable_at lt = rw (enclear_bank source) (
      vic.enclear (bank source) (source_bit source) s e (bank_lt source)
      ∙ rw (bit_eq (source % 32) (s % 32) (omega arith) (omega arith)) (
          rw (sym (place s source small lt))
            (and_if (s / 32 == bank source) (s % 32 == source % 32) (e s))))

  disable_keeps :
      e s ≡ false → vic.apply (mmio_write (vic_int_enclear source) (source_bit source)) e s ≡ false
  disable_keeps off = rw (enclear_bank source) (
      vic.enclear (bank source) (source_bit source) s e (bank_lt source)
      ∙ rw off (stays_off (s / 32 == bank source) (has_bit (source_bit source) (s % 32))))

  -- For sources below 64, enabling one source enables it and no other, and disabling it disables it and no
  -- other.
  pub enable_disable_lem :
      source < 64
      → (run_events vic (enable_interrupt_source source).1 e s ≡ ((s == source) || e s))
        × (run_events vic (disable_interrupt_source source).1 e s ≡ (not (s == source) && e s))
  unfolding enable_interrupt_source disable_interrupt_source
  enable_disable_lem lt = (
    rw (le→ltb nr_irqs source (omega arith)) (enable_at lt),
    rw (le→ltb nr_irqs source (omega arith)) (disable_at lt),
  )

pub run_events-append :
    (vic : Vic) (xs ys : List IrqEvent) (e : Enabled)
    → run_events vic (xs ++ ys) e ≡ run_events vic ys (run_events vic xs e)
run_events-append vic [] ys e = refl
run_events-append vic (x ∷ xs) ys e = run_events-append vic xs ys (vic.apply x e)

module _ (vic : Vic) (s : ℕ) (small : s < 64) where
  one_keeps :
      (i : ℕ) (e : Enabled)
      → e s ≡ false
      → run_events vic (disable_interrupt_source i).1 e s ≡ false
  unfolding disable_interrupt_source
  one_keeps i e off = elim (Bool-cases (ltb nr_irqs i)) [
    | inl out ↦ rw out off
    | inr known ↦ rw known (disable_keeps vic e i s small off)
  ]

  all_keep : (n i : ℕ) (e : Enabled) → e s ≡ false → run_events vic (disable_from i n) e s ≡ false
  unfolding disable_from
  all_keep zero i e off = off
  all_keep (suc n) i e off =
      rw (run_events-append vic (disable_interrupt_source i).1 (disable_from (i + 1) n) e)
        (all_keep n (i + 1) (run_events vic (disable_interrupt_source i).1 e) (one_keeps i e off))

  all_off :
      (n i : ℕ) (e : Enabled) → i ≤ s → s < i + n → run_events vic (disable_from i n) e s ≡ false
  unfolding disable_from
  all_off zero i e lo hi = absurd (omega arith)
  all_off (suc n) i e lo hi =
      rw (run_events-append vic (disable_interrupt_source i).1 (disable_from (i + 1) n) e)
        (elim (Bool-cases (s == i)) [
          | inl here ↦
              all_keep n (i + 1) (run_events vic (disable_interrupt_source i).1 e)
                ((enable_disable_lem vic e i s small (ground arith)).1 ∙ rw here refl)
          | inr later ↦
              all_off n (i + 1) (run_events vic (disable_interrupt_source i).1 e) (ground arith)
                (omega arith)
        ])

  -- After the loop of `ExitBootServicesEvent` no source below 64 is enabled, whichever were before; the
  -- wrong bits that the loop clears for the sources from 64 on do no harm.
  pub exit_boot_services-disabled :
      (e : Enabled) → run_events vic (disable_from 0 nr_irqs) e s ≡ false
  exit_boot_services-disabled e = all_off nr_irqs 0 e (omega arith) (omega arith)
