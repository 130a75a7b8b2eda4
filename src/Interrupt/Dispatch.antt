-- ===== src/Interrupt/Dispatch.antt =====
-- Registering a handler and its calls, HtcLeoPkg/Drivers/InterruptDxe/InterruptDxe.c.
use htc_leo_pkg.Base.{
  ℕ, ◌≤◌, ◌<◌, ◌≡◌, ◌≢◌, ◌⊎◌, refl, inl, inr, List, [], ◌∷◌, Option, none, some, arith, ltb, ==_iff,
  ==_ne, Bool-cases, le→ltb,
}
use htc_leo_pkg.Interrupt.{
  IrqStatus, IrqEvent, success, unsupported, invalid_parameter, already_started, mmio_write,
  barrier, call, Handlers, nr_irqs, vic_int_enset, vic_int_clear, vic_irq_vec_wr, source_bit,
  put_handler, enable_interrupt_source, register_interrupt_source, irq_interrupt_handler,
}

-- Nothing done but the answer.
abbrev pub Refused : IrqStatus → Handlers → (IrqStatus × List IrqEvent) × Handlers → Type 0
Refused s hs r = r ≡ ((s, []), hs)

-- The handler of one source replaced, and the source enabled.
pub record Registered (source : ℕ) (handler : Option ℕ) (hs : Handlers)
    (r : (IrqStatus × List IrqEvent) × Handlers) : Type 0 where
  pub status : r.0.0 ≡ success
  pub enabled : r.0.1 ≡ mmio_write (vic_int_enset source) (source_bit source) ∷ []
  pub this_one : r.1 source ≡ handler
  pub others : (j : ℕ) → j ≢ source → r.1 j ≡ hs j

abbrev pub Registers :
    ℕ → Option ℕ → Option ℕ → Handlers → (IrqStatus × List IrqEvent) × Handlers → Type 0
Registers source none none hs r = Refused invalid_parameter hs r
Registers source (some h) (some g) hs r = Refused already_started hs r
Registers source none (some g) hs r = Registered source none hs r
Registers source (some h) none hs r = Registered source (some h) hs r

put_handler-Registered :
    (source : ℕ) (handler : Option ℕ) (hs : Handlers)
    → source ≤ nr_irqs
    → Registered source handler hs (enable_interrupt_source source, put_handler hs source handler)
unfolding enable_interrupt_source
put_handler-Registered source handler hs le = record {
  status = rw (le→ltb nr_irqs source le) refl;
  enabled = rw (le→ltb nr_irqs source le) refl;
  this_one = rw ((==_iff source source).1 refl) refl;
  others = λ j ne. rw (==_ne j source ne) refl;
}

registers_lem :
    (source : ℕ) (handler old : Option ℕ) (hs : Handlers)
    → source ≤ nr_irqs
    → hs source ≡ old
    → Registers source handler old hs (register_interrupt_source source handler hs)
unfolding register_interrupt_source
registers_lem source none none hs le e = rw (le→ltb nr_irqs source le) (rw e refl)
registers_lem source (some h) (some g) hs le e = rw (le→ltb nr_irqs source le) (rw e refl)
registers_lem source none (some g) hs le e =
    rw (le→ltb nr_irqs source le) (rw e (put_handler-Registered source none hs le))
registers_lem source (some h) none hs le e =
    rw (le→ltb nr_irqs source le) (rw e (put_handler-Registered source (some h) hs le))

-- `RegisterInterruptSource` refuses a source above NR_IRQS, a second handler for a source, and to take
-- away a handler that is not there, each with its own status and nothing done. In the other cases
-- it replaces the handler of this source only, and enables the source, also when the handler
-- is taken away.
pub register_interrupt_source_lem :
    (source : ℕ) (handler : Option ℕ) (hs : Handlers)
    → ((nr_irqs < source) × Refused unsupported hs (register_interrupt_source source handler hs))
      ⊎ ((source ≤ nr_irqs)
          × Registers source handler (hs source) hs (register_interrupt_source source handler hs))
unfolding register_interrupt_source
register_interrupt_source_lem source handler hs = elim (Bool-cases (ltb nr_irqs source)) [
  | inl e ↦ inl (ground arith, rw e refl)
  | inr e ↦ inr (ground arith, registers_lem source handler (hs source) hs (ground arith) refl)
]

-- After a handler is registered for a source that had none, an interrupt of the source calls that handler
-- once, between clearing the source and ending the interrupt, and every other interrupt does what
-- it did before.
pub irq_interrupt_handler-register :
    (source h : ℕ) (hs : Handlers)
    → source ≤ nr_irqs
    → hs source ≡ none
    → let hs' = (register_interrupt_source source (some h) hs).1 in
      (irq_interrupt_handler source hs'
        ≡ mmio_write (vic_int_clear source) (source_bit source)
          ∷ barrier
          ∷ call h source
          ∷ mmio_write vic_irq_vec_wr 0
          ∷ barrier
          ∷ [])
      × ((v : ℕ) → v ≢ source → irq_interrupt_handler v hs' ≡ irq_interrupt_handler v hs)
unfolding irq_interrupt_handler
irq_interrupt_handler-register source h hs le free =
    let done = registers_lem source (some h) none hs le free in
    (rw done.this_one refl, λ v ne. rw (done.others v ne) refl)
