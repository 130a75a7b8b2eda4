-- ===== src/TimerDriver/Period.antt =====
-- Setting the period of HtcLeoPkg/Drivers/TimerDxe/Timer.c, on the controller of
-- HtcLeoPkg/Drivers/InterruptDxe/InterruptDxe.c.
use htc_leo_pkg.Base.{
  ℕ, ◌+◌, ◌*◌, ◌/◌, ◌^◌, ◌≤◌, ◌<◌, ◌≡◌, refl, ap, ◌∙◌, inl, inr, true, false, not, ◌&&◌, ◌||◌, ◌∷◌,
  some, arith, ◌==◌, if◌then◌else◌, Bool-cases,
}
use htc_leo_pkg.Interrupt.{success, mmio_write, enable_interrupt_source, disable_interrupt_source}
use htc_leo_pkg.Interrupt.Masks.{Vic, Enabled, run_events, run_events-append, enable_disable_lem}
use htc_leo_pkg.TimerDriver.{
  TimerState, vector, dgt_match_val, dgt_enable, dgt_clear, match_val,
  timer_driver_set_timer_period, timer_driver_get_timer_period,
}

-- The timer's registers do not enable sources.
abbrev pub IsQuiet : Vic → Type 0
IsQuiet vic =
    (a v : ℕ) (e : Enabled) (s : ℕ)
    → dgt_match_val ≤ a
    → a ≤ dgt_clear
    → vic.apply (mmio_write a v) e s ≡ e s

module _ (vic : Vic) (quiet : IsQuiet vic) (e : Enabled) (s : ℕ) (small : s < 64) where
  off_lem :
      (e' : Enabled) → run_events vic (disable_interrupt_source 8).1 e' s ≡ (not (s == 8) && e' s)
  off_lem e' = (enable_disable_lem vic e' 8 s small (omega arith)).1

  on_lem : (e' : Enabled) → run_events vic (enable_interrupt_source 8).1 e' s ≡ ((s == 8) || e' s)
  on_lem e' = (enable_disable_lem vic e' 8 s small (omega arith)).0

  period_off : (not (s == 8) && e s) ≡ (if s == 8 then false else e s)
  period_off = elim (Bool-cases (s == 8)) [ inl is ↦ rw is refl | inr other ↦ rw other refl ]

  period_on : ((s == 8) || (not (s == 8) && e s)) ≡ (if s == 8 then true else e s)
  period_on = elim (Bool-cases (s == 8)) [ inl is ↦ rw is refl | inr other ↦ rw other refl ]

  -- Setting a period succeeds, the period is the one that is then reported, and of the sources below 64
  -- only the timer's may change: it is enabled exactly if the period is not 0.
  pub timer_driver_set_timer_period_lem :
      (period : ℕ) (t : TimerState)
      → let (r, t') = timer_driver_set_timer_period period t in
        (r.0 ≡ success)
        × (timer_driver_get_timer_period (some 0) t' ≡ (success, some period))
        × (run_events vic r.1 e s ≡ (if s == vector then not (period == 0) else e s))
  unfolding timer_driver_set_timer_period timer_driver_get_timer_period disable_interrupt_source
      enable_interrupt_source
  timer_driver_set_timer_period_lem period t = elim (Bool-cases (period == 0)) [
    | inl zero_period ↦ rw zero_period (
      refl,
      refl,
      off_lem (vic.apply (mmio_write dgt_clear 0) (vic.apply (mmio_write dgt_enable 0) e))
          ∙ ap (λ b. not (s == 8) && b)
              (quiet dgt_clear 0 (vic.apply (mmio_write dgt_enable 0) e) s (omega arith)
                  (omega arith)
                ∙ quiet dgt_enable 0 e s (omega arith) (omega arith))
          ∙ period_off,
    )
    | inr running ↦
        let e₀ = run_events vic (disable_interrupt_source 8).1 e in
        let e₁ = vic.apply (mmio_write dgt_match_val (match_val period)) e₀ in
        let e₂ = vic.apply (mmio_write dgt_clear 0) e₁ in
        rw running (
          refl,
          refl,
          ap (λ (f : Enabled). f s)
                (run_events-append vic (disable_interrupt_source 8).1
                  (mmio_write dgt_match_val (match_val period)
                    ∷ mmio_write dgt_clear 0
                    ∷ mmio_write dgt_enable 3
                    ∷ (enable_interrupt_source 8).1)
                  e)
              ∙ on_lem (vic.apply (mmio_write dgt_enable 3) e₂)
              ∙ ap (λ b. (s == 8) || b)
                  (quiet dgt_enable 3 e₂ s (omega arith) (omega arith)
                    ∙ quiet dgt_clear 0 e₁ s (omega arith) (omega arith)
                    ∙ quiet dgt_match_val (match_val period) e₀ s (omega arith) (omega arith)
                    ∙ off_lem e)
              ∙ period_on,
        )
  ]

-- For a period below 2^32 / 4800 milliseconds, the match value is the period in ticks of 4.8 MHz, cut down
-- to a whole millisecond: never longer than the period, and short of it by less than 4800 ticks.
pub match_val_bounds :
    (period : ℕ)
    → period / 10000 * 4800 < 2 ^ 32
    → (match_val period * 10000 ≤ period * 4800)
      × (period * 4800 < (match_val period + 4800) * 10000)
unfolding match_val
match_val_bounds period small = omega arith
