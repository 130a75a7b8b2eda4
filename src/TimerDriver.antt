-- ===== src/TimerDriver.antt =====
-- HtcLeoPkg/Drivers/TimerDxe/Timer.c: the timer tick, over the interrupt controller. A notify function is a
-- number, and a call of it with the period is an event. The task priority level is left out.
pub mod Period
use htc_leo_pkg.Base.{
  ℕ, ◌*◌, ◌/◌, ◌%◌, ◌^◌, List, [], ◌∷◌, ◌++◌, Option, none, some, ◌==◌, if◌then◌else◌,
}
use htc_leo_pkg.Interrupt.{
  IrqStatus, success, unsupported, invalid_parameter, IrqEvent, mmio_write, call, refuse,
  enable_interrupt_source, disable_interrupt_source, end_of_interrupt,
}

-- `mTimerNotifyFunction` and `mTimerPeriod`
pub record TimerState : Type 0 where
  pub notify : Option ℕ
  pub period : ℕ

-- INT_DEBUG_TIMER_EXP, the value of `gVector`
abbrev pub vector : ℕ
vector = 8

abbrev pub dgt_match_val : ℕ
dgt_match_val = 0xac100010

abbrev pub dgt_enable : ℕ
dgt_enable = 0xac100018

abbrev pub dgt_clear : ℕ
dgt_clear = 0xac10001c

-- The call of the notify function, if there is one.
abbrev pub notified : TimerState → List IrqEvent
notified s = elim s.notify [ none ↦ [] | some f ↦ call f s.period ∷ [] ]

-- `TimerInterruptHandler`
unfoldable pub timer_interrupt_handler : ℕ → TimerState → List IrqEvent
timer_interrupt_handler source s = notified s ++ (end_of_interrupt source).1

-- `TimerDriverRegisterHandler`
unfoldable pub timer_driver_register_handler : Option ℕ → TimerState → IrqStatus × TimerState
timer_driver_register_handler f s = elim (refuse f s.notify) [
  | some e ↦ (e, s)
  | none ↦ (success, record s { notify = f })
]

-- The value for DGT_MATCH_VAL; the register takes 32 bits.
unfoldable pub match_val : ℕ → ℕ
match_val period = (period / 10000 * (4800000 / 1000)) % 2 ^ 32

-- `TimerDriverSetTimerPeriod`: the status, the writes and the state.
unfoldable pub timer_driver_set_timer_period :
    ℕ → TimerState → (IrqStatus × List IrqEvent) × TimerState
unfolding match_val
timer_driver_set_timer_period period s =
    let off = disable_interrupt_source vector in
    let on = enable_interrupt_source vector in
    let s' = record s { period = period } in
    if period == 0
    then ((off.0, mmio_write dgt_enable 0 ∷ mmio_write dgt_clear 0 ∷ off.1), s')
    else (
      (
        on.0,
        off.1
            ++ (mmio_write dgt_match_val (match_val period)
                ∷ mmio_write dgt_clear 0
                ∷ mmio_write dgt_enable 3
                ∷ on.1),
      ),
      s',
    )

-- `TimerDriverGetTimerPeriod`, with an address to write to or without
unfoldable pub timer_driver_get_timer_period : Option ℕ → TimerState → IrqStatus × Option ℕ
timer_driver_get_timer_period none s = (invalid_parameter, none)
timer_driver_get_timer_period (some old) s = (success, some s.period)

-- `TimerDriverGenerateSoftInterrupt`
unfoldable pub timer_driver_generate_soft_interrupt : IrqStatus
timer_driver_generate_soft_interrupt = unsupported
