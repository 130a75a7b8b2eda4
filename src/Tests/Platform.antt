-- ===== src/Tests/Platform.antt =====
-- The theorems on interrupts, timers, clocks, the console and the logs at concrete inputs.
use htc_leo_pkg.Base.{
  ℕ, zero, suc, ◌+◌, ◌*◌, ◌/◌, ◌%◌, ◌^◌, ◌≤◌, ◌<◌, ◌≡◌, ◌⊎◌, refl, true, false, not, ◌&&◌, ◌||◌, [],
  ◌∷◌, ◌++◌, none, some, arith, ◌==◌, if◌then◌else◌,
}
use htc_leo_pkg.Interrupt.{
  IrqEvent, mmio_write, barrier, call, Handlers, nr_irqs, vic_reg, register_interrupt_source,
  disable_from, unsupported,
}
use htc_leo_pkg.Interrupt.Dispatch.{Refused, Registers, register_interrupt_source_lem}
use htc_leo_pkg.Interrupt.Masks.{Vic, Enabled, has_bit, run_events, exit_boot_services-disabled}
use htc_leo_pkg.TimerDriver.{vector, timer_driver_set_timer_period, timer_driver_get_timer_period}
use htc_leo_pkg.TimerDriver.Period.{IsQuiet, timer_driver_set_timer_period_lem}
use htc_leo_pkg.Timer.{micro_second_ticks, micro_second_delay}
use htc_leo_pkg.Timer.Delay.{Counts, micro_second_delay_lem}
use htc_leo_pkg.FbCon.{FbCon}
use htc_leo_pkg.FbCon.Cursor.{Screen}
use htc_leo_pkg.MemLog.{MemLog, serial_port_write}
use htc_leo_pkg.MemLog.Recent.{slot, serial_port_write_lem}
use htc_leo_pkg.Rtc.{success as rtc_success, EfiTime, BaseTime, lib_get_time}
use htc_leo_pkg.Rtc.Fields.{seconds, lib_get_time_lem}
use htc_leo_pkg.Clock.{acpu_stby, acpuclk_set_rate}
use htc_leo_pkg.Clock.Switching.{Outcome, acpuclk_set_rate-Outcome}
use htc_leo_pkg.MicroP.{I2cProtocol, MicroP, microp_i2c_addr}
use htc_leo_pkg.MicroP.Attempts.{Written, microp_i2c_write-Written}
use htc_leo_pkg.Interrupt.{success as irq_success}

abbrev no_handlers : Handlers
no_handlers s = none

register_interrupt_source_example :
    ((nr_irqs < 8)
      × Refused unsupported no_handlers (register_interrupt_source 8 (some 5) no_handlers))
    ⊎ ((8 ≤ nr_irqs)
        × Registers 8 (some 5) none no_handlers (register_interrupt_source 8 (some 5) no_handlers))
register_interrupt_source_example = register_interrupt_source_lem 8 (some 5) no_handlers

-- A controller that keeps the laws.
abbrev vic_apply : IrqEvent → Enabled → Enabled
vic_apply barrier e s = e s
vic_apply (call h v) e s = e s
vic_apply (mmio_write a v) e s =
    if a == vic_reg 0x30
    then (if s / 32 == 0 then has_bit v (s % 32) || e s else e s)
    else if a == vic_reg 0x34
    then (if s / 32 == 1 then has_bit v (s % 32) || e s else e s)
    else if a == vic_reg 0x20
    then (if s / 32 == 0 then not (has_bit v (s % 32)) && e s else e s)
    else if a == vic_reg 0x24
    then (if s / 32 == 1 then not (has_bit v (s % 32)) && e s else e s)
    else e s

set_law :
    (bank v s : ℕ) (e : Enabled)
    → bank < 2
    → vic_apply (mmio_write (vic_reg (0x30 + 4 * bank)) v) e s
      ≡ (if s / 32 == bank then has_bit v (s % 32) || e s else e s)
set_law zero v s e lt = refl
set_law (suc zero) v s e lt = refl
set_law (suc (suc b)) v s e lt = absurd (omega arith)

clear_law :
    (bank v s : ℕ) (e : Enabled)
    → bank < 2
    → vic_apply (mmio_write (vic_reg (0x20 + 4 * bank)) v) e s
      ≡ (if s / 32 == bank then not (has_bit v (s % 32)) && e s else e s)
clear_law zero v s e lt = refl
clear_law (suc zero) v s e lt = refl
clear_law (suc (suc b)) v s e lt = absurd (omega arith)

abbrev vic : Vic
vic = record { apply = vic_apply; enset = set_law; enclear = clear_law }

vic-IsQuiet : IsQuiet vic
vic-IsQuiet a v e s lo hi = ground arith

exit_boot_services-disabled_example : run_events vic (disable_from 0 nr_irqs) (λ s. true) 40 ≡ false
exit_boot_services-disabled_example = exit_boot_services-disabled vic 40 (omega arith) (λ s. true)

set_timer_period_example :
    let (r, t') = timer_driver_set_timer_period 100000 (record { notify = none; period = 0 }) in
    (r.0 ≡ irq_success)
    × (timer_driver_get_timer_period (some 0) t' ≡ (irq_success, some 100000))
    × (run_events vic r.1 (λ s. false) 8 ≡ (if 8 == vector then not (100000 == 0) else false))
set_timer_period_example =
    timer_driver_set_timer_period_lem vic vic-IsQuiet (λ s. false) 8 (omega arith) 100000
      (record { notify = none; period = 0 })

-- A counter that is about to wrap, one tick at each reading.
abbrev near_wrap : ℕ → ℕ
near_wrap k = (4294967294 + k) % 2 ^ 32

abbrev near_wrap_counts : Counts near_wrap (λ k. k) 4294967294
near_wrap_counts = record {
  in_word = omega arith;
  from_zero = refl;
  forward = λ k. omega arith;
  slow = λ k. omega arith;
  reads = λ k. refl;
}

micro_second_delay_example :
    (j : ℕ) × (micro_second_delay 5 near_wrap 100 ≡ some j) × (j ≡ micro_second_ticks 100)
unfolding micro_second_ticks
micro_second_delay_example = micro_second_delay_lem 100 4 near_wrap_counts (omega arith) refl

abbrev con : FbCon
con = record {
  x = 0;
  y = 0;
  max_x = 80;
  max_y = 66;
  foreground = 0;
  background = 0;
  initialized = true;
}

abbrev screen_80 : Screen 80 66 1
screen_80 = record {
  scaled = omega arith;
  columns = omega arith;
  two_lines = omega arith;
  no_wrap = omega arith;
}

abbrev log : MemLog
log = record { base = λ i. 0; offset = 2 }

serial_port_write_example :
    let (n, l') = serial_port_write 4 ((65 ∷ 66 ∷ 67 ∷ []) ++ (68 ∷ 69 ∷ [])) log in
    (n ≡ 5)
    × (l'.offset < 4)
    × (l'.base (slot 4 (serial_port_write 4 (65 ∷ 66 ∷ 67 ∷ []) log).1.offset 1) ≡ 69)
serial_port_write_example =
    serial_port_write_lem 4 (65 ∷ 66 ∷ 67 ∷ []) (68 ∷ 69 ∷ []) log 1 (omega arith) (omega arith)
      (omega arith)

abbrev base_time : BaseTime
base_time = record { year = 2019; month = 1 }

lib_get_time_example :
    (t : EfiTime) × ((lib_get_time base_time 32765 3276500000 true false).1 ≡ some t)
    × ((lib_get_time base_time 32765 3276500000 true false).0 ≡ rtc_success)
    × (t.year ≡ 2019)
    × (t.month ≡ 1)
    × (t.hour < 24)
    × (t.minute < 60)
    × (t.second < 60)
    × (seconds t ≡ 3276500000 / 32765)
lib_get_time_example =
    lib_get_time_lem base_time 32765 3276500000 false (λ e. omega arith) (omega arith)

acpuclk_set_rate_example :
    Outcome (768000000 / 1000) acpu_stby (acpuclk_set_rate 768000000 acpu_stby)
acpuclk_set_rate_example = acpuclk_set_rate-Outcome 768000000 acpu_stby

-- A bus that counts its transfers and is busy for the first one
abbrev busy_bus : I2cProtocol ℕ
busy_bus = record { xfer = λ msgs b. ((if b == 0 then 0 else 1, []), b + 1) }

abbrev probed : MicroP ℕ
probed = record { chip = some microp_i2c_addr; status = 1; bus = 0 }

microp_i2c_write_example : Written busy_bus 81 (0 ∷ 1 ∷ []) probed probed.chip
microp_i2c_write_example = microp_i2c_write-Written busy_bus 81 (0 ∷ 1 ∷ []) probed
