-- ===== src/Interrupt.antt =====
-- HtcLeoPkg/Drivers/InterruptDxe/InterruptDxe.c: the vectored interrupt controller. A handler is a number,
-- and what an operation does to the hardware is a list of events. A handler that is called leaves
-- the table of handlers alone.
pub mod Dispatch
pub mod Masks
use htc_leo_pkg.Base.{
  ℕ, zero, suc, ◌+◌, ◌%◌, ◌/◌, ◌^◌, Bool, true, false, not, ◌&&◌, List, [], ◌∷◌, ◌++◌, Option, none,
  some, ltb, ◌==◌, if◌then◌else◌,
}

pub data IrqStatus : Type 0 where
  success unsupported invalid_parameter already_started : IrqStatus

pub data IrqEvent : Type 0 where
  mmio_write : ℕ → ℕ → IrqEvent
  barrier : IrqEvent
  call : ℕ → ℕ → IrqEvent

-- `gRegisteredInterruptHandlers`, an array of NR_IRQS
abbrev pub Handlers : Type 0
Handlers = ℕ → Option ℕ

abbrev pub nr_irqs : ℕ
nr_irqs = 332

-- VIC_REG
abbrev pub vic_reg : ℕ → ℕ
vic_reg off = 2885681152 + off

abbrev pub vic_int_enset : ℕ → ℕ
vic_int_enset source = if ltb 31 source then vic_reg 0x34 else vic_reg 0x30

abbrev pub vic_int_enclear : ℕ → ℕ
vic_int_enclear source = if ltb 31 source then vic_reg 0x24 else vic_reg 0x20

abbrev pub vic_int_clear : ℕ → ℕ
vic_int_clear source = if ltb 31 source then vic_reg 0xb4 else vic_reg 0xb0

abbrev pub vic_irq_vec_wr : ℕ
vic_irq_vec_wr = vic_reg 0xd8

abbrev pub all_ones : ℕ
all_ones = 0xffffffff

-- `1 << (Source & 31)`
abbrev pub source_bit : ℕ → ℕ
source_bit source = 2 ^ (source % 32)

-- `InitInterrupts`
unfoldable pub init_interrupts : List IrqEvent
init_interrupts =
    mmio_write (vic_reg 0xb0) all_ones
    ∷ mmio_write (vic_reg 0xb4) all_ones
    ∷ mmio_write (vic_reg 0x0) 0
    ∷ mmio_write (vic_reg 0x4) 0
    ∷ mmio_write (vic_reg 0x40) all_ones
    ∷ mmio_write (vic_reg 0x44) all_ones
    ∷ mmio_write (vic_reg 0x6c) 0
    ∷ mmio_write (vic_reg 0x10) 1
    ∷ mmio_write (vic_reg 0x14) 1
    ∷ mmio_write (vic_reg 0x68) 1
    ∷ []

-- `DeinitInterupts`
unfoldable pub deinit_interupts : List IrqEvent
deinit_interupts =
    mmio_write (vic_reg 0x68) 0
    ∷ mmio_write (vic_reg 0x10) 0
    ∷ mmio_write (vic_reg 0x14) 0
    ∷ mmio_write (vic_reg 0xb0) all_ones
    ∷ mmio_write (vic_reg 0xb4) all_ones
    ∷ mmio_write (vic_reg 0x0) 0
    ∷ mmio_write (vic_reg 0x4) 0
    ∷ mmio_write (vic_reg 0x40) all_ones
    ∷ mmio_write (vic_reg 0x44) all_ones
    ∷ mmio_write (vic_reg 0x6c) 0
    ∷ []

-- `EnableInterruptSource`
unfoldable pub enable_interrupt_source : ℕ → IrqStatus × List IrqEvent
enable_interrupt_source source =
    if ltb nr_irqs source
    then (unsupported, [])
    else (success, mmio_write (vic_int_enset source) (source_bit source) ∷ [])

-- `DisableInterruptSource`
unfoldable pub disable_interrupt_source : ℕ → IrqStatus × List IrqEvent
disable_interrupt_source source =
    if ltb nr_irqs source
    then (unsupported, [])
    else (success, mmio_write (vic_int_enclear source) (source_bit source) ∷ [])

abbrev pub put_handler : Handlers → ℕ → Option ℕ → Handlers
put_handler hs source h j = if j == source then h else hs j

-- The tests of `RegisterInterruptSource` on the new and the old handler
abbrev pub refuse : Option ℕ → Option ℕ → Option IrqStatus
refuse none none = some invalid_parameter
refuse (some h) (some g) = some already_started
refuse none (some g) = none
refuse (some h) none = none

-- `RegisterInterruptSource`
unfoldable pub register_interrupt_source :
    ℕ → Option ℕ → Handlers → (IrqStatus × List IrqEvent) × Handlers
unfolding enable_interrupt_source
register_interrupt_source source handler hs =
    if ltb nr_irqs source then ((unsupported, []), hs) else elim (refuse handler (hs source)) [
      | some s ↦ ((s, []), hs)
      | none ↦ (enable_interrupt_source source, put_handler hs source handler)
    ]

-- The loop of `ExitBootServicesEvent`, from the source `i` with `n` left.
unfoldable pub disable_from : ℕ → ℕ → List IrqEvent
unfolding disable_interrupt_source
disable_from i zero = []
disable_from i (suc n) = (disable_interrupt_source i).1 ++ disable_from (i + 1) n

-- `ExitBootServicesEvent`
unfoldable pub exit_boot_services_event : List IrqEvent
unfolding disable_from deinit_interupts
exit_boot_services_event = disable_from 0 nr_irqs ++ deinit_interupts

-- `GetInterruptSourceState`: the status, and `*InterruptState` if it is written. `mmio_read` reads a
-- register.
unfoldable pub get_interrupt_source_state : (ℕ → ℕ) → ℕ → IrqStatus × Option Bool
get_interrupt_source_state mmio_read source =
    if ltb nr_irqs source
    then (unsupported, none)
    else (success, some (not (mmio_read (vic_int_enclear source) / source_bit source % 2 == 1)))

-- `EndOfInterrupt`
unfoldable pub end_of_interrupt : ℕ → IrqStatus × List IrqEvent
end_of_interrupt source =
    if ltb nr_irqs source
    then (unsupported, [])
    else (success, mmio_write vic_irq_vec_wr 0 ∷ barrier ∷ [])

abbrev pub calls : Option ℕ → ℕ → List IrqEvent
calls none vector = []
calls (some h) vector = call h vector ∷ []

-- `IrqInterruptHandler`, when VIC_IRQ_VEC_RD reads `vector`
unfoldable pub irq_interrupt_handler : ℕ → Handlers → List IrqEvent
irq_interrupt_handler vector hs =
    mmio_write (vic_int_clear vector) (source_bit vector) ∷ barrier ∷ calls (hs vector) vector
    ++ (mmio_write vic_irq_vec_wr 0 ∷ barrier ∷ [])
