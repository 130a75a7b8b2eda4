-- ===== src/Lib.antt =====
-- A model of the firmware package HtcLeoPkg for the HTC Leo, as executable functions, and what they do.
--
-- The package boots a phone into UEFI. The parts with logic of their own are modelled here: the
-- keypad from its pins to the console, the pins of the chip, the interrupt controller and the timers,
-- the speed of the processor, the calls to the modem and the clocks that it switches, the I2C bus, the card, the shared memory and the partition tables in it, the text console and
-- the log, the clock, the charger and the battery gauge, the memory map, and the game that the menu starts. Paths below are from HtcLeoPkg in the
-- repository's root. They meet in this order: the pins (Gpio) are read by the scan of the seven
-- keys (Keypad/Device), which runs each key's press state machine (Keypad/Helper) with the time
-- that has passed (Timer); what a scan reports goes through the key rings (Keypad/Queue) of the
-- console device (Keypad/Console), and the game (Tetris) reads its keys from such a console. The
-- charger sets two pins. The timer driver (TimerDriver) enables and disables its source at the
-- interrupt controller (Interrupt). The shared memory driver (Smem) implements the interface through
-- which SmemPtable reads its tables; SmemPtable splits the names in them with strtok (StrLib) and adds
-- partitions to a table (PTable).
--
-- Files:
-- Base, Base/*: the shared names: Boolean tests on numbers, arrays as lists, signed integers.
-- Uefi: the scan codes, characters and key data of the UEFI specification.
-- Timer: Library/GPTTimerLib/GPTTimerLib.c. The k-th reading of the counter register is an argument; Delay
-- is about the waiting loops.
-- TimerDriver: Drivers/TimerDxe/Timer.c. Interrupt: Drivers/InterruptDxe/InterruptDxe.c. Writes and calls
-- of handlers are lists of events; what a write does to the enabled sources is the interface Vic.
-- Clock: GPLDrivers/ClockDxe/acpuclock.c. acpuclk_set_rate gives the list of its calls; Registers has
-- select_clock on its two registers, Pll scpll_set_freq with the waits for the PLL, whose status is an interface. Pll/Settled is about a PLL that
-- settles, Hardware executes the calls on the registers.
-- StrLib: Library/StrLib, on a memory of characters (Base/Memory); Tokens is about strtok_r, Scans about
-- the others.
-- Smem: Drivers/SmemDxe/smem.c. SmemPtable: Drivers/SmemPtableDxe/smem_ptable.c, with Ram for the RAM table;
-- Names and Modem are about smem_add_modem_partitions, Flash about smem_ptable_init.
-- Pcom: Library/MsmPcomLib/pcom.c, the calls to the modem; what the modem does between two readings is an argument. Answer
-- says when it keeps to the protocol. Pcom/Clients: Library/MsmPcomClientLib/pcom_clients.c; Rounds is about its loops, Pins
-- about the words for pins.
-- EmbeddedClock: GPLDrivers/ClockDxe/ClockDxe.c on the calls of Pcom; Speeds is about the speeds, Numbers about the table.
-- I2c: GPLDrivers/I2CDxe/I2CDxe.c, the interrupt handler; I2c/Transfer the transfers. Sound is about the counters, Writes and
-- Reads about the bytes of a message, Idle about the end of a transfer. The messages are those of MicroP.
-- SdCard: GPLDrivers/SdCardDxe/SdCardDxe.c on the controller's driver as an interface; Mbr is about the start,
-- with the status of InstallMultipleProtocolInterfaces as an argument, Blocks about reading.
-- MemoryMap: Library/HtcLeoPkgLib/HtcLeoPkgMem.c; the loop over the blocks has fuel for each block and two for each region, since
-- a region adds at most two. Carving is about this loop.
-- BatteryGauge: Library/DS2746Lib/DS2746.c; the byte that a reading leaves is an argument. Words is about the signed words.
-- Reset: Library/HtcLeoPlatformResetLib; Outcome is about what a reset asks of the modem.
-- FbCon: Library/FrameBufferSerialPortLib, the cursor; drawing is an event. FbCon/Glyph: FbConDrawglyph and ResetFb, byte
-- by byte; Strip and Painted turn its loops into strips of bytes, Picture and Drawn look bytes up in them, Spots
-- names the places of a glyph, and Shown says what they show. FbCon/Scroll is FbConScrollUp, FbCon/Font the font, FbCon/Frame draws the events of the
-- console, and Frame/Safe is about the frame buffer's bounds.
-- MicroP: Drivers/MicroPDxe/MicroPDxe.c, on the I2C bus as an interface (I2cProtocol); Attempts is about its
-- loops.
-- MemLog: Library/InMemorySerialPortLib. Rtc: Library/VirtualRealTimeClockLib.
-- Gpio: Drivers/GpioDxe/GpioDxe.c and Include/Chipset/gpio.h, with the whole table of banks. A register
-- is the bits of the word at its address. Gpio/Banks is about the table, Gpio/Pins about the calls. Gpio/Interrupts is the
-- interrupt handler, with the registers that the hardware changes as an interface; Acks is about its writes.
-- Charger: Application/ChargingApp/charger.c; what a tick reads (USB status, AC, voltage) is an argument.
-- PTable: Library/PTableLib/ptable.c; strcmp and strlcpy, which are not in the package, are arguments.
-- Keypad/Queue: EFI_KEY_QUEUE of Drivers/KeypadDxe/KeypadTextIn.c; Refine relates it to a list of keys.
-- Keypad/Helper: Include/Library/KeypadDeviceHelperLib.h. LibKeyUpdateKeyStatus is update_key_status, the
-- cases of its switch are switch_state, held and let_go; the two bitmaps are functions of the bit.
-- Keypad/Device: Library/KeypadDeviceImplLib/KeypadDeviceImplLib.c. What a pin reads, given the pins that
-- are driven, is the argument `pins`. The events that the light creates are numbered.
-- Keypad/Console: KeypadController.c, KeypadTextIn.c and Keypad.c of Drivers/KeypadDxe. The keypad device
-- is an interface (KeypadDevice), the counter value is an argument, a call with a null pointer is `none`,
-- and the allocation of a registration is an argument. The functions that are called for a key leave the
-- device alone in the model. Notify holds the registrations; Push, Read, Wait and Notified the proofs.
-- Tetris/Piece, Tetris/Board, Tetris/Core: Piece.c, Board.c, Core.c and the loop of main.c in
-- Application/TetrisApp. A round of the loop is one handleInput and one drawWindow, with the timer's calls
-- before each; the loop tests the state between rounds only. A board's field is a function of row and
-- column. Drawing to the console is not modelled, except that the visible fields that the source draws
-- into its array are.
-- Tests: the theorems at concrete inputs.
--
-- Integers are natural numbers, with the wrap-around of the source's width written out where a value can
-- reach it; positions of the game are signed. Loops are structural recursion, or recursion on fuel:
-- dropPiece has 32 rounds for at most 22 rows, checkAndRemoveLines 64 for at most 20 rows with at most 20
-- repeats, KeypadReadKeyStroke and KeypadWaitForKey 256 for a ring of at most 255 keys; a scan of a text has more
-- rounds than the text has characters, printing a character two, and a delay one more than the readings
-- after which its ticks have passed. A transfer to the micro-processor has the 17 attempts of the source. A wait
-- for the modem takes one reading more than the modem takes steps, the wait for the I2C bus the 200 readings of the source, and
-- a wait for the PLL as many readings as it takes to settle.
--
-- Not modelled: the controller of the SD card (mmc.c), a driver of another project; the frame buffer and logo drivers, which
-- set up registers and a picture; the drivers that only find and install protocols; the start-up code; the boot manager; and
-- the copies of EDK2 drivers (ConSplitterDxe, GraphicsConsoleDxe).
pub mod Base
pub mod Uefi
pub mod Tetris
pub mod Timer
pub mod Gpio
pub mod Charger
pub mod Keypad
pub mod PTable
pub mod Tests
pub mod StrLib
pub mod Smem
pub mod SmemPtable
pub mod Interrupt
pub mod TimerDriver
pub mod FbCon
pub mod MemLog
pub mod Rtc
pub mod Clock
pub mod MicroP
pub mod Pcom
pub mod BatteryGauge
pub mod Reset
pub mod MemoryMap
pub mod I2c
pub mod SdCard
pub mod EmbeddedClock
