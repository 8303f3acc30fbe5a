-- ===== src/Lib.antt =====
-- VibeGBA, a Game Boy Advance emulator: a verification library of its core, the crate gba-core.
--
-- The program is a set of hardware components, each a struct with the operations that the bus or the
-- main loop calls on it, joined by gba-core/src/bus/mod.rs and gba-core/src/lib.rs. Here each component
-- is a module of its own: its state is a record with the source's fields, each method is a function
-- that takes the state and returns the new one, and a fallible method returns an Option. The files
-- under a component's module hold its theorems, named for what they show, and its runs at concrete
-- values (Examples).
--
--   Prelude          shared names, Boolean tests, arrays as lists, words and their bits, integers
--   Apu/Fifo         gba-core/src/apu/fifo.rs: the sample queues of the Direct Sound channels
--   Timer            gba-core/src/timer.rs: the four timers, their prescalers and cascade
--   Backup/Sram      gba-core/src/backup/sram.rs: battery-backed memory
--   Backup/Flash     gba-core/src/backup/flash.rs: the flash chip and its command protocol
--   Backup/Eeprom    gba-core/src/backup/eeprom.rs: the EEPROM and its serial protocol
--   Backup/Media     gba-core/src/backup/mod.rs: any save chip, and its detection in a ROM
--   Interrupt        gba-core/src/interrupt.rs: the interrupt controller
--   Keypad           gba-core/src/keypad.rs: the buttons and their interrupt
--   Arm7tdmi/Alu     gba-core/src/arm7tdmi/alu.rs: the barrel shifter and the adder
--   Arm7tdmi/Psr     gba-core/src/arm7tdmi/mod.rs: modes, status words and condition codes
--   Arm7tdmi/Cpu     gba-core/src/arm7tdmi/mod.rs: registers, banks and exceptions
--   Arm7tdmi/Step    gba-core/src/arm7tdmi/mod.rs: the step of the processor and its pipeline
--   Arm7tdmi/Wake    a halted processor and the interrupt that wakes it
--   Arm7tdmi/Loops   the loops over lists of registers that both instruction sets share
--   Arm7tdmi/Arm     gba-core/src/arm7tdmi/arm.rs: the decoder and the instructions of the ARM set
--   Arm7tdmi/Thumb   gba-core/src/arm7tdmi/thumb.rs: the decoder and the instructions of the THUMB set
--   Arm7tdmi/Confined  what no instruction in User mode changes
--   Dma              gba-core/src/dma.rs: the DMA channels
--   Bus/Port         the operations of the bus, as the processor and the BIOS calls see them
--   Bus/Memory, Bytes  what they may rely on where the bus has memory
--   Bus/State        gba-core/src/bus/mod.rs: the state of the bus
--   Bus/Cycles       gba-core/src/bus/mod.rs: the cycles of an access
--   Bus/Registers    gba-core/src/bus/mod.rs: the reads of the I/O registers
--   Bus/Reads        gba-core/src/bus/mod.rs: the reads, by the address map
--   Bus/Writes       gba-core/src/bus/mod.rs: the writes of the I/O registers
--   Bus/Stores       gba-core/src/bus/mod.rs: the writes, by the address map
--   Bus/Transfer     gba-core/src/bus/mod.rs: the DMA over the bus, and the bus as a Port
--   Bus/Boot         gba-core/src/bus/mod.rs: the bus at the start and the BIOS that stands in
--   Bus/IoRegs       gba-core/src/bus/io_regs.rs: the display registers
--   Bus/Timing       gba-core/src/bus/timing.rs: wait states and the prefetch credit
--   Bios             gba-core/src/bios.rs: calls of the BIOS
--   Bios/Decompress  gba-core/src/bios.rs: the decompressors LZ77 and run length
--   Ppu/Window       gba-core/src/ppu/window.rs: the windows of a line
--   Ppu/Effects      gba-core/src/ppu/effects.rs: the colour effects
--   Rtc              gba-core/src/rtc.rs: the real-time clock of a cartridge, and its calendar
--   Scheduler        gba-core/src/scheduler.rs: the queue of timed events
--
-- Functions keep the source's names. A method of one component that several modules declare, such as
-- `new`, `read` or `write`, is told apart by its module. A helper without a counterpart of its own is
-- a part of a method that its comment names: a branch of a match, the body of a loop, or one of four
-- equal channels.
--
-- Numbers are natural numbers with the width of their type written out where an operation can wrap;
-- `&`, `|` and `^` are bit operations, or remainders and sums where a comment says why that is the
-- same. Signed values are integers. A Vec or an array is a list, and a read or write out of range does
-- what the source does there. Loops are recursion on the number of rounds or on the list, so that no
-- fuel is needed and every function is total: the loop of a DMA runs on its latched count, the loop of
-- the timers on the list of timers, the window line on its 240 pixels.
--
-- The processor and the BIOS calls run over a Port, the record of the bus operations on a state of any
-- type, which Bus/Transfer fills with the bus itself. The bus in turn calls the sound and the picture
-- through the record Chips. A transfer of a DMA may write the control register of a channel and so run
-- another one within: the model takes the depth of that nesting, and what is shown of the bus holds at
-- every depth. The decompressors run on as many rounds as there are bytes to write, which is shown to
-- be enough. Sums of addresses and of the program counter wrap, as in a build for release.
--
-- The heap of the scheduler, a type of the standard library, is the list of its events. The memory
-- that a DMA of gba-core/src/dma.rs copies is a parameter, the four closures that the source passes,
-- and the wall clock of the host is an argument of the real-time clock and of the bus. Not modelled are
-- the tracing and logging that environment variables switch on, the save states, the BIOS calls with
-- floating-point numbers, BitUnPack, HuffUnComp and the dispatch of the calls, the drawing of
-- backgrounds and sprites, the sound generators and the mixing of the sound (which uses floating-point
-- numbers), the main loop, and the frontend.
pub mod Prelude
pub mod Apu
pub mod Timer
pub mod Backup
pub mod Arm7tdmi
pub mod Interrupt
pub mod Keypad
pub mod Dma
pub mod Bus
pub mod Bios
pub mod Ppu
pub mod Rtc
pub mod Scheduler
