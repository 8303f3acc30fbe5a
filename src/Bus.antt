-- ===== src/Bus.antt =====
-- gba-core/src/bus: the registers and the timing of the bus.
pub mod Port
pub mod Memory
pub mod Bytes
pub mod State
pub mod Cycles
pub mod Registers
pub mod Reads
pub mod Writes
pub mod Stores
pub mod Transfer
pub mod Whole
pub mod WorkRam
pub mod Secret
pub mod Boot
mod Examples
pub mod IoRegs
pub mod Timing
