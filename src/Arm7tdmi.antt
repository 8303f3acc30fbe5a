-- ===== src/Arm7tdmi.antt =====
-- gba-core/src/arm7tdmi: the processor.
pub mod Alu
pub mod Psr
pub mod Cpu
pub mod Loops
pub mod Arm
pub mod Thumb
pub mod Confined
pub mod Step
pub mod Wake
mod Examples
