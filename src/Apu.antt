-- ===== src/Apu.antt =====
-- gba-core/src/apu: the audio unit.
pub mod Fifo
