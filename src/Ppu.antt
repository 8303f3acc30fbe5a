-- ===== src/Ppu.antt =====
-- gba-core/src/ppu: the windows and the colour effects of the picture unit.
pub mod Window
pub mod Effects
