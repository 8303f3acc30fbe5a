-- ===== src/Backup.antt =====
-- gba-core/src/backup: the save chips of a cartridge.
pub mod Sram
pub mod Flash
pub mod Eeprom
pub mod Media
