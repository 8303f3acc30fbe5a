-- ===== src/Backup/Media.antt =====
-- gba-core/src/backup/mod.rs: whichever save chip the cartridge has, and how it is told from the
-- ROM.
pub mod Saves
pub mod Search
mod Examples
use vibe_gba.Prelude.{
  ℕ, ◌*◌, Bool, true, false, ◌&&◌, ◌||◌, Option, List, [], ◌∷◌, ◌==◌, if◌then◌else◌,
}
use vibe_gba.Backup.Sram
use vibe_gba.Backup.Flash
use vibe_gba.Backup.Eeprom

pub data BackupMedia : Type 0 where
  none : BackupMedia
  sram : Sram.Sram → BackupMedia
  flash : Flash.Flash → BackupMedia
  eeprom : Eeprom.Eeprom → BackupMedia

-- The media after the read, and the byte.
pub read : ℕ → BackupMedia → BackupMedia × ℕ
read addr none = (none, 0xff)
read addr (sram s) = (sram s, Sram.read addr s)
read addr (flash f) = (flash f, Flash.read addr f)
read addr (eeprom e) = (eeprom (Eeprom.read_bit e).0, (Eeprom.read_bit e).1)

pub write : ℕ → ℕ → BackupMedia → BackupMedia
write addr val none = none
write addr val (sram s) = sram (Sram.write addr val s)
write addr val (flash f) = flash (Flash.write addr val f)
write addr val (eeprom e) = eeprom (Eeprom.write val e)

pub is_busy : BackupMedia → Bool
is_busy (flash f) = Flash.is_busy f
is_busy _ = false

pub tick : ℕ → BackupMedia → BackupMedia
tick cycles (flash f) = flash (Flash.tick cycles f)
tick cycles m = m

pub to_raw : BackupMedia → Option (List ℕ)
to_raw none = Option.none
to_raw (sram s) = Option.some s.cells
to_raw (flash f) = Option.some f.cells
to_raw (eeprom e) = Option.some e.cells

pub starts_with : List ℕ → List ℕ → Bool
starts_with [] rom = true
starts_with (p ∷ ps) [] = false
starts_with (p ∷ ps) (b ∷ rom) = p == b && starts_with ps rom

-- `from_utf8_lossy` and `str::contains`: a pattern of ASCII characters occurs in the text exactly
-- where its bytes occur in the ROM, since what is replaced holds no ASCII byte.
pub contains : List ℕ → List ℕ → Bool
unfolding starts_with
contains pattern [] = starts_with pattern []
contains pattern (b ∷ rom) = starts_with pattern (b ∷ rom) || contains pattern rom

-- "SRAM_V", "SRAM_F_V", "FLASH1M_V", "FLASH_V", "FLASH512_V" and "EEPROM_V".
abbrev pub sram_v : List ℕ
sram_v = b'S' ∷ b'R' ∷ b'A' ∷ b'M' ∷ b'_' ∷ b'V' ∷ []

abbrev pub sram_f_v : List ℕ
sram_f_v = b'S' ∷ b'R' ∷ b'A' ∷ b'M' ∷ b'_' ∷ b'F' ∷ b'_' ∷ b'V' ∷ []

abbrev pub flash1m_v : List ℕ
flash1m_v = b'F' ∷ b'L' ∷ b'A' ∷ b'S' ∷ b'H' ∷ b'1' ∷ b'M' ∷ b'_' ∷ b'V' ∷ []

abbrev pub flash_v : List ℕ
flash_v = b'F' ∷ b'L' ∷ b'A' ∷ b'S' ∷ b'H' ∷ b'_' ∷ b'V' ∷ []

abbrev pub flash512_v : List ℕ
flash512_v = b'F' ∷ b'L' ∷ b'A' ∷ b'S' ∷ b'H' ∷ b'5' ∷ b'1' ∷ b'2' ∷ b'_' ∷ b'V' ∷ []

abbrev pub eeprom_v : List ℕ
eeprom_v = b'E' ∷ b'E' ∷ b'P' ∷ b'R' ∷ b'O' ∷ b'M' ∷ b'_' ∷ b'V' ∷ []

pub detect_backup_type : List ℕ → BackupMedia
unfolding contains
detect_backup_type rom =
    if contains sram_v rom || contains sram_f_v rom
    then sram Sram.new
    else if contains flash1m_v rom
    then flash (Flash.new_with_rom (128 * 1024) (Option.some rom))
    else if contains flash_v rom || contains flash512_v rom
    then flash (Flash.new_with_rom (64 * 1024) (Option.some rom))
    else if contains eeprom_v rom
    then eeprom Eeprom.new
    else none
