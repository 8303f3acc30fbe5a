-- ===== src/Backup/Media/Saves.antt =====
-- The size of a save file, and that no access changes which chip the cartridge has.
use vibe_gba.Prelude.{
  ℕ, ◌*◌, ◌≡◌, ◌∙◌, Bool, true, false, ◌||◌, Option, List, [], ◌∷◌, if◌then◌else◌,
}
use vibe_gba.Backup.Sram
use vibe_gba.Backup.Sram.Mirror.{IsFull, new-IsFull, write-IsFull}
use vibe_gba.Backup.Flash
use vibe_gba.Backup.Flash.Valid.{
  IsValid, new_with_rom-IsValid, new_with_rom-size, write-IsValid, write-size, tick-IsValid,
  tick-size,
}
use vibe_gba.Backup.Eeprom
use vibe_gba.Backup.Eeprom.Capacity.{IsSized, new-IsSized, write-IsSized, read_bit-IsSized}
use vibe_gba.Backup.Media.{
  BackupMedia, none, sram, flash, eeprom, read, write, tick, contains, detect_backup_type, sram_v,
  sram_f_v, flash1m_v, flash_v, flash512_v, eeprom_v,
}

pub data Access : Type 0 where
  read_at : ℕ → Access
  write_at : ℕ → ℕ → Access
  pass : ℕ → Access

pub perform : Access → BackupMedia → BackupMedia
perform (read_at addr) m = (read addr m).0
perform (write_at addr val) m = write addr val m
perform (pass cycles) m = tick cycles m

pub run : List Access → BackupMedia → BackupMedia
unfolding perform
run [] m = m
run (a ∷ as') m = run as' (perform a m)

pub data Chip : Type 0 where
  no_chip sram_chip flash_64k flash_128k eeprom_chip : Chip

-- Which chip the cartridge has, with all the cells that such a chip has.
pub data Keeps : Chip → BackupMedia → Type 0 where
  no_cells : Keeps no_chip none
  sram_cells : {s : Sram.Sram} → IsFull s → Keeps sram_chip (sram s)
  cells_64k : {f : Flash.Flash} → IsValid f → f.size ≡ 64 * 1024 → Keeps flash_64k (flash f)
  cells_128k : {f : Flash.Flash} → IsValid f → f.size ≡ 128 * 1024 → Keeps flash_128k (flash f)
  eeprom_cells : {e : Eeprom.Eeprom} → IsSized e → Keeps eeprom_chip (eeprom e)

perform-Keeps : (a : Access) {c : Chip} {m : BackupMedia} → Keeps c m → Keeps c (perform a m)
unfolding perform read write tick
perform-Keeps (read_at addr) no_cells = no_cells
perform-Keeps (read_at addr) (sram_cells full) = sram_cells full
perform-Keeps (read_at addr) (cells_64k v e) = cells_64k v e
perform-Keeps (read_at addr) (cells_128k v e) = cells_128k v e
perform-Keeps (read_at addr) (eeprom_cells {e} s) = eeprom_cells (read_bit-IsSized e s)
perform-Keeps (write_at addr val) no_cells = no_cells
perform-Keeps (write_at addr val) (sram_cells {s} full) = sram_cells (write-IsFull addr val s full)
perform-Keeps (write_at addr val) (cells_64k {f} v e) =
    cells_64k (write-IsValid addr val v) (write-size addr val f ∙ e)
perform-Keeps (write_at addr val) (cells_128k {f} v e) =
    cells_128k (write-IsValid addr val v) (write-size addr val f ∙ e)
perform-Keeps (write_at addr val) (eeprom_cells {e} s) = eeprom_cells (write-IsSized val e s)
perform-Keeps (pass cycles) no_cells = no_cells
perform-Keeps (pass cycles) (sram_cells full) = sram_cells full
perform-Keeps (pass cycles) (cells_64k {f} v e) =
    cells_64k (tick-IsValid cycles v) (tick-size cycles f ∙ e)
perform-Keeps (pass cycles) (cells_128k {f} v e) =
    cells_128k (tick-IsValid cycles v) (tick-size cycles f ∙ e)
perform-Keeps (pass cycles) (eeprom_cells s) = eeprom_cells s

run-Keeps : (as' : List Access) {c : Chip} {m : BackupMedia} → Keeps c m → Keeps c (run as' m)
unfolding run
run-Keeps [] k = k
run-Keeps (a ∷ as') k = run-Keeps as' (perform-Keeps a k)

-- The chip that the signatures in a ROM name.
pub named_chip : List ℕ → Chip
named_chip rom =
    if contains sram_v rom || contains sram_f_v rom
    then sram_chip
    else if contains flash1m_v rom
    then flash_128k
    else if contains flash_v rom || contains flash512_v rom
    then flash_64k
    else if contains eeprom_v rom
    then eeprom_chip
    else no_chip

detect_backup_type-Keeps : (rom : List ℕ) → Keeps (named_chip rom) (detect_backup_type rom)
unfolding detect_backup_type named_chip
detect_backup_type-Keeps rom =
    choose (contains sram_v rom || contains sram_f_v rom) (contains flash1m_v rom)
      (contains flash_v rom || contains flash512_v rom) (contains eeprom_v rom)
  where
    choose :
        (s f1 f e : Bool)
        → Keeps
            (if s
              then sram_chip
              else if f1
              then flash_128k
              else if f
              then flash_64k
              else if e
              then eeprom_chip
              else no_chip)
            (if s
              then sram Sram.new
              else if f1
              then flash (Flash.new_with_rom (128 * 1024) (Option.some rom))
              else if f
              then flash (Flash.new_with_rom (64 * 1024) (Option.some rom))
              else if e
              then eeprom Eeprom.new
              else none)
    choose true f1 f e = sram_cells new-IsFull
    choose false true f e =
        cells_128k (new_with_rom-IsValid (128 * 1024) (Option.some rom))
          (new_with_rom-size (128 * 1024) (Option.some rom))
    choose false false true e =
        cells_64k (new_with_rom-IsValid (64 * 1024) (Option.some rom))
          (new_with_rom-size (64 * 1024) (Option.some rom))
    choose false false false true = eeprom_cells new-IsSized
    choose false false false false = no_cells

-- Whatever the ROM, and whatever reads, writes and cycles follow, the cartridge keeps the chip that
-- its signatures name and all the cells of it: 32 KB of SRAM, 64 KB or 128 KB of flash with a bank
-- number of 0 or 1, or the EEPROM's 512 bytes or 8 KB by the size it has found.
pub run-detect_backup_type :
    (rom : List ℕ) (as' : List Access) → Keeps (named_chip rom) (run as' (detect_backup_type rom))
run-detect_backup_type rom as' = run-Keeps as' (detect_backup_type-Keeps rom)
