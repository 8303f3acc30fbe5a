-- ===== src/Backup/Media/Examples.antt =====
-- The detection of a chip at concrete ROMs.
use vibe_gba.Prelude.{ℕ, ◌≡◌, refl, List, [], ◌∷◌, ◌++◌}
use vibe_gba.Backup.Eeprom
use vibe_gba.Backup.Media.{eeprom, eeprom_v, contains, starts_with, detect_backup_type}
use vibe_gba.Backup.Media.Saves.{
  Access, read_at, write_at, pass, run, named_chip, Keeps, run-detect_backup_type,
}

abbrev rom : List ℕ
rom = b'x' ∷ (eeprom_v ++ (b'1' ∷ []))

test_detect : detect_backup_type rom ≡ eeprom Eeprom.new
unfolding detect_backup_type contains starts_with
test_detect = refl

abbrev accesses : List Access
accesses = write_at 0x0d000000 1 ∷ read_at 0x0d000000 ∷ pass 10 ∷ []

run-detect_backup_type_example : Keeps (named_chip rom) (run accesses (detect_backup_type rom))
run-detect_backup_type_example = run-detect_backup_type rom accesses
