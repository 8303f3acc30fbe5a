-- ===== src/Backup/Flash/Examples.antt =====
-- Runs of the flash chip, and its theorems at concrete inputs. A chip of 16 bytes stands for a
-- large one.
use vibe_gba.Prelude.{
  ℕ, ◌≡◌, ◌≢◌, ◌⊎◌, refl, arith, ◌/◌, ◌==◌, if◌then◌else◌, bit_and, none, some, List, [], ◌∷◌,
  replicate,
}
use vibe_gba.Backup.Flash.{
  Flash, ready, offset_of, sector_size, read, write, new_with_rom, pick_chip_id, scan, first_found,
}
use vibe_gba.Backup.Flash.Protocol.{
  unlock, program, erase_at, unlock_erase, read-program, read-erase_at,
}
use vibe_gba.Backup.Flash.Safety.{Store, at, after, Ends, cells_need_handshake}

abbrev small : Flash
small = record {
  cells = replicate 16 0xff;
  state = ready;
  bank = 0;
  size = 16;
  busy_cycles = 0;
  reported_id = (0x32, 0x1b);
}

abbrev large : Flash
large = record small { size = 0x20000 }

new_small : new_with_rom 16 none ≡ small
unfolding new_with_rom pick_chip_id
new_small = refl

test_flash_write_byte : read 5 (program 5 0x42 small) ≡ 0x42
unfolding read write unlock
test_flash_write_byte = refl

test_flash_sector_erase : read 5 (erase_at 0 (program 5 0x42 small)) ≡ 0xff
unfolding read write unlock unlock_erase
test_flash_sector_erase = refl

test_flash_chip_id : (read 0 (unlock 0x90 small) ≡ 0x32) × (read 1 (unlock 0x90 small) ≡ 0x1b)
unfolding read write unlock
test_flash_chip_id = (refl, refl)

read-program_example :
    ((program 5 0x42 small).state ≡ ready)
    × (read 5 (program 5 0x42 small) ≡ bit_and (read 5 small) 0x42)
    × (offset_of 6 ≢ offset_of 5 → read 6 (program 5 0x42 small) ≡ read 6 small)
read-program_example = read-program 5 0x42 6 small refl (omega arith)

read-erase_at_example :
    ((erase_at 3 small).state ≡ ready)
    × (read 0x1003 (erase_at 3 small) ≡ (
        if offset_of 0x1003 / sector_size == offset_of 3 / sector_size
        then 0xff
        else read 0x1003 small))
read-erase_at_example = read-erase_at 3 0x1003 small refl

abbrev half_way : List Store
half_way = at 0x2aaa 0x55 ∷ at 0x5555 0xaa ∷ []

cells_need_handshake_example :
    ((after (at 5 0x42 ∷ half_way) small).cells ≡ (after half_way small).cells)
    ⊎ Ends ((0x5555, 0xa0) ∷ (0x2aaa, 0x55) ∷ (0x5555, 0xaa) ∷ []) half_way
    ⊎ Ends
        ((0x2aaa, 0x55) ∷ (0x5555, 0xaa) ∷ (0x5555, 0x80) ∷ (0x2aaa, 0x55) ∷ (0x5555, 0xaa) ∷ [])
        half_way
cells_need_handshake_example = cells_need_handshake half_way 5 0x42 small refl

abbrev rom : List ℕ
rom = 0 ∷ 0 ∷ 0xbf ∷ 0xd4 ∷ 0x1f ∷ 0x3d ∷ []

pick_chip_id-rom : pick_chip_id 16 (some rom) ≡ (0xbf, 0xd4)
unfolding pick_chip_id first_found scan
pick_chip_id-rom = refl
