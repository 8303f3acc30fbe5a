-- ===== src/Backup/Eeprom/Examples.antt =====
-- Runs of the EEPROM, and its theorems at concrete inputs. A chip of 16 bytes stands for a large
-- one.
use vibe_gba.Prelude.{
  ℕ, ◌+◌, ◌*◌, ◌≤◌, ◌<◌, ◌≡◌, ◌⊎◌, inl, refl, arith, Bool, true, false, List, [], ◌∷◌, ◌++◌,
  replicate, get_or,
}
use vibe_gba.Backup.Eeprom.{
  Eeprom, unknown, small, idle, write, effective_addr_width, store_bytes, dispatch, take_command,
  take_address, take_data, detect_size, width_of, store_data,
}
use vibe_gba.Backup.Eeprom.Bits.{value}
use vibe_gba.Backup.Eeprom.Send.{write_bits}
use vibe_gba.Backup.Eeprom.Receive.{read_bits, numbers}
use vibe_gba.Backup.Eeprom.Exchange.{write_command, read_command, IsAddress, read-write_command}

abbrev chip : Eeprom
chip = record {
  cells = replicate 16 0xff;
  state = idle;
  size = small;
  cmd = 0;
  bit_buf = 0;
  bits_in = 0;
  address = 0;
  read_buf = 0;
  read_bits_left = 0;
  addr_width = 6;
}

abbrev first_block : List Bool
first_block = false ∷ false ∷ false ∷ false ∷ false ∷ true ∷ []

abbrev ones : List Bool
ones = replicate 64 true

test_write_stores :
    (write_bits (write_command first_block (false ∷ replicate 63 true) false) chip).cells
    ≡ replicate 8 0xff ++ (0x7f ∷ replicate 7 0xff)
unfolding write_bits write dispatch take_command take_address take_data detect_size
    effective_addr_width width_of store_data store_bytes
test_write_stores = refl

first_block-IsAddress : IsAddress first_block chip
unfolding effective_addr_width
first_block-IsAddress = record {
  width = record { known = λ q. cc; width = refl };
  narrow = omega arith;
  some_bits = omega arith;
  inside = omega arith;
}

read-write_command_example :
    let e' =
      write_bits
        (read_command first_block false)
        (write_bits (write_command first_block ones false) chip) in
    ((read_bits 68 e').1 ≡ 0 ∷ 0 ∷ 0 ∷ 0 ∷ numbers ones)
    × ((read_bits 68 e').0.state ≡ idle)
    × ((j : ℕ)
        → (j < value first_block * 8) ⊎ (value first_block * 8 + 8 ≤ j)
        → get_or (read_bits 68 e').0.cells j 0xff ≡ get_or chip.cells j 0xff)
read-write_command_example =
    read-write_command first_block ones false false chip (inl refl) first_block-IsAddress refl

abbrev unsized : Eeprom
unsized = record chip { size = unknown; addr_width = 0 }
