-- ===== src/Bus/Examples.antt =====
-- The bus of a console without a BIOS image, with a cartridge of four bytes and without sound and
-- picture.
use vibe_gba.Prelude.{ℕ, ◌≡◌, arith, [], ◌∷◌, none}
use vibe_gba.Bus.State.{Bus, Chips}
use vibe_gba.Bus.Boot.{new}
use vibe_gba.Bus.Memory.{IsMemory}
use vibe_gba.Bus.Reads.{read8, read16, read32}
use vibe_gba.Bus.Transfer.{bus_port}
use vibe_gba.Bus.WorkRam.{work_ram_is_memory, ewram_word, iwram_word}
use vibe_gba.Bus.Bytes.{IsBytes}
use vibe_gba.Bus.WorkRam.Bytes.{work_bytes_are_memory, ewram_byte, iwram_byte}
use vibe_gba.Bus.Secret.{with_bios, elsewhere, bios_is_protected}

-- Sound and picture as numbers that nothing reads.
abbrev silent : Chips ℕ ℕ
silent = record {
  read_reg = λ off a. 0;
  write_reg = λ off val a. a;
  reload_bg_ref = λ bg axis io p. p;
}

abbrev booted : Bus ℕ ℕ
booted = record (new 0 0 none (1 ∷ 2 ∷ 3 ∷ 4 ∷ [])) { last_pc = 0x08000000 }

work_ram_is_memory_example :
    IsMemory (Bus ℕ ℕ) (bus_port silent 0 1) 0x02000000 0x02040000 ewram_word
    × IsMemory (Bus ℕ ℕ) (bus_port silent 0 1) 0x03000000 0x03008000 iwram_word
work_ram_is_memory_example = work_ram_is_memory silent 0 1

bios_is_protected_example :
    (read8 silent 0x18 (with_bios [] booted) ≡ elsewhere [] (read8 silent 0x18 booted))
    × (read16 silent 0x18 (with_bios [] booted) ≡ elsewhere [] (read16 silent 0x18 booted))
    × (read32 silent 0x18 (with_bios [] booted) ≡ elsewhere [] (read32 silent 0x18 booted))
bios_is_protected_example = bios_is_protected [] silent 0x18 booted (omega arith)

work_bytes_are_memory_example :
    IsBytes (Bus ℕ ℕ) (bus_port silent 0 1) 0x02000000 0x02040000 ewram_byte
    × IsBytes (Bus ℕ ℕ) (bus_port silent 0 1) 0x03000000 0x03008000 iwram_byte
work_bytes_are_memory_example = work_bytes_are_memory silent 0 1
