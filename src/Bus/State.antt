-- ===== src/Bus/State.antt =====
-- gba-core/src/bus/mod.rs: the state of the bus. The memories of a fixed size are functions of the
-- index, which every access masks below that size; the BIOS and the ROM are lists.
use vibe_gba.Prelude.{
  ℕ, ◌+◌, ◌-◌, ◌*◌, ◌/◌, ◌%◌, ◌^◌, Bool, true, false, ◌&&◌, ◌==◌, if◌then◌else◌, ltb, leb, List,
  length, Option,
}
use vibe_gba.Backup.Media.{BackupMedia}
use vibe_gba.Bus.IoRegs.{IoRegisters}
use vibe_gba.Bus.Timing.{WaitTable, Prefetch}
use vibe_gba.Dma.{DmaController}
use vibe_gba.Interrupt.{InterruptController}
use vibe_gba.Keypad.{Keypad}
use vibe_gba.Rtc.{Rtc}
use vibe_gba.Timer.{Timers}

-- The operations of the sound and the picture that the bus calls (apu/mod.rs, ppu/mod.rs).
pub record Chips (A : Type 0) (P : Type 0) : Type 0 where
  pub read_reg : ℕ → A → ℕ
  pub write_reg : ℕ → ℕ → A → A
  pub reload_bg_ref : ℕ → ℕ → IoRegisters → P → P

pub record Bus (A : Type 0) (P : Type 0) : Type 0 where
  pub bios : List ℕ
  pub ewram : ℕ → ℕ
  pub iwram : ℕ → ℕ
  pub io : IoRegisters
  pub ppu : P
  pub apu : A
  pub palette : ℕ → ℕ
  pub vram : ℕ → ℕ
  pub oam : ℕ → ℕ
  pub rom : List ℕ
  pub backup : BackupMedia
  pub dma : DmaController
  pub timers : Timers
  pub interrupt : InterruptController
  pub keypad : Keypad
  pub rtc : Rtc
  pub last_read : ℕ
  pub bios_latch : ℕ
  pub has_bios : Bool
  pub halt_requested : Bool
  pub last_pc : ℕ
  pub mem_access_cycles : ℕ
  pub last_access_end : ℕ
  pub now : ℕ
  pub wait : WaitTable
  pub prefetch : Prefetch
  pub fetch_mode : Option Bool

-- A byte of a memory, and the little-endian halfword and word.
unfoldable pub store_byte : ℕ → ℕ → (ℕ → ℕ) → ℕ → ℕ
store_byte i v m j = if i == j then v else m j

unfoldable pub half_at : (ℕ → ℕ) → ℕ → ℕ
half_at m i = m i + m (i + 1) * 2 ^ 8

unfoldable pub word_at : (ℕ → ℕ) → ℕ → ℕ
word_at m i = m i + m (i + 1) * 2 ^ 8 + m (i + 2) * 2 ^ 16 + m (i + 3) * 2 ^ 24

unfoldable pub store_half : ℕ → ℕ → (ℕ → ℕ) → ℕ → ℕ
unfolding store_byte
store_half i v m = store_byte (i + 1) (v / 2 ^ 8 % 2 ^ 8) (store_byte i (v % 2 ^ 8) m)

unfoldable pub store_word : ℕ → ℕ → (ℕ → ℕ) → ℕ → ℕ
unfolding store_byte
store_word i v m = store_byte (i + 3) (v / 2 ^ 24 % 2 ^ 8) (
    store_byte (i + 2) (v / 2 ^ 16 % 2 ^ 8)
      (store_byte (i + 1) (v / 2 ^ 8 % 2 ^ 8) (store_byte i (v % 2 ^ 8) m)))

-- The size of the video memory, and its addresses: the last 32 KB are mirrored.
abbrev pub vram_size : ℕ
vram_size = 0x18000

unfoldable pub vram_addr : ℕ → ℕ
vram_addr addr =
    let offset = addr % 2 ^ 17 in if leb 0x18000 offset then offset - 0x8000 else offset

unfoldable pub is_eeprom : BackupMedia → Bool
is_eeprom (BackupMedia.eeprom e) = true
is_eeprom _ = false

module _ {A P : Type 0} where
  unfoldable pub eeprom_access : ℕ → Bus A P → Bool
  unfolding is_eeprom
  eeprom_access addr b =
      is_eeprom b.backup
      && addr / 2 ^ 24 == 0x0d
      && (if ltb 0x01000000 (length b.rom) then leb 0x0dffff00 addr else true)
