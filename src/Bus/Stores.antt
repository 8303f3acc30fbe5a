-- ===== src/Bus/Stores.antt =====
-- gba-core/src/bus/mod.rs: the writes of the bus to its memories, the cartridge and the registers. The
-- wall clock of the host is `wall`, which the clock of the cartridge may read.
use vibe_gba.Prelude.{ℕ, ◌+◌, ◌-◌, ◌*◌, ◌/◌, ◌%◌, ◌^◌, ◌&&◌, ◌||◌, ◌==◌, if◌then◌else◌, ltb, leb}
use vibe_gba.Backup.Media
use vibe_gba.Rtc.{read_reg, write_reg}
use vibe_gba.Bus.State.{
  Bus, Chips, store_byte, store_half, store_word, vram_addr, vram_size, eeprom_access,
}
use vibe_gba.Bus.Cycles.{add_mem_cycles}
use vibe_gba.Bus.Writes.{merge_byte, write_io8, write_io16}

module _ {A P : Type 0} (chips : Chips A P) (wall : ℕ) (run_dma : ℕ → Bus A P → Bus A P) where
  -- The save chip, at an address or through the serial line.
  unfoldable pub write_backup : ℕ → ℕ → Bus A P → Bus A P
  write_backup addr val b = record b { backup = Media.write addr val b.backup }

  -- The cartridge: the serial line of the EEPROM, else the pins of the clock at 0xC4, 0xC6 and 0xC8.
  unfoldable pub write_cartridge8 : ℕ → ℕ → Bus A P → Bus A P
  unfolding write_backup eeprom_access merge_byte
  write_cartridge8 addr val b =
      let rel = addr % 2 ^ 25 in
      let off = rel / 2 * 2 - 0xc4 in
      if eeprom_access addr b
      then write_backup 0 val b
      else if b.rtc.enabled && leb 0xc4 rel && leb rel 0xc9
      then record b { rtc = write_reg wall off (merge_byte rel val (read_reg off b.rtc)) b.rtc }
      else b

  unfoldable pub write_cartridge16 : ℕ → ℕ → Bus A P → Bus A P
  unfolding write_backup eeprom_access
  write_cartridge16 addr val b =
      let rel = addr % 2 ^ 25 / 2 * 2 in
      if eeprom_access addr b
      then write_backup 0 (val % 2 ^ 8) b
      else if b.rtc.enabled && leb 0xc4 rel && leb rel 0xc8
      then record b { rtc = write_reg wall (rel - 0xc4) val b.rtc }
      else b

  -- A byte in the palette or the video memory fills its halfword.
  unfoldable pub store_twice : ℕ → ℕ → (ℕ → ℕ) → ℕ → ℕ
  unfolding store_byte
  store_twice i val m = store_byte (i + 1) val (store_byte i val m)

  unfoldable pub put_byte : ℕ → ℕ → Bus A P → Bus A P
  unfolding store_byte store_twice write_io8 vram_addr write_cartridge8 write_backup
  put_byte addr val b =
      let page = addr / 2 ^ 24 in
      let offset = vram_addr addr in
      if page == 0x02
      then record b { ewram = store_byte (addr % 2 ^ 18) val b.ewram }
      else if page == 0x03
      then record b { iwram = store_byte (addr % 2 ^ 15) val b.iwram }
      else if page == 0x04
      then write_io8 chips run_dma addr val b
      else if page == 0x05
      then record b { palette = store_twice (addr % 2 ^ 10 / 2 * 2) val b.palette }
      else if page == 0x06
      then if ltb (offset + 1) vram_size
        then record b { vram = store_twice offset val b.vram }
        else b
      else if page == 0x07
      then b
      else if leb 0x08 page && leb page 0x0d
      then write_cartridge8 addr val b
      else if page == 0x0e || page == 0x0f
      then write_backup (addr % 2 ^ 16) val b
      else b

  unfoldable pub write8 : ℕ → ℕ → Bus A P → Bus A P
  unfolding add_mem_cycles put_byte
  write8 addr val b = put_byte addr val (add_mem_cycles addr 1 b)

  unfoldable pub put_half : ℕ → ℕ → Bus A P → Bus A P
  unfolding store_half write_io16 vram_addr write_cartridge16
  put_half addr val b =
      let page = addr / 2 ^ 24 in
      let offset = vram_addr addr in
      if page == 0x02
      then record b { ewram = store_half (addr % 2 ^ 18) val b.ewram }
      else if page == 0x03
      then record b { iwram = store_half (addr % 2 ^ 15) val b.iwram }
      else if page == 0x04
      then write_io16 chips run_dma addr val b
      else if page == 0x05
      then record b { palette = store_half (addr % 2 ^ 10) val b.palette }
      else if page == 0x06
      then if ltb (offset + 1) vram_size
        then record b { vram = store_half offset val b.vram }
        else b
      else if page == 0x07
      then record b { oam = store_half (addr % 2 ^ 10) val b.oam }
      else if leb 0x08 page && leb page 0x0d
      then write_cartridge16 addr val b
      else b

  unfoldable pub write16 : ℕ → ℕ → Bus A P → Bus A P
  unfolding add_mem_cycles put_half
  write16 addr val b = put_half (addr / 2 * 2) val (add_mem_cycles addr 2 b)

  unfoldable pub put_word : ℕ → ℕ → Bus A P → Bus A P
  unfolding store_word write_io16 vram_addr write16
  put_word addr val b =
      let page = addr / 2 ^ 24 in
      let offset = vram_addr addr in
      if page == 0x02
      then record b { ewram = store_word (addr % 2 ^ 18) val b.ewram }
      else if page == 0x03
      then record b { iwram = store_word (addr % 2 ^ 15) val b.iwram }
      else if page == 0x04
      then write_io16 chips run_dma (addr + 2) (val / 2 ^ 16)
          (write_io16 chips run_dma addr (val % 2 ^ 16) b)
      else if page == 0x05
      then record b { palette = store_word (addr % 2 ^ 10) val b.palette }
      else if page == 0x06
      then if ltb (offset + 3) vram_size
        then record b { vram = store_word offset val b.vram }
        else b
      else if page == 0x07
      then record b { oam = store_word (addr % 2 ^ 10) val b.oam }
      else write16 (addr + 2) (val / 2 ^ 16) (write16 addr (val % 2 ^ 16) b)

  unfoldable pub write32 : ℕ → ℕ → Bus A P → Bus A P
  unfolding add_mem_cycles put_word
  write32 addr val b = put_word (addr / 4 * 4) val (add_mem_cycles addr 4 b)
