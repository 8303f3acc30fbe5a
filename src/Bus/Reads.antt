-- ===== src/Bus/Reads.antt =====
-- gba-core/src/bus/mod.rs: the reads of the bus, which count the cycles of the access and keep the
-- value for the addresses where nothing answers.
use vibe_gba.Prelude.{
  ℕ, ◌+◌, ◌-◌, ◌*◌, ◌/◌, ◌%◌, ◌^◌, ◌&&◌, ◌||◌, ◌==◌, if◌then◌else◌, ltb, leb, get_or, length,
}
use vibe_gba.Backup.Media
use vibe_gba.Rtc.{read_reg}
use vibe_gba.Bus.State.{Bus, Chips, half_at, word_at, vram_addr, vram_size, eeprom_access}
use vibe_gba.Bus.Cycles.{add_mem_cycles}
use vibe_gba.Bus.Registers.{read_io16, read_io8}

module _ {A P : Type 0} where
  -- From a BIOS that the program counter is in: the byte, and the latch with the word around it.
  unfoldable pub read_bios : ℕ → Bus A P → Bus A P × ℕ
  read_bios addr b =
      let index = addr % 2 ^ 14 in
      let byte = get_or b.bios index 0 in
      if ltb b.last_pc 0x4000
      then if ltb (index + 3) (length b.bios)
        then (
          record b { bios_latch = word_at (λ (i : ℕ). get_or b.bios i 0) (index / 4 * 4) },
          byte,
        )
        else (b, if ltb index (length b.bios) then byte else 0)
      else (b, b.bios_latch / 2 ^ (addr % 4 * 8) % 2 ^ 8)

  unfoldable pub read_bios16 : ℕ → Bus A P → Bus A P × ℕ
  unfolding read_bios
  read_bios16 addr b =
      let (b1, lo) = read_bios addr b in
      let (b2, hi) = read_bios (addr + 1) b1 in (b2, lo + hi * 2 ^ 8)

  unfoldable pub read_vram8 : ℕ → Bus A P → ℕ
  unfolding vram_addr
  read_vram8 addr b = let i = vram_addr addr in if ltb i vram_size then b.vram i else 0

  unfoldable pub read_vram16 : ℕ → Bus A P → ℕ
  unfolding vram_addr half_at
  read_vram16 addr b =
      let i = vram_addr (addr / 2 * 2) in if ltb (i + 1) vram_size then half_at b.vram i else 0

  -- The three registers of the clock stand at 0xC4, 0xC6 and 0xC8 of the ROM.
  unfoldable pub read_rom8 : ℕ → Bus A P → ℕ
  read_rom8 addr b =
      let rel = addr % 2 ^ 25 in
      if b.rtc.enabled && leb 0xc4 rel && leb rel 0xc9
      then (let half = read_reg (rel / 2 * 2 - 0xc4) b.rtc in
          if rel % 2 == 0 then half % 2 ^ 8 else half / 2 ^ 8)
      else if ltb rel (length b.rom)
      then get_or b.rom rel 0
      else rel / 2 % 2 ^ 8

  unfoldable pub read_rom16 : ℕ → Bus A P → ℕ
  unfolding half_at
  read_rom16 addr b =
      let rel = addr % 2 ^ 25 / 2 * 2 in
      if b.rtc.enabled && leb 0xc4 rel && leb rel 0xc8
      then read_reg (rel - 0xc4) b.rtc
      else if ltb (rel + 1) (length b.rom)
      then half_at (λ (i : ℕ). get_or b.rom i 0) rel
      else rel / 2 % 2 ^ 16

  -- A byte of the save chip, at an address or from the serial line.
  unfoldable pub read_backup : ℕ → Bus A P → Bus A P × ℕ
  read_backup addr b =
      let (backup, byte) = Media.read addr b.backup in (record b { backup = backup }, byte)

  -- The open bus keeps what was read.
  unfoldable pub latched : Bus A P × ℕ → Bus A P × ℕ
  latched (b, val) = (record b { last_read = val }, val)

module _ {A P : Type 0} (chips : Chips A P) where
  unfoldable pub fetch_byte : ℕ → Bus A P → Bus A P × ℕ
  unfolding read_bios read_io8 read_vram8 read_rom8 read_backup eeprom_access
  fetch_byte addr b =
      let page = addr / 2 ^ 24 in
      if page == 0x00
      then read_bios addr b
      else if page == 0x02
      then (b, b.ewram (addr % 2 ^ 18))
      else if page == 0x03
      then (b, b.iwram (addr % 2 ^ 15))
      else if page == 0x04
      then (b, read_io8 chips addr b)
      else if page == 0x05
      then (b, b.palette (addr % 2 ^ 10))
      else if page == 0x06
      then (b, read_vram8 addr b)
      else if page == 0x07
      then (b, b.oam (addr % 2 ^ 10))
      else if leb 0x08 page && leb page 0x0c
      then (b, read_rom8 addr b)
      else if page == 0x0d
      then (if eeprom_access addr b then read_backup 0 b else (b, read_rom8 addr b))
      else if page == 0x0e || page == 0x0f
      then read_backup (addr % 2 ^ 16) b
      else (b, b.last_read % 2 ^ 8)

  unfoldable pub read8 : ℕ → Bus A P → Bus A P × ℕ
  unfolding add_mem_cycles fetch_byte latched
  read8 addr b = latched (fetch_byte addr (add_mem_cycles addr 1 b))

  unfoldable pub fetch_half : ℕ → Bus A P → Bus A P × ℕ
  unfolding read_bios16 read_io16 read_vram16 read_rom16 read_backup eeprom_access half_at
  fetch_half addr b =
      let page = addr / 2 ^ 24 in
      if page == 0x00
      then read_bios16 addr b
      else if page == 0x02
      then (b, half_at b.ewram (addr % 2 ^ 18))
      else if page == 0x03
      then (b, half_at b.iwram (addr % 2 ^ 15))
      else if page == 0x04
      then (b, read_io16 chips addr b)
      else if page == 0x05
      then (b, half_at b.palette (addr % 2 ^ 10))
      else if page == 0x06
      then (b, read_vram16 addr b)
      else if page == 0x07
      then (b, half_at b.oam (addr % 2 ^ 10))
      else if leb 0x08 page && leb page 0x0c
      then (b, read_rom16 addr b)
      else if page == 0x0d
      then (if eeprom_access addr b then read_backup 0 b else (b, read_rom16 addr b))
      else if page == 0x0e || page == 0x0f
      then (let (b', byte) = read_backup (addr % 2 ^ 16) b in (b', byte + byte * 2 ^ 8))
      else (b, b.last_read % 2 ^ 16)

  unfoldable pub read16 : ℕ → Bus A P → Bus A P × ℕ
  unfolding add_mem_cycles fetch_half latched
  read16 addr b =
      let aligned = addr / 2 * 2 in latched (fetch_half aligned (add_mem_cycles aligned 2 b))

  -- Two halfwords of one kind.
  unfoldable pub two_halves : (ℕ → Bus A P → ℕ) → ℕ → Bus A P → Bus A P × ℕ
  two_halves read addr b = (b, read addr b + read (addr + 2) b * 2 ^ 16)

  unfoldable pub fetch_word : ℕ → Bus A P → Bus A P × ℕ
  unfolding read_io16 read_vram16 read_rom16 read_backup eeprom_access word_at two_halves read16
  fetch_word addr b =
      let page = addr / 2 ^ 24 in
      if page == 0x02
      then (b, word_at b.ewram (addr % 2 ^ 18))
      else if page == 0x03
      then (b, word_at b.iwram (addr % 2 ^ 15))
      else if page == 0x04
      then two_halves (read_io16 chips) addr b
      else if page == 0x05
      then (b, word_at b.palette (addr % 2 ^ 10))
      else if page == 0x06
      then two_halves read_vram16 addr b
      else if page == 0x07
      then (b, word_at b.oam (addr % 2 ^ 10))
      else if page == 0x0d && eeprom_access addr b
      then read_backup 0 b
      else if leb 0x08 page && leb page 0x0d
      then two_halves read_rom16 addr b
      else if page == 0x0e || page == 0x0f
      then (let (b', byte) = read_backup (addr % 2 ^ 16) b in
          (b', byte + byte * 2 ^ 8 + byte * 2 ^ 16 + byte * 2 ^ 24))
      else (let (b1, lo) = read16 addr b in
          let (b2, hi) = read16 (addr + 2) b1 in (b2, lo + hi * 2 ^ 16))

  unfoldable pub read32 : ℕ → Bus A P → Bus A P × ℕ
  unfolding add_mem_cycles fetch_word latched
  read32 addr b =
      let aligned = addr / 4 * 4 in latched (fetch_word aligned (add_mem_cycles aligned 4 b))
