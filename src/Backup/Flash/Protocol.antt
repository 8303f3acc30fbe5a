-- ===== src/Backup/Flash/Protocol.antt =====
-- The command sequences of the flash chip, from the idle state to what they do to the cells.
use vibe_gba.Prelude.{ℕ, ◌+◌, ◌/◌, ◌%◌, ◌<◌, min, bit_and, ◌≡◌, ◌≢◌, refl, ◌∙◌, arith}
use vibe_gba.Prelude.{false, ◌&&◌, ltb, leb, ◌==◌, if◌then◌else◌, length, get_or, replicate}
use vibe_gba.Prelude.{
  get_or-set_self, get_or-set_ne, get_or-replicate, get_or-fill_range_in, get_or-fill_range_out,
  get_or_past, lt→ltb,
}
use vibe_gba.Backup.Flash.{
  Flash, ready, erase2, write_byte, is_128k, bank_offset, offset_of, busy_window, sector_size,
  sector_base, read, write, dispatch, command, erase_sector, program_cell, is_chip_id,
}

abbrev busy : Flash → Flash
busy f = record f { busy_cycles = busy_window }

-- The two unlock writes and the command byte.
unfoldable pub unlock : ℕ → Flash → Flash
unlock cmd f = write 0x5555 cmd (write 0x2aaa 0x55 (write 0x5555 0xaa f))

unlock_lem :
    (cmd : ℕ) (f : Flash)
    → f.state ≡ ready
    → unlock cmd f ≡ record (busy f) { state = command cmd (is_128k f) }
unfolding unlock write dispatch
unlock_lem cmd f idle = rw idle refl

-- A byte outside the chip's identification mode is the cell, and 0xFF past the end.
read_cell :
    (addr : ℕ) (f : Flash)
    → is_chip_id f.state ≡ false
    → read addr f ≡ get_or f.cells (bank_offset f + offset_of addr) 0xff
unfolding read
read_cell addr f plain = ground (arith, get_or_past f.cells (bank_offset f + offset_of addr) 0xff)

abbrev pub program : ℕ → ℕ → Flash → Flash
program addr val f = write addr val (unlock 0xa0 f)

program-eq :
    (addr val : ℕ) (f : Flash)
    → f.state ≡ ready
    → program addr val f
      ≡ record (program_cell (offset_of addr) val (record (busy f) { state = write_byte })) {
        state = ready;
      }
unfolding write dispatch command
program-eq addr val f idle = rw (unlock_lem 0xa0 f idle) refl

-- On an idle chip the byte-program sequence at an address inside the chip leaves it idle, clears
-- in that byte the bits that `val` has not, and changes what no other address reads.
pub read-program :
    (addr val other : ℕ) (f : Flash)
    → f.state ≡ ready
    → bank_offset f + offset_of addr < length f.cells
    → ((program addr val f).state ≡ ready)
      × (read addr (program addr val f) ≡ bit_and (read addr f) val)
      × (offset_of other ≢ offset_of addr → read other (program addr val f) ≡ read other f)
unfolding program_cell is_chip_id
read-program addr val other f idle inside =
    rw
      (
        program-eq addr val f idle,
        read_cell addr f (rw idle refl),
        read_cell other f (rw idle refl),
        read_cell addr
            (record (program_cell (offset_of addr) val (record (busy f) { state = write_byte })) {
              state = ready;
            })
            refl,
        read_cell other
            (record (program_cell (offset_of addr) val (record (busy f) { state = write_byte })) {
              state = ready;
            })
            refl,
        lt→ltb _ _ inside,
      )
      (
        refl,
        get_or-set_self f.cells (bank_offset f + offset_of addr) _ 0xff inside,
        λ ne.
            get_or-set_ne f.cells (bank_offset f + offset_of addr) (bank_offset f + offset_of other)
              _ 0xff (λ e. ne (omega (arith, e))),
      )

-- The prelude of both erase commands.
unfoldable pub unlock_erase : Flash → Flash
unlock_erase f = write 0x2aaa 0x55 (write 0x5555 0xaa (unlock 0x80 f))

unlock_erase_lem :
    (f : Flash) → f.state ≡ ready → unlock_erase f ≡ record (busy f) { state = erase2 }
unfolding unlock_erase write dispatch command
unlock_erase_lem f idle = rw (unlock_lem 0x80 f idle) refl

erase_sector-cells :
    (offset i : ℕ) (f : Flash)
    → get_or (erase_sector offset f).cells i 0xff ≡ (
        if (leb (bank_offset f + sector_base offset) i
          && ltb i (bank_offset f + sector_base offset + sector_size))
        then 0xff
        else get_or f.cells i 0xff)
unfolding erase_sector
erase_sector-cells offset i f =
    let base = bank_offset f + sector_base offset in
    let end = min (base + sector_size) (length f.cells) in
    ground (
      arith,
      get_or-fill_range_in f.cells base end i 0xff,
      get_or-fill_range_out f.cells base end i 0xff 0xff,
      get_or_past f.cells i 0xff,
    )

abbrev pub erase_at : ℕ → Flash → Flash
erase_at addr f = write addr 0x30 (unlock_erase f)

erase_at-eq :
    (addr : ℕ) (f : Flash)
    → f.state ≡ ready
    → erase_at addr f
      ≡ record (erase_sector (offset_of addr) (record (busy f) { state = erase2 })) {
        state = ready;
      }
unfolding write dispatch
erase_at-eq addr f idle = rw (unlock_erase_lem f idle) (ground arith)

erase_sector-frame :
    (offset : ℕ) (f : Flash)
    → ((erase_sector offset f).bank ≡ f.bank) × ((erase_sector offset f).size ≡ f.size)
unfolding erase_sector
erase_sector-frame offset f = ground arith

-- On an idle chip the sector-erase sequence leaves it idle, and makes every address of the same
-- 4 KB sector read 0xFF and no other address read anything new.
pub read-erase_at :
    (addr other : ℕ) (f : Flash)
    → f.state ≡ ready
    → ((erase_at addr f).state ≡ ready)
      × (read other (erase_at addr f) ≡ (
          if offset_of other / sector_size == offset_of addr / sector_size
          then 0xff
          else read other f))
unfolding is_chip_id
read-erase_at addr other f idle =
    let g = record (busy f) { state = erase2 } in
    let kept = erase_sector-frame (offset_of addr) g in
    rw
      (
        erase_at-eq addr f idle,
        read_cell other f (rw idle refl),
        read_cell other (record (erase_sector (offset_of addr) g) { state = ready }) refl,
        kept.0,
        kept.1,
        erase_sector-cells (offset_of addr) (bank_offset f + offset_of other) g,
      )
      (refl, ground arith)

abbrev pub erase_chip : Flash → Flash
erase_chip f = write 0x5555 0x10 (unlock_erase f)

-- On an idle chip the chip-erase sequence makes every address read 0xFF, in every bank.
pub read-erase_chip :
    (other bank : ℕ) (f : Flash)
    → f.state ≡ ready
    → ((erase_chip f).state ≡ ready) × (read other (record (erase_chip f) { bank = bank }) ≡ 0xff)
unfolding write dispatch is_chip_id
read-erase_chip other bank f idle = rw (unlock_erase_lem f idle) (
  refl,
  read_cell other
        (record f {
          cells = replicate (length f.cells) 0xff;
          state = ready;
          busy_cycles = busy_window;
          bank = bank;
        })
        refl
      ∙ get_or-replicate (length f.cells) _ 0xff,
)

abbrev pub switch_bank : ℕ → Flash → Flash
switch_bank val f = write 0 val (unlock 0xb0 f)

-- On an idle 128 KB chip the bank-switch sequence selects the bank by the lowest bit and changes
-- nothing else but the busy counter; on a smaller chip the last write is ignored.
pub switch_bank_lem :
    (val : ℕ) (f : Flash)
    → f.state ≡ ready
    → switch_bank val f ≡ (
        if is_128k f
        then record f { bank = val % 2; busy_cycles = busy_window }
        else record f { busy_cycles = busy_window })
unfolding write dispatch command
switch_bank_lem val f idle = rw (unlock_lem 0xb0 f idle) (ground arith)

-- On an idle chip the identification sequence makes address 0 read the manufacturer and address 1
-- the device; a write of 0xF0 anywhere then ends it, and every address reads as before.
pub read-chip_id :
    (addr other : ℕ) (f : Flash)
    → f.state ≡ ready
    → (read 0 (unlock 0x90 f) ≡ f.reported_id.0)
      × (read 1 (unlock 0x90 f) ≡ f.reported_id.1)
      × (read other (write addr 0xf0 (unlock 0x90 f)) ≡ read other f)
unfolding write dispatch command is_chip_id read
read-chip_id addr other f idle = rw (unlock_lem 0x90 f idle) (refl, refl, rw idle refl)
