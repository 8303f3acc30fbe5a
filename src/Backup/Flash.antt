-- ===== src/Backup/Flash.antt =====
-- gba-core/src/backup/flash.rs: the flash chip and its command protocol. Tracing to a file is left
-- out.
pub mod Valid
pub mod Protocol
pub mod Safety
pub mod Busy
pub mod ChipId
mod Examples
use vibe_gba.Prelude.{
  ℕ, ◌+◌, ◌-◌, ◌*◌, ◌/◌, ◌%◌, ◌^◌, min, bit_and, Bool, true, false, not, ◌&&◌, ◌||◌,
}
use vibe_gba.Prelude.{Option, none, some, List, [], ◌∷◌, ltb, ◌==◌, if◌then◌else◌}
use vibe_gba.Prelude.{length, get_or, set, replicate, fill_range}

pub data FlashState : Type 0 where
  ready cmd1 cmd2 chip_id prepare_erase erase1 erase2 write_byte bank_switch : FlashState

pub is_ready : FlashState → Bool
is_ready ready = true
is_ready _ = false

pub is_chip_id : FlashState → Bool
is_chip_id chip_id = true
is_chip_id _ = false

-- Manufacturer and device.
abbrev pub ChipId : Type 0
ChipId = ℕ × ℕ

pub record Flash : Type 0 where
  pub cells : List ℕ
  pub state : FlashState
  pub bank : ℕ
  pub size : ℕ
  pub busy_cycles : ℕ
  pub reported_id : ChipId

abbrev pub candidates_64k : List ChipId
candidates_64k = (0x32, 0x1b) ∷ (0xbf, 0xd4) ∷ (0xc2, 0x1c) ∷ (0x62, 0x13) ∷ (0x1f, 0x3d) ∷ []

abbrev pub candidates_128k : List ChipId
candidates_128k = (0xc2, 0x09) ∷ (0xc2, 0x1c) ∷ (0x62, 0x13) ∷ []

-- The scan of the ROM at the even offsets `i < len - 2`: at each of these two bytes and one more
-- are left.
pub scan : ℕ → ℕ → List ℕ → Bool
scan lo hi (a ∷ b ∷ c ∷ rom) = (a == lo && b == hi) || scan lo hi (c ∷ rom)
scan lo hi _ = false

-- The first candidate whose identification occurs in the ROM.
pub first_found : List ChipId → List ℕ → Option ChipId
first_found [] rom = none
first_found ((mfr, dev) ∷ ids) rom =
    if scan mfr dev rom then some (mfr, dev) else first_found ids rom

abbrev pub is_128k_size : ℕ → Bool
is_128k_size size = ltb (64 * 1024) size

abbrev pub candidates : ℕ → List ChipId
candidates size = if is_128k_size size then candidates_128k else candidates_64k

-- The first candidate: both tables have one.
abbrev pub default_id : ℕ → ChipId
default_id size = if is_128k_size size then (0xc2, 0x09) else (0x32, 0x1b)

pub pick_chip_id : ℕ → Option (List ℕ) → ChipId
pick_chip_id size none = default_id size
pick_chip_id size (some rom) = elim (first_found (candidates size) rom) [
  | some id ↦ id
  | none ↦ default_id size
]

pub new_with_rom : ℕ → Option (List ℕ) → Flash
new_with_rom size rom = record {
  cells = replicate size 0xff;
  state = ready;
  bank = 0;
  size = size;
  busy_cycles = 0;
  reported_id = pick_chip_id size rom;
}

abbrev pub is_128k : Flash → Bool
is_128k f = is_128k_size f.size

pub is_busy : Flash → Bool
unfolding is_ready
is_busy f = not (is_ready f.state) || ltb 0 f.busy_cycles

-- `saturating_sub`.
pub tick : ℕ → Flash → Flash
tick cycles f = record f { busy_cycles = f.busy_cycles - cycles }

abbrev pub bank_offset : Flash → ℕ
bank_offset f = if is_128k f then f.bank * 0x10000 else 0

abbrev pub offset_of : ℕ → ℕ
offset_of addr = addr % 0x10000

pub read : ℕ → Flash → ℕ
unfolding is_chip_id
read addr f =
    let offset = offset_of addr in
    let index = bank_offset f + offset in
    if is_chip_id f.state
    then if offset == 0 then f.reported_id.0 else if offset == 1 then f.reported_id.1 else 0
    else (if ltb index (length f.cells) then get_or f.cells index 0xff else 0xff)

-- The command byte of the third write.
command : ℕ → Bool → FlashState
command val large =
    if val == 0x90
    then chip_id
    else if val == 0xf0
    then ready
    else if val == 0x80
    then prepare_erase
    else if val == 0xa0
    then write_byte
    else if val == 0xb0 && large
    then bank_switch
    else ready

abbrev pub sector_size : ℕ
sector_size = 0x1000

-- `offset & 0xF000` of a 16-bit offset clears its 12 low bits.
abbrev pub sector_base : ℕ → ℕ
sector_base offset = offset / sector_size * sector_size

erase_sector : ℕ → Flash → Flash
erase_sector offset f =
    let base = bank_offset f + sector_base offset in
    let end = min (base + sector_size) (length f.cells) in
    if ltb base (length f.cells) then record f { cells = fill_range f.cells base end 0xff } else f

-- A write can only clear bits.
program_cell : ℕ → ℕ → Flash → Flash
program_cell offset val f =
    let index = bank_offset f + offset in
    if ltb index (length f.cells)
    then record f { cells = set f.cells index (bit_and (get_or f.cells index 0xff) val) }
    else f

-- The `match` on the state.
dispatch : FlashState → ℕ → ℕ → Flash → Flash
unfolding command erase_sector program_cell
dispatch ready offset val f =
    if offset == 0x5555 && val == 0xaa then record f { state = cmd1 } else f
dispatch cmd1 offset val f =
    if offset == 0x2aaa && val == 0x55
    then record f { state = cmd2 }
    else record f { state = ready }
dispatch cmd2 offset val f =
    if offset == 0x5555
    then record f { state = command val (is_128k f) }
    else record f { state = ready }
dispatch chip_id offset val f =
    if val == 0xf0
    then record f { state = ready }
    else if offset == 0x5555 && val == 0xaa
    then record f { state = cmd1 }
    else f
dispatch prepare_erase offset val f =
    if offset == 0x5555 && val == 0xaa
    then record f { state = erase1 }
    else record f { state = ready }
dispatch erase1 offset val f =
    if offset == 0x2aaa && val == 0x55
    then record f { state = erase2 }
    else record f { state = ready }
dispatch erase2 offset val f =
    if offset == 0x5555 && val == 0x10
    then record f { cells = replicate (length f.cells) 0xff; state = ready }
    else if val == 0x30
    then record (erase_sector offset f) { state = ready }
    else record f { state = ready }
dispatch write_byte offset val f = record (program_cell offset val f) { state = ready }
dispatch bank_switch offset val f =
    if offset == 0 then record f { bank = val % 2; state = ready } else record f { state = ready }

abbrev pub busy_window : ℕ
busy_window = 200000

pub write : ℕ → ℕ → Flash → Flash
unfolding dispatch
write addr val f = dispatch f.state (offset_of addr) val (record f { busy_cycles = busy_window })
