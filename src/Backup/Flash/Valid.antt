-- ===== src/Backup/Flash/Valid.antt =====
-- The representation invariant of the chip, and that no access leaves the cells.
use vibe_gba.Prelude.{ℕ, ◌+◌, ◌≤◌, ◌≡◌, refl, arith, Option, List}
use vibe_gba.Prelude.{length, length-set, length-fill_range, length-replicate, get_or, bit_and, min}
use vibe_gba.Backup.Flash.{
  Flash, FlashState, ready, bank_offset, offset_of, sector_size, sector_base, write, dispatch,
  command, erase_sector, program_cell, new_with_rom, busy_window, tick,
}

pub record IsValid (f : Flash) : Type 0 where
  pub sized : length f.cells ≡ f.size
  pub bank_in : f.bank ≤ 1

pub new_with_rom-IsValid : (size : ℕ) (rom : Option (List ℕ)) → IsValid (new_with_rom size rom)
unfolding new_with_rom
new_with_rom-IsValid size rom = omega (arith, length-replicate {A = ℕ} size 255)

length-erase_sector :
    (offset : ℕ) (f : Flash) → length (erase_sector offset f).cells ≡ length f.cells
unfolding erase_sector
length-erase_sector offset f =
    let base = bank_offset f + sector_base offset in
    let end = min (base + sector_size) (length f.cells) in
    ground (arith, length-fill_range f.cells base end 0xff)

length-program_cell :
    (offset val : ℕ) (f : Flash) → length (program_cell offset val f).cells ≡ length f.cells
unfolding program_cell
length-program_cell offset val f =
    let index = bank_offset f + offset in
    ground (arith, length-set f.cells index (bit_and (get_or f.cells index 0xff) val))

frame :
    (offset val : ℕ) (f : Flash)
    → ((erase_sector offset f).bank ≡ f.bank)
      × ((erase_sector offset f).size ≡ f.size)
      × ((program_cell offset val f).bank ≡ f.bank)
      × ((program_cell offset val f).size ≡ f.size)
unfolding erase_sector program_cell
frame offset val f = ground arith

dispatch-IsValid :
    (s : FlashState) (offset val : ℕ) {f : Flash} → IsValid f → IsValid (dispatch s offset val f)
unfolding dispatch command
dispatch-IsValid ready offset val {f} v = ground arith
dispatch-IsValid _ offset val {f} v = ground (
  arith,
  length-erase_sector offset f,
  length-program_cell offset val f,
  length-replicate {A = ℕ} (length f.cells) 255,
  frame offset val f,
)

-- A write in any state keeps the size of the chip and a bank number of 0 or 1.
pub write-IsValid : (addr val : ℕ) {f : Flash} → IsValid f → IsValid (write addr val f)
unfolding write
write-IsValid addr val {f} v =
    dispatch-IsValid f.state (offset_of addr) val (record { sized = v.sized; bank_in = v.bank_in })

dispatch-size :
    (s : FlashState) (offset val : ℕ) (f : Flash) → (dispatch s offset val f).size ≡ f.size
unfolding dispatch
dispatch-size ready offset val f = ground arith
dispatch-size _ offset val f = ground (arith, frame offset val f)

pub write-size : (addr val : ℕ) (f : Flash) → (write addr val f).size ≡ f.size
unfolding write
write-size addr val f =
    dispatch-size f.state (offset_of addr) val (record f { busy_cycles = busy_window })

pub tick-IsValid : (cycles : ℕ) {f : Flash} → IsValid f → IsValid (tick cycles f)
unfolding tick
tick-IsValid cycles {f} v = record { sized = v.sized; bank_in = v.bank_in }

pub tick-size : (cycles : ℕ) (f : Flash) → (tick cycles f).size ≡ f.size
unfolding tick
tick-size cycles f = refl

pub new_with_rom-size : (size : ℕ) (rom : Option (List ℕ)) → (new_with_rom size rom).size ≡ size
unfolding new_with_rom
new_with_rom-size size rom = refl
