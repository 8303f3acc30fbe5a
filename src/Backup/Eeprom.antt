-- ===== src/Backup/Eeprom.antt =====
-- gba-core/src/backup/eeprom.rs: the EEPROM chip and its serial protocol.
pub mod Bits
pub mod Block
pub mod Send
pub mod Receive
pub mod Exchange
pub mod Width
pub mod Capacity
mod Examples
use vibe_gba.Prelude.{ℕ, zero, suc, ◌+◌, ◌-◌, ◌*◌, ◌/◌, ◌%◌, ◌^◌, Bool, true, false, ◌&&◌, ◌||◌}
use vibe_gba.Prelude.{
  List, [], ◌∷◌, ◌++◌, ltb, leb, ◌==◌, if◌then◌else◌, length, get_or, set, replicate,
}

pub data State : Type 0 where
  idle cmd_type address_bits data_bits read_out write_done : State

pub data SizeKind : Type 0 where
  unknown small large : SizeKind

-- `cmd` is `u8`; `bit_buf` and `read_buf` are `u64`, the counters `u32`, `address` is `u16`.
pub record Eeprom : Type 0 where
  pub cells : List ℕ
  pub state : State
  pub size : SizeKind
  pub cmd : ℕ
  pub bit_buf : ℕ
  pub bits_in : ℕ
  pub address : ℕ
  pub read_buf : ℕ
  pub read_bits_left : ℕ
  pub addr_width : ℕ

pub new : Eeprom
new = record {
  cells = replicate (8 * 1024) 0xff;
  state = idle;
  size = unknown;
  cmd = 0;
  bit_buf = 0;
  bits_in = 0;
  address = 0;
  read_buf = 0;
  read_bits_left = 0;
  addr_width = 0;
}

-- `Vec::resize` cuts a longer vector and pads a shorter one.
pub resize : ℕ → ℕ → List ℕ → List ℕ
resize zero v xs = []
resize (suc n) v [] = v ∷ resize n v []
resize (suc n) v (x ∷ xs) = x ∷ resize n v xs

width_of : SizeKind → ℕ → ℕ
width_of small addr_width = 6
width_of large addr_width = 14
width_of unknown addr_width = if ltb 0 addr_width then addr_width else 14

pub effective_addr_width : Eeprom → ℕ
unfolding width_of
effective_addr_width e = width_of e.size e.addr_width

pub is_read_out : State → Bool
is_read_out read_out = true
is_read_out _ = false

-- Shifts the output register once the four dummy bits are past.
pub read_bit : Eeprom → Eeprom × ℕ
unfolding is_read_out
read_bit e =
    if is_read_out e.state && ltb 0 e.read_bits_left
    then (let left = e.read_bits_left - 1 in
        (
          record e {
            read_bits_left = left;
            read_buf = if ltb left 64 then e.read_buf * 2 % 2 ^ 64 else e.read_buf;
            state = if left == 0 then idle else read_out;
          },
          if ltb 64 e.read_bits_left then 0 else e.read_buf / 2 ^ 63 % 2,
        ))
    else (e, 1)

-- `(bit_buf << 1) | bit`: the shift clears the lowest bit, so `|` is a sum.
abbrev pub shift_in : ℕ → ℕ → ℕ
shift_in buf bit = buf * 2 % 2 ^ 64 + bit

-- The loop of `begin_read` from byte `i` on, with `n` bytes to go. `val << 8` clears the low byte.
pub load_bytes : ℕ → ℕ → List ℕ → ℕ → ℕ
load_bytes zero at cells val = val
load_bytes (suc n) at cells val =
    let byte = if ltb at (length cells) then get_or cells at 0xff else 0xff in
    load_bytes n (at + 1) cells (val * 2 ^ 8 % 2 ^ 64 + byte)

pub begin_read : Eeprom → Eeprom
unfolding load_bytes
begin_read e = record e { read_buf = load_bytes 8 (e.address * 8) e.cells 0; read_bits_left = 68 }

-- The loop of `store_data` with `n` bytes to go: byte `8 - n` of the block, highest first.
pub store_bytes : ℕ → ℕ → ℕ → List ℕ → List ℕ
store_bytes zero value at cells = cells
store_bytes (suc n) value at cells =
    let byte = value / 2 ^ (8 * n) % 2 ^ 8 in
    store_bytes n value (at + 1) (if ltb at (length cells) then set cells at byte else cells)

pub store_data : ℕ → Eeprom → Eeprom
unfolding store_bytes
store_data value e = record e { cells = store_bytes 8 value (e.address * 8) e.cells }

-- The second bit of the command type.
take_command : ℕ → Eeprom → Eeprom
take_command bit e =
    let buf = shift_in e.bit_buf bit in
    let count = e.bits_in + 1 in
    if count == 2
    then record e {
      cmd = buf % 2 ^ 8;
      bit_buf = 0;
      bits_in = 0;
      state = if buf % 2 ^ 8 == 2 || buf % 2 ^ 8 == 3 then address_bits else idle;
    }
    else record e { bit_buf = buf; bits_in = count }

-- The size that a first complete address of `bits_in` bits gives away.
detect_size : SizeKind → Eeprom → Eeprom
detect_size unknown e =
    if leb e.bits_in 6
    then record e { size = small; cells = resize 512 0xff e.cells; addr_width = e.bits_in }
    else record e { size = large; addr_width = e.bits_in }
detect_size _ e = e

take_address : ℕ → Eeprom → Eeprom
unfolding effective_addr_width detect_size
take_address bit e =
    let e' = record e { bit_buf = shift_in e.bit_buf bit; bits_in = e.bits_in + 1 } in
    let aw = effective_addr_width e' in
    if leb aw e'.bits_in
    then record (detect_size e'.size e') {
      address = e'.bit_buf % 2 ^ aw % 2 ^ 16;
      bit_buf = 0;
      bits_in = 0;
      state = data_bits;
    }
    else e'

take_data : ℕ → Eeprom → Eeprom
unfolding begin_read store_data
take_data bit e =
    let e' = record e { bit_buf = shift_in e.bit_buf bit; bits_in = e.bits_in + 1 } in
    if e.cmd == 3
    then record (begin_read e) { state = read_out }
    else if ltb e.bits_in 64
    then if e'.bits_in == 64 then store_data e'.bit_buf e' else e'
    else record e { state = write_done; bit_buf = 0; bits_in = 0 }

-- The `match` on the state.
dispatch : State → ℕ → Eeprom → Eeprom
unfolding take_command take_address take_data
dispatch idle bit e = record e { bit_buf = bit; bits_in = 1; state = cmd_type }
dispatch write_done bit e = record e { bit_buf = bit; bits_in = 1; state = cmd_type }
dispatch cmd_type bit e = take_command bit e
dispatch address_bits bit e = take_address bit e
dispatch data_bits bit e = take_data bit e
dispatch read_out bit e = e

-- The address of the write is not used.
pub write : ℕ → Eeprom → Eeprom
unfolding dispatch
write val e = dispatch e.state (val % 2) e

choose_width : SizeKind → ℕ → Eeprom → Eeprom
choose_width unknown count e =
    if count == 9 || count == 73
    then record e { size = small; addr_width = 6; cells = resize 512 0xff e.cells }
    else if count == 17 || count == 81
    then record e { size = large; addr_width = 14 }
    else e
choose_width _ count e = e

pub set_addr_width_from_dma : ℕ → Eeprom → Eeprom
unfolding choose_width
set_addr_width_from_dma count e = choose_width e.size count e
