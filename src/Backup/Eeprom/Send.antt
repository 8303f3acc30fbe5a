-- ===== src/Backup/Eeprom/Send.antt =====
-- The phases of a command as the chip receives them.
use vibe_gba.Prelude.{
  ℕ, ◌+◌, ◌*◌, ◌%◌, ◌^◌, ◌≤◌, ◌<◌, ◌≡◌, ◌≢◌, ◌⊎◌, inl, inr, refl, ◌∙◌, arith, Bool, true, false,
  List, [], ◌∷◌, ◌++◌, length, leb, if◌then◌else◌, to_ℕ, ◌==◌,
}
use vibe_gba.Backup.Eeprom.{
  Eeprom, SizeKind, unknown, small, large, idle, address_bits, data_bits, read_out, write_done,
  write, dispatch, take_command, take_address, take_data, detect_size, effective_addr_width,
  begin_read, store_data, store_bytes, load_bytes,
}
use vibe_gba.Backup.Eeprom.Bits.{value_from}

unfoldable pub write_bits : List Bool → Eeprom → Eeprom
write_bits [] e = e
write_bits (b ∷ bs) e = write_bits bs (write (to_ℕ b) e)

pub write_bits-append :
    (bs cs : List Bool) (e : Eeprom) → write_bits (bs ++ cs) e ≡ write_bits cs (write_bits bs e)
unfolding write_bits
write_bits-append [] cs e = refl
write_bits-append (b ∷ bs) cs e = write_bits-append bs cs (write (to_ℕ b) e)

-- A chip between two commands.
abbrev pub IsWaiting : Eeprom → Type 0
IsWaiting e = (e.state ≡ idle) ⊎ (e.state ≡ write_done)

pub command_phase :
    (c : Bool) (e : Eeprom)
    → IsWaiting e
    → write_bits (true ∷ c ∷ []) e
      ≡ record e { cmd = 2 + to_ℕ c; bit_buf = 0; bits_in = 0; state = address_bits }
unfolding write_bits write dispatch take_command
command_phase true e (inl h) = rw h refl
command_phase false e (inl h) = rw h refl
command_phase true e (inr h) = rw h refl
command_phase false e (inr h) = rw h refl

value_from-le : (acc : ℕ) (bs : List Bool) → acc ≤ value_from acc bs
value_from-le acc [] = omega arith
value_from-le acc (b ∷ bs) = omega (arith, value_from-le (acc * 2 + to_ℕ b) bs)

-- The chip knows its size, and so the width of an address.
pub record HasWidth (w : ℕ) (e : Eeprom) : Type 0 where
  pub known : e.size ≢ unknown
  pub width : effective_addr_width e ≡ w

detect_size-known : (k : SizeKind) (e : Eeprom) → k ≢ unknown → detect_size k e ≡ e
unfolding detect_size
detect_size-known unknown e h = absurd (h refl)
detect_size-known small e h = refl
detect_size-known large e h = refl

bit_mod : (b : Bool) → to_ℕ b % 2 ≡ to_ℕ b
bit_mod true = refl
bit_mod false = refl

pub effective-ext :
    (e e' : Eeprom)
    → e'.size ≡ e.size
    → e'.addr_width ≡ e.addr_width
    → effective_addr_width e' ≡ effective_addr_width e
unfolding effective_addr_width
effective-ext e e' p q = rw (p, q)

write-address :
    (b : Bool) (w : ℕ) (e : Eeprom)
    → e.state ≡ address_bits
    → HasWidth w e
    → e.bit_buf * 2 + to_ℕ b < 2 ^ 64
    → write (to_ℕ b) e ≡ (
        if leb w (e.bits_in + 1)
        then record e {
          address = (e.bit_buf * 2 + to_ℕ b) % 2 ^ w % 2 ^ 16;
          bit_buf = 0;
          bits_in = 0;
          state = data_bits;
        }
        else record e { bit_buf = e.bit_buf * 2 + to_ℕ b; bits_in = e.bits_in + 1 })
unfolding write dispatch take_address
write-address b w e s h room =
    let bit : to_ℕ b % 2 ≡ to_ℕ b = bit_mod b in
    let shifted : e.bit_buf * 2 % 2 ^ 64 + to_ℕ b ≡ e.bit_buf * 2 + to_ℕ b = omega arith in
    let e' = record e {
      state = address_bits;
      bit_buf = e.bit_buf * 2 + to_ℕ b;
      bits_in = e.bits_in + 1;
    } in
    let wide : effective_addr_width e' ≡ w = effective-ext e e' refl refl ∙ h.width in
    rw (s, bit, shifted, wide, detect_size-known e.size e' h.known) refl

-- The whole address: the last bit completes it, and the chip goes on to the data.
pub address_phase :
    (b : Bool) (bs : List Bool) (w : ℕ) (e : Eeprom)
    → e.state ≡ address_bits
    → HasWidth w e
    → e.bits_in + length (b ∷ bs) ≡ w
    → value_from e.bit_buf (b ∷ bs) < 2 ^ 64
    → write_bits (b ∷ bs) e ≡ record e {
      address = value_from e.bit_buf (b ∷ bs) % 2 ^ w % 2 ^ 16;
      bit_buf = 0;
      bits_in = 0;
      state = data_bits;
    }
unfolding write_bits
address_phase b [] w e s h n room =
    let last : leb w (e.bits_in + 1) ≡ true = ground arith in
    write-address b w e s h room ∙ rw last refl
address_phase b (c ∷ bs) w e s h n room =
    let more : leb w (e.bits_in + 1) ≡ false = ground arith in
    let e' = record e { bit_buf = e.bit_buf * 2 + to_ℕ b; bits_in = e.bits_in + 1 } in
    let fits = value_from-le (e.bit_buf * 2 + to_ℕ b) (c ∷ bs) in
    rw (write-address b w e s h (omega arith), more)
      (address_phase c bs w e' s
        (record { known = h.known; width = effective-ext e e' refl refl ∙ h.width }) (omega arith)
        room)

write-data :
    (b : Bool) (e : Eeprom)
    → e.state ≡ data_bits
    → e.cmd ≡ 2
    → e.bits_in < 64
    → e.bit_buf * 2 + to_ℕ b < 2 ^ 64
    → write (to_ℕ b) e ≡ (
        if e.bits_in + 1 == 64
        then record e {
          cells = store_bytes 8 (e.bit_buf * 2 + to_ℕ b) (e.address * 8) e.cells;
          bit_buf = e.bit_buf * 2 + to_ℕ b;
          bits_in = 64;
        }
        else record e { bit_buf = e.bit_buf * 2 + to_ℕ b; bits_in = e.bits_in + 1 })
unfolding write dispatch take_data store_data
write-data b e s c n room =
    let bit : to_ℕ b % 2 ≡ to_ℕ b = bit_mod b in
    let shifted : e.bit_buf * 2 % 2 ^ 64 + to_ℕ b ≡ e.bit_buf * 2 + to_ℕ b = omega arith in
    rw (s, bit, shifted) (ground arith)

-- 64 data bits of a write command: the last one stores the block.
pub data_phase :
    (b : Bool) (bs : List Bool) (e : Eeprom)
    → e.state ≡ data_bits
    → e.cmd ≡ 2
    → e.bits_in + length (b ∷ bs) ≡ 64
    → value_from e.bit_buf (b ∷ bs) < 2 ^ 64
    → write_bits (b ∷ bs) e ≡ record e {
      cells = store_bytes 8 (value_from e.bit_buf (b ∷ bs)) (e.address * 8) e.cells;
      bit_buf = value_from e.bit_buf (b ∷ bs);
      bits_in = 64;
    }
unfolding write_bits
data_phase b [] e s c n room =
    let last : (e.bits_in + 1 == 64) ≡ true = ground arith in
    write-data b e s c (omega arith) room ∙ rw last refl
data_phase b (d ∷ bs) e s c n room =
    let more : (e.bits_in + 1 == 64) ≡ false = ground arith in
    let e' = record e { bit_buf = e.bit_buf * 2 + to_ℕ b; bits_in = e.bits_in + 1 } in
    let fits = value_from-le (e.bit_buf * 2 + to_ℕ b) (d ∷ bs) in
    rw (write-data b e s c (omega arith) (omega arith), more)
      (data_phase d bs e' s c (omega arith) room)

-- The trailing bit of a write command.
pub stop_phase :
    (b : Bool) (e : Eeprom)
    → e.state ≡ data_bits
    → e.cmd ≡ 2
    → e.bits_in ≡ 64
    → write (to_ℕ b) e ≡ record e { state = write_done; bit_buf = 0; bits_in = 0 }
unfolding write dispatch take_data
stop_phase b e s c n = rw s (ground arith)

-- The dummy bit of a read command starts the output.
pub turn_phase :
    (b : Bool) (e : Eeprom)
    → e.state ≡ data_bits
    → e.cmd ≡ 3
    → write (to_ℕ b) e ≡ record e {
      read_buf = load_bytes 8 (e.address * 8) e.cells 0;
      read_bits_left = 68;
      state = read_out;
    }
unfolding write dispatch take_data begin_read
turn_phase b e s c = rw s (ground arith)
