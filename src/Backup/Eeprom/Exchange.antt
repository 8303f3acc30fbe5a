-- ===== src/Backup/Eeprom/Exchange.antt =====
-- Whole commands: a block that is written is read back.
use vibe_gba.Prelude.{
  ℕ, ◌+◌, ◌*◌, ◌%◌, ◌^◌, ◌≤◌, ◌<◌, ◌≡◌, ◌⊎◌, inr, refl, ap, subst, ◌∙◌, arith, Bool, true, false,
  List, [], ◌∷◌, ◌++◌, length, to_ℕ, get_or,
}
use native.Mathlib.Nat.{mod-eq_of_lt, pow-le-pow_right}
use vibe_gba.Backup.Eeprom.{
  Eeprom, idle, address_bits, data_bits, read_out, write_done, store_bytes, load_bytes,
}
use vibe_gba.Backup.Eeprom.Bits.{value, value-lt}
use vibe_gba.Backup.Eeprom.Block.{
  load_bytes-store_bytes, get_or-store_bytes_out, length-store_bytes,
}
use vibe_gba.Backup.Eeprom.Send.{
  write_bits, write_bits-append, IsWaiting, HasWidth, effective-ext, command_phase, address_phase,
  data_phase, stop_phase, turn_phase,
}
use vibe_gba.Backup.Eeprom.Receive.{read_bits, numbers, read_bits-Loaded, read_bits-SameChip}

-- The bits of the two commands: type, address, data, and a last bit of no meaning.
abbrev pub write_command : List Bool → List Bool → Bool → List Bool
write_command addr block stop = (true ∷ false ∷ []) ++ (addr ++ (block ++ (stop ∷ [])))

abbrev pub read_command : List Bool → Bool → List Bool
read_command addr dummy = (true ∷ true ∷ []) ++ (addr ++ (dummy ∷ []))

-- An address of a chip whose width is known, for a block that lies inside the cells.
pub record IsAddress (addr : List Bool) (e : Eeprom) : Type 0 where
  pub width : HasWidth (length addr) e
  pub narrow : length addr ≤ 14
  pub some_bits : 1 ≤ length addr
  pub inside : value addr * 8 + 8 ≤ length e.cells

addressed : List Bool → Bool → Eeprom → Eeprom
addressed addr c e = record e {
  cmd = 2 + to_ℕ c;
  bit_buf = 0;
  bits_in = 0;
  state = data_bits;
  address = value addr;
}

address_small : (addr : List Bool) → length addr ≤ 14 → value addr < 2 ^ 14
address_small addr h = omega (arith, value-lt addr, pow-le-pow_right {n = 2} (omega arith) h)

address_whole :
    (addr : List Bool) → length addr ≤ 14 → value addr % 2 ^ length addr % 2 ^ 16 ≡ value addr
address_whole addr h = rw (mod-eq_of_lt (value-lt addr)) (omega (arith, address_small addr h))

address_phase_all :
    (addr : List Bool) (c : Bool) (e : Eeprom)
    → IsWaiting e
    → IsAddress addr e
    → write_bits addr (write_bits (true ∷ c ∷ []) e) ≡ addressed addr c e
unfolding addressed
address_phase_all [] c e w a = absurd (omega (arith, a.some_bits))
address_phase_all (b ∷ bs) c e w a =
    let start = record e { cmd = 2 + to_ℕ c; bit_buf = 0; bits_in = 0; state = address_bits } in
    let small_value = address_small (b ∷ bs) a.narrow in
    rw (command_phase c e w) (
      address_phase b bs (length (b ∷ bs)) start refl
        (record { known = a.width.known; width = effective-ext e start refl refl ∙ a.width.width })
        (omega arith) (omega arith)
      ∙ ap
          (λ (t : ℕ). record e {
            cmd = 2 + to_ℕ c;
            bit_buf = 0;
            bits_in = 0;
            state = data_bits;
            address = t;
          })
          (address_whole (b ∷ bs) a.narrow))

-- The chip after a write command.
stored : List Bool → List Bool → Eeprom → Eeprom
stored addr block e = record e {
  cmd = 2;
  bit_buf = 0;
  bits_in = 0;
  state = write_done;
  address = value addr;
  cells = store_bytes 8 (value block) (value addr * 8) e.cells;
}

data_phase_all :
    (addr block : List Bool) (e : Eeprom)
    → length block ≡ 64
    → write_bits block (addressed addr false e) ≡ record (addressed addr false e) {
      cells = store_bytes 8 (value block) (value addr * 8) e.cells;
      bit_buf = value block;
      bits_in = 64;
    }
unfolding addressed
data_phase_all addr [] e n = absurd (omega arith)
data_phase_all addr (b ∷ bs) e n =
    data_phase b bs (addressed addr false e) refl refl (omega arith)
      (subst (λ k. value (b ∷ bs) < 2 ^ k) n (value-lt (b ∷ bs)))

write_command_lem :
    (addr block : List Bool) (stop : Bool) (e : Eeprom)
    → IsWaiting e
    → IsAddress addr e
    → length block ≡ 64
    → write_bits (write_command addr block stop) e ≡ stored addr block e
unfolding stored addressed write_bits
write_command_lem addr block stop e w a n =
    let start = write_bits (true ∷ false ∷ []) e in
    let last = record (addressed addr false e) {
      cells = store_bytes 8 (value block) (value addr * 8) e.cells;
      bit_buf = value block;
      bits_in = 64;
    } in
    write_bits-append addr (block ++ (stop ∷ [])) start
    ∙ ap (write_bits (block ++ (stop ∷ []))) (address_phase_all addr false e w a)
    ∙ write_bits-append block (stop ∷ []) (addressed addr false e)
    ∙ ap (write_bits (stop ∷ [])) (data_phase_all addr block e n)
    ∙ stop_phase stop last refl refl refl

-- The chip after a read command.
sending : List Bool → Eeprom → Eeprom
sending addr e = record e {
  cmd = 3;
  bit_buf = 0;
  bits_in = 0;
  state = read_out;
  address = value addr;
  read_buf = load_bytes 8 (value addr * 8) e.cells 0;
  read_bits_left = 68;
}

read_command_lem :
    (addr : List Bool) (dummy : Bool) (e : Eeprom)
    → IsWaiting e
    → IsAddress addr e
    → write_bits (read_command addr dummy) e ≡ sending addr e
unfolding sending addressed write_bits
read_command_lem addr dummy e w a =
    write_bits-append addr (dummy ∷ []) (write_bits (true ∷ true ∷ []) e)
    ∙ ap (write_bits (dummy ∷ [])) (address_phase_all addr true e w a)
    ∙ turn_phase dummy (addressed addr true e) refl refl

stored-IsAddress :
    (addr other block : List Bool) (e : Eeprom)
    → IsAddress other e
    → IsAddress other (stored addr block e)
unfolding stored
stored-IsAddress addr other block e a = record {
  width = record {
    known = a.width.known;
    width = effective-ext e (stored addr block e) refl refl ∙ a.width.width;
  };
  narrow = a.narrow;
  some_bits = a.some_bits;
  inside = rw (length-store_bytes 8 (value block) (value addr * 8) e.cells) a.inside;
}

-- A chip between two commands that knows its width takes a write command and then a read command
-- for the same block, and 68 reads give four dummy zeros and the 64 bits that were written, most
-- significant first; the chip is idle again, and no byte outside the block has changed.
pub read-write_command :
    (addr block : List Bool) (stop dummy : Bool) (e : Eeprom)
    → IsWaiting e
    → IsAddress addr e
    → length block ≡ 64
    → let e' =
        write_bits (read_command addr dummy) (write_bits (write_command addr block stop) e) in
      ((read_bits 68 e').1 ≡ 0 ∷ 0 ∷ 0 ∷ 0 ∷ numbers block)
      × ((read_bits 68 e').0.state ≡ idle)
      × ((j : ℕ)
          → (j < value addr * 8) ⊎ (value addr * 8 + 8 ≤ j)
          → get_or (read_bits 68 e').0.cells j 0xff ≡ get_or e.cells j 0xff)
unfolding stored sending
read-write_command addr block stop dummy e w a n =
    let word = subst (λ k. value block < 2 ^ k) n (value-lt block) in
    let after_write = write_command_lem addr block stop e w a n in
    let after_read =
      ap (write_bits (read_command addr dummy)) after_write
      ∙ read_command_lem addr dummy (stored addr block e) (inr refl)
          (stored-IsAddress addr addr block e a) in
    let final = sending addr (stored addr block e) in
    let out = read_bits-Loaded block final n (record {
      sending = refl;
      left = refl;
      register = load_bytes-store_bytes (value block) (value addr * 8) e.cells word a.inside;
    }) in
    rw after_read (
      out.0,
      out.1,
      λ j far.
          ap (λ (c : List ℕ). get_or c j 0xff) (read_bits-SameChip 68 final).0
          ∙ get_or-store_bytes_out 8 (value block) (value addr * 8) e.cells j far,
    )
