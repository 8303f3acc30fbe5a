-- ===== src/Backup/Eeprom/Capacity.antt =====
-- The number of cells goes with the size that the chip takes itself to have.
use vibe_gba.Prelude.{
  ℕ, zero, suc, ◌*◌, ◌+◌, ◌%◌, ◌≡◌, refl, ap, arith, List, [], ◌∷◌, length, length-replicate,
}
use vibe_gba.Backup.Eeprom.{
  Eeprom, State, idle, cmd_type, address_bits, data_bits, read_out, write_done, SizeKind, unknown,
  small, large, new, resize, read_bit, write, dispatch, take_command, take_address, take_data,
  detect_size, begin_read, store_data, shift_in,
}
use vibe_gba.Backup.Eeprom.Block.{length-store_bytes}

abbrev pub capacity : SizeKind → ℕ
capacity small = 512
capacity large = 8 * 1024
capacity unknown = 8 * 1024

pub IsSized : Eeprom → Type 0
IsSized e = length e.cells ≡ capacity e.size

pub new-IsSized : IsSized new
unfolding IsSized new
new-IsSized = length-replicate {A = ℕ} (8 * 1024) 0xff

length-resize : (n v : ℕ) (xs : List ℕ) → length (resize n v xs) ≡ n
unfolding resize
length-resize zero v xs = refl
length-resize (suc n) v [] = ap suc (length-resize n v [])
length-resize (suc n) v (x ∷ xs) = ap suc (length-resize n v xs)

detect_size-IsSized :
    (k : SizeKind) (e : Eeprom) → e.size ≡ k → IsSized e → IsSized (detect_size k e)
unfolding IsSized detect_size
detect_size-IsSized unknown e q s = ground (arith, length-resize 512 0xff e.cells, ap capacity q)
detect_size-IsSized small e q s = s
detect_size-IsSized large e q s = s

take_address-IsSized : (bit : ℕ) (e : Eeprom) → IsSized e → IsSized (take_address bit e)
unfolding take_address IsSized
take_address-IsSized bit e s =
    let e' = record e { bit_buf = shift_in e.bit_buf bit; bits_in = e.bits_in + 1 } in
    let sized : length (detect_size e.size e').cells ≡ capacity (detect_size e.size e').size =
      detect_size-IsSized e.size e' refl s in
    ground arith

take_data-IsSized : (bit : ℕ) (e : Eeprom) → IsSized e → IsSized (take_data bit e)
unfolding take_data IsSized begin_read store_data
take_data-IsSized bit e s =
    ground (arith, length-store_bytes 8 (shift_in e.bit_buf bit) (e.address * 8) e.cells)

dispatch-IsSized : (st : State) (bit : ℕ) (e : Eeprom) → IsSized e → IsSized (dispatch st bit e)
unfolding dispatch take_command IsSized
dispatch-IsSized idle bit e s = s
dispatch-IsSized write_done bit e s = s
dispatch-IsSized cmd_type bit e s = ground arith
dispatch-IsSized address_bits bit e s = take_address-IsSized bit e s
dispatch-IsSized data_bits bit e s = take_data-IsSized bit e s
dispatch-IsSized read_out bit e s = s

pub write-IsSized : (val : ℕ) (e : Eeprom) → IsSized e → IsSized (write val e)
unfolding write
write-IsSized val e s = dispatch-IsSized e.state (val % 2) e s

pub read_bit-IsSized : (e : Eeprom) → IsSized e → IsSized (read_bit e).0
unfolding read_bit IsSized
read_bit-IsSized e s = ground arith
