-- ===== src/Keypad.antt =====
-- gba-core/src/keypad.rs: the buttons and the interrupt they raise.
pub mod Condition
mod Examples
use vibe_gba.Prelude.{ℕ, ◌-◌, ◌%◌, ◌^◌, bit_and, Bool, true, false, not, ◌==◌, if◌then◌else◌}
use vibe_gba.Prelude.Bits.{not16, bit_set}

pub record Keypad : Type 0 where
  pub keyinput : ℕ
  pub keycnt : ℕ

pub new : Keypad
new = record { keyinput = 0x3ff; keycnt = 0 }

-- `& 0x03FF` keeps the 10 low bits.
pub set_keys : ℕ → Keypad → Keypad
set_keys pressed k = record k { keyinput = not16 pressed % 2 ^ 10 }

abbrev pub read_keyinput : Keypad → ℕ
read_keyinput k = k.keyinput

pub check_irq : Keypad → Bool
check_irq k =
    let key_mask = k.keycnt % 2 ^ 10 in
    let pressed = not16 k.keyinput % 2 ^ 10 in
    if not (bit_set k.keycnt 14)
    then false
    else if bit_set k.keycnt 15
    then bit_and pressed key_mask == key_mask
    else not (bit_and pressed key_mask == 0)
