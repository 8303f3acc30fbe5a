-- ===== src/Keypad/Examples.antt =====
-- The keypad at concrete buttons.
use vibe_gba.Prelude.{◌≡◌, refl, arith, true}
use vibe_gba.Keypad.{Keypad, set_keys, check_irq}
use vibe_gba.Keypad.Condition.{fires, set_keys-check_irq}

-- A, B and Start together.
abbrev soft_reset : Keypad
soft_reset = record { keyinput = 0x3ff; keycnt = 0xc00b }

test_all_down : check_irq (set_keys 0x1b soft_reset) ≡ true
unfolding check_irq set_keys
test_all_down = refl

set_keys-check_irq_example : check_irq (set_keys 0x1b soft_reset) ≡ fires 0xc00b 0x1b
set_keys-check_irq_example = set_keys-check_irq 0x1b soft_reset (omega arith)
