-- ===== src/Arm7tdmi/Psr/Examples.antt =====
-- The status register at concrete values.
use vibe_gba.Prelude.{◌≡◌, refl, arith, true}
use vibe_gba.Arm7tdmi.Alu.{sub_with_carry, add_with_carry}
use vibe_gba.Arm7tdmi.Psr.{
  system, new, n, z, c, v, set_bit, set_n, set_z, set_c, set_v, set_nz, check_condition, mode_bits,
}
use vibe_gba.Arm7tdmi.Psr.Bits.{IsWord}
use vibe_gba.Arm7tdmi.Psr.Compare.{Compares, set_flags, sub_with_carry-Compares}

-- -1 is below 1 as a signed number.
test_signed : check_condition 0xb (set_flags (sub_with_carry 0xffffffff 1 true) (new system)) ≡ true
unfolding check_condition set_flags sub_with_carry add_with_carry new n z c v set_bit set_n set_z
    set_c set_v set_nz mode_bits
test_signed = refl

-- It is above 1 as an unsigned number.
test_unsigned :
    check_condition 0x8 (set_flags (sub_with_carry 0xffffffff 1 true) (new system)) ≡ true
unfolding check_condition set_flags sub_with_carry add_with_carry new n z c v set_bit set_n set_z
    set_c set_v set_nz mode_bits
test_unsigned = refl

new-IsWord : IsWord (new system)
unfolding IsWord new mode_bits
new-IsWord = omega arith

sub_with_carry-Compares_example :
    Compares 0xffffffff 1 (set_flags (sub_with_carry 0xffffffff 1 true) (new system))
sub_with_carry-Compares_example =
    sub_with_carry-Compares 0xffffffff 1 (new system) (omega arith) (omega arith) new-IsWord
