-- ===== src/Arm7tdmi/Alu/Examples.antt =====
-- The shifts and sums of the source's own tests, and the theorems at concrete inputs.
use vibe_gba.Prelude.{◌≡◌, refl, arith, true, false}
use vibe_gba.Arm7tdmi.Alu.{
  asr, ror, barrel_shift, shift_asr, shift_ror, add_with_carry, sub_with_carry,
}
use vibe_gba.Arm7tdmi.Alu.Shifts.{IsShift, effective_amount, barrel_shift-IsShift}
use vibe_gba.Arm7tdmi.Alu.Adder.{IsSum, IsDifference, add_with_carry_lem, sub_with_carry_lem}

test_asr : barrel_shift 0x80000000 asr 31 false false ≡ (0xffffffff, false)
unfolding barrel_shift shift_asr
test_asr = refl

test_rrx : barrel_shift 1 ror 0 true true ≡ (0x80000000, true)
unfolding barrel_shift shift_ror
test_rrx = refl

test_overflow : add_with_carry 0x7fffffff 1 false ≡ (0x80000000, false, true)
unfolding add_with_carry
test_overflow = refl

test_borrow : sub_with_carry 3 5 true ≡ (0xfffffffe, false, false)
unfolding sub_with_carry add_with_carry
test_borrow = refl

barrel_shift-IsShift_example : IsShift asr 0x80000001 32 (barrel_shift 0x80000001 asr 0 false true)
unfolding effective_amount
barrel_shift-IsShift_example =
    barrel_shift-IsShift asr 0x80000001 0 false true (omega arith) (omega arith)

add_with_carry_lem_example : IsSum 0x7fffffff 1 false (add_with_carry 0x7fffffff 1 false)
add_with_carry_lem_example = add_with_carry_lem 0x7fffffff 1 false (omega arith) (omega arith)

sub_with_carry_lem_example : IsDifference 3 5 true (sub_with_carry 3 5 true)
sub_with_carry_lem_example = sub_with_carry_lem 3 5 true (omega arith) (omega arith)
