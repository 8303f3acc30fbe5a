-- ===== src/Arm7tdmi/Alu.antt =====
-- gba-core/src/arm7tdmi/alu.rs: the barrel shifter and the adder.
pub mod Shifts
pub mod Adder
mod Examples
use vibe_gba.Prelude.{
  ℕ, ◌+◌, ◌-◌, ◌*◌, ◌/◌, ◌%◌, ◌^◌, bit_and, bit_xor, Bool, true, false, not, ◌&&◌, ltb, leb, ◌==◌,
  if◌then◌else◌, to_ℕ,
}
use vibe_gba.Prelude.Bits.{not32}
use vibe_gba.Prelude.Words.{rotate_right}
use vibe_gba.Prelude.Int.{ℤ, pos, negsuc, as_i32, as_u32}

pub data ShiftType : Type 0 where
  lsl lsr asr ror : ShiftType

-- `>>` on a signed value, which rounds down.
abbrev pub shift_down : ℤ → ℕ → ℤ
shift_down (pos n) amount = pos (n / 2 ^ amount)
shift_down (negsuc n) amount = negsuc (n / 2 ^ amount)

abbrev pub is_negative : ℤ → Bool
is_negative (pos n) = false
is_negative (negsuc n) = true

unfoldable pub shift_type_from_u8 : ℕ → ShiftType
shift_type_from_u8 val =
    if val % 4 == 0 then lsl else if val % 4 == 1 then lsr else if val % 4 == 2 then asr else ror

unfoldable pub shift_lsl : ℕ → ℕ → Bool → ℕ × Bool
shift_lsl value amount carry_in =
    if amount == 0
    then (value, carry_in)
    else if leb amount 31
    then (value * 2 ^ amount % 2 ^ 32, value / 2 ^ (32 - amount) % 2 == 1)
    else if amount == 32
    then (0, value % 2 == 1)
    else (0, false)

unfoldable pub shift_lsr : ℕ → ℕ → Bool → Bool → ℕ × Bool
shift_lsr value amount carry_in immediate =
    if amount == 0
    then if immediate then (0, not (value / 2 ^ 31 == 0)) else (value, carry_in)
    else if leb amount 31
    then (value / 2 ^ amount, value / 2 ^ (amount - 1) % 2 == 1)
    else if amount == 32
    then (0, not (value / 2 ^ 31 == 0))
    else (0, false)

-- All sign bits.
abbrev pub sign_fill : ℕ → ℕ × Bool
sign_fill value = (if is_negative (as_i32 value) then 0xffffffff else 0, is_negative (as_i32 value))

unfoldable pub shift_asr : ℕ → ℕ → Bool → Bool → ℕ × Bool
shift_asr value amount carry_in immediate =
    if amount == 0
    then if immediate then sign_fill value else (value, carry_in)
    else if leb amount 31
    then (
      as_u32 (shift_down (as_i32 value) amount),
      as_u32 (shift_down (as_i32 value) (amount - 1)) % 2 == 1,
    )
    else sign_fill value

-- RRX is `carry << 31 | value >> 1`: the bits do not meet, so `|` is a sum.
unfoldable pub shift_ror : ℕ → ℕ → Bool → Bool → ℕ × Bool
shift_ror value amount carry_in immediate =
    if amount == 0
    then if immediate
      then (to_ℕ carry_in * 2 ^ 31 + value / 2, value % 2 == 1)
      else (value, carry_in)
    else if amount % 32 == 0
    then (value, not (value / 2 ^ 31 == 0))
    else (let result = rotate_right value (amount % 32) in (result, not (result / 2 ^ 31 == 0)))

unfoldable pub barrel_shift : ℕ → ShiftType → ℕ → Bool → Bool → ℕ × Bool
unfolding shift_lsl shift_lsr shift_asr shift_ror
barrel_shift value lsl amount carry_in immediate = shift_lsl value amount carry_in
barrel_shift value lsr amount carry_in immediate = shift_lsr value amount carry_in immediate
barrel_shift value asr amount carry_in immediate = shift_asr value amount carry_in immediate
barrel_shift value ror amount carry_in immediate = shift_ror value amount carry_in immediate

pub data AluOp : Type 0 where
  and_op eor sub rsb add adc sbc rsc tst teq cmp cmn orr mov bic mvn : AluOp

unfoldable pub alu_op_from_u8 : ℕ → AluOp
alu_op_from_u8 val =
    let op = val % 16 in
    if op == 0
    then and_op
    else if op == 1
    then eor
    else if op == 2
    then sub
    else if op == 3
    then rsb
    else if op == 4
    then add
    else if op == 5
    then adc
    else if op == 6
    then sbc
    else if op == 7
    then rsc
    else if op == 8
    then tst
    else if op == 9
    then teq
    else if op == 10
    then cmp
    else if op == 11
    then cmn
    else if op == 12
    then orr
    else if op == 13
    then mov
    else if op == 14
    then bic
    else mvn

unfoldable pub is_test : AluOp → Bool
is_test tst = true
is_test teq = true
is_test cmp = true
is_test cmn = true
is_test _ = false

unfoldable pub is_logical : AluOp → Bool
is_logical and_op = true
is_logical eor = true
is_logical tst = true
is_logical teq = true
is_logical orr = true
is_logical mov = true
is_logical bic = true
is_logical mvn = true
is_logical _ = false

-- The result, the carry and the overflow. The 64-bit sum cannot wrap.
unfoldable pub add_with_carry : ℕ → ℕ → Bool → ℕ × Bool × Bool
add_with_carry a b carry_in =
    let result = a + b + to_ℕ carry_in in
    let result32 = result % 2 ^ 32 in
    let overflow = not (bit_and (bit_xor a result32) (bit_xor b result32) / 2 ^ 31 == 0) in
    (result32, ltb 0xffffffff result, overflow)

unfoldable pub sub_with_carry : ℕ → ℕ → Bool → ℕ × Bool × Bool
unfolding add_with_carry
sub_with_carry a b carry_in = add_with_carry a (not32 b) carry_in
