-- ===== src/Arm7tdmi/Thumb/Data.antt =====
-- gba-core/src/arm7tdmi/thumb.rs: the instructions that leave the bus alone. Each gives the
-- processor and its cycles.
use vibe_gba.Prelude.{
  ℕ, ◌+◌, ◌*◌, ◌%◌, ◌^◌, bit_and, bit_or, bit_xor, Bool, true, false, ◌&&◌, ◌||◌, not, ◌==◌,
  if◌then◌else◌, get_or, some,
}
use vibe_gba.Prelude.Bits.{bit_set, not32}
use vibe_gba.Prelude.Int.{as_i8, as_i32, as_u32}
use vibe_gba.Arm7tdmi.Alu.{
  ShiftType, lsl, lsr, asr, ror, barrel_shift, add_with_carry, sub_with_carry, shift_down,
}
use vibe_gba.Arm7tdmi.Psr
use vibe_gba.Arm7tdmi.Psr.{Psr, set_c, set_v, set_nz, check_condition}
use vibe_gba.Arm7tdmi.Cpu.{Cpu, reg, branch, branch_exchange, even, wrapping_sub}
use vibe_gba.Arm7tdmi.Loops.{wrapping_add}
use vibe_gba.Arm7tdmi.Arm.Data.{field, put}

-- `cpsr.set_nz(result)` by itself, with the carry, and with carry and overflow.
unfoldable pub flag_nz : ℕ → Cpu → Cpu
flag_nz result c = record c { cpsr = set_nz result c.cpsr }

unfoldable pub flag_nzc : ℕ × Bool → Cpu → Cpu
flag_nzc (result, carry) c = record c { cpsr = set_c carry (set_nz result c.cpsr) }

unfoldable pub flag_nzcv : ℕ × Bool × Bool → Cpu → Cpu
flag_nzcv (result, carry, overflow) c = record c {
  cpsr = set_v overflow (set_c carry (set_nz result c.cpsr));
}

-- The same with the result in a register.
unfoldable pub keep_nz : ℕ → ℕ → Cpu → Cpu
unfolding put flag_nz
keep_nz rd result c = flag_nz result (put rd result c)

unfoldable pub keep_nzc : ℕ → ℕ × Bool → Cpu → Cpu
unfolding put flag_nzc
keep_nzc rd out c = flag_nzc out (put rd out.0 c)

unfoldable pub keep_nzcv : ℕ → ℕ × Bool × Bool → Cpu → Cpu
unfolding put flag_nzcv
keep_nzcv rd out c = flag_nzcv out (put rd out.0 c)

-- The shift of format 1. The decoder sends no other value than 0, 1 and 2.
unfoldable pub shift_of : ℕ → ShiftType
shift_of op = if op == 0 then lsl else if op == 1 then lsr else asr

unfoldable pub thumb_shift_imm : ℕ → Cpu → Cpu × ℕ
unfolding shift_of keep_nzc
thumb_shift_imm opcode c =
    let out =
      barrel_shift (reg (field 3 3 opcode) c) (shift_of (field 11 2 opcode)) (field 6 5 opcode)
        (Psr.c c.cpsr) true in
    (keep_nzc (field 0 3 opcode) out c, 1)

-- The choice between the addition and the subtraction.
unfoldable pub add_or_sub : Bool → ℕ → ℕ → ℕ × Bool × Bool
add_or_sub is_sub a b = if is_sub then sub_with_carry a b true else add_with_carry a b false

unfoldable pub thumb_add_sub_reg : ℕ → Cpu → Cpu × ℕ
unfolding add_or_sub keep_nzcv
thumb_add_sub_reg opcode c =
    let out = add_or_sub (bit_set opcode 9) (reg (field 3 3 opcode) c) (reg (field 6 3 opcode) c) in
    (keep_nzcv (field 0 3 opcode) out c, 1)

unfoldable pub thumb_add_sub_imm : ℕ → Cpu → Cpu × ℕ
unfolding add_or_sub keep_nzcv
thumb_add_sub_imm opcode c =
    let out = add_or_sub (bit_set opcode 9) (reg (field 3 3 opcode) c) (field 6 3 opcode) in
    (keep_nzcv (field 0 3 opcode) out c, 1)

unfoldable pub thumb_mov_imm : ℕ → Cpu → Cpu × ℕ
unfolding keep_nz
thumb_mov_imm opcode c = (keep_nz (field 8 3 opcode) (opcode % 2 ^ 8) c, 1)

unfoldable pub thumb_cmp_imm : ℕ → Cpu → Cpu × ℕ
unfolding flag_nzcv
thumb_cmp_imm opcode c =
    (flag_nzcv (sub_with_carry (reg (field 8 3 opcode) c) (opcode % 2 ^ 8) true) c, 1)

unfoldable pub thumb_add_imm : ℕ → Cpu → Cpu × ℕ
unfolding keep_nzcv
thumb_add_imm opcode c =
    let rd = field 8 3 opcode in
    (keep_nzcv rd (add_with_carry (reg rd c) (opcode % 2 ^ 8) false) c, 1)

unfoldable pub thumb_sub_imm : ℕ → Cpu → Cpu × ℕ
unfolding keep_nzcv
thumb_sub_imm opcode c =
    let rd = field 8 3 opcode in
    (keep_nzcv rd (sub_with_carry (reg rd c) (opcode % 2 ^ 8) true) c, 1)

-- A shift of format 4, by the lowest byte of a register.
unfoldable pub shift_by : ShiftType → ℕ → ℕ → Cpu → ℕ × Bool
shift_by kind a b c = barrel_shift a kind (b % 2 ^ 8) (Psr.c c.cpsr) false

-- The match on the operation of format 4.
unfoldable pub alu_op : ℕ → ℕ → ℕ → ℕ → Cpu → Cpu
unfolding keep_nz keep_nzc keep_nzcv flag_nz flag_nzcv shift_by
alu_op op rd a b c =
    if op == 0x0
    then keep_nz rd (bit_and a b) c
    else if op == 0x1
    then keep_nz rd (bit_xor a b) c
    else if op == 0x2
    then keep_nzc rd (shift_by lsl a b c) c
    else if op == 0x3
    then keep_nzc rd (shift_by lsr a b c) c
    else if op == 0x4
    then keep_nzc rd (shift_by asr a b c) c
    else if op == 0x5
    then keep_nzcv rd (add_with_carry a b (Psr.c c.cpsr)) c
    else if op == 0x6
    then keep_nzcv rd (sub_with_carry a b (Psr.c c.cpsr)) c
    else if op == 0x7
    then keep_nzc rd (shift_by ror a b c) c
    else if op == 0x8
    then flag_nz (bit_and a b) c
    else if op == 0x9
    then keep_nzcv rd (sub_with_carry 0 b true) c
    else if op == 0xa
    then flag_nzcv (sub_with_carry a b true) c
    else if op == 0xb
    then flag_nzcv (add_with_carry a b false) c
    else if op == 0xc
    then keep_nz rd (bit_or a b) c
    else if op == 0xd
    then keep_nz rd (a * b % 2 ^ 32) c
    else if op == 0xe
    then keep_nz rd (bit_and a (not32 b)) c
    else keep_nz rd (not32 b) c

unfoldable pub thumb_alu : ℕ → Cpu → Cpu × ℕ
unfolding alu_op
thumb_alu opcode c =
    let rd = field 0 3 opcode in
    (alu_op (field 6 4 opcode) rd (reg rd c) (reg (field 3 3 opcode) c) c, 1)

-- A write to any of the sixteen registers.
unfoldable pub put_or_branch : ℕ → ℕ → Cpu → Cpu
unfolding put
put_or_branch rd val c = if rd == 15 then branch (even val) c else put rd val c

-- `(h << 3 | low) & 0xF`, a sum since `low` has three bits.
unfoldable pub thumb_hi_reg_bx : ℕ → Cpu → Cpu × ℕ
unfolding flag_nzcv put_or_branch
thumb_hi_reg_bx opcode c =
    let op = field 8 2 opcode in
    let rs = field 6 1 opcode * 8 + field 3 3 opcode in
    let rd = field 7 1 opcode * 8 + field 0 3 opcode in
    (
      if op == 0
          then put_or_branch rd (wrapping_add (reg rd c) (reg rs c)) c
          else if op == 1
          then flag_nzcv (sub_with_carry (reg rd c) (reg rs c) true) c
          else if op == 2
          then put_or_branch rd (reg rs c) c
          else branch_exchange (reg rs c) c,
      if (op == 0 || op == 2) && rd == 15 then 3 else if op == 3 then 3 else 1,
    )

-- `pc & !2`: the bit 1 is taken away.
unfoldable pub thumb_load_address : ℕ → Cpu → Cpu × ℕ
unfolding put
thumb_load_address opcode c =
    let offset = opcode % 2 ^ 8 * 4 in
    let base =
      if bit_set opcode 11 then get_or c.regs 13 0 else bit_and (get_or c.regs 15 0) (not32 2) in
    (put (field 8 3 opcode) (wrapping_add base offset) c, 1)

unfoldable pub thumb_add_sp : ℕ → Cpu → Cpu × ℕ
unfolding put
thumb_add_sp opcode c =
    let offset = opcode % 2 ^ 7 * 4 in
    let sp = get_or c.regs 13 0 in
    (put 13 (if bit_set opcode 7 then wrapping_sub sp offset else wrapping_add sp offset) c, 1)

unfoldable pub thumb_cond_branch : ℕ → Cpu → Cpu × ℕ
thumb_cond_branch opcode c =
    if not (check_condition (field 8 4 opcode) c.cpsr)
    then (c, 1)
    else (let offset = as_u32 (as_i8 (opcode % 2 ^ 8)) * 2 % 2 ^ 32 in
        (branch (wrapping_add (get_or c.regs 15 0) offset) c, 3))

unfoldable pub thumb_swi : ℕ → Cpu → Cpu × ℕ
thumb_swi opcode c = (record c { pending_swi = some (opcode % 2 ^ 8) }, 3)

-- `((opcode & 0x7FF) as i32) << 21 >> k`.
unfoldable pub offset_11 : ℕ → ℕ → ℕ
offset_11 k opcode = as_u32 (shift_down (as_i32 (opcode % 2 ^ 11 * 2 ^ 21)) k)

unfoldable pub thumb_branch : ℕ → Cpu → Cpu × ℕ
unfolding offset_11
thumb_branch opcode c = (branch (wrapping_add (get_or c.regs 15 0) (offset_11 20 opcode)) c, 3)

unfoldable pub thumb_bl_prefix : ℕ → Cpu → Cpu × ℕ
unfolding offset_11 put
thumb_bl_prefix opcode c = (put 14 (wrapping_add (get_or c.regs 15 0) (offset_11 9 opcode)) c, 1)

unfoldable pub thumb_bl_suffix : ℕ → Cpu → Cpu × ℕ
unfolding put
thumb_bl_suffix opcode c =
    let next_instr = wrapping_sub (get_or c.regs 15 0) 2 in
    let target = wrapping_add (get_or c.regs 14 0) (opcode % 2 ^ 11 * 2) in
    (branch target (put 14 (bit_or next_instr 1) c), 4)

-- No format: the warning that is logged is left out.
unfoldable pub thumb_undefined : Cpu → Cpu × ℕ
thumb_undefined c = (c, 1)
