-- ===== src/Arm7tdmi/Arm/Data.antt =====
-- gba-core/src/arm7tdmi/arm.rs: data processing, multiplication and the transfers of the status
-- registers. These instructions leave the bus alone; each gives the processor and its cycles.
use vibe_gba.Prelude.{
  ℕ, ◌+◌, ◌*◌, ◌/◌, ◌%◌, ◌^◌, bit_and, bit_or, bit_xor, Bool, true, false, not, ◌&&◌, ◌==◌,
  if◌then◌else◌, set,
}
use vibe_gba.Prelude.Bits.{bit_set, not32}
use vibe_gba.Prelude.Words.{rotate_right}
use vibe_gba.Prelude.Int.{as_i32, ◌*ℤ◌, as_u64}
use vibe_gba.Arm7tdmi.Alu.{
  barrel_shift, shift_type_from_u8, AluOp, alu_op_from_u8, and_op, eor, sub, rsb, add, adc, sbc,
  rsc, tst, teq, cmp, cmn, orr, mov, bic, mvn, is_test, is_logical, add_with_carry, sub_with_carry,
}
use vibe_gba.Arm7tdmi.Psr
use vibe_gba.Arm7tdmi.Psr.{Psr, CpuMode, user, is_mode, mode, set_n, set_z, set_c, set_v, set_nz}
use vibe_gba.Arm7tdmi.Cpu.{
  Cpu, reg, set_reg, set_reg_with_flags, spsr, set_spsr, switch_mode, current_mode,
}

-- `(opcode >> k) & ((1 << w) - 1)`.
abbrev pub field : ℕ → ℕ → ℕ → ℕ
field k w opcode = opcode / 2 ^ k % 2 ^ w

-- `self.regs[r] = val`.
unfoldable pub put : ℕ → ℕ → Cpu → Cpu
put r val c = record c { regs = set c.regs r val }

-- A register, the PC being one word further on when a shift by a register takes a cycle more.
unfoldable pub reg_ahead : Bool → ℕ → Cpu → ℕ
reg_ahead shift_by_reg r c = if r == 15 && shift_by_reg then (reg 15 c + 4) % 2 ^ 32 else reg r c

unfoldable pub immediate_operand : ℕ → Cpu → ℕ × Bool
immediate_operand opcode c =
    let imm = opcode % 2 ^ 8 in
    let rotate = field 8 4 opcode * 2 in
    if rotate == 0
    then (imm, Psr.c c.cpsr)
    else (let result = rotate_right imm rotate in (result, not (result / 2 ^ 31 == 0)))

unfoldable pub register_operand : Bool → ℕ → Cpu → ℕ × Bool
unfolding reg_ahead
register_operand shift_by_reg opcode c =
    barrel_shift (reg_ahead shift_by_reg (opcode % 2 ^ 4) c) (shift_type_from_u8 (field 5 2 opcode))
      (if shift_by_reg then reg_ahead true (field 8 4 opcode) c % 2 ^ 8 else field 7 5 opcode)
      (Psr.c c.cpsr) (not shift_by_reg)

-- The match on the operation: the result, the carry and the overflow.
unfoldable pub alu : AluOp → ℕ → ℕ → Bool → Psr → ℕ × Bool × Bool
alu and_op op1 op2 shifter_carry p = (bit_and op1 op2, shifter_carry, Psr.v p)
alu tst op1 op2 shifter_carry p = (bit_and op1 op2, shifter_carry, Psr.v p)
alu eor op1 op2 shifter_carry p = (bit_xor op1 op2, shifter_carry, Psr.v p)
alu teq op1 op2 shifter_carry p = (bit_xor op1 op2, shifter_carry, Psr.v p)
alu sub op1 op2 shifter_carry p = sub_with_carry op1 op2 true
alu cmp op1 op2 shifter_carry p = sub_with_carry op1 op2 true
alu rsb op1 op2 shifter_carry p = sub_with_carry op2 op1 true
alu add op1 op2 shifter_carry p = add_with_carry op1 op2 false
alu cmn op1 op2 shifter_carry p = add_with_carry op1 op2 false
alu adc op1 op2 shifter_carry p = add_with_carry op1 op2 (Psr.c p)
alu sbc op1 op2 shifter_carry p = sub_with_carry op1 op2 (Psr.c p)
alu rsc op1 op2 shifter_carry p = sub_with_carry op2 op1 (Psr.c p)
alu orr op1 op2 shifter_carry p = (bit_or op1 op2, shifter_carry, Psr.v p)
alu mov op1 op2 shifter_carry p = (op2, shifter_carry, Psr.v p)
alu bic op1 op2 shifter_carry p = (bit_and op1 (not32 op2), shifter_carry, Psr.v p)
alu mvn op1 op2 shifter_carry p = (not32 op2, shifter_carry, Psr.v p)

-- The status word of SPSR, with its mode.
unfoldable pub restore_cpsr : Cpu → Cpu
restore_cpsr c = let saved = spsr c in record (switch_mode (mode saved) c) { cpsr = saved }

unfoldable pub set_flags : AluOp → ℕ × Bool × Bool → Psr → Psr
set_flags op (result, carry, overflow) p =
    let p' = set_c carry (set_nz result p) in if not (is_logical op) then set_v overflow p' else p'

-- What becomes of the result, from `if s` on.
unfoldable pub retire : AluOp → Bool → ℕ → ℕ × Bool × Bool → Cpu → Cpu
unfolding put restore_cpsr set_flags
retire op s rd out c =
    if s
    then if rd == 15
      then if is_test op then restore_cpsr c else set_reg_with_flags rd out.0 true c
      else (let flagged = record c { cpsr = set_flags op out c.cpsr } in
          if not (is_test op) then put rd out.0 flagged else flagged)
    else if not (is_test op)
    then set_reg rd out.0 c
    else c

unfoldable pub arm_data_processing : ℕ → Cpu → Cpu × ℕ
unfolding reg_ahead immediate_operand register_operand alu retire
arm_data_processing opcode c =
    let i = bit_set opcode 25 in
    let s = bit_set opcode 20 in
    let op = alu_op_from_u8 (field 21 4 opcode) in
    let rd = field 12 4 opcode in
    let shift_by_reg = not i && bit_set opcode 4 in
    let op1 = reg_ahead shift_by_reg (field 16 4 opcode) c in
    let operand =
      if i then immediate_operand opcode c else register_operand shift_by_reg opcode c in
    (
      retire op s rd (alu op op1 operand.0 operand.1 c.cpsr) c,
      1 + (if shift_by_reg then 1 else 0) + (if rd == 15 then 2 else 0),
    )

unfoldable pub arm_multiply : ℕ → Cpu → Cpu × ℕ
unfolding put
arm_multiply opcode c =
    let product = reg (field 0 4 opcode) c * reg (field 8 4 opcode) c in
    let result =
      if bit_set opcode 21
      then (product % 2 ^ 32 + reg (field 12 4 opcode) c) % 2 ^ 32
      else product % 2 ^ 32 in
    let c' = put (field 16 4 opcode) result c in
    (if bit_set opcode 20 then record c' { cpsr = set_nz result c'.cpsr } else c', 4)

-- `(hi as u64) << 32 | lo as u64`, a sum since `lo` is a word.
unfoldable pub accumulator : ℕ → Cpu → ℕ
accumulator opcode c = reg (field 16 4 opcode) c * 2 ^ 32 + reg (field 12 4 opcode) c

unfoldable pub long_product : ℕ → Cpu → ℕ
unfolding accumulator
long_product opcode c =
    let a = reg (field 0 4 opcode) c in
    let b = reg (field 8 4 opcode) c in
    let result = if bit_set opcode 22 then as_u64 (as_i32 a *ℤ as_i32 b) else a * b in
    if bit_set opcode 21 then (result + accumulator opcode c) % 2 ^ 64 else result

unfoldable pub arm_multiply_long : ℕ → Cpu → Cpu × ℕ
unfolding long_product put
arm_multiply_long opcode c =
    let result = long_product opcode c in
    let c' =
      put (field 16 4 opcode) (result / 2 ^ 32) (put (field 12 4 opcode) (result % 2 ^ 32) c) in
    (
      if bit_set opcode 20
          then record c' { cpsr = set_z (result == 0) (set_n (not (result / 2 ^ 63 == 0)) c'.cpsr) }
          else c',
      5,
    )

unfoldable pub arm_mrs : ℕ → Cpu → Cpu × ℕ
unfolding put
arm_mrs opcode c =
    let psr = if bit_set opcode 22 then spsr c else c.cpsr in
    (put (field 12 4 opcode) psr.bits c, 1)

-- The four bytes of the field mask, of which User mode keeps the flags. The bytes do not meet, so
-- `|` is a sum.
unfoldable pub write_mask : ℕ → CpuMode → ℕ
write_mask opcode m =
    let flags = if bit_set opcode 19 then 0xff000000 else 0 in
    if is_mode m user
    then flags
    else (if bit_set opcode 16 then 0xff else 0)
      + (if bit_set opcode 17 then 0xff00 else 0)
      + (if bit_set opcode 18 then 0xff0000 else 0)
      + flags

unfoldable pub msr_value : ℕ → Cpu → ℕ
msr_value opcode c =
    if bit_set opcode 25
    then rotate_right (opcode % 2 ^ 8) (field 8 4 opcode * 2)
    else reg (opcode % 2 ^ 4) c

unfoldable pub masked : ℕ → ℕ → ℕ → ℕ
masked mask val old = bit_or (bit_and old (not32 mask)) (bit_and val mask)

-- The mode is switched while the status word still has the old one.
unfoldable pub write_cpsr : Psr → Cpu → Cpu
write_cpsr psr c =
    let c' = if not (is_mode (current_mode c) (mode psr)) then switch_mode (mode psr) c else c in
    record c' { cpsr = psr }

unfoldable pub arm_msr : ℕ → Cpu → Cpu × ℕ
unfolding write_mask msr_value masked write_cpsr
arm_msr opcode c =
    let mask = write_mask opcode (current_mode c) in
    let val = msr_value opcode c in
    (
      if bit_set opcode 22
          then set_spsr (record { bits = masked mask val (spsr c).bits }) c
          else write_cpsr (record { bits = masked mask val c.cpsr.bits }) c,
      1,
    )
