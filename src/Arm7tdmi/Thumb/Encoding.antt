-- ===== src/Arm7tdmi/Thumb/Encoding.antt =====
-- The ARM instructions that say the same as THUMB instructions, how the decoder reads them, and what
-- data processing does with them.
use vibe_gba.Prelude.{
  ℕ, ◌+◌, ◌*◌, ◌%◌, ◌^◌, ◌<◌, ◌≡◌, refl, arith, Bool, true, false, ◌==◌, bit_and,
}
use vibe_gba.Prelude.Bits.{bit_set}
use vibe_gba.Prelude.Bits.Digits.{bit_and-Halves}
use vibe_gba.Bus.Port.{Port}
use vibe_gba.Arm7tdmi.Alu.{barrel_shift, shift_type_from_u8, alu_op_from_u8}
use vibe_gba.Arm7tdmi.Psr
use vibe_gba.Arm7tdmi.Cpu.{Cpu, reg}
use vibe_gba.Arm7tdmi.Arm.{execute_arm, execute_register, without_bus}
use vibe_gba.Arm7tdmi.Arm.Data.{field, arm_data_processing, alu, retire}

-- Data processing that sets the flags, always executed: on two registers, and on a register and a
-- byte; a shift of a register by a number, and by a register.
abbrev pub arm_register : ℕ → ℕ → ℕ → ℕ → ℕ
arm_register k rn rd rm = 0xe0100000 + k * 2 ^ 21 + rn * 2 ^ 16 + rd * 2 ^ 12 + rm

abbrev pub arm_immediate : ℕ → ℕ → ℕ → ℕ → ℕ
arm_immediate k rn rd imm = 0xe2100000 + k * 2 ^ 21 + rn * 2 ^ 16 + rd * 2 ^ 12 + imm

abbrev pub arm_shift : ℕ → ℕ → ℕ → ℕ → ℕ
arm_shift kind rd rm amount = 0xe1b00000 + rd * 2 ^ 12 + amount * 2 ^ 7 + kind * 2 ^ 5 + rm

abbrev pub arm_shift_by : ℕ → ℕ → ℕ → ℕ → ℕ
arm_shift_by kind rd rm rs = 0xe1b00010 + rd * 2 ^ 12 + rs * 2 ^ 8 + kind * 2 ^ 5 + rm

odd_and : (x t : ℕ) → x % 2 ≡ 1 → t % 2 ≡ 0 → (bit_and x 0xfb == t) ≡ false
odd_and x t h e = ground (arith, bit_and-Halves x 0xfb)

odd-ne : (x : ℕ) → x % 2 ≡ 1 → (x == 0x12) ≡ false
odd-ne x h = ground arith

pub even_and : (x : ℕ) → x % 2 ≡ 0 → (bit_and x 9 == 9) ≡ false
even_and x h = ground (arith, bit_and-Halves x 9)

module _ {S : Type 0} (port : Port S) (opcode : ℕ) (c : Cpu) (bus : S) where
  -- Data processing on a byte.
  pub decodes_immediate :
      field 25 3 opcode ≡ 1
      → field 20 8 opcode % 2 ≡ 1
      → execute_arm port opcode c bus ≡ without_bus (arm_data_processing opcode c) bus
  unfolding execute_arm
  decodes_immediate k s = rw (k, odd_and (field 20 8 opcode) 0x32 s (omega arith)) refl

  -- Data processing on registers: the bits 4 and 7 are not both set.
  pub decodes_register :
      field 25 3 opcode ≡ 0
      → field 20 8 opcode % 2 ≡ 1
      → (bit_and (field 4 4 opcode) 9 == 9) ≡ false
      → execute_arm port opcode c bus ≡ without_bus (arm_data_processing opcode c) bus
  unfolding execute_arm execute_register
  decodes_register k s b =
      let f = field 20 8 opcode in
      rw (k, odd-ne f s, b, odd_and f 0x10 s (omega arith), odd_and f 0x12 s (omega arith)) refl

-- The fields of the encodings.
module _ (k rn rd x : ℕ) (hk : k < 16) (hn : rn < 16) (hd : rd < 16) where
  abbrev Reads : ℕ → ℕ → Type 0
  Reads opcode kind =
      (field 25 3 opcode ≡ kind)
      × (field 20 8 opcode % 2 ≡ 1)
      × (field 21 4 opcode ≡ k)
      × (field 16 4 opcode ≡ rn)
      × (field 12 4 opcode ≡ rd)

  pub Reads-immediate :
      x < 256
      → Reads (arm_immediate k rn rd x) 1
        × (field 8 4 (arm_immediate k rn rd x) ≡ 0)
        × (arm_immediate k rn rd x % 2 ^ 8 ≡ x)
  Reads-immediate h = omega arith

  pub Reads-register :
      x < 4096 → Reads (arm_register k rn rd x) 0 × (arm_register k rn rd x % 2 ^ 12 ≡ x)
  Reads-register h = omega arith

-- What data processing does with a byte, once its fields are read.
module _ (opcode k rn rd : ℕ) (c : Cpu) (op_k : field 21 4 opcode ≡ k)
    (op_rn : field 16 4 opcode ≡ rn) (op_rd : field 12 4 opcode ≡ rd) (n15 : (rn == 15) ≡ false)
    (d15 : (rd == 15) ≡ false) (flags : bit_set opcode 20 ≡ true) where
  abbrev retired : ℕ × Bool → Cpu
  retired operand =
      let op = alu_op_from_u8 k in
      retire op true rd (alu op (reg rn c) operand.0 operand.1 c.cpsr) c

  pub processes_immediate :
      (x : ℕ)
      → bit_set opcode 25 ≡ true
      → field 8 4 opcode ≡ 0
      → opcode % 2 ^ 8 ≡ x
      → arm_data_processing opcode c ≡ (retired (x, Psr.c c.cpsr), 1)
  unfolding arm_data_processing
  processes_immediate x i rotate byte =
      rw (i, flags, op_k, op_rn, op_rd, n15, d15, rotate, byte) refl

  pub processes_register :
      (kind rm amount : ℕ)
      → bit_set opcode 25 ≡ false
      → bit_set opcode 4 ≡ false
      → opcode % 2 ^ 4 ≡ rm
      → (rm == 15) ≡ false
      → field 5 2 opcode ≡ kind
      → field 7 5 opcode ≡ amount
      → arm_data_processing opcode c ≡ (
        retired (barrel_shift (reg rm c) (shift_type_from_u8 kind) amount (Psr.c c.cpsr) true),
        1,
      )
  unfolding arm_data_processing
  processes_register kind rm amount i by m m15 t a =
      rw (i, by, flags, op_k, op_rn, op_rd, n15, d15, m, m15, t, a) refl

  pub processes_shift_by :
      (kind rm rs : ℕ)
      → bit_set opcode 25 ≡ false
      → bit_set opcode 4 ≡ true
      → opcode % 2 ^ 4 ≡ rm
      → (rm == 15) ≡ false
      → field 8 4 opcode ≡ rs
      → (rs == 15) ≡ false
      → field 5 2 opcode ≡ kind
      → arm_data_processing opcode c ≡ (
        retired (
            barrel_shift
              (reg rm c)
              (shift_type_from_u8 kind)
              (reg rs c % 2 ^ 8)
              (Psr.c c.cpsr)
              false),
        2,
      )
  unfolding arm_data_processing
  processes_shift_by kind rm rs i by m m15 s s15 t =
      rw (i, by, flags, op_k, op_rn, op_rd, n15, d15, m, m15, s, s15, t) refl
