-- ===== src/Arm7tdmi/Arm.antt =====
-- gba-core/src/arm7tdmi/arm.rs: the decoder of the ARM instructions, the branches, the software
-- interrupt and the undefined instructions. The warning that is logged is left out.
pub mod Data
pub mod Transfer
use vibe_gba.Prelude.{
  ℕ, ◌+◌, ◌*◌, ◌/◌, ◌%◌, ◌^◌, Bool, ◌&&◌, ◌||◌, not, ◌==◌, if◌then◌else◌, bit_and, some, get_or,
}
use vibe_gba.Prelude.Bits.{bit_set}
use vibe_gba.Prelude.Int.{as_i32, as_u32}
use vibe_gba.Bus.Port.{Port}
use vibe_gba.Arm7tdmi.Alu.{shift_down}
use vibe_gba.Arm7tdmi.Loops.{wrapping_add}
use vibe_gba.Arm7tdmi.Cpu.{Cpu, reg, branch, branch_exchange, wrapping_sub}
use Data.{field, put, arm_data_processing, arm_multiply, arm_multiply_long, arm_mrs, arm_msr}
use Transfer.{arm_single_transfer, arm_halfword_transfer, arm_block_transfer, arm_swap}

-- `(offset as i32) << 8 >> 6`.
unfoldable pub branch_offset : ℕ → ℕ
branch_offset opcode = as_u32 (shift_down (as_i32 (opcode % 2 ^ 24 * 2 ^ 8)) 6)

unfoldable pub arm_branch : ℕ → Cpu → Cpu × ℕ
unfolding branch_offset put
arm_branch opcode c =
    let c' = if bit_set opcode 24 then put 14 (wrapping_sub (get_or c.regs 15 0) 4) c else c in
    (branch (wrapping_add (get_or c'.regs 15 0) (branch_offset opcode)) c', 3)

unfoldable pub arm_branch_exchange : ℕ → Cpu → Cpu × ℕ
arm_branch_exchange opcode c = (branch_exchange (reg (opcode % 2 ^ 4) c) c, 3)

unfoldable pub arm_swi : ℕ → Cpu → Cpu × ℕ
arm_swi opcode c = (record c { pending_swi = some (field 16 8 opcode) }, 3)

unfoldable pub arm_undefined : ℕ → Cpu → Cpu × ℕ
arm_undefined opcode c = (c, 1)

-- The result of an instruction that leaves the bus alone.
unfoldable pub without_bus : {S : Type 0} → Cpu × ℕ → S → Cpu × S × ℕ
without_bus r bus = (r.0, bus, r.1)

module _ {S : Type 0} (port : Port S) where
  -- Bits 4 and 7 set: the multiplications, SWP and the halfword transfers.
  unfoldable pub execute_multiply : ℕ → Cpu → S → Cpu × S × ℕ
  unfolding without_bus
  execute_multiply opcode c bus =
      let bits_27_20 = field 20 8 opcode in
      if field 4 4 opcode == 9
      then if bit_and bits_27_20 0xfc == 0
        then without_bus (arm_multiply opcode c) bus
        else if bit_and bits_27_20 0xf8 == 8
        then without_bus (arm_multiply_long opcode c) bus
        else if bit_and bits_27_20 0xfb == 0x10
        then arm_swap port opcode c bus
        else without_bus (arm_undefined opcode c) bus
      else arm_halfword_transfer port opcode c bus

  -- `0b000`.
  unfoldable pub execute_register : ℕ → Cpu → S → Cpu × S × ℕ
  unfolding execute_multiply without_bus
  execute_register opcode c bus =
      let bits_27_20 = field 20 8 opcode in
      let bits_7_4 = field 4 4 opcode in
      if bits_27_20 == 0x12 && bits_7_4 == 1
      then without_bus (arm_branch_exchange opcode c) bus
      else if bit_and bits_7_4 9 == 9 && bit_and bits_27_20 0xe0 == 0
      then execute_multiply opcode c bus
      else if bit_and bits_27_20 0xfb == 0x10 && bits_7_4 == 0
      then without_bus (arm_mrs opcode c) bus
      else if bit_and bits_27_20 0xfb == 0x12 && bits_7_4 == 0
      then without_bus (arm_msr opcode c) bus
      else without_bus (arm_data_processing opcode c) bus

  unfoldable pub execute_arm : ℕ → Cpu → S → Cpu × S × ℕ
  unfolding execute_register without_bus
  execute_arm opcode c bus =
      let kind = field 25 3 opcode in
      if kind == 0
      then execute_register opcode c bus
      else if kind == 1
      then if bit_and (field 20 8 opcode) 0xfb == 0x32
        then without_bus (arm_msr opcode c) bus
        else without_bus (arm_data_processing opcode c) bus
      else if kind == 2
      then arm_single_transfer port opcode c bus
      else if kind == 3
      then if bit_set opcode 4
        then without_bus (arm_undefined opcode c) bus
        else arm_single_transfer port opcode c bus
      else if kind == 4
      then arm_block_transfer port opcode c bus
      else if kind == 5
      then without_bus (arm_branch opcode c) bus
      else if kind == 7 && field 24 4 opcode == 0xf
      then without_bus (arm_swi opcode c) bus
      else without_bus (arm_undefined opcode c) bus
