-- ===== src/Arm7tdmi/Thumb.antt =====
-- gba-core/src/arm7tdmi/thumb.rs: the decoder of the THUMB instructions.
pub mod Data
pub mod Transfer
pub mod Lists
pub mod Pops
pub mod Stack
pub mod Encoding
pub mod Runs
pub mod Translation
use vibe_gba.Prelude.{ℕ, ◌/◌, ◌^◌, ltb, leb, ◌&&◌, ◌==◌, if◌then◌else◌}
use vibe_gba.Bus.Port.{Port}
use vibe_gba.Arm7tdmi.Cpu.{Cpu}
use vibe_gba.Arm7tdmi.Arm.{without_bus}
use Data.{
  thumb_shift_imm, thumb_add_sub_reg, thumb_add_sub_imm, thumb_mov_imm, thumb_cmp_imm,
  thumb_add_imm, thumb_sub_imm, thumb_alu, thumb_hi_reg_bx, thumb_load_address, thumb_add_sp,
  thumb_cond_branch, thumb_swi, thumb_branch, thumb_bl_prefix, thumb_bl_suffix, thumb_undefined,
}
use Transfer.{
  thumb_ldr_pc, thumb_load_store_reg, thumb_load_store_imm, thumb_load_store_half,
  thumb_load_store_sp, thumb_push, thumb_pop, thumb_stmia, thumb_ldmia,
}

-- Formats 1 to 5, `0x00..=0x47`.
unfoldable pub execute_low : ℕ → ℕ → Cpu → Cpu × ℕ
execute_low high opcode c =
    if ltb high 0x18
    then thumb_shift_imm opcode c
    else if ltb high 0x1c
    then thumb_add_sub_reg opcode c
    else if ltb high 0x20
    then thumb_add_sub_imm opcode c
    else if ltb high 0x28
    then thumb_mov_imm opcode c
    else if ltb high 0x30
    then thumb_cmp_imm opcode c
    else if ltb high 0x38
    then thumb_add_imm opcode c
    else if ltb high 0x40
    then thumb_sub_imm opcode c
    else if ltb high 0x44
    then thumb_alu opcode c
    else thumb_hi_reg_bx opcode c

module _ {S : Type 0} (port : Port S) where
  -- Formats 6 to 13, `0x48..=0xB0`.
  unfoldable pub execute_middle : ℕ → ℕ → Cpu → S → Cpu × S × ℕ
  unfolding without_bus
  execute_middle high opcode c bus =
      if ltb high 0x50
      then thumb_ldr_pc port opcode c bus
      else if ltb high 0x60
      then thumb_load_store_reg port opcode c bus
      else if ltb high 0x80
      then thumb_load_store_imm port opcode c bus
      else if ltb high 0x90
      then thumb_load_store_half port opcode c bus
      else if ltb high 0xa0
      then thumb_load_store_sp port opcode c bus
      else if ltb high 0xb0
      then without_bus (thumb_load_address opcode c) bus
      else without_bus (thumb_add_sp opcode c) bus

  -- Formats 14 to 19 and the opcodes of no format, `0xB1..=0xFF`.
  unfoldable pub execute_high : ℕ → ℕ → Cpu → S → Cpu × S × ℕ
  unfolding without_bus
  execute_high high opcode c bus =
      if leb 0xb4 high && leb high 0xb5
      then thumb_push port opcode c bus
      else if leb 0xbc high && leb high 0xbd
      then thumb_pop port opcode c bus
      else if leb 0xc0 high && leb high 0xc7
      then thumb_stmia port opcode c bus
      else if leb 0xc8 high && leb high 0xcf
      then thumb_ldmia port opcode c bus
      else if leb 0xd0 high && leb high 0xdd
      then without_bus (thumb_cond_branch opcode c) bus
      else if high == 0xdf
      then without_bus (thumb_swi opcode c) bus
      else if leb 0xe0 high && leb high 0xe7
      then without_bus (thumb_branch opcode c) bus
      else if leb 0xf0 high && leb high 0xf7
      then without_bus (thumb_bl_prefix opcode c) bus
      else if leb 0xf8 high
      then without_bus (thumb_bl_suffix opcode c) bus
      else without_bus (thumb_undefined c) bus

  unfoldable pub execute_thumb : ℕ → Cpu → S → Cpu × S × ℕ
  unfolding execute_low execute_middle execute_high without_bus
  execute_thumb opcode c bus =
      let high = opcode / 2 ^ 8 in
      if ltb high 0x48
      then without_bus (execute_low high opcode c) bus
      else if ltb high 0xb1
      then execute_middle high opcode c bus
      else execute_high high opcode c bus
