-- ===== src/Arm7tdmi/Confined/Decode.antt =====
-- Whatever the opcode, an instruction in User mode is confined.
use vibe_gba.Prelude.{
  ℕ, ◌≡◌, refl, ◌/◌, ◌^◌, ◌==◌, Bool, true, false, ◌&&◌, if◌then◌else◌, bit_and, ltb, leb,
}
use vibe_gba.Prelude.Bits.{bit_set}
use vibe_gba.Arm7tdmi.Psr.{user}
use vibe_gba.Arm7tdmi.Cpu.{Cpu, current_mode}
use vibe_gba.Bus.Port.{Port}
use vibe_gba.Arm7tdmi.Arm.{
  arm_branch, arm_branch_exchange, arm_swi, arm_undefined, without_bus, execute_multiply,
  execute_register, execute_arm,
}
use vibe_gba.Arm7tdmi.Arm.Data.{
  field, arm_data_processing, arm_multiply, arm_multiply_long, arm_mrs, arm_msr,
}
use vibe_gba.Arm7tdmi.Arm.Transfer.{
  arm_single_transfer, arm_halfword_transfer, arm_block_transfer, arm_swap,
}
use vibe_gba.Arm7tdmi.Thumb.{execute_low, execute_middle, execute_high, execute_thumb}
use vibe_gba.Arm7tdmi.Thumb.Data.{
  thumb_load_address, thumb_add_sp, thumb_cond_branch, thumb_swi, thumb_branch, thumb_bl_prefix,
  thumb_bl_suffix, thumb_undefined,
}
use vibe_gba.Arm7tdmi.Thumb.Transfer.{
  thumb_ldr_pc, thumb_load_store_reg, thumb_load_store_imm, thumb_load_store_half,
  thumb_load_store_sp, thumb_push, thumb_pop, thumb_stmia, thumb_ldmia,
}
use vibe_gba.Arm7tdmi.Confined.Thumb.{
  execute_low-IsConfined, thumb_cond_branch-IsConfined, thumb_ldr_pc-IsConfined,
  thumb_load_store_reg-IsConfined, thumb_load_store_imm-IsConfined,
  thumb_load_store_half-IsConfined, thumb_load_store_sp-IsConfined, thumb_push-IsConfined,
  thumb_pop-IsConfined, thumb_stmia-IsConfined, thumb_ldmia-IsConfined,
}
use vibe_gba.Arm7tdmi.Confined.{
  put-IsConfined, branch-IsConfined, then_, IsConfined, still, of_same, branch_exchange-IsConfined,
}
use vibe_gba.Arm7tdmi.Confined.Arm.{
  arm_data_processing-IsConfined, arm_multiply-IsConfined, arm_multiply_long-IsConfined,
  arm_mrs-IsConfined, arm_msr-IsConfined, arm_branch-IsConfined, arm_single_transfer-IsConfined,
  arm_halfword_transfer-IsConfined, arm_swap-IsConfined, arm_block_transfer-IsConfined,
}

-- The processor that an instruction gives is confined.
pub record Confines (S : Type 0) (c : Cpu) (r : Cpu × S × ℕ) : Type 0 where
  pub confined : IsConfined c r.0

pub either :
    {S : Type 0} {c : Cpu} (b : Bool) {x y : Cpu × S × ℕ}
    → Confines S c x
    → Confines S c y
    → Confines S c (if b then x else y)
either true p q = p
either false p q = q

holds : {S : Type 0} {c : Cpu} (r : Cpu × S × ℕ) → IsConfined c r.0 → Confines S c r
holds r h = record { confined = h }

module _ {S : Type 0} (port : Port S) (c : Cpu) (u : current_mode c ≡ user) (opcode : ℕ)
    (bus : S) where
  alone : (r : Cpu × ℕ) → IsConfined c r.0 → Confines S c (without_bus r bus)
  unfolding without_bus
  alone r h = record { confined = h }

  undefined : Confines S c (without_bus (arm_undefined opcode c) bus)
  unfolding arm_undefined
  undefined = alone (arm_undefined opcode c) (still c)

  processing : Confines S c (without_bus (arm_data_processing opcode c) bus)
  processing = alone (arm_data_processing opcode c) (arm_data_processing-IsConfined c u opcode)

  status : Confines S c (without_bus (arm_msr opcode c) bus)
  status = alone (arm_msr opcode c) (arm_msr-IsConfined c u opcode)

  single : Confines S c (arm_single_transfer port opcode c bus)
  single =
      holds (arm_single_transfer port opcode c bus)
        (arm_single_transfer-IsConfined port opcode c bus)

  exchange : Confines S c (without_bus (arm_branch_exchange opcode c) bus)
  unfolding arm_branch_exchange
  exchange = alone (arm_branch_exchange opcode c) (branch_exchange-IsConfined _ c)

  software : Confines S c (without_bus (arm_swi opcode c) bus)
  unfolding arm_swi
  software = alone (arm_swi opcode c) (of_same refl refl)

  execute_multiply-Confines : Confines S c (execute_multiply port opcode c bus)
  unfolding execute_multiply
  execute_multiply-Confines =
      let bits_27_20 = field 20 8 opcode in
      either (field 4 4 opcode == 9)
        (either (bit_and bits_27_20 0xfc == 0)
          (alone (arm_multiply opcode c) (arm_multiply-IsConfined opcode c))
          (either (bit_and bits_27_20 0xf8 == 8)
            (alone (arm_multiply_long opcode c) (arm_multiply_long-IsConfined opcode c))
            (either (bit_and bits_27_20 0xfb == 0x10)
              (holds (arm_swap port opcode c bus) (arm_swap-IsConfined port opcode c bus))
              undefined)))
        (holds (arm_halfword_transfer port opcode c bus)
          (arm_halfword_transfer-IsConfined port opcode c bus))

  execute_register-Confines : Confines S c (execute_register port opcode c bus)
  unfolding execute_register
  execute_register-Confines =
      let bits_27_20 = field 20 8 opcode in
      let bits_7_4 = field 4 4 opcode in
      either (bits_27_20 == 0x12 && bits_7_4 == 1) exchange (
        either (bit_and bits_7_4 9 == 9 && bit_and bits_27_20 0xe0 == 0) execute_multiply-Confines (
          either (bit_and bits_27_20 0xfb == 0x10 && bits_7_4 == 0)
            (alone (arm_mrs opcode c) (arm_mrs-IsConfined opcode c))
            (either (bit_and bits_27_20 0xfb == 0x12 && bits_7_4 == 0) status processing)))

  pub execute_arm-Confines : Confines S c (execute_arm port opcode c bus)
  unfolding execute_arm
  execute_arm-Confines =
      let kind = field 25 3 opcode in
      either (kind == 0) execute_register-Confines (
        either (kind == 1) (either (bit_and (field 20 8 opcode) 0xfb == 0x32) status processing) (
          either (kind == 2) single (
            either (kind == 3) (either (bit_set opcode 4) undefined single) (
              either (kind == 4)
                (holds (arm_block_transfer port opcode c bus)
                  (arm_block_transfer-IsConfined port c u opcode bus))
                (either (kind == 5) (alone (arm_branch opcode c) (arm_branch-IsConfined opcode c))
                  (either (kind == 7 && field 24 4 opcode == 0xf) software undefined))))))

module _ {S : Type 0} (port : Port S) (c : Cpu) (opcode : ℕ) (bus : S) where
  execute_middle-Confines : (high : ℕ) → Confines S c (execute_middle port high opcode c bus)
  unfolding execute_middle thumb_load_address thumb_add_sp
  execute_middle-Confines high =
      either (ltb high 0x50)
        (holds (thumb_ldr_pc port opcode c bus) (thumb_ldr_pc-IsConfined port opcode c bus))
        (either (ltb high 0x60)
          (holds (thumb_load_store_reg port opcode c bus)
            (thumb_load_store_reg-IsConfined port opcode c bus))
          (either (ltb high 0x80)
            (holds (thumb_load_store_imm port opcode c bus)
              (thumb_load_store_imm-IsConfined port opcode c bus))
            (either (ltb high 0x90)
              (holds (thumb_load_store_half port opcode c bus)
                (thumb_load_store_half-IsConfined port opcode c bus))
              (either (ltb high 0xa0)
                (holds (thumb_load_store_sp port opcode c bus)
                  (thumb_load_store_sp-IsConfined port opcode c bus))
                (either (ltb high 0xb0)
                  (holds (without_bus (thumb_load_address opcode c) bus)
                    (unfold without_bus in put-IsConfined _ _ c))
                  (holds (without_bus (thumb_add_sp opcode c) bus)
                    (unfold without_bus in put-IsConfined _ _ c)))))))

  execute_high-Confines : (high : ℕ) → Confines S c (execute_high port high opcode c bus)
  unfolding execute_high
  execute_high-Confines high =
      either (leb 0xb4 high && leb high 0xb5)
        (holds (thumb_push port opcode c bus) (thumb_push-IsConfined port opcode c bus))
        (either (leb 0xbc high && leb high 0xbd)
          (holds (thumb_pop port opcode c bus) (thumb_pop-IsConfined port opcode c bus))
          (either (leb 0xc0 high && leb high 0xc7)
            (holds (thumb_stmia port opcode c bus) (thumb_stmia-IsConfined port opcode c bus))
            (either (leb 0xc8 high && leb high 0xcf)
              (holds (thumb_ldmia port opcode c bus) (thumb_ldmia-IsConfined port opcode c bus))
              (either (leb 0xd0 high && leb high 0xdd)
                (holds (without_bus (thumb_cond_branch opcode c) bus)
                  (unfold without_bus in thumb_cond_branch-IsConfined opcode c))
                (either (high == 0xdf)
                  (holds (without_bus (thumb_swi opcode c) bus)
                    (unfold without_bus thumb_swi in of_same refl refl))
                  (either (leb 0xe0 high && leb high 0xe7)
                    (holds (without_bus (thumb_branch opcode c) bus)
                      (unfold without_bus thumb_branch in branch-IsConfined _ c))
                    (either (leb 0xf0 high && leb high 0xf7)
                      (holds (without_bus (thumb_bl_prefix opcode c) bus)
                        (unfold without_bus thumb_bl_prefix in put-IsConfined 14 _ c))
                      (either (leb 0xf8 high)
                        (holds (without_bus (thumb_bl_suffix opcode c) bus) (
                          unfold without_bus thumb_bl_suffix in
                          then_ (put-IsConfined 14 _ c) (branch-IsConfined _ _)))
                        (holds (without_bus (thumb_undefined c) bus)
                          (unfold without_bus thumb_undefined in still c))))))))))

  pub execute_thumb-Confines : Confines S c (execute_thumb port opcode c bus)
  unfolding execute_thumb
  execute_thumb-Confines =
      let high = opcode / 2 ^ 8 in
      either (ltb high 0x48)
        (holds (without_bus (execute_low high opcode c) bus)
          (unfold without_bus in execute_low-IsConfined high opcode c))
        (either (ltb high 0xb1) (execute_middle-Confines high) (execute_high-Confines high))

-- Whatever an instruction of either set is, in User mode it leaves the mode, the interrupt masks
-- and the other low 24 bits of the status word but the state bit, and every bank of the other modes
-- with their saved status words, as they were.
pub user-IsConfined :
    {S : Type 0} (port : Port S) (c : Cpu)
    → current_mode c ≡ user
    → (opcode : ℕ) (bus : S)
    → IsConfined c (execute_arm port opcode c bus).0
      × IsConfined c (execute_thumb port opcode c bus).0
user-IsConfined port c u opcode bus = (
  (execute_arm-Confines port c u opcode bus).confined,
  (execute_thumb-Confines port c opcode bus).confined,
)
