-- ===== src/Arm7tdmi/Thumb/Translation/Whole.antt =====
-- The formats 1 to 4 as a whole.
use vibe_gba.Prelude.{
  ℕ, ◌/◌, ◌%◌, ◌^◌, ◌<◌, ◌≡◌, refl, arith, Bool, true, false, if◌then◌else◌, ltb, lt→ltb,
}
use vibe_gba.Prelude.Bits.{bit_set}
use vibe_gba.Bus.Port.{Port}
use vibe_gba.Arm7tdmi.Psr.Bits.{IsWord}
use vibe_gba.Arm7tdmi.Cpu.{Cpu}
use vibe_gba.Arm7tdmi.Arm.{execute_arm, without_bus}
use vibe_gba.Arm7tdmi.Arm.Data.{field}
use vibe_gba.Arm7tdmi.Thumb.{execute_low, execute_thumb}
use vibe_gba.Arm7tdmi.Thumb.Data.{thumb_alu}
use vibe_gba.Arm7tdmi.Thumb.Encoding.{arm_register, arm_immediate, arm_shift}
use vibe_gba.Arm7tdmi.Thumb.Translation.{Agrees, thumb_shift_imm-Agrees, thumb_add_sub_reg-Agrees}
use vibe_gba.Arm7tdmi.Thumb.Translation.Operations.{
  arm_operation, thumb_add_sub_imm-Agrees, thumb_mov_imm-Agrees, thumb_cmp_imm-Agrees,
  thumb_add_imm-Agrees, thumb_sub_imm-Agrees, alu_op-Agrees,
}

-- The ARM opcode for a THUMB opcode of the formats 1 to 4.
unfoldable pub arm_of : ℕ → ℕ
unfolding arm_operation
arm_of opcode =
    let high = opcode / 2 ^ 8 in
    let rd = field 0 3 opcode in
    let rs = field 3 3 opcode in
    let third = field 6 3 opcode in
    let wide = field 8 3 opcode in
    let byte = opcode % 2 ^ 8 in
    let add_or_sub = if bit_set opcode 9 then 2 else 4 in
    if ltb high 0x18
    then arm_shift (field 11 2 opcode) rd rs (field 6 5 opcode)
    else if ltb high 0x1c
    then arm_register add_or_sub rs rd third
    else if ltb high 0x20
    then arm_immediate add_or_sub rs rd third
    else if ltb high 0x28
    then arm_immediate 13 0 wide byte
    else if ltb high 0x30
    then arm_immediate 10 wide 0 byte
    else if ltb high 0x38
    then arm_immediate 4 wide wide byte
    else if ltb high 0x40
    then arm_immediate 2 wide wide byte
    else arm_operation rd rs (field 6 4 opcode)

module _ {S : Type 0} (port : Port S) (c : Cpu) (bus : S) where
  split :
      (b : Bool) (d e : Cpu × ℕ) (x y : ℕ)
      → (b ≡ true → Agrees port c bus d.0 x)
      → (b ≡ false → Agrees port c bus e.0 y)
      → Agrees port c bus (if b then d else e).0 (if b then x else y)
  split true d e x y p q = p refl
  split false d e x y p q = q refl

  thumb_alu-Agrees :
      IsWord c.cpsr
      → (opcode : ℕ)
      → Agrees port c bus
          (thumb_alu opcode c).0
          (arm_operation (field 0 3 opcode) (field 3 3 opcode) (field 6 4 opcode))
  unfolding thumb_alu
  thumb_alu-Agrees w opcode =
      alu_op-Agrees port c bus (field 0 3 opcode) (field 3 3 opcode) (omega arith) (omega arith) w
        (field 6 4 opcode)

  execute_low-Agrees :
      IsWord c.cpsr
      → (opcode : ℕ) → opcode < 0x4400
      → Agrees port c bus (execute_low (opcode / 2 ^ 8) opcode c).0 (arm_of opcode)
  unfolding execute_low arm_of
  execute_low-Agrees w opcode h =
      let high = opcode / 2 ^ 8 in
      split (ltb high 0x18) _ _ _ _ (λ e. thumb_shift_imm-Agrees port c bus opcode (ground arith))
        (λ _.
          split (ltb high 0x1c) _ _ _ _ (λ _. thumb_add_sub_reg-Agrees port c bus opcode)
            (λ _.
              split (ltb high 0x20) _ _ _ _ (λ _. thumb_add_sub_imm-Agrees port c bus opcode)
                (λ _.
                  split (ltb high 0x28) _ _ _ _ (λ _. thumb_mov_imm-Agrees port c bus opcode w)
                    (λ _.
                      split (ltb high 0x30) _ _ _ _ (λ _. thumb_cmp_imm-Agrees port c bus opcode)
                        (λ _.
                          split (ltb high 0x38) _ _ _ _
                            (λ _. thumb_add_imm-Agrees port c bus opcode)
                            (λ _.
                              split (ltb high 0x40) _ _ _ _
                                (λ _. thumb_sub_imm-Agrees port c bus opcode)
                                (λ _.
                                  rw (lt→ltb high 0x44 (omega arith))
                                    (thumb_alu-Agrees w opcode))))))))

  -- A THUMB opcode below 0x4400, formats 1 to 4, does to the processor and the bus what the ARM
  -- opcode for it does, if the status word is a 32-bit word.
  pub execute_thumb-execute_arm :
      IsWord c.cpsr
      → (opcode : ℕ) → opcode < 0x4400
      → ((execute_thumb port opcode c bus).0 ≡ (execute_arm port (arm_of opcode) c bus).0)
        × ((execute_thumb port opcode c bus).1 ≡ (execute_arm port (arm_of opcode) c bus).1)
  unfolding execute_thumb without_bus
  execute_thumb-execute_arm w opcode h =
      rw (lt→ltb (opcode / 2 ^ 8) 0x48 (omega arith)) (execute_low-Agrees w opcode h)
