-- ===== src/Arm7tdmi/Thumb/Translation/Operations.antt =====
-- The instructions with an immediate operand, and the sixteen operations of format 4.
use vibe_gba.Prelude.{
  ℕ, ◌*◌, ◌%◌, ◌^◌, ◌<◌, ◌≡◌, refl, sym, arith, true, false, ◌==◌, if◌then◌else◌, Bool-cases, inl,
  inr,
}
use vibe_gba.Prelude.Bits.{bit_set, not32}
use vibe_gba.Bus.Port.{Port}
use vibe_gba.Arm7tdmi.Alu.{
  shift_type_from_u8, alu_op_from_u8, is_test, is_logical, and_op, eor, sub, rsb, add, adc, sbc,
  tst, cmp, cmn, orr, mov, bic, mvn, add_with_carry, sub_with_carry,
}
use vibe_gba.Arm7tdmi.Psr
use vibe_gba.Arm7tdmi.Psr.Bits.{IsWord}
use vibe_gba.Arm7tdmi.Cpu.{Cpu, reg}
use vibe_gba.Arm7tdmi.Arm.Data.{field, alu}
use vibe_gba.Arm7tdmi.Thumb.Data.{
  thumb_add_sub_imm, add_or_sub, thumb_mov_imm, thumb_cmp_imm, thumb_add_imm, thumb_sub_imm, alu_op,
  shift_by, keep_nz, keep_nzc, keep_nzcv,
}
use vibe_gba.Arm7tdmi.Thumb.Encoding.{arm_register, arm_immediate, arm_shift_by}
use vibe_gba.Arm7tdmi.Thumb.Runs.{
  retired, runs_immediate, runs_register, runs_shift_by, runs_multiply, arm_multiplication,
}
use vibe_gba.Arm7tdmi.Thumb.Translation.{
  Agrees, by_run, either, keeps_nzcv, keeps_nzc, flags_nzcv, logical, tested, low,
}

-- The ARM instruction of each operation of format 4 on two low registers.
unfoldable pub arm_operation : ℕ → ℕ → ℕ → ℕ
arm_operation rd rs op =
    if op == 0x0
    then arm_register 0 rd rd rs
    else if op == 0x1
    then arm_register 1 rd rd rs
    else if op == 0x2
    then arm_shift_by 0 rd rd rs
    else if op == 0x3
    then arm_shift_by 1 rd rd rs
    else if op == 0x4
    then arm_shift_by 2 rd rd rs
    else if op == 0x5
    then arm_register 5 rd rd rs
    else if op == 0x6
    then arm_register 6 rd rd rs
    else if op == 0x7
    then arm_shift_by 3 rd rd rs
    else if op == 0x8
    then arm_register 8 rd 0 rs
    else if op == 0x9
    then arm_immediate 3 rs rd 0
    else if op == 0xa
    then arm_register 10 rd 0 rs
    else if op == 0xb
    then arm_register 11 rd 0 rs
    else if op == 0xc
    then arm_register 12 rd rd rs
    else if op == 0xd
    then arm_multiplication rd rs rd
    else if op == 0xe
    then arm_register 14 rd rd rs
    else arm_register 15 0 rd rs

module _ {S : Type 0} (port : Port S) (c : Cpu) (bus : S) where
  -- Arithmetic on a register and a byte.
  add_immediate :
      (rn rd x : ℕ)
      → rn < 8
      → rd < 8
      → x < 256
      → Agrees port c bus
          (keep_nzcv rd (add_with_carry (reg rn c) x false) c)
          (arm_immediate 4 rn rd x)
  unfolding alu_op_from_u8 alu is_test is_logical
  add_immediate rn rd x hn hd h =
      by_run port c bus _ _ _ 1 (runs_immediate port c bus 4 rn rd (omega arith) hn hd x h)
        (sym (keeps_nzcv rd c (low rd hd) add _ refl refl))

  sub_immediate :
      (rn rd x : ℕ)
      → rn < 8
      → rd < 8
      → x < 256
      → Agrees port c bus
          (keep_nzcv rd (sub_with_carry (reg rn c) x true) c)
          (arm_immediate 2 rn rd x)
  unfolding alu_op_from_u8 alu is_test is_logical
  sub_immediate rn rd x hn hd h =
      by_run port c bus _ _ _ 1 (runs_immediate port c bus 2 rn rd (omega arith) hn hd x h)
        (sym (keeps_nzcv rd c (low rd hd) sub _ refl refl))

  pub thumb_add_sub_imm-Agrees :
      (opcode : ℕ)
      → Agrees port c bus (thumb_add_sub_imm opcode c).0 (
          arm_immediate
            (if bit_set opcode 9 then 2 else 4)
            (field 3 3 opcode)
            (field 0 3 opcode)
            (field 6 3 opcode))
  unfolding thumb_add_sub_imm add_or_sub
  thumb_add_sub_imm-Agrees opcode = elim (Bool-cases (bit_set opcode 9)) [
    | inl e ↦ rw e (sub_immediate _ _ _ (omega arith) (omega arith) (omega arith))
    | inr e ↦ rw e (add_immediate _ _ _ (omega arith) (omega arith) (omega arith))
  ]

  module _ (opcode : ℕ) where
    pub thumb_mov_imm-Agrees :
        IsWord c.cpsr
        → Agrees port c bus
            (thumb_mov_imm opcode c).0
            (arm_immediate 13 0 (field 8 3 opcode) (opcode % 2 ^ 8))
    unfolding thumb_mov_imm alu_op_from_u8 alu is_test is_logical
    thumb_mov_imm-Agrees w =
        let rd = field 8 3 opcode in
        by_run port c bus _ _ _ 1
          (runs_immediate port c bus 13 0 rd (omega arith) (omega arith) (omega arith)
            (opcode % 2 ^ 8) (omega arith))
          (logical rd c (low rd (omega arith)) w mov _ _ refl refl)

    pub thumb_cmp_imm-Agrees :
        Agrees port c bus
          (thumb_cmp_imm opcode c).0
          (arm_immediate 10 (field 8 3 opcode) 0 (opcode % 2 ^ 8))
    unfolding thumb_cmp_imm alu_op_from_u8 alu is_test is_logical
    thumb_cmp_imm-Agrees =
        let rd = field 8 3 opcode in
        by_run port c bus _ _ _ 1
          (runs_immediate port c bus 10 rd 0 (omega arith) (omega arith) (omega arith)
            (opcode % 2 ^ 8) (omega arith))
          (sym (flags_nzcv 0 c refl cmp _ refl refl))

    pub thumb_add_imm-Agrees :
        Agrees port c bus
          (thumb_add_imm opcode c).0
          (arm_immediate 4 (field 8 3 opcode) (field 8 3 opcode) (opcode % 2 ^ 8))
    unfolding thumb_add_imm
    thumb_add_imm-Agrees = add_immediate _ _ _ (omega arith) (omega arith) (omega arith)

    pub thumb_sub_imm-Agrees :
        Agrees port c bus
          (thumb_sub_imm opcode c).0
          (arm_immediate 2 (field 8 3 opcode) (field 8 3 opcode) (opcode % 2 ^ 8))
    unfolding thumb_sub_imm
    thumb_sub_imm-Agrees = sub_immediate _ _ _ (omega arith) (omega arith) (omega arith)

  -- The operations of format 4 on two low registers.
  module _ (rd rs : ℕ) (hd : rd < 8) (hs : rs < 8) where
    two :
        (k dest : ℕ) (d : Cpu)
        → k < 16
        → dest < 8
        → d ≡ retired k rd dest (reg rs c, Psr.c c.cpsr) c
        → Agrees port c bus d (arm_register k rd dest rs)
    two k dest d hk h e =
        by_run port c bus d _ _ 1 (runs_register port c bus k rd dest hk hd h rs hs) e

    shifted :
        (kind : ℕ)
        → kind < 4
        → Agrees port c bus
            (keep_nzc rd (shift_by (shift_type_from_u8 kind) (reg rd c) (reg rs c) c) c)
            (arm_shift_by kind rd rd rs)
    unfolding shift_by alu_op_from_u8 alu is_test is_logical
    shifted kind h =
        by_run port c bus _ _ _ 2 (runs_shift_by port c bus kind rd rd rs h hd hd hs)
          (sym (keeps_nzc rd c (low rd hd) mov _ refl refl))

    module _ (w : IsWord c.cpsr) where
      multiplied :
          Agrees port c bus
            (keep_nz rd (reg rd c * reg rs c % 2 ^ 32) c)
            (arm_multiplication rd rs rd)
      unfolding keep_nz
      multiplied = by_run port c bus _ _ _ 4 (runs_multiply port c bus rd rs rd hd hs hd) refl

      negated :
          Agrees port c bus
            (keep_nzcv rd (sub_with_carry 0 (reg rs c) true) c)
            (arm_immediate 3 rs rd 0)
      unfolding alu_op_from_u8 alu is_test is_logical
      negated =
          by_run port c bus _ _ _ 1
            (runs_immediate port c bus 3 rs rd (omega arith) hs hd 0 (omega arith))
            (sym (keeps_nzcv rd c (low rd hd) rsb _ refl refl))

      inverted : Agrees port c bus (keep_nz rd (not32 (reg rs c)) c) (arm_register 15 0 rd rs)
      unfolding alu_op_from_u8 alu is_test is_logical
      inverted =
          by_run port c bus _ _ _ 1
            (runs_register port c bus 15 0 rd (omega arith) (omega arith) hd rs hs)
            (logical rd c (low rd hd) w mvn _ _ refl refl)

      pub alu_op-Agrees :
          (op : ℕ)
          → Agrees port c bus (alu_op op rd (reg rd c) (reg rs c) c) (arm_operation rd rs op)
      unfolding alu_op arm_operation alu_op_from_u8 alu is_test is_logical shift_type_from_u8
      alu_op-Agrees op =
          either port c bus (op == 0x0) _ _ _ _
            (λ _. two 0 rd _ (omega arith) hd (logical rd c (low rd hd) w and_op _ _ refl refl))
            (λ _.
              either port c bus (op == 0x1) _ _ _ _
                (λ _. two 1 rd _ (omega arith) hd (logical rd c (low rd hd) w eor _ _ refl refl))
                (λ _.
                  either port c bus (op == 0x2) _ _ _ _ (λ _. shifted 0 (omega arith))
                    (λ _.
                      either port c bus (op == 0x3) _ _ _ _ (λ _. shifted 1 (omega arith))
                        (λ _.
                          either port c bus (op == 0x4) _ _ _ _ (λ _. shifted 2 (omega arith))
                            (λ _.
                              either port c bus (op == 0x5) _ _ _ _
                                (λ _.
                                  two 5 rd _ (omega arith) hd
                                    (sym (keeps_nzcv rd c (low rd hd) adc _ refl refl)))
                                (λ _.
                                  either port c bus (op == 0x6) _ _ _ _
                                    (λ _.
                                      two 6 rd _ (omega arith) hd
                                        (sym (keeps_nzcv rd c (low rd hd) sbc _ refl refl)))
                                    (λ _.
                                      either port c bus (op == 0x7) _ _ _ _
                                        (λ _. shifted 3 (omega arith))
                                        (λ _.
                                          either port c bus (op == 0x8) _ _ _ _
                                            (λ _.
                                              two 8 0 _ (omega arith) (omega arith)
                                                (tested 0 c refl w tst _ _ refl refl))
                                            (λ _.
                                              either port c bus (op == 0x9) _ _ _ _ (λ _. negated)
                                                (λ _.
                                                  either port c bus (op == 0xa) _ _ _ _
                                                    (λ _.
                                                      two 10 0 _ (omega arith) (omega arith)
                                                        (sym (flags_nzcv 0 c refl cmp _ refl refl)))
                                                    (λ _.
                                                      either port c bus (op == 0xb) _ _ _ _
                                                        (λ _.
                                                          two 11 0 _ (omega arith) (omega arith) (
                                                            sym
                                                            (flags_nzcv 0 c refl cmn _ refl refl)))
                                                        (λ _.
                                                          either port c bus (op == 0xc) _ _ _ _
                                                            (λ _. two 12 rd _ (omega arith) hd (
                                                            logical rd c (low rd hd) w orr _ _ refl
                                                            refl))
                                                            (λ _.
                                                            either port c bus (op == 0xd) _ _ _ _
                                                            (λ _. multiplied)
                                                            (λ _.
                                                            either port c bus (op == 0xe) _ _ _ _
                                                            (λ _. two 14 rd _ (omega arith) hd (
                                                            logical rd c (low rd hd) w bic _ _ refl
                                                            refl))
                                                            (λ _. inverted)))))))))))))))
