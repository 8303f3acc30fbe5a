-- ===== src/Arm7tdmi/Confined/Thumb.antt =====
-- The THUMB instructions, which are confined in every mode.
use vibe_gba.Prelude.{
  ℕ, ◌*◌, ◌%◌, ◌^◌, ◌==◌, arith, Bool, true, false, not, if◌then◌else◌, bit_and, bit_or, bit_xor,
  ltb, get_or, Bool-cases, inl, inr,
}
use vibe_gba.Prelude.Bits.{bit_set, not32}
use vibe_gba.Arm7tdmi.Alu.{lsl, lsr, asr, ror, add_with_carry, sub_with_carry}
use vibe_gba.Arm7tdmi.Psr
use vibe_gba.Arm7tdmi.Psr.{Psr, set_c, set_v, set_nz, check_condition}
use vibe_gba.Arm7tdmi.Cpu.{Cpu, branch, reg}
use vibe_gba.Bus.Port.{Port}
use vibe_gba.Arm7tdmi.Loops.{for_each}
use vibe_gba.Arm7tdmi.Arm.Data.{field, put}
use vibe_gba.Arm7tdmi.Arm.Transfer.{Walk}
use vibe_gba.Arm7tdmi.Thumb.{execute_low}
use vibe_gba.Arm7tdmi.Thumb.Data.{
  flag_nz, flag_nzc, flag_nzcv, keep_nz, keep_nzc, keep_nzcv, shift_by, alu_op, put_or_branch,
  thumb_shift_imm, thumb_add_sub_reg, thumb_add_sub_imm, thumb_mov_imm, thumb_cmp_imm,
  thumb_add_imm, thumb_sub_imm, thumb_alu, thumb_hi_reg_bx, thumb_cond_branch,
}
use vibe_gba.Arm7tdmi.Thumb.Transfer.{
  load_step, thumb_ldr_pc, thumb_load_store_reg, thumb_load_store_imm, thumb_load_store_half,
  thumb_load_store_sp, thumb_push, thumb_pop, thumb_stmia, thumb_ldmia,
}
use vibe_gba.Arm7tdmi.Confined.{
  IsConfined, still, of_same, then_, put-IsConfined, branch-IsConfined, if-IsConfined,
  set_nz-IsSameControl, set_c-IsSameControl, set_v-IsSameControl, trans_control, with_cpsr,
  branch_exchange-IsConfined, for_each-IsConfined,
}
use vibe_gba.Arm7tdmi.Confined.Arm.{either-IsConfined}

flag_nz-IsConfined : (v : ℕ) (c : Cpu) → IsConfined c (flag_nz v c)
unfolding flag_nz
flag_nz-IsConfined v c = with_cpsr (set_nz v c.cpsr) (still c) (set_nz-IsSameControl v c.cpsr)

flag_nzc-IsConfined : (out : ℕ × Bool) (c : Cpu) → IsConfined c (flag_nzc out c)
unfolding flag_nzc
flag_nzc-IsConfined (v, carry) c =
    let p = set_nz v c.cpsr in
    with_cpsr (set_c carry p) (still c) (
      trans_control c.cpsr p (set_c carry p) (set_nz-IsSameControl v c.cpsr)
        (set_c-IsSameControl carry p))

flag_nzcv-IsConfined : (out : ℕ × Bool × Bool) (c : Cpu) → IsConfined c (flag_nzcv out c)
unfolding flag_nzcv
flag_nzcv-IsConfined (v, carry, overflow) c =
    let p = set_nz v c.cpsr in
    let q = set_c carry p in
    with_cpsr (set_v overflow q) (still c) (
      trans_control c.cpsr q (set_v overflow q)
        (trans_control c.cpsr p q (set_nz-IsSameControl v c.cpsr) (set_c-IsSameControl carry p))
        (set_v-IsSameControl overflow q))

keep_nz-IsConfined : (rd v : ℕ) (c : Cpu) → IsConfined c (keep_nz rd v c)
unfolding keep_nz
keep_nz-IsConfined rd v c = then_ (put-IsConfined rd v c) (flag_nz-IsConfined v (put rd v c))

keep_nzc-IsConfined : (rd : ℕ) (out : ℕ × Bool) (c : Cpu) → IsConfined c (keep_nzc rd out c)
unfolding keep_nzc
keep_nzc-IsConfined rd out c =
    then_ (put-IsConfined rd out.0 c) (flag_nzc-IsConfined out (put rd out.0 c))

keep_nzcv-IsConfined :
    (rd : ℕ) (out : ℕ × Bool × Bool) (c : Cpu) → IsConfined c (keep_nzcv rd out c)
unfolding keep_nzcv
keep_nzcv-IsConfined rd out c =
    then_ (put-IsConfined rd out.0 c) (flag_nzcv-IsConfined out (put rd out.0 c))

put_or_branch-IsConfined : (rd v : ℕ) (c : Cpu) → IsConfined c (put_or_branch rd v c)
unfolding put_or_branch
put_or_branch-IsConfined rd v c =
    if-IsConfined (rd == 15) _ _ (branch-IsConfined _ c) (put-IsConfined rd v c)

-- A chain of tests on the operation: the next case, or the rest.
alu_op-IsConfined : (op rd a b : ℕ) (c : Cpu) → IsConfined c (alu_op op rd a b c)
unfolding alu_op
alu_op-IsConfined op rd a b c =
    if-IsConfined (op == 0x0) _ _ (keep_nz-IsConfined rd (bit_and a b) c) (
      if-IsConfined (op == 0x1) _ _ (keep_nz-IsConfined rd (bit_xor a b) c) (
        if-IsConfined (op == 0x2) _ _ (keep_nzc-IsConfined rd (shift_by lsl a b c) c) (
          if-IsConfined (op == 0x3) _ _ (keep_nzc-IsConfined rd (shift_by lsr a b c) c) (
            if-IsConfined (op == 0x4) _ _ (keep_nzc-IsConfined rd (shift_by asr a b c) c) (
              if-IsConfined (op == 0x5) _ _
                (keep_nzcv-IsConfined rd (add_with_carry a b (Psr.c c.cpsr)) c)
                (if-IsConfined (op == 0x6) _ _
                  (keep_nzcv-IsConfined rd (sub_with_carry a b (Psr.c c.cpsr)) c)
                  (if-IsConfined (op == 0x7) _ _ (keep_nzc-IsConfined rd (shift_by ror a b c) c) (
                    if-IsConfined (op == 0x8) _ _ (flag_nz-IsConfined (bit_and a b) c) (
                      if-IsConfined (op == 0x9) _ _
                        (keep_nzcv-IsConfined rd (sub_with_carry 0 b true) c)
                        (if-IsConfined (op == 0xa) _ _
                          (flag_nzcv-IsConfined (sub_with_carry a b true) c)
                          (if-IsConfined (op == 0xb) _ _
                            (flag_nzcv-IsConfined (add_with_carry a b false) c)
                            (if-IsConfined (op == 0xc) _ _ (keep_nz-IsConfined rd (bit_or a b) c) (
                              if-IsConfined (op == 0xd) _ _
                                (keep_nz-IsConfined rd (a * b % 2 ^ 32) c)
                                (if-IsConfined (op == 0xe) _ _
                                  (keep_nz-IsConfined rd (bit_and a (not32 b)) c)
                                  (keep_nz-IsConfined rd (not32 b) c)))))))))))))))

thumb_hi_reg_bx-IsConfined : (opcode : ℕ) (c : Cpu) → IsConfined c (thumb_hi_reg_bx opcode c).0
unfolding thumb_hi_reg_bx
thumb_hi_reg_bx-IsConfined opcode c =
    if-IsConfined (field 8 2 opcode == 0) _ _ (put_or_branch-IsConfined _ _ c) (
      if-IsConfined (field 8 2 opcode == 1) _ _ (flag_nzcv-IsConfined _ c) (
        if-IsConfined (field 8 2 opcode == 2) _ _ (put_or_branch-IsConfined _ _ c)
          (branch_exchange-IsConfined _ c)))

pub thumb_cond_branch-IsConfined :
    (opcode : ℕ) (c : Cpu) → IsConfined c (thumb_cond_branch opcode c).0
unfolding thumb_cond_branch branch
thumb_cond_branch-IsConfined opcode c = of_same (ground arith) (ground arith)

thumb_alu-IsConfined : (opcode : ℕ) (c : Cpu) → IsConfined c (thumb_alu opcode c).0
unfolding thumb_alu
thumb_alu-IsConfined opcode c =
    let rd = field 0 3 opcode in
    alu_op-IsConfined (field 6 4 opcode) rd (reg rd c) (reg (field 3 3 opcode) c) c

-- The same as `if-IsConfined` for a result with its cycles.
alone :
    {c : Cpu} (b : Bool) (x y : Cpu × ℕ)
    → IsConfined c x.0
    → IsConfined c y.0
    → IsConfined c (if b then x else y).0
alone true x y p q = p
alone false x y p q = q

pub execute_low-IsConfined :
    (high opcode : ℕ) (c : Cpu) → IsConfined c (execute_low high opcode c).0
unfolding execute_low thumb_shift_imm thumb_add_sub_reg thumb_add_sub_imm thumb_mov_imm
    thumb_cmp_imm thumb_add_imm thumb_sub_imm
execute_low-IsConfined high opcode c =
    alone (ltb high 0x18) (thumb_shift_imm opcode c) _ (keep_nzc-IsConfined _ _ c) (
      alone (ltb high 0x1c) (thumb_add_sub_reg opcode c) _ (keep_nzcv-IsConfined _ _ c) (
        alone (ltb high 0x20) (thumb_add_sub_imm opcode c) _ (keep_nzcv-IsConfined _ _ c) (
          alone (ltb high 0x28) (thumb_mov_imm opcode c) _ (keep_nz-IsConfined _ _ c) (
            alone (ltb high 0x30) (thumb_cmp_imm opcode c) _ (flag_nzcv-IsConfined _ c) (
              alone (ltb high 0x38) (thumb_add_imm opcode c) _ (keep_nzcv-IsConfined _ _ c) (
                alone (ltb high 0x40) (thumb_sub_imm opcode c) _ (keep_nzcv-IsConfined _ _ c) (
                  alone (ltb high 0x44) (thumb_alu opcode c) (thumb_hi_reg_bx opcode c)
                    (thumb_alu-IsConfined opcode c) (thumb_hi_reg_bx-IsConfined opcode c))))))))

load_step-IsConfined :
    {S : Type 0} (port : Port S) (rlist : ℕ) (c : Cpu) (i : ℕ) (t : Walk S)
    → IsConfined c t.cpu
    → IsConfined c (load_step port rlist i t).cpu
unfolding load_step
load_step-IsConfined port rlist c i t h = elim (Bool-cases (bit_set rlist i)) [
  | inl e ↦ rw e (then_ h (put-IsConfined i _ t.cpu))
  | inr e ↦ rw e h
]

module _ {S : Type 0} (port : Port S) (opcode : ℕ) (c : Cpu) (bus : S) where
  pub thumb_ldr_pc-IsConfined : IsConfined c (thumb_ldr_pc port opcode c bus).0
  unfolding thumb_ldr_pc
  thumb_ldr_pc-IsConfined = put-IsConfined _ _ c

  pub thumb_load_store_reg-IsConfined : IsConfined c (thumb_load_store_reg port opcode c bus).0
  unfolding thumb_load_store_reg put
  thumb_load_store_reg-IsConfined = of_same (ground arith) (ground arith)

  pub thumb_load_store_imm-IsConfined : IsConfined c (thumb_load_store_imm port opcode c bus).0
  unfolding thumb_load_store_imm put
  thumb_load_store_imm-IsConfined = of_same (ground arith) (ground arith)

  pub thumb_load_store_half-IsConfined : IsConfined c (thumb_load_store_half port opcode c bus).0
  unfolding thumb_load_store_half put
  thumb_load_store_half-IsConfined = of_same (ground arith) (ground arith)

  pub thumb_load_store_sp-IsConfined : IsConfined c (thumb_load_store_sp port opcode c bus).0
  unfolding thumb_load_store_sp put
  thumb_load_store_sp-IsConfined = of_same (ground arith) (ground arith)

  pub thumb_push-IsConfined : IsConfined c (thumb_push port opcode c bus).0
  unfolding thumb_push
  thumb_push-IsConfined = put-IsConfined 13 _ c

  loaded :
      (rlist addr : ℕ)
      → IsConfined c
          (for_each 0 8 (load_step port rlist) (record { addr = addr; cpu = c; bus = bus })).cpu
  loaded rlist addr =
      for_each-IsConfined (λ (t : Walk S). t.cpu) c (load_step port rlist)
        (load_step-IsConfined port rlist c) 0 8 (record { addr = addr; cpu = c; bus = bus })
        (still c)

  pub thumb_pop-IsConfined : IsConfined c (thumb_pop port opcode c bus).0
  unfolding thumb_pop
  thumb_pop-IsConfined =
      let l = loaded (opcode % 2 ^ 8) (get_or c.regs 13 0) in
      either-IsConfined c (bit_set opcode 8) _ _
        (then_ l (then_ (branch-IsConfined _ _) (put-IsConfined 13 _ _)))
        (then_ l (put-IsConfined 13 _ _))

  pub thumb_stmia-IsConfined : IsConfined c (thumb_stmia port opcode c bus).0
  unfolding thumb_stmia
  thumb_stmia-IsConfined =
      either-IsConfined c (opcode % 2 ^ 8 == 0) _ _ (put-IsConfined _ _ c) (put-IsConfined _ _ c)

  pub thumb_ldmia-IsConfined : IsConfined c (thumb_ldmia port opcode c bus).0
  unfolding thumb_ldmia
  thumb_ldmia-IsConfined =
      let l = loaded (opcode % 2 ^ 8) (reg (field 8 3 opcode) c) in
      either-IsConfined c (opcode % 2 ^ 8 == 0) _ _
        (then_ (put-IsConfined _ _ c) (branch-IsConfined _ _))
        (if-IsConfined (not (bit_set (opcode % 2 ^ 8) (field 8 3 opcode))) _ _
          (then_ l (put-IsConfined _ _ _)) l)
