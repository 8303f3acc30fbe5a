-- ===== src/Arm7tdmi/Thumb/Translation.antt =====
-- The THUMB instructions of the formats 1 to 4 are ARM data processing and multiplication.
pub mod Operations
pub mod Whole
use vibe_gba.Prelude.{
  ℕ, zero, suc, ◌+◌, ◌-◌, ◌*◌, ◌/◌, ◌%◌, ◌^◌, ◌≤◌, ◌<◌, ◌≡◌, refl, ap, sym, ◌∙◌, arith, Bool, true,
  false, not, ◌&&◌, ◌==◌, if◌then◌else◌, ltb, Bool-cases, inl, inr,
}
use vibe_gba.Prelude.Bits.{bit_set, bits_ext}
use vibe_gba.Bus.Port.{Port}
use vibe_gba.Arm7tdmi.Alu.{
  barrel_shift, shift_type_from_u8, AluOp, alu_op_from_u8, is_test, is_logical, mov, add, sub,
}
use vibe_gba.Arm7tdmi.Psr
use vibe_gba.Arm7tdmi.Psr.{Psr, set_bit, set_n, set_z, set_c, set_nz}
use vibe_gba.Arm7tdmi.Psr.Bits.{IsWord, set_bit-bit, set_bit-IsWord}
use vibe_gba.Arm7tdmi.Cpu.{Cpu, reg}
use vibe_gba.Arm7tdmi.Arm.{execute_arm}
use vibe_gba.Arm7tdmi.Arm.Data.{field, retire, alu}
use vibe_gba.Arm7tdmi.Thumb.{execute_thumb}
use vibe_gba.Arm7tdmi.Thumb.Data.{
  thumb_add_sub_reg, add_or_sub, thumb_shift_imm, shift_of, keep_nz, keep_nzc, keep_nzcv, flag_nz,
  flag_nzc, flag_nzcv,
}
use vibe_gba.Arm7tdmi.Thumb.Encoding.{arm_register, arm_immediate, arm_shift, arm_shift_by}
use vibe_gba.Arm7tdmi.Thumb.Runs.{
  retired, runs_immediate, runs_register, runs_shift, runs_shift_by, runs_multiply,
  arm_multiplication,
}

-- The carry written back leaves a status word as it is.
set_c-c : (p q : Psr) → IsWord p → bit_set p.bits 29 ≡ Psr.c q → set_c (Psr.c q) p ≡ p
unfolding set_c IsWord
set_c-c p q h e =
    ap (λ (bits : ℕ). record { bits = bits })
      (bits_ext 32 (set_bit 29 (Psr.c q) p).bits p.bits
        (set_bit-IsWord 29 (Psr.c q) p h (omega arith)) h
        (λ k l. set_bit-bit 29 k (Psr.c q) p (omega arith) l ∙ ground (arith, e)))

set_nz-keeps :
    (v : ℕ) (p : Psr)
    → IsWord p
    → IsWord (set_nz v p) × (bit_set (set_nz v p).bits 29 ≡ bit_set p.bits 29)
unfolding set_nz set_n set_z
set_nz-keeps v p h =
    let negative = not (v / 2 ^ 31 == 0) in
    let q = set_bit 31 negative p in
    (
      set_bit-IsWord 30 (v == 0) q (set_bit-IsWord 31 negative p h (omega arith)) (omega arith),
      set_bit-bit 30 29 (v == 0) q (omega arith) (omega arith)
          ∙ set_bit-bit 31 29 negative p (omega arith) (omega arith),
    )

module _ (rd : ℕ) (c : Cpu) (d15 : (rd == 15) ≡ false) where
  pub keeps_nzcv :
      (op : AluOp) (out : ℕ × Bool × Bool)
      → is_test op ≡ false
      → is_logical op ≡ false
      → retire op true rd out c ≡ keep_nzcv rd out c
  unfolding retire keep_nzcv
  keeps_nzcv op (v, cy, ov) t l = rw (d15, t, l) refl

  pub keeps_nzc :
      (op : AluOp) (out : ℕ × Bool × Bool)
      → is_test op ≡ false
      → is_logical op ≡ true
      → retire op true rd out c ≡ keep_nzc rd (out.0, out.1) c
  unfolding retire keep_nzc
  keeps_nzc op (v, cy, ov) t l = rw (d15, t, l) refl

  pub flags_nzcv :
      (op : AluOp) (out : ℕ × Bool × Bool)
      → is_test op ≡ true
      → is_logical op ≡ false
      → retire op true rd out c ≡ flag_nzcv out c
  unfolding retire flag_nzcv
  flags_nzcv op (v, cy, ov) t l = rw (d15, t, l) refl

  pub flags_nzc :
      (op : AluOp) (out : ℕ × Bool × Bool)
      → is_test op ≡ true
      → is_logical op ≡ true
      → retire op true rd out c ≡ flag_nzc (out.0, out.1) c
  unfolding retire flag_nzc
  flags_nzc op (v, cy, ov) t l = rw (d15, t, l) refl

  module _ (w : IsWord c.cpsr) (v : ℕ) where
    carry_kept : set_c (Psr.c c.cpsr) (set_nz v c.cpsr) ≡ set_nz v c.cpsr
    carry_kept =
        let keeps = set_nz-keeps v c.cpsr w in
        set_c-c (set_nz v c.cpsr) c.cpsr keeps.0 (keeps.1 ∙ unfold Psr.c in refl)

    keep_nz-carry : keep_nz rd v c ≡ keep_nzc rd (v, Psr.c c.cpsr) c
    unfolding keep_nz keep_nzc
    keep_nz-carry = rw carry_kept refl

    flag_nz-carry : flag_nz v c ≡ flag_nzc (v, Psr.c c.cpsr) c
    unfolding flag_nz flag_nzc
    flag_nz-carry = rw carry_kept refl

  pub logical :
      IsWord c.cpsr
      → (op : AluOp) (v : ℕ) (ov : Bool) → is_test op ≡ false
      → is_logical op ≡ true
      → keep_nz rd v c ≡ retire op true rd (v, Psr.c c.cpsr, ov) c
  logical w op v ov t l = keep_nz-carry w v ∙ sym (keeps_nzc op (v, Psr.c c.cpsr, ov) t l)

  pub tested :
      IsWord c.cpsr
      → (op : AluOp) (v : ℕ) (ov : Bool) → is_test op ≡ true
      → is_logical op ≡ true
      → flag_nz v c ≡ retire op true rd (v, Psr.c c.cpsr, ov) c
  tested w op v ov t l = flag_nz-carry w v ∙ sym (flags_nzc op (v, Psr.c c.cpsr, ov) t l)

shift_of-lt : (k : ℕ) → k < 3 → shift_of k ≡ shift_type_from_u8 k
unfolding shift_of shift_type_from_u8
shift_of-lt zero h = refl
shift_of-lt (suc zero) h = refl
shift_of-lt (suc (suc zero)) h = refl
shift_of-lt (suc (suc (suc k))) h = absurd (omega arith)

pub low : (r : ℕ) → r < 8 → (r == 15) ≡ false
low r h = ground arith

is_mov : (is_test mov ≡ false) × (is_logical mov ≡ true)
unfolding is_test is_logical
is_mov = (refl, refl)

-- An instruction that leaves the bus alone has the effect of an ARM instruction.
module _ {S : Type 0} (port : Port S) (c : Cpu) (bus : S) where
  abbrev pub Agrees : Cpu → ℕ → Type 0
  Agrees d a = (d ≡ (execute_arm port a c bus).0) × (bus ≡ (execute_arm port a c bus).1)

  pub by_run : (d e : Cpu) (a n : ℕ) → execute_arm port a c bus ≡ (e, bus, n) → d ≡ e → Agrees d a
  by_run d e a n p q = rw p (q, refl)

  pub either :
      (b : Bool) (d e : Cpu) (x y : ℕ)
      → (b ≡ true → Agrees d x)
      → (b ≡ false → Agrees e y)
      → Agrees (if b then d else e) (if b then x else y)
  either true d e x y p q = p refl
  either false d e x y p q = q refl

  pub thumb_shift_imm-Agrees :
      (opcode : ℕ)
      → opcode < 0x1800
      → Agrees
          (thumb_shift_imm opcode c).0
          (arm_shift (field 11 2 opcode) (field 0 3 opcode) (field 3 3 opcode) (field 6 5 opcode))
  unfolding thumb_shift_imm shift_of shift_type_from_u8 alu_op_from_u8 alu
  thumb_shift_imm-Agrees opcode h =
      let kind = field 11 2 opcode in
      let out =
        barrel_shift (reg (field 3 3 opcode) c) (shift_type_from_u8 kind) (field 6 5 opcode)
          (Psr.c c.cpsr) true in
      by_run _ _ _ 1
        (runs_shift port c bus kind (field 0 3 opcode) (field 3 3 opcode) (field 6 5 opcode)
          (omega arith) (omega arith) (omega arith) (omega arith))
        (rw (shift_of-lt kind (omega arith)) (
          sym (
            keeps_nzc (field 0 3 opcode) c (low (field 0 3 opcode) (omega arith)) mov
              (out.0, out.1, Psr.v c.cpsr) is_mov.0 is_mov.1)))

  pub thumb_add_sub_reg-Agrees :
      (opcode : ℕ)
      → Agrees (thumb_add_sub_reg opcode c).0 (
          arm_register
            (if bit_set opcode 9 then 2 else 4)
            (field 3 3 opcode)
            (field 0 3 opcode)
            (field 6 3 opcode))
  unfolding thumb_add_sub_reg alu_op_from_u8 alu add_or_sub is_test is_logical
  thumb_add_sub_reg-Agrees opcode = elim (Bool-cases (bit_set opcode 9)) [
    | inl e ↦ rw e (
        by_run _ _ _ 1
          (runs_register port c bus 2 (field 3 3 opcode) (field 0 3 opcode) (omega arith)
            (omega arith) (omega arith) (field 6 3 opcode) (omega arith))
          (sym (
            keeps_nzcv (field 0 3 opcode) c (low (field 0 3 opcode) (omega arith)) sub _ refl
              refl)))
    | inr e ↦ rw e (
        by_run _ _ _ 1
          (runs_register port c bus 4 (field 3 3 opcode) (field 0 3 opcode) (omega arith)
            (omega arith) (omega arith) (field 6 3 opcode) (omega arith))
          (sym (
            keeps_nzcv (field 0 3 opcode) c (low (field 0 3 opcode) (omega arith)) add _ refl
              refl)))
  ]
