-- ===== src/Arm7tdmi/Confined/Arm.antt =====
-- The ARM instructions in User mode.
use vibe_gba.Prelude.{
  ℕ, ◌<◌, ◌≡◌, ◌*◌, ◌/◌, ◌%◌, ◌^◌, ◌==◌, refl, ◌∙◌, arith, Bool, true, false, not, ◌&&◌,
  if◌then◌else◌, bit_and, Bool-cases, inl, inr,
}
use vibe_gba.Prelude.Bits.{bit_set}
use vibe_gba.Prelude.Bits.{bit_set-or, bit_set-and, bit_set-not, not32}
use vibe_gba.Prelude.Words.{bit_set-shl, bit_set-zero}
use vibe_gba.Arm7tdmi.Psr.Bits.{mode-low}
use vibe_gba.Arm7tdmi.Psr.{is_mode, mode_bits, user, Psr, mode, set_n, set_z, set_c, set_v, set_nz}
use vibe_gba.Arm7tdmi.Alu.{AluOp, is_test, is_logical}
use vibe_gba.Arm7tdmi.Cpu.{Cpu, current_mode, branch, set_reg, reg}
use vibe_gba.Bus.Port.{Port}
use vibe_gba.Arm7tdmi.Arm.{arm_branch}
use vibe_gba.Arm7tdmi.Arm.Data.{
  put, field, set_flags, retire, arm_data_processing, arm_multiply, arm_multiply_long, arm_mrs,
  arm_msr, write_cpsr, masked, write_mask,
}
use vibe_gba.Arm7tdmi.Arm.Transfer.{
  block_of, block_start, Block, Walk, block_step, load_into, write_back, arm_single_transfer,
  arm_halfword_transfer, empty_block, arm_block_transfer, arm_swap,
}
use vibe_gba.Arm7tdmi.Confined.{
  IsSameControl, IsConfined, still, of_same, then_, current_mode-IsConfined, put-IsConfined,
  branch-IsConfined, if-IsConfined, set_reg-IsConfined, set_bit-IsSameControl, set_nz-IsSameControl,
  set_c-IsSameControl, set_v-IsSameControl, trans_control, with_cpsr, for_each-IsConfined,
  set_reg_with_flags-IsConfined, set_spsr-IsConfined, write_user_reg-IsConfined,
  restore_cpsr-IsConfined,
}

set_flags-IsSameControl :
    (op : AluOp) (out : ℕ × Bool × Bool) (p : Psr) → IsSameControl p (set_flags op out p)
unfolding set_flags
set_flags-IsSameControl op (result, carry, overflow) p =
    let q = set_c carry (set_nz result p) in
    let h =
      trans_control p (set_nz result p) q (set_nz-IsSameControl result p)
        (set_c-IsSameControl carry (set_nz result p)) in
    elim (Bool-cases (is_logical op)) [
      | inl e ↦ rw e h
      | inr e ↦ rw e (trans_control p q (set_v overflow q) h (set_v-IsSameControl overflow q))
    ]

module _ (c : Cpu) (u : current_mode c ≡ user) where
  retire-IsConfined :
      (op : AluOp) (s : Bool) (rd : ℕ) (out : ℕ × Bool × Bool) → IsConfined c (retire op s rd out c)
  unfolding retire
  retire-IsConfined op s rd out =
      let flagged = record c { cpsr = set_flags op out c.cpsr } in
      let h =
        with_cpsr (set_flags op out c.cpsr) (still c) (set_flags-IsSameControl op out c.cpsr) in
      if-IsConfined s _ _
        (if-IsConfined (rd == 15) _ _
          (if-IsConfined (is_test op) _ _ (restore_cpsr-IsConfined c u)
            (set_reg_with_flags-IsConfined c u rd out.0))
          (if-IsConfined (not (is_test op)) _ _ (then_ h (put-IsConfined rd out.0 flagged)) h))
        (if-IsConfined (not (is_test op)) _ _ (set_reg-IsConfined rd out.0 c) (still c))

  pub arm_data_processing-IsConfined : (opcode : ℕ) → IsConfined c (arm_data_processing opcode c).0
  unfolding arm_data_processing
  arm_data_processing-IsConfined opcode = search (retire-IsConfined)

pub arm_multiply-IsConfined : (opcode : ℕ) (c : Cpu) → IsConfined c (arm_multiply opcode c).0
unfolding arm_multiply
arm_multiply-IsConfined opcode c =
    if-IsConfined (bit_set opcode 20) _ _
      (with_cpsr _ (put-IsConfined _ _ c) (set_nz-IsSameControl _ c.cpsr)) (put-IsConfined _ _ c)

pub arm_multiply_long-IsConfined :
    (opcode : ℕ) (c : Cpu) → IsConfined c (arm_multiply_long opcode c).0
unfolding arm_multiply_long set_n set_z put
arm_multiply_long-IsConfined opcode c =
    if-IsConfined (bit_set opcode 20) _ _
      (with_cpsr {d = put _ _ (put _ _ c)} _ (of_same refl refl) (
        trans_control c.cpsr _ _ (set_bit-IsSameControl 31 _ c.cpsr (omega arith) (omega arith))
          (set_bit-IsSameControl 30 _ _ (omega arith) (omega arith))))
      (of_same refl refl)

pub arm_mrs-IsConfined : (opcode : ℕ) (c : Cpu) → IsConfined c (arm_mrs opcode c).0
unfolding arm_mrs
arm_mrs-IsConfined opcode c = put-IsConfined _ _ c

pub arm_branch-IsConfined : (opcode : ℕ) (c : Cpu) → IsConfined c (arm_branch opcode c).0
unfolding arm_branch
arm_branch-IsConfined opcode c =
    then_ (if-IsConfined (bit_set opcode 24) _ _ (put-IsConfined 14 _ c) (still c))
      (branch-IsConfined _ _)

write_back-IsConfined : (opcode addr : ℕ) (c : Cpu) → IsConfined c (write_back opcode addr c)
unfolding write_back put
write_back-IsConfined opcode addr c = of_same (ground arith) (ground arith)

-- The same for the result of an instruction that uses the bus.
pub either-IsConfined :
    {S : Type 0} (c : Cpu) (b : Bool) (x y : Cpu × S × ℕ)
    → IsConfined c x.0
    → IsConfined c y.0
    → IsConfined c (if b then x else y).0
either-IsConfined c true x y p q = p
either-IsConfined c false x y p q = q

module _ {S : Type 0} (port : Port S) (opcode : ℕ) (c : Cpu) (bus : S) where
  pub arm_single_transfer-IsConfined : IsConfined c (arm_single_transfer port opcode c bus).0
  unfolding arm_single_transfer write_back put set_reg branch
  arm_single_transfer-IsConfined = of_same (ground arith) (ground arith)

  pub arm_halfword_transfer-IsConfined : IsConfined c (arm_halfword_transfer port opcode c bus).0
  unfolding arm_halfword_transfer
  arm_halfword_transfer-IsConfined =
      either-IsConfined c (bit_set opcode 20) _ _
        (then_ (set_reg-IsConfined _ _ c) (write_back-IsConfined opcode _ _))
        (write_back-IsConfined opcode _ c)

  pub arm_swap-IsConfined : IsConfined c (arm_swap port opcode c bus).0
  unfolding arm_swap put
  arm_swap-IsConfined = of_same (ground arith) (ground arith)

  empty_block-IsConfined : IsConfined c (empty_block port opcode c bus).0
  unfolding empty_block put branch
  empty_block-IsConfined = of_same (ground arith) (ground arith)

load_into-IsConfined :
    (b : Block) (i val : ℕ) (c d : Cpu)
    → current_mode c ≡ user
    → IsConfined c d
    → IsConfined c (load_into b i val d)
unfolding load_into
load_into-IsConfined b i val c d u h =
    let v : current_mode d ≡ user = current_mode-IsConfined h ∙ u in
    then_ h (
      if-IsConfined b.restore _ _
        (if-IsConfined (i == 15) _ _ (then_ (restore_cpsr-IsConfined d v) (branch-IsConfined _ _))
          (put-IsConfined i val d))
        (if-IsConfined (i == 15) _ _ (branch-IsConfined _ d) (
          if-IsConfined b.user_bank _ _ (write_user_reg-IsConfined d v i val)
            (put-IsConfined i val d))))

-- A step loads into the processor or leaves it.
module _ {S : Type 0} (port : Port S) where
  block_step-IsConfined :
      (b : Block) (c : Cpu)
      → current_mode c ≡ user
      → (i : ℕ) (t : Walk S) → IsConfined c t.cpu
      → IsConfined c (block_step port b i t).cpu
  unfolding block_step
  block_step-IsConfined b c u i t h =
      let val = (port.read32 (t.addr / 4 * 4) t.bus).1 in
      elim (Bool-cases (bit_set b.rlist i)) [
        | inl e ↦ elim (Bool-cases b.load) [
          | inl l ↦ rw (e, l) (load_into-IsConfined b i val c t.cpu u h)
          | inr l ↦ rw (e, l) h
        ]
        | inr e ↦ rw e h
      ]

flags_mask : Bool → ℕ
flags_mask b = if b then 0xff000000 else 0

flags_mask-low : (b : Bool) (k : ℕ) → k < 24 → bit_set (flags_mask b) k ≡ false
unfolding flags_mask
flags_mask-low true k h = bit_set-shl 24 k 0xff ∙ ground arith
flags_mask-low false k h = bit_set-zero k

flags_mask-lt : (b : Bool) → flags_mask b < 2 ^ 32
unfolding flags_mask
flags_mask-lt true = omega arith
flags_mask-lt false = omega arith

write_mask_user : (opcode : ℕ) → write_mask opcode user ≡ flags_mask (bit_set opcode 19)
unfolding write_mask flags_mask is_mode mode_bits
write_mask_user opcode = refl

masked-IsSameControl :
    (b : Bool) (val : ℕ) (p : Psr)
    → IsSameControl p (record { bits = masked (flags_mask b) val p.bits })
unfolding masked
masked-IsSameControl b val p k h n =
    let mask = flags_mask b in
    bit_set-or k (bit_and p.bits (not32 mask)) (bit_and val mask)
    ∙ rw
        (
          bit_set-and k p.bits (not32 mask),
          bit_set-and k val mask,
          bit_set-not 32 k mask (flags_mask-lt b) (omega arith),
          flags_mask-low b k h,
        )
        (ground arith)

module _ (c : Cpu) (u : current_mode c ≡ user) where
  write_cpsr-IsConfined : (p : Psr) → IsSameControl c.cpsr p → IsConfined c (write_cpsr p c)
  unfolding write_cpsr is_mode mode_bits
  write_cpsr-IsConfined p h =
      let v : mode p ≡ user = mode-low p c.cpsr (λ k l. h k (omega arith) (omega arith)) ∙ u in
      rw (u, v) (with_cpsr p (still c) h)

  masked_user :
      (opcode val : ℕ)
      → IsSameControl c.cpsr
          (record { bits = masked (write_mask opcode (current_mode c)) val c.cpsr.bits })
  masked_user opcode val =
      rw (u, write_mask_user opcode) (masked-IsSameControl (bit_set opcode 19) val c.cpsr)

  pub arm_msr-IsConfined : (opcode : ℕ) → IsConfined c (arm_msr opcode c).0
  unfolding arm_msr
  arm_msr-IsConfined opcode =
      if-IsConfined (bit_set opcode 22) _ _ (set_spsr-IsConfined c u _)
        (write_cpsr-IsConfined _ (masked_user opcode _))

module _ {S : Type 0} (port : Port S) (c : Cpu) (u : current_mode c ≡ user) (opcode : ℕ)
    (bus : S) where
  pub arm_block_transfer-IsConfined : IsConfined c (arm_block_transfer port opcode c bus).0
  unfolding arm_block_transfer
  arm_block_transfer-IsConfined =
      let base = reg (field 16 4 opcode) c in
      let b = block_of opcode base in
      let start : Walk S = record { addr = block_start opcode base; cpu = c; bus = bus } in
      let loaded =
        for_each-IsConfined (λ (t : Walk S). t.cpu) c (block_step port b)
          (block_step-IsConfined port b c u) 0 16 start (still c) in
      either-IsConfined c (opcode % 2 ^ 16 == 0) _ _ (empty_block-IsConfined port opcode c bus) (
        if-IsConfined (b.write_back && not (b.load && bit_set b.rlist b.rn)) _ _
          (then_ loaded (put-IsConfined _ _ _)) loaded)
