-- ===== src/Arm7tdmi/Thumb/Runs.antt =====
-- What the ARM instructions of the encodings do.
use vibe_gba.Prelude.{
  ℕ, ◌+◌, ◌*◌, ◌%◌, ◌^◌, ◌<◌, ◌≡◌, refl, ap, ◌∙◌, arith, Bool, true, false, ◌==◌, bit_and,
}
use vibe_gba.Prelude.Bits.{bit_set}
use vibe_gba.Prelude.Words.{bit_and-lt}
use vibe_gba.Bus.Port.{Port}
use vibe_gba.Arm7tdmi.Alu.{barrel_shift, shift_type_from_u8, alu_op_from_u8}
use vibe_gba.Arm7tdmi.Psr
use vibe_gba.Arm7tdmi.Psr.{set_nz}
use vibe_gba.Arm7tdmi.Cpu.{Cpu, reg}
use vibe_gba.Arm7tdmi.Arm.{execute_arm, execute_register, execute_multiply, without_bus}
use vibe_gba.Arm7tdmi.Arm.Data.{field, alu, retire, put, arm_multiply}
use vibe_gba.Arm7tdmi.Thumb.Encoding.{
  arm_register, arm_immediate, arm_shift, arm_shift_by, decodes_immediate, decodes_register,
  processes_immediate, processes_register, processes_shift_by, even_and,
}

low_register : (r : ℕ) → r < 8 → (r == 15) ≡ false
low_register r h = ground arith

decodes_multiply :
    {S : Type 0} (port : Port S) (opcode : ℕ) (c : Cpu) (bus : S)
    → field 25 3 opcode ≡ 0
    → field 20 8 opcode ≡ 1
    → field 4 4 opcode ≡ 9
    → execute_arm port opcode c bus ≡ without_bus (arm_multiply opcode c) bus
unfolding execute_arm execute_register execute_multiply
decodes_multiply port opcode c bus k f b = rw (k, f, b) refl

processes_multiply :
    (opcode rd rs rm : ℕ) (c : Cpu)
    → bit_set opcode 21 ≡ false
    → bit_set opcode 20 ≡ true
    → field 16 4 opcode ≡ rd
    → field 8 4 opcode ≡ rs
    → field 0 4 opcode ≡ rm
    → arm_multiply opcode c ≡ (
        let result = reg rm c * reg rs c % 2 ^ 32 in
        (record (put rd result c) { cpsr = set_nz result c.cpsr }, 4))
unfolding arm_multiply put
processes_multiply opcode rd rs rm c a s d t m = rw (a, s, d, t, m) refl

small_and : (x : ℕ) → x < 8 → (bit_and x 9 == 9) ≡ false
small_and x h = ground (arith, bit_and-lt 3 x 9 h)

-- MULS.
abbrev pub arm_multiplication : ℕ → ℕ → ℕ → ℕ
arm_multiplication rd rs rm = 0xe0100090 + rd * 2 ^ 16 + rs * 2 ^ 8 + rm

abbrev pub retired : ℕ → ℕ → ℕ → ℕ × Bool → Cpu → Cpu
retired k rn rd operand c =
    let op = alu_op_from_u8 k in retire op true rd (alu op (reg rn c) operand.0 operand.1 c.cpsr) c

module _ {S : Type 0} (port : Port S) (c : Cpu) (bus : S) where
  module _ (k rn rd : ℕ) (hk : k < 16) (hn : rn < 8) (hd : rd < 8) where
    pub runs_immediate :
        (x : ℕ)
        → x < 256
        → execute_arm port (arm_immediate k rn rd x) c bus
          ≡ (retired k rn rd (x, Psr.c c.cpsr) c, bus, 1)
    runs_immediate x h =
        let opcode = arm_immediate k rn rd x in
        decodes_immediate port opcode c bus (omega arith) (omega arith)
        ∙ ap (λ (r : Cpu × ℕ). without_bus r bus)
            (processes_immediate opcode k rn rd c (omega arith) (omega arith) (omega arith)
              (low_register rn hn) (low_register rd hd) (ground arith) x (ground arith)
              (omega arith) (omega arith))
        ∙ unfold without_bus in refl

    pub runs_register :
        (rm : ℕ)
        → rm < 8
        → execute_arm port (arm_register k rn rd rm) c bus
          ≡ (retired k rn rd (reg rm c, Psr.c c.cpsr) c, bus, 1)
    runs_register rm h =
        let opcode = arm_register k rn rd rm in
        decodes_register port opcode c bus (omega arith) (omega arith)
          (even_and (field 4 4 opcode) (omega arith))
        ∙ ap (λ (r : Cpu × ℕ). without_bus r bus)
            (processes_register opcode k rn rd c (omega arith) (omega arith) (omega arith)
              (low_register rn hn) (low_register rd hd) (ground arith) 0 rm 0 (ground arith)
              (ground arith) (omega arith) (low_register rm h) (omega arith) (omega arith))
        ∙ unfold without_bus barrel_shift shift_type_from_u8 in refl

  pub runs_shift :
      (kind rd rm amount : ℕ)
      → kind < 4
      → rd < 8
      → rm < 8
      → amount < 32
      → execute_arm port (arm_shift kind rd rm amount) c bus ≡ (
        retired 13 0 rd
            (barrel_shift (reg rm c) (shift_type_from_u8 kind) amount (Psr.c c.cpsr) true)
            c,
        bus,
        1,
      )
  runs_shift kind rd rm amount hk hd hm ha =
      let opcode = arm_shift kind rd rm amount in
      decodes_register port opcode c bus (omega arith) (omega arith)
        (even_and (field 4 4 opcode) (omega arith))
      ∙ ap (λ (r : Cpu × ℕ). without_bus r bus)
          (processes_register opcode 13 0 rd c (omega arith) (omega arith) (omega arith)
            (low_register 0 (omega arith)) (low_register rd hd) (ground arith) kind rm amount
            (ground arith) (ground arith) (omega arith) (low_register rm hm) (omega arith)
            (omega arith))
      ∙ unfold without_bus in refl

  pub runs_shift_by :
      (kind rd rm rs : ℕ)
      → kind < 4
      → rd < 8
      → rm < 8
      → rs < 8
      → execute_arm port (arm_shift_by kind rd rm rs) c bus ≡ (
        retired 13 0 rd
            (barrel_shift
              (reg rm c)
              (shift_type_from_u8 kind)
              (reg rs c % 2 ^ 8)
              (Psr.c c.cpsr)
              false)
            c,
        bus,
        2,
      )
  runs_shift_by kind rd rm rs hk hd hm hs =
      let opcode = arm_shift_by kind rd rm rs in
      decodes_register port opcode c bus (omega arith) (omega arith)
        (small_and (field 4 4 opcode) (omega arith))
      ∙ ap (λ (r : Cpu × ℕ). without_bus r bus)
          (processes_shift_by opcode 13 0 rd c (omega arith) (omega arith) (omega arith)
            (low_register 0 (omega arith)) (low_register rd hd) (ground arith) kind rm rs
            (ground arith) (ground arith) (omega arith) (low_register rm hm) (omega arith)
            (low_register rs hs) (omega arith))
      ∙ unfold without_bus in refl

  pub runs_multiply :
      (rd rs rm : ℕ)
      → rd < 8
      → rs < 8
      → rm < 8
      → execute_arm port (arm_multiplication rd rs rm) c bus ≡ (
          let result = reg rm c * reg rs c % 2 ^ 32 in
          (record (put rd result c) { cpsr = set_nz result c.cpsr }, bus, 4))
  unfolding without_bus
  runs_multiply rd rs rm hd hs hm =
      let opcode = arm_multiplication rd rs rm in
      decodes_multiply port opcode c bus (omega arith) (omega arith) (omega arith)
      ∙ ap (λ (r : Cpu × ℕ). without_bus r bus)
          (processes_multiply opcode rd rs rm c (ground arith) (ground arith) (omega arith)
            (omega arith) (omega arith))
