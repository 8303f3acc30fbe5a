-- ===== src/Arm7tdmi/Examples.antt =====
-- Runs of instructions of arm7tdmi/arm.rs and arm7tdmi/thumb.rs, on a memory of words.
use vibe_gba.Prelude.{
  ℕ, ◌%◌, ◌^◌, ◌<◌, ◌≡◌, refl, arith, Bool, true, false, ◌&&◌, ◌==◌, if◌then◌else◌, List, [], ◌∷◌,
  ltb, leb, ◌+◌, ltb→lt, zero, suc, get_or,
}
use vibe_gba.Prelude.Bits.{bit_set}
use vibe_gba.Bus.Port.{Port}
use vibe_gba.Bus.Memory.{IsMemory}
use vibe_gba.Arm7tdmi.Psr
use vibe_gba.Arm7tdmi.Psr.Bits.{IsWord}
use vibe_gba.Arm7tdmi.Psr.{Psr, user, supervisor, mode}
use vibe_gba.Arm7tdmi.Cpu.{Cpu, new}
use vibe_gba.Arm7tdmi.Arm.{execute_arm}
use vibe_gba.Arm7tdmi.Thumb.{execute_thumb}
use vibe_gba.Arm7tdmi.Thumb.Transfer.{thumb_push, thumb_pop}
use vibe_gba.Arm7tdmi.Thumb.Stack.{IsRestored, HasRoom, thumb_pop-thumb_push}
use vibe_gba.Arm7tdmi.Thumb.Translation.Whole.{arm_of, execute_thumb-execute_arm}
use vibe_gba.Arm7tdmi.Loops.{count_ones}
use vibe_gba.Arm7tdmi.Confined.{IsConfined}
use vibe_gba.Arm7tdmi.Confined.Decode.{user-IsConfined}

-- A memory of words, whose narrower accesses read 0 and write nothing.
abbrev flat : Port (ℕ → ℕ)
flat = record {
  read8 = λ a s. (s, 0);
  read16 = λ a s. (s, 0);
  read32 = λ a s. (s, s a);
  write8 = λ a v s. s;
  write16 = λ a v s. s;
  write32 = λ a v s b. if a == b then v else s b;
  fetch16 = λ a q s. (s, 0);
  fetch32 = λ a q s. (s, s a);
  break_sequential = λ s. s;
  set_last_pc = λ a s. s;
  set_bios_latch = λ a s. s;
  take_mem_cycles = λ s. (s, 0);
  prefetch_advance = λ n s. s;
  tick_backup = λ n s. s;
  has_pending = λ s. false;
}

flat-IsMemory : IsMemory (ℕ → ℕ) flat 0x03000000 0x03008000 (λ s. s)
flat-IsMemory = record {
  bounded = omega arith;
  reads = λ a s l h q. refl;
  keeps = λ a s. refl;
  writes = λ a v b s l h q lb hb r w. refl;
}

abbrev blank : ℕ → ℕ
blank = λ a. 0

-- The processor after a reset, with the registers given.
abbrev with_regs : List ℕ → Cpu
with_regs rs = record new { regs = rs }

-- 0, 1, ..., 12, the stack pointer, 0x08000101 for the link register, and the program counter.
abbrev counting : List ℕ
counting =
    0 ∷ 1 ∷ 2 ∷ 3 ∷ 4 ∷ 5 ∷ 6 ∷ 7 ∷ 8 ∷ 9 ∷ 10 ∷ 11 ∷ 12 ∷ 0x03007f00 ∷ 0x08000101 ∷ 0x08000200 ∷ []

abbrev in_user : Cpu
in_user = record (with_regs counting) { cpsr = record { bits = 0x10 } }

-- MSR CPSR_fc, R7 with the bits of the Supervisor mode's number in the register.
user-IsConfined_example :
    IsConfined in_user (execute_arm flat 0xe129f007 in_user blank).0
    × IsConfined in_user (execute_thumb flat 0xe129f007 in_user blank).0
unfolding mode
user-IsConfined_example = user-IsConfined flat in_user refl 0xe129f007 blank

-- ADD R3, R1, R2 of the THUMB set.
execute_thumb-execute_arm_example :
    ((execute_thumb flat 0x188b (with_regs counting) blank).0
      ≡ (execute_arm flat (arm_of 0x188b) (with_regs counting) blank).0)
    × ((execute_thumb flat 0x188b (with_regs counting) blank).1
        ≡ (execute_arm flat (arm_of 0x188b) (with_regs counting) blank).1)
unfolding IsWord new Psr.new
execute_thumb-execute_arm_example =
    execute_thumb-execute_arm flat (with_regs counting) blank (omega arith) 0x188b (omega arith)

abbrev pushed : Cpu × (ℕ → ℕ) × ℕ
pushed = thumb_push flat 0xb512 (with_regs counting) blank

-- Every number of a list of words is a word.
abbrev are_words : List ℕ → Bool
are_words [] = true
are_words (x ∷ xs) = ltb x (2 ^ 32) && are_words xs

get_or-lt : (xs : List ℕ) (r : ℕ) → are_words xs ≡ true → get_or xs r 0 < 2 ^ 32
get_or-lt [] r h = omega arith
get_or-lt (x ∷ xs) zero h = ltb→lt x (2 ^ 32) (ground arith)
get_or-lt (x ∷ xs) (suc r) h = get_or-lt xs r (ground arith)

-- PUSH {R1, R4, LR} and POP {R1, R4, PC}.
counting-HasRoom :
    HasRoom flat 0x03000000 0x03008000 (λ s. s) flat-IsMemory (with_regs counting) blank 0xb512
unfolding count_ones
counting-HasRoom = record {
  size = refl;
  words = λ r. get_or-lt counting r refl;
  aligned = refl;
  room = omega arith;
  top = omega arith;
  no_wrap = omega arith;
}

thumb_pop-thumb_push_example :
    IsRestored
      (0xb512 % 2 ^ 8)
      (bit_set 0xb512 8)
      (with_regs counting)
      pushed.0
      (thumb_pop flat 0xbd12 pushed.0 pushed.1).0
unfolding thumb_push
thumb_pop-thumb_push_example =
    thumb_pop-thumb_push flat 0x03000000 0x03008000 (λ s. s) flat-IsMemory (with_regs counting)
      blank 0xb512 0xbd12 counting-HasRoom refl refl pushed.0 refl refl pushed.1 (λ b l k. refl)

-- A bus that counts the cycles, and has an interrupt pending from the third on.
abbrev clock : Port ℕ
clock = record {
  read8 = λ a s. (s, 0);
  read16 = λ a s. (s, 0);
  read32 = λ a s. (s, 0);
  write8 = λ a v s. s;
  write16 = λ a v s. s;
  write32 = λ a v s. s;
  fetch16 = λ a q s. (s, 0);
  fetch32 = λ a q s. (s, 0xe3a00000);
  break_sequential = λ s. s;
  set_last_pc = λ a s. s;
  set_bios_latch = λ a s. s;
  take_mem_cycles = λ s. (s, 0);
  prefetch_advance = λ n s. s;
  tick_backup = λ n s. n + s;
  has_pending = λ s. leb 3 s;
}

-- In System mode, after the halt.
abbrev asleep : Cpu
asleep = record new {
  regs = counting;
  cpsr = record { bits = 0x1f };
  halted = true;
  pipeline_flushed = false;
}
