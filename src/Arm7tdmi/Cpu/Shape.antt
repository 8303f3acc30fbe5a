-- ===== src/Arm7tdmi/Cpu/Shape.antt =====
-- The arrays of the processor have the lengths that their types give, and every operation keeps
-- them.
use vibe_gba.Prelude.{
  ℕ, ◌<◌, ◌≡◌, ◌∙◌, arith, Bool, true, false, if◌then◌else◌, length, length-set, set,
}
use vibe_gba.Prelude.Slices.{slice, copy_into, length-slice, length-copy_into}
use vibe_gba.Arm7tdmi.Psr.{
  CpuMode, bank_index, user, fiq, irq, supervisor, abort, undefined, system, is_mode, set_mode,
}
use vibe_gba.Arm7tdmi.Cpu.{Cpu, bank_out, swap_fiq, bank_in, switch_mode, current_mode}

pub record HasShape (c : Cpu) : Type 0 where
  pub regs : length c.regs ≡ 16
  pub sp : length c.banked.sp ≡ 6
  pub lr : length c.banked.lr ≡ 6
  pub fiq : length c.banked.fiq_r8_r12 ≡ 5
  pub usr : length c.banked.usr_r8_r12 ≡ 5
  pub spsr : length c.banked.spsr ≡ 5

pub bank_index-lt : (m : CpuMode) → bank_index m < 6
unfolding bank_index
bank_index-lt user = omega arith
bank_index-lt fiq = omega arith
bank_index-lt irq = omega arith
bank_index-lt supervisor = omega arith
bank_index-lt abort = omega arith
bank_index-lt undefined = omega arith
bank_index-lt system = omega arith

pub bank_out-HasShape : (b : ℕ) {c : Cpu} → HasShape c → HasShape (bank_out b c)
unfolding bank_out
bank_out-HasShape b {c} h = record {
  regs = h.regs;
  sp = length-set c.banked.sp b _ ∙ h.sp;
  lr = length-set c.banked.lr b _ ∙ h.lr;
  fiq = h.fiq;
  usr = h.usr;
  spsr = h.spsr;
}

pub swap_fiq-HasShape : (old new : CpuMode) {c : Cpu} → HasShape c → HasShape (swap_fiq old new c)
unfolding swap_fiq
swap_fiq-HasShape old new {c} h = go (is_mode old fiq) (is_mode new fiq)
  where
    out : Cpu
    out = record c {
      banked = record c.banked { fiq_r8_r12 = slice 8 5 c.regs };
      regs = copy_into 8 c.banked.usr_r8_r12 c.regs;
    }

    inn : Cpu
    inn = record c {
      banked = record c.banked { usr_r8_r12 = slice 8 5 c.regs };
      regs = copy_into 8 c.banked.fiq_r8_r12 c.regs;
    }

    go : (a b : Bool) → HasShape (if a then out else if b then inn else c)
    go true b = record {
      regs = length-copy_into 8 c.banked.usr_r8_r12 c.regs ∙ h.regs;
      sp = h.sp;
      lr = h.lr;
      fiq = length-slice 8 5 c.regs (omega (arith, h.regs));
      usr = h.usr;
      spsr = h.spsr;
    }
    go false true = record {
      regs = length-copy_into 8 c.banked.fiq_r8_r12 c.regs ∙ h.regs;
      sp = h.sp;
      lr = h.lr;
      fiq = h.fiq;
      usr = length-slice 8 5 c.regs (omega (arith, h.regs));
      spsr = h.spsr;
    }
    go false false = h

pub bank_in-HasShape : (b : ℕ) {c : Cpu} → HasShape c → HasShape (bank_in b c)
unfolding bank_in
bank_in-HasShape b {c} h = record {
  regs = length-set (set c.regs 13 _) 14 _ ∙ length-set c.regs 13 _ ∙ h.regs;
  sp = h.sp;
  lr = h.lr;
  fiq = h.fiq;
  usr = h.usr;
  spsr = h.spsr;
}

pub switch_mode-HasShape : (new : CpuMode) {c : Cpu} → HasShape c → HasShape (switch_mode new c)
unfolding switch_mode
switch_mode-HasShape new {c} h = go (is_mode (current_mode c) new)
  where
    old : CpuMode
    old = current_mode c

    moved : Cpu
    moved = bank_in (bank_index new) (swap_fiq old new (bank_out (bank_index old) c))

    shaped : HasShape moved
    shaped =
        bank_in-HasShape (bank_index new)
          (swap_fiq-HasShape old new (bank_out-HasShape (bank_index old) h))

    go :
        (same : Bool)
        → HasShape (if same then c else record moved { cpsr = set_mode new moved.cpsr })
    go true = h
    go false = record {
      regs = shaped.regs;
      sp = shaped.sp;
      lr = shaped.lr;
      fiq = shaped.fiq;
      usr = shaped.usr;
      spsr = shaped.spsr;
    }
