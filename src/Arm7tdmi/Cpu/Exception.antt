-- ===== src/Arm7tdmi/Cpu/Exception.antt =====
-- The entry to an exception and the return from it.
use vibe_gba.Prelude.{
  ℕ, ◌<◌, ◌≡◌, ◌≢◌, ◌⊎◌, inl, inr, refl, sym, ap, ◌∙◌, arith, true, false, Bool-cases,
  if◌then◌else◌, length-set, get_or, get_or-set_self, get_or-set_ne, set,
}
use vibe_gba.Prelude.Slices.{get_or-set}
use vibe_gba.Arm7tdmi.Psr.{
  CpuMode, user, fiq, irq, supervisor, abort, undefined, system, bank_index, has_spsr, Psr, mode,
  thumb, irq_disabled, set_thumb, set_bit, disable_irq,
}
use vibe_gba.Arm7tdmi.Psr.Bits.{mode-set_bit, mode-disable_irq, set_bit-bit, disable_irq-bit}
use vibe_gba.Arm7tdmi.Cpu.{
  Cpu, current_mode, switch_mode, set_spsr, spsr, spsr_index, enter, handle_interrupt,
  software_interrupt, no_psr, wrapping_sub,
}
use vibe_gba.Arm7tdmi.Cpu.Shape.{HasShape, switch_mode-HasShape}
use vibe_gba.Arm7tdmi.Cpu.View.{view_in, view}
use vibe_gba.Arm7tdmi.Cpu.Banking.{current_mode-switch_mode, view-switch_mode}

-- The modes that an exception enters have an SPSR each.
abbrev pub IsException : CpuMode → Type 0
IsException m = has_spsr m ≡ true

spsr_index-lt : (m : CpuMode) → spsr_index m < 5
unfolding spsr_index
spsr_index-lt user = omega arith
spsr_index-lt fiq = omega arith
spsr_index-lt irq = omega arith
spsr_index-lt supervisor = omega arith
spsr_index-lt abort = omega arith
spsr_index-lt undefined = omega arith
spsr_index-lt system = omega arith

-- Writes to the registers 14 and 15 are seen in no other register, and in 14 only by the modes
-- that share it.
view_in-write :
    (now m : CpuMode) (r a b : ℕ) (c : Cpu)
    → r ≢ 15
    → (r ≢ 14) ⊎ (bank_index m ≢ bank_index now)
    → view_in now m r (record c { regs = set (set c.regs 14 a) 15 b }) ≡ view_in now m r c
unfolding view_in
view_in-write now m r a b c p q =
    ground (arith, get_or-set (set c.regs 14 a) 15 r b 0, get_or-set c.regs 14 r a 0)

view-set_spsr : (m : CpuMode) (r : ℕ) (p : Psr) (c : Cpu) → view m r (set_spsr p c) ≡ view m r c
unfolding view view_in set_spsr
view-set_spsr m r p c = elim (Bool-cases (has_spsr (current_mode c))) [
  | inl e ↦ rw e refl
  | inr e ↦ rw e refl
]

-- What the entry leaves: the new mode in ARM state with interrupts disabled, the old status word in
-- its SPSR, the return address and the vector, and every other register as each mode saw it.
pub record HasEntered (m : CpuMode) (return_addr vector : ℕ) (c c' : Cpu) : Type 0 where
  pub in_mode : current_mode c' ≡ m
  pub arm : thumb c'.cpsr ≡ false
  pub masked : irq_disabled c'.cpsr ≡ true
  pub saved : spsr c' ≡ c.cpsr
  pub link : get_or c'.regs 14 0 ≡ return_addr
  pub pc : get_or c'.regs 15 0 ≡ vector
  pub flushed : c'.pipeline_flushed ≡ true
  pub rest :
      (n : CpuMode) (r : ℕ)
      → r < 15
      → (r ≢ 14) ⊎ (bank_index n ≢ bank_index m)
      → view n r c' ≡ view n r c
  pub shape : HasShape c'

module _ (m : CpuMode) (ra vector : ℕ) (c : Cpu) (h : HasShape c) (x : IsException m) where
  inner : Cpu
  inner = set_spsr c.cpsr (switch_mode m c)

  inner-mode : current_mode inner ≡ m
  unfolding inner set_spsr
  inner-mode = elim (Bool-cases (has_spsr (current_mode (switch_mode m c)))) [
    | inl e ↦ rw e (current_mode-switch_mode m c)
    | inr e ↦ rw e (current_mode-switch_mode m c)
  ]

  final-mode : mode (disable_irq (set_thumb false inner.cpsr)) ≡ m
  unfolding set_thumb
  final-mode =
      mode-disable_irq (set_bit 5 false inner.cpsr)
      ∙ mode-set_bit 5 false inner.cpsr (omega arith) (omega arith)
      ∙ inner-mode

  inner-saved : get_or inner.banked.spsr (spsr_index m) no_psr ≡ c.cpsr
  unfolding inner set_spsr
  inner-saved =
      rw (current_mode-switch_mode m c, x)
        (get_or-set_self (switch_mode m c).banked.spsr (spsr_index m) c.cpsr no_psr
          (omega (arith, spsr_index-lt m, (switch_mode-HasShape m h).spsr)))

  inner-shape : HasShape inner
  unfolding inner set_spsr
  inner-shape =
      let s = switch_mode-HasShape m h in
      rw (current_mode-switch_mode m c, x)
        (record {
          regs = s.regs;
          sp = s.sp;
          lr = s.lr;
          fiq = s.fiq;
          usr = s.usr;
          spsr = length-set (switch_mode m c).banked.spsr (spsr_index m) c.cpsr ∙ s.spsr;
        })

  inner-view : (n : CpuMode) (r : ℕ) → r < 16 → view_in m n r inner ≡ view n r c
  inner-view n r l =
      sym (ap (λ (t : CpuMode). view_in t n r inner) inner-mode)
      ∙ unfold view inner in
        (view-set_spsr n r c.cpsr (switch_mode m c) ∙ view-switch_mode n m r c h l)

  enter-HasEntered : HasEntered m ra vector c (enter m ra vector c)
  unfolding enter inner set_thumb thumb irq_disabled spsr view_in view
  enter-HasEntered = record {
    in_mode = final-mode;
    arm =
        disable_irq-bit 5 (set_bit 5 false inner.cpsr)
        ∙ set_bit-bit 5 5 false inner.cpsr (omega arith) (omega arith);
    masked = disable_irq-bit 7 (set_bit 5 false inner.cpsr);
    saved = rw (final-mode, x) inner-saved;
    link =
        get_or-set_ne (set inner.regs 14 ra) 15 14 vector 0 (omega arith)
        ∙ get_or-set_self inner.regs 14 ra 0 (omega (arith, inner-shape.regs));
    pc =
        get_or-set_self (set inner.regs 14 ra) 15 vector 0
          (omega (arith, inner-shape.regs, length-set inner.regs 14 ra));
    flushed = refl;
    rest = λ n r l q.
        ap (λ (t : CpuMode). view_in t n r (enter m ra vector c)) final-mode
        ∙ view_in-write m n r ra vector inner (omega arith) q
        ∙ inner-view n r (omega arith);
    shape = record {
      regs =
          length-set (set inner.regs 14 ra) 15 vector
          ∙ length-set inner.regs 14 ra
          ∙ inner-shape.regs;
      sp = inner-shape.sp;
      lr = inner-shape.lr;
      fiq = inner-shape.fiq;
      usr = inner-shape.usr;
      spsr = inner-shape.spsr;
    };
  }

-- A software interrupt enters Supervisor mode at 0x08 with the address of the next instruction as
-- its return address, and leaves the rest as each mode saw it.
pub software_interrupt-HasEntered :
    (c : Cpu)
    → HasShape c
    → HasEntered supervisor
        (if thumb c.cpsr
          then wrapping_sub (get_or c.regs 15 0) 2
          else wrapping_sub (get_or c.regs 15 0) 4)
        0x08
        c
        (software_interrupt c)
unfolding software_interrupt
software_interrupt-HasEntered c h = enter-HasEntered supervisor _ 0x08 c h (unfold has_spsr in refl)

pub handle_interrupt-HasEntered :
    (c : Cpu)
    → HasShape c
    → HasEntered irq
        (if thumb c.cpsr then get_or c.regs 15 0 else wrapping_sub (get_or c.regs 15 0) 4)
        0x18
        c
        (handle_interrupt c).0
unfolding handle_interrupt
handle_interrupt-HasEntered c h = enter-HasEntered irq _ 0x18 c h (unfold has_spsr in refl)
