-- ===== src/Arm7tdmi/Cpu/Return.antt =====
-- The return from an exception, and an interrupt that is taken and returned from at once.
use vibe_gba.Prelude.{
  ℕ, ◌^◌, ◌<◌, ◌≡◌, ◌≢◌, ◌⊎◌, refl, sym, ap, ◌∙◌, arith, Bool, true, false, if◌then◌else◌, get_or,
  get_or-set_self, get_or-set_ne, set,
}
use vibe_gba.Arm7tdmi.Psr.{CpuMode, irq, bank_index, Psr, mode, thumb}
use vibe_gba.Arm7tdmi.Cpu.{
  Cpu, switch_mode, spsr, handle_interrupt, even, wrapping_sub, branch, set_reg_with_flags,
}
use vibe_gba.Arm7tdmi.Cpu.Shape.{HasShape, switch_mode-HasShape}
use vibe_gba.Arm7tdmi.Cpu.View.{view_in, view}
use vibe_gba.Arm7tdmi.Cpu.Banking.{current_mode-switch_mode, view-switch_mode}
use vibe_gba.Arm7tdmi.Cpu.Exception.{handle_interrupt-HasEntered}

view_in-pc :
    (now m : CpuMode) (r b : ℕ) (c : Cpu)
    → r < 15
    → view_in now m r (record c { regs = set c.regs 15 b }) ≡ view_in now m r c
unfolding view_in
view_in-pc now m r b c p = ground (arith, get_or-set_ne c.regs 15 r b 0)

-- What the return leaves: the saved status word, the address, and every register below the program
-- counter as each mode saw it.
pub record HasReturned (address : ℕ) (saved : Psr) (c c' : Cpu) : Type 0 where
  pub cpsr : c'.cpsr ≡ saved
  pub pc : get_or c'.regs 15 0 ≡ address
  pub flushed : c'.pipeline_flushed ≡ true
  pub rest : (n : CpuMode) (r : ℕ) → r < 15 → view n r c' ≡ view n r c

pub set_reg_with_flags-HasReturned :
    (val : ℕ) (c : Cpu)
    → HasShape c
    → HasReturned (even val) (spsr c) c (set_reg_with_flags 15 val true c)
unfolding set_reg_with_flags branch view view_in
set_reg_with_flags-HasReturned val c h =
    let to = mode (spsr c) in
    let moved = switch_mode to c in
    record {
      cpsr = refl;
      pc =
          get_or-set_self moved.regs 15 (even val) 0
            (omega (arith, (switch_mode-HasShape to h).regs));
      flushed = refl;
      rest = λ n r l.
          view_in-pc to n r (even val) moved l
          ∙ sym (ap (λ (t : CpuMode). view_in t n r moved) (current_mode-switch_mode to c))
          ∙ view-switch_mode n to r c h (omega arith);
    }

-- The program counter runs ahead of the interrupted instruction by 4 in THUMB state and by 8 in
-- ARM state.
pub ahead : Cpu → ℕ
ahead c = if thumb c.cpsr then 4 else 8

back_twice : (pc : ℕ) → pc < 2 ^ 32 → wrapping_sub (wrapping_sub pc 4) 4 ≡ wrapping_sub pc 8
back_twice pc h = omega arith

return_address :
    (t : Bool) (pc : ℕ)
    → pc < 2 ^ 32
    → wrapping_sub (if t then pc else wrapping_sub pc 4) 4 ≡ wrapping_sub pc (if t then 4 else 8)
return_address true pc h = refl
return_address false pc h = back_twice pc h

pub interrupt_and_return : Cpu → Cpu
interrupt_and_return c =
    let c' = (handle_interrupt c).0 in
    set_reg_with_flags 15 (wrapping_sub (get_or c'.regs 14 0) 4) true c'

-- An interrupt that returns at once by `SUBS PC, LR, #4`: the status word is what it was, the
-- program counter is the address of the interrupted instruction with bit 0 clear, and every other
-- register is what each mode saw before, except the link register of the mode IRQ.
pub handle_interrupt-set_reg_with_flags :
    (c : Cpu)
    → HasShape c
    → get_or c.regs 15 0 < 2 ^ 32
    → ((interrupt_and_return c).cpsr ≡ c.cpsr)
      × (get_or (interrupt_and_return c).regs 15 0
          ≡ even (wrapping_sub (get_or c.regs 15 0) (ahead c)))
      × ((n : CpuMode) (r : ℕ)
          → r < 15
          → (r ≢ 14) ⊎ (bank_index n ≢ bank_index irq)
          → view n r (interrupt_and_return c) ≡ view n r c)
unfolding interrupt_and_return ahead
handle_interrupt-set_reg_with_flags c h l =
    let c' = (handle_interrupt c).0 in
    let entered = handle_interrupt-HasEntered c h in
    let returned =
      set_reg_with_flags-HasReturned (wrapping_sub (get_or c'.regs 14 0) 4) c' entered.shape in
    (
      returned.cpsr ∙ entered.saved,
      returned.pc
          ∙ ap (λ (t : ℕ). even (wrapping_sub t 4)) entered.link
          ∙ ap even (return_address (thumb c.cpsr) (get_or c.regs 15 0) l),
      λ n r p q. returned.rest n r p ∙ entered.rest n r p q,
    )
