-- ===== src/Arm7tdmi/Cpu/Examples.antt =====
-- The processor after a start without the BIOS, in System mode.
use vibe_gba.Prelude.{ℕ, ◌^◌, ◌<◌, ◌≡◌, ◌≢◌, ◌⊎◌, refl, arith, ◌&&◌, ◌==◌, if◌then◌else◌, get_or}
use vibe_gba.Arm7tdmi.Psr
use vibe_gba.Arm7tdmi.Psr.{
  CpuMode, irq, fiq, system, supervisor, bank_index, thumb, mode, from_bits, mode_bits, is_mode,
  set_mode,
}
use vibe_gba.Arm7tdmi.Cpu.{
  new, new_banked, new_skip_bios, even, wrapping_sub, switch_mode, write_user_reg,
  software_interrupt, bank_out, swap_fiq, bank_in,
}
use vibe_gba.Arm7tdmi.Cpu.Shape.{HasShape}
use vibe_gba.Arm7tdmi.Cpu.View.{view}
use vibe_gba.Arm7tdmi.Cpu.Banking.{view-switch_mode}
use vibe_gba.Arm7tdmi.Cpu.User.{shares, view-write_user_reg}
use vibe_gba.Arm7tdmi.Cpu.Exception.{HasEntered, software_interrupt-HasEntered}
use vibe_gba.Arm7tdmi.Cpu.Return.{interrupt_and_return, ahead, handle_interrupt-set_reg_with_flags}

new_skip_bios-HasShape : HasShape new_skip_bios
unfolding new_skip_bios new new_banked bank_index
new_skip_bios-HasShape = record {
  regs = refl;
  sp = refl;
  lr = refl;
  fiq = refl;
  usr = refl;
  spsr = refl;
}

test_irq_stack : get_or (switch_mode irq new_skip_bios).regs 13 0 ≡ 0x03007fa0
unfolding switch_mode new_skip_bios new new_banked bank_index is_mode mode_bits bank_out swap_fiq
    bank_in set_mode mode from_bits Psr.new
test_irq_stack = refl

view-switch_mode_example :
    view system 13 (switch_mode irq new_skip_bios) ≡ view system 13 new_skip_bios
view-switch_mode_example =
    view-switch_mode system irq 13 new_skip_bios new_skip_bios-HasShape (omega arith)

view-write_user_reg_example :
    view fiq 9 (write_user_reg 9 7 new_skip_bios)
    ≡ (if 9 == 9 && shares fiq 9 then 7 else view fiq 9 new_skip_bios)
view-write_user_reg_example =
    view-write_user_reg fiq 9 9 7 new_skip_bios new_skip_bios-HasShape (omega arith)

software_interrupt-HasEntered_example :
    HasEntered supervisor
      (if thumb new_skip_bios.cpsr
        then wrapping_sub (get_or new_skip_bios.regs 15 0) 2
        else wrapping_sub (get_or new_skip_bios.regs 15 0) 4)
      0x08
      new_skip_bios
      (software_interrupt new_skip_bios)
software_interrupt-HasEntered_example =
    software_interrupt-HasEntered new_skip_bios new_skip_bios-HasShape

pc-lt : get_or new_skip_bios.regs 15 0 < 2 ^ 32
unfolding new_skip_bios new
pc-lt = omega arith

handle_interrupt-set_reg_with_flags_example :
    ((interrupt_and_return new_skip_bios).cpsr ≡ new_skip_bios.cpsr)
    × (get_or (interrupt_and_return new_skip_bios).regs 15 0
        ≡ even (wrapping_sub (get_or new_skip_bios.regs 15 0) (ahead new_skip_bios)))
    × ((n : CpuMode) (r : ℕ)
        → r < 15
        → (r ≢ 14) ⊎ (bank_index n ≢ bank_index irq)
        → view n r (interrupt_and_return new_skip_bios) ≡ view n r new_skip_bios)
handle_interrupt-set_reg_with_flags_example =
    handle_interrupt-set_reg_with_flags new_skip_bios new_skip_bios-HasShape pc-lt
