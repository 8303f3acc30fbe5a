-- ===== src/Arm7tdmi/Step.antt =====
-- gba-core/src/arm7tdmi/mod.rs: the step of the processor and its pipeline. The traces and probes
-- that environment variables switch on are left out, and the gate of the interrupts with them.
use vibe_gba.Prelude.{
  ℕ, ◌+◌, ◌/◌, ◌%◌, ◌^◌, true, false, not, ◌&&◌, ◌==◌, if◌then◌else◌, ltb, leb, [], ◌∷◌, get_or,
  set,
}
use vibe_gba.Bus.Port.{Port}
use vibe_gba.Arm7tdmi.Psr.{irq_disabled, thumb, check_condition}
use vibe_gba.Arm7tdmi.Cpu.{Cpu, even, wrapping_sub, handle_interrupt}
use vibe_gba.Arm7tdmi.Loops.{wrapping_add, word_aligned}
use vibe_gba.Arm7tdmi.Arm.{execute_arm}
use vibe_gba.Arm7tdmi.Thumb.{execute_thumb}

abbrev pub pc : Cpu → ℕ
pc c = get_or c.regs 15 0

-- The next two opcodes, with the program counter that goes with them.
unfoldable pub with_pipeline : ℕ → ℕ → ℕ → Cpu → Cpu
with_pipeline first second ahead c = record c {
  pipeline = first ∷ second ∷ [];
  regs = set c.regs 15 ahead;
}

module _ {S : Type 0} (port : Port S) where
  open port use {fetch16, fetch32}

  unfoldable pub advance_arm_pipeline : Cpu → S → Cpu × S
  unfolding with_pipeline
  advance_arm_pipeline c bus =
      let (bus', word) = fetch32 (pc c) true bus in
      (with_pipeline (get_or c.pipeline 1 0) word (wrapping_add (pc c) 4) c, bus')

  unfoldable pub advance_thumb_pipeline : Cpu → S → Cpu × S
  unfolding with_pipeline
  advance_thumb_pipeline c bus =
      let (bus', half) = fetch16 (pc c) true bus in
      (with_pipeline (get_or c.pipeline 1 0) half (wrapping_add (pc c) 2) c, bus')

  unfoldable pub refill_pipeline : Cpu → S → Cpu × S
  unfolding with_pipeline
  refill_pipeline c bus =
      let settled = port.break_sequential bus in
      if thumb c.cpsr
      then (let target = even (pc c) in
          let (bus', first) = fetch16 target false (port.set_last_pc target settled) in
          let (bus'', second) = fetch16 (wrapping_add target 2) true bus' in
          (
            record (with_pipeline first second (wrapping_add target 4) c) {
              pipeline_flushed = false;
            },
            bus'',
          ))
      else (let target = word_aligned (pc c) in
          let (bus', first) = fetch32 target false (port.set_last_pc target settled) in
          let (bus'', second) = fetch32 (wrapping_add target 4) true bus' in
          (
            record (with_pipeline first second (wrapping_add target 8) c) {
              pipeline_flushed = false;
            },
            bus'',
          ))

  unfoldable pub refill_if_flushed : Cpu → S → Cpu × S
  unfolding refill_pipeline
  refill_if_flushed c bus = if c.pipeline_flushed then refill_pipeline c bus else (c, bus)

  unfoldable pub step_arm : Cpu → S → Cpu × S × ℕ
  unfolding advance_arm_pipeline
  step_arm c bus =
      let opcode = get_or c.pipeline 0 0 in
      if not (check_condition (opcode / 2 ^ 28) c.cpsr)
      then (let (c', bus') = advance_arm_pipeline c bus in (c', bus', 1))
      else (let (c', bus', cycles) = execute_arm port opcode c bus in
          let (c'', bus'') =
            if not c'.pipeline_flushed then advance_arm_pipeline c' bus' else (c', bus') in
          (c'', bus'', cycles))

  unfoldable pub step_thumb : Cpu → S → Cpu × S × ℕ
  unfolding advance_thumb_pipeline
  step_thumb c bus =
      let (c', bus', cycles) = execute_thumb port (get_or c.pipeline 0 0 % 2 ^ 16) c bus in
      let (c'', bus'') =
        if not c'.pipeline_flushed then advance_thumb_pipeline c' bus' else (c', bus') in
      (c'', bus'', cycles)

  -- An interrupt that is pending and not masked is entered, which takes three cycles.
  unfoldable pub take_interrupt : Cpu → S → Cpu × S × ℕ
  take_interrupt c bus =
      if port.has_pending bus && not (irq_disabled c.cpsr)
      then (let (c', latch) = handle_interrupt (record c { irq_entries = c.irq_entries + 1 }) in
          (record c' { halted = false }, port.set_bios_latch latch bus, 3))
      else (c, bus, 0)

  -- The BIOS latch when the interrupt stub is left.
  unfoldable pub leave_bios : ℕ → ℕ → S → S
  leave_bios pre_pc post_pc bus =
      if ltb pre_pc 0x4000 && leb 0x4000 post_pc
      then if pre_pc == 0x2c
        then port.set_bios_latch 0xe25ef004 bus
        else if pre_pc == 0x34
        then port.set_bios_latch 0xe55ec002 bus
        else bus
      else bus

  -- From the harvest of the cycles of the fetches on.
  unfoldable pub step_instruction : Cpu → S → ℕ → Cpu × S × ℕ
  unfolding leave_bios step_arm step_thumb
  step_instruction c bus irq_entry_cycles =
      let (bus1, prior_mem_cycles) = port.take_mem_cycles bus in
      let (c', bus2, cycles) = if thumb c.cpsr then step_thumb c bus1 else step_arm c bus1 in
      let bus3 = leave_bios (pc c) (pc c') bus2 in
      let (bus4, mem_cycles) = port.take_mem_cycles bus3 in
      let total = cycles + prior_mem_cycles + mem_cycles + irq_entry_cycles in
      (c', port.tick_backup total (port.prefetch_advance total bus4), total)

  -- From the test of `halted` on.
  unfoldable pub run_unless_halted : Cpu → S → ℕ → Cpu × S × ℕ
  unfolding refill_if_flushed step_instruction
  run_unless_halted c bus irq_entry_cycles =
      if c.halted
      then (c, port.tick_backup 1 bus, 1)
      else (let (c', bus') = refill_if_flushed c bus in step_instruction c' bus' irq_entry_cycles)

  unfoldable pub step : Cpu → S → Cpu × S × ℕ
  unfolding refill_if_flushed take_interrupt run_unless_halted
  step c bus =
      let (c1, bus1) =
        refill_if_flushed c
          (port.set_last_pc (wrapping_sub (pc c) (if thumb c.cpsr then 4 else 8)) bus) in
      let (c2, bus2, irq_entry_cycles) = take_interrupt c1 bus1 in
      run_unless_halted c2 bus2 irq_entry_cycles
