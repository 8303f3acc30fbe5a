-- ===== src/Arm7tdmi/Wake.antt =====
-- The sleep of a halted processor, of the step of gba-core/src/arm7tdmi/mod.rs, in a loop that lets the
-- rest of the console run between its steps.
use vibe_gba.Prelude.{ℕ, zero, suc, ◌+◌, ◌≡◌, false, if◌then◌else◌, get_or}
use vibe_gba.Bus.Port.{Port}
use vibe_gba.Arm7tdmi.Psr.{thumb, irq}
use vibe_gba.Arm7tdmi.Cpu.{Cpu, handle_interrupt, wrapping_sub}
use vibe_gba.Arm7tdmi.Cpu.Exception.{HasEntered}
use vibe_gba.Arm7tdmi.Step.{pc, refill_pipeline, step_instruction, step}

unfoldable pub iterate : {S : Type 0} → (S → S) → ℕ → S → S
iterate f zero s = s
iterate f (suc n) s = iterate f n (f s)

-- `n` steps of the processor, after each of which the rest of the console runs for its cycles: the
-- processor, the bus and the cycles in all.
pub run : {S : Type 0} → Port S → (ℕ → S → S) → ℕ → Cpu → S → Cpu × S × ℕ
run port others zero c bus = (c, bus, 0)
run port others (suc n) c bus =
    let (c', bus', cycles) = step port c bus in
    let (c'', bus'', rest) = run port others n c' (others cycles bus') in
    (c'', bus'', cycles + rest)

module _ {S : Type 0} (port : Port S) (others : ℕ → S → S) (c : Cpu) where
  -- The bus at the test for interrupts.
  abbrev tested : S → S
  tested bus = port.set_last_pc (wrapping_sub (pc c) (if thumb c.cpsr then 4 else 8)) bus

  -- A step asleep, and the rest of the console after it.
  abbrev pub idle : S → S
  idle bus = others 1 (port.tick_backup 1 (tested bus))

  abbrev woken : Cpu
  woken = record (handle_interrupt (record c { irq_entries = c.irq_entries + 1 })).0 {
    halted = false;
  }

  -- The bus of a processor just woken.
  abbrev woken_bus : S → S
  woken_bus bus = port.set_bios_latch 0xe25ef004 (tested bus)

  abbrev at_vector : S → Cpu × S
  at_vector bus = refill_pipeline port woken (woken_bus bus)

  -- Asleep for `n` steps of a cycle each, with nothing changed; then in the interrupt handler, with the
  -- pipeline at the vector, whose instruction the same step executes.
  pub record WakesAfter (n : ℕ) (bus : S) : Type 0 where
    pub asleep : run port others n c bus ≡ (c, iterate idle n bus, n)
    pub entered : HasEntered irq (if thumb c.cpsr then pc c else wrapping_sub (pc c) 4) 0x18 c woken
    pub ahead : pc (at_vector (iterate idle n bus)).0 ≡ 0x20
    pub vector :
        get_or (at_vector (iterate idle n bus)).0.pipeline 0 0
        ≡ (port.fetch32 0x18 false
            (port.set_last_pc 0x18 (port.break_sequential (woken_bus (iterate idle n bus))))).1
    pub awake :
        step port c (iterate idle n bus)
        ≡ step_instruction port
            (at_vector (iterate idle n bus)).0
            (at_vector (iterate idle n bus)).1
            3
