-- ===== src/Arm7tdmi/Thumb/Pops.antt =====
-- What POP does, without and with the program counter in its list.
use vibe_gba.Prelude.{ℕ, ◌+◌, ◌%◌, ◌^◌, ◌≡◌, refl, true, false, get_or}
use vibe_gba.Prelude.Bits.{bit_set}
use vibe_gba.Bus.Port.{Port}
use vibe_gba.Arm7tdmi.Cpu.{Cpu, even, branch}
use vibe_gba.Arm7tdmi.Loops.{for_each}
use vibe_gba.Arm7tdmi.Arm.Data.{put}
use vibe_gba.Arm7tdmi.Arm.Transfer.{Walk}
use vibe_gba.Arm7tdmi.Thumb.Transfer.{load_step, thumb_pop}

module _ {S : Type 0} (port : Port S) (opcode rl a : ℕ) (d : Cpu) (bus : S) where
  abbrev pub walk : Walk S
  walk = for_each 0 8 (load_step port rl) (record { addr = a; cpu = d; bus = bus })

  pub pop_without :
      bit_set opcode 8 ≡ false
      → opcode % 2 ^ 8 ≡ rl
      → get_or d.regs 13 0 ≡ a
      → (thumb_pop port opcode d bus).0 ≡ put 13 walk.addr walk.cpu
  unfolding thumb_pop
  pop_without e l p = rw (e, l, p) refl

  pub pop_with :
      bit_set opcode 8 ≡ true
      → opcode % 2 ^ 8 ≡ rl
      → get_or d.regs 13 0 ≡ a
      → (thumb_pop port opcode d bus).0
        ≡ put 13
            ((walk.addr + 4) % 2 ^ 32)
            (branch (even (port.read32 walk.addr walk.bus).1) walk.cpu)
  unfolding thumb_pop
  pop_with e l p = rw (e, l, p) refl
