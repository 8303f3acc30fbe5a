-- ===== src/Apu/Fifo/Examples.antt =====
-- Runs of the sound FIFO, and its theorems at concrete inputs.
use vibe_gba.Prelude.{◌≡◌, refl, arith, true, false, List, [], ◌∷◌}
use vibe_gba.Prelude.Int.{pos, negsuc}
use vibe_gba.Apu.Fifo.{FifoChannel, new, push_byte, push_bytes, write32, pop_sample, reset}
use vibe_gba.Apu.Fifo.Valid.{IsValid}
use vibe_gba.Apu.Fifo.Trace.{FifoOp, store_word, timer_tick, clear, run, spec_run, run_refines}

abbrev three : FifoChannel
three = record new { write_pos = 1; read_pos = 30; count = 3 }

abbrev script : List FifoOp
script = store_word 0x010203fe ∷ timer_tick ∷ timer_tick ∷ clear ∷ timer_tick ∷ []

run-script :
    run script new
    ≡ record { sample = pos 0; refill = false }
      ∷ record { sample = negsuc 1; refill = true }
      ∷ record { sample = pos 3; refill = true }
      ∷ record { sample = pos 0; refill = false }
      ∷ record { sample = pos 0; refill = true }
      ∷ []
unfolding run new write32 push_bytes push_byte pop_sample reset
run-script = refl

three-IsValid : IsValid three
unfolding new
three-IsValid = omega arith

run_refines_example : run script new ≡ spec_run script (record { waiting = []; playing = pos 0 })
run_refines_example = run_refines script
