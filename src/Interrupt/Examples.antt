-- ===== src/Interrupt/Examples.antt =====
-- The interrupt controller at concrete events.
use vibe_gba.Prelude.{◌≡◌, refl, arith, true, ◌&&◌, List, [], ◌∷◌}
use vibe_gba.Prelude.Bits.{bit_set}
use vibe_gba.Prelude.Lines.{any_below}
use vibe_gba.Interrupt.{
  InterruptController, v_blank, timer1, has_pending, request_irq, number, write_if, acknowledge,
}
use vibe_gba.Interrupt.Flags.{
  Event, request, write_flags, handle, run, line, AllWords, has_pending-lines,
}

abbrev enabled : InterruptController
enabled = record { ie = 0x11; ir = 0; ime = true }

abbrev events : List Event
events = request v_blank ∷ request timer1 ∷ write_flags 1 ∷ []

test_timer_pends : has_pending (run events enabled) ≡ true
unfolding run handle has_pending request_irq number write_if acknowledge
test_timer_pends = refl

events-AllWords : AllWords events
unfolding AllWords
events-AllWords = (omega arith, omega arith)

has_pending-lines_example :
    has_pending (run events enabled)
    ≡ (true && any_below 16 (λ k. bit_set 0x11 k && line k events (bit_set 0 k)))
has_pending-lines_example = has_pending-lines events enabled (omega arith) events-AllWords
