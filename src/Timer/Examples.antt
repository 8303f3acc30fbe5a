-- ===== src/Timer/Examples.antt =====
-- Runs of the timers, and their theorems at concrete inputs.
use vibe_gba.Prelude.{◌≡◌, refl, arith, true, false, []}
use vibe_gba.Timer.{
  Timer, Timers, set_control, enabled, cascade, prescaler, increment_timer, advance,
}
use vibe_gba.Timer.Count.{IsWord, ticks, increment_timer-eq-ticks}
use vibe_gba.Timer.Cycles.{cycles, advance-eq-cycles}
use vibe_gba.Timer.Predict.{IsRunning, counts, pair_first}

abbrev near_end : Timer
near_end = record { reload = 0xfff0; counter = 0xfffc; control = 0x80; prescaler_counter = 0 }

abbrev cascading : Timer
cascading = record { reload = 0; counter = 7; control = 0x84; prescaler_counter = 0 }

near_end-IsWord : IsWord near_end
near_end-IsWord = omega arith

near_end-IsRunning : IsRunning near_end
unfolding prescaler
near_end-IsRunning = omega arith

test_timer_overflow : let (t, n) = increment_timer near_end 36 in (t.counter ≡ 0xfff0) × (n ≡ 3)
unfolding increment_timer
test_timer_overflow = (refl, refl)

test_timer_prescaler : (advance 63 (record near_end { control = 0x81 })).0.counter ≡ 0xfffc
unfolding advance prescaler increment_timer
test_timer_prescaler = refl

increment_timer-eq-ticks_example : increment_timer near_end 36 ≡ ticks 36 (near_end, 0)
increment_timer-eq-ticks_example = increment_timer-eq-ticks 36 near_end-IsWord (omega arith)

advance-eq-cycles_example : advance 36 near_end ≡ cycles 36 (near_end, 0)
advance-eq-cycles_example =
    advance-eq-cycles 36 near_end-IsWord near_end-IsRunning.started (omega arith)

abbrev two_timers : Timers
two_timers = pair_first near_end cascading []

on_bit : enabled cascading ≡ true
unfolding enabled
on_bit = refl

cascade_bit : cascade cascading ≡ true
unfolding cascade
cascade_bit = refl

counts_bit : counts 0 near_end ≡ true
unfolding enabled cascade
counts_bit = refl

abbrev stopped : Timer
stopped = record near_end { control = 0 }

off_bit : enabled stopped ≡ false
unfolding enabled
off_bit = refl

starts_bit : enabled (set_control 0x80 stopped) ≡ true
unfolding enabled set_control
starts_bit = refl

abbrev slow : Timer
slow = record { reload = 0; counter = 0xffff; control = 0x83; prescaler_counter = 700 }
