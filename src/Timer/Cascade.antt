-- ===== src/Timer/Cascade.antt =====
-- A cascading timer counts overflows of the timer below it.
use vibe_gba.Prelude.{ℕ, ◌<◌, ◌≡◌, arith}
use vibe_gba.Prelude.{Bool, true, false, ltb, if◌then◌else◌}
use vibe_gba.Timer.{Timer, enabled, cascade, tick_one}
use vibe_gba.Timer.Count.{IsWord, one_tick, ticks, increment_timer-eq-ticks}

-- A cascading timer above timer 0 goes up by exactly one in a call of `tick` in which the timer
-- below it overflowed, however often it did, and stands still in any other.
pub tick_one-cascade :
    (i cycles : ℕ) (prev : Bool) {t : Timer}
    → 0 < i
    → IsWord t
    → enabled t ≡ true
    → cascade t ≡ true
    → tick_one i prev cycles t
      ≡ (if prev then ((one_tick (t, 0)).0, ltb 0 (one_tick (t, 0)).1) else (t, false))
unfolding tick_one ticks
tick_one-cascade i cycles prev {t} pos v on c = ground (arith, increment_timer-eq-ticks 1 v)
