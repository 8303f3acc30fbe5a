-- ===== src/Timer/Restart.antt =====
-- Writes of the control register, and what a tick makes of a prescaler counter out of range.
use vibe_gba.Prelude.{ℕ, ◌+◌, ◌/◌, ◌%◌, ◌^◌, ◌<◌, ◌≡◌, refl, arith}
use vibe_gba.Prelude.{Bool, true, false}
use native.Mathlib.Nat.{mod-lt}
use vibe_gba.Timer.{Timer, enabled, set_control, prescaler, increment_timer, advance, tick_one}
use vibe_gba.Timer.Count.{IsWord}
use vibe_gba.Timer.Cycles.{prescaler_bounds}
use vibe_gba.Timer.Predict.{IsRunning, counts}

prescaler-ext : (t u : Timer) → t.control ≡ u.control → prescaler t ≡ prescaler u
unfolding prescaler
prescaler-ext t u e = rw e

-- Only the counter changes, and it stays 16 bits wide.
increment_timer-frame :
    (k : ℕ) (t : Timer)
    → ((increment_timer t k).0.counter < 65536)
      × ((increment_timer t k).0.reload ≡ t.reload)
      × ((increment_timer t k).0.control ≡ t.control)
      × ((increment_timer t k).0.prescaler_counter ≡ t.prescaler_counter)
unfolding increment_timer
increment_timer-frame k t = ground arith

-- `advance` leaves a timer that runs: the remainder brings any prescaler counter below the limit.
pub advance-IsRunning : (k : ℕ) (t : Timer) → IsWord t → IsRunning (advance k t).0
unfolding advance
advance-IsRunning k t v =
    let elapsed = (t.prescaler_counter + k) % 2 ^ 32 in
    let t' : Timer = record t { prescaler_counter = elapsed % prescaler t } in
    let below = mod-lt elapsed {m = prescaler t} (prescaler_bounds t).0 in
    ground (
      arith,
      increment_timer-frame (elapsed / prescaler t) t',
      prescaler-ext (increment_timer t' (elapsed / prescaler t)).0 t,
      prescaler-ext t' t refl,
    )

-- Every timer with 16-bit registers that counts cycles runs after `tick`'s round for it, whatever
-- its prescaler counter was: the condition of the prediction is restored by one tick.
pub tick_one-IsRunning :
    (i cycles : ℕ) (prev : Bool) {t : Timer}
    → IsWord t
    → counts i t ≡ true
    → IsRunning (tick_one i prev cycles t).0
unfolding tick_one
tick_one-IsRunning i cycles prev {t} v c = ground (arith, advance-IsRunning cycles t v)

-- A start bit that goes from 0 to 1 leaves a timer that runs, its counter at the reload value.
pub set_control-starts :
    (value : ℕ) {t : Timer}
    → IsWord t
    → enabled t ≡ false
    → enabled (set_control value t) ≡ true
    → IsRunning (set_control value t) × ((set_control value t).counter ≡ t.reload)
unfolding set_control
set_control-starts value {t} v off on = ground (
  arith,
  prescaler_bounds (record t { control = value; counter = t.reload; prescaler_counter = 0 }),
)
