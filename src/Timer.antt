-- ===== src/Timer.antt =====
-- gba-core/src/timer.rs: the four timers, their prescalers, cascades and overflows. Tracing to
-- stderr is left out.
pub mod Count
pub mod Cycles
pub mod Predict
pub mod Cascade
pub mod Restart
mod Examples
use vibe_gba.Prelude.{ℕ, ◌+◌, ◌-◌, ◌*◌, ◌/◌, ◌%◌, ◌^◌, min, Bool, true, false, not, ◌&&◌, ◌||◌}
use vibe_gba.Prelude.{List, [], ◌∷◌, ltb, leb, ◌==◌, if◌then◌else◌, get_or, set}
use vibe_gba.Prelude.Bits.{u16, u32, bit_set}

-- `reload`, `counter` and `control` are `u16`, `prescaler_counter` is `u32`.
pub record Timer : Type 0 where
  pub reload : ℕ
  pub counter : ℕ
  pub control : ℕ
  pub prescaler_counter : ℕ

abbrev pub new_timer : Timer
new_timer = record { reload = 0; counter = 0; control = 0; prescaler_counter = 0 }

pub enabled : Timer → Bool
enabled t = bit_set t.control 7

pub cascade : Timer → Bool
cascade t = bit_set t.control 2

pub irq_enabled : Timer → Bool
irq_enabled t = bit_set t.control 6

abbrev pub prescaler_dividers : List ℕ
prescaler_dividers = 1 ∷ 64 ∷ 256 ∷ 1024 ∷ []

-- The index `control & 3` is in range, so the default is never read.
pub prescaler : Timer → ℕ
prescaler t = get_or prescaler_dividers (t.control % 4) 1

pub record Timers : Type 0 where
  pub timers : List Timer

pub record TickResult : Type 0 where
  pub irqs : List Bool
  pub timer0_overflow : Bool
  pub timer1_overflow : Bool

unfoldable pub new : Timers
new = record { timers = new_timer ∷ new_timer ∷ new_timer ∷ new_timer ∷ [] }

-- `self.timers[id]`, for the ids 0 to 3 that the bus passes.
abbrev pub timer_at : Timers → ℕ → Timer
timer_at ts id = get_or ts.timers id new_timer

pub read_counter : Timers → ℕ → ℕ
read_counter ts id = (timer_at ts id).counter

pub write_reload : ℕ → ℕ → Timers → Timers
write_reload id value ts = record ts {
  timers = set ts.timers id (record (timer_at ts id) { reload = value });
}

-- A start bit that goes from 0 to 1 reloads the counter and restarts the prescaler.
pub set_control : ℕ → Timer → Timer
unfolding enabled
set_control value t =
    let t' = record t { control = value } in
    if not (enabled t) && enabled t'
    then record t' { counter = t'.reload; prescaler_counter = 0 }
    else t'

pub write_control : ℕ → ℕ → Timers → Timers
unfolding set_control
write_control id value ts = record ts {
  timers = set ts.timers id (set_control value (timer_at ts id));
}

-- The new timer, and how often it overflowed.
pub increment_timer : Timer → ℕ → Timer × ℕ
increment_timer t ticks =
    let total = u32 (t.counter + ticks) in
    let range = 65536 - t.reload in
    let remaining = total - 65536 in
    if leb 65536 total
    then if range == 0
      then (record t { counter = u16 t.reload }, ticks)
      else (record t { counter = u16 (t.reload + remaining % range) }, 1 + remaining / range)
    else (record t { counter = u16 total }, 0)

-- The normal mode: the prescaler divides the cycles.
pub advance : ℕ → Timer → Timer × ℕ
advance cycles t =
    let elapsed = u32 (t.prescaler_counter + cycles) in
    let ticks = elapsed / prescaler t in
    let t' = record t { prescaler_counter = elapsed % prescaler t } in
    if ltb 0 ticks then increment_timer t' ticks else (t', 0)

-- The body of the loop of `tick` for timer `i`: the timer, and whether it overflowed.
pub tick_one : ℕ → Bool → ℕ → Timer → Timer × Bool
tick_one i prev_overflow cycles t =
    if not (enabled t)
    then (t, false)
    else (let (t', overflows) =
          if cascade t && ltb 0 i
          then if prev_overflow then increment_timer t 1 else (t, 0)
          else advance cycles t in
        (t', ltb 0 overflows))

-- The loop of `tick` from timer `i` on. A round changes no timer but its own, so the timers that
-- are left are the list.
tick_from : ℕ → Bool → ℕ → List Timer → List Timer × List Bool × List Bool
tick_from i prev cycles [] = ([], [], [])
tick_from i prev cycles (t ∷ ts) =
    let (t', overflow) = tick_one i prev cycles t in
    let (ts', irqs, overflows) = tick_from (i + 1) overflow cycles ts in
    (t' ∷ ts', (overflow && irq_enabled t') ∷ irqs, overflow ∷ overflows)

pub tick : ℕ → Timers → Timers × TickResult
tick cycles ts =
    let (ts', irqs, overflows) = tick_from 0 false cycles ts.timers in
    (
      record { timers = ts' },
      record {
        irqs = irqs;
        timer0_overflow = get_or overflows 0 false;
        timer1_overflow = get_or overflows 1 false;
      },
    )

abbrev pub u32_max : ℕ
u32_max = 2 ^ 32 - 1

-- `prescaler - prescaler_counter` is a `u32` subtraction, which wraps in a release build; the
-- subtraction from 0x10000 cannot reach below 0.
pub cycles_to_overflow : Timer → ℕ
cycles_to_overflow t =
    let to_next_tick = u32 (prescaler t + 2 ^ 32 - t.prescaler_counter) in
    let ticks_to_overflow = 65536 - t.counter - 1 in
    u32 (to_next_tick + min (ticks_to_overflow * prescaler t) u32_max)

-- A round of the loop of `cycles_to_next_fifo_overflow`.
pub closer : ℕ → Timer → ℕ → ℕ
closer i t best =
    if not (enabled t) || (cascade t && ltb 0 i)
    then best
    else (if ltb (cycles_to_overflow t) best then cycles_to_overflow t else best)

pub cycles_to_next_fifo_overflow : Timers → ℕ
cycles_to_next_fifo_overflow ts = closer 1 (timer_at ts 1) (closer 0 (timer_at ts 0) u32_max)
