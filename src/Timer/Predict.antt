-- ===== src/Timer/Predict.antt =====
-- `cycles_to_next_fifo_overflow` against the ticks that it predicts.
use vibe_gba.Prelude.{ℕ, ◌<◌}
use vibe_gba.Prelude.{Bool, not, ◌&&◌, ltb, List, ◌∷◌}
use vibe_gba.Timer.{Timer, Timers, enabled, cascade, prescaler}
use vibe_gba.Timer.Count.{IsWord}

-- The registers are 16 bits wide, and the prescaler counter is below its limit.
pub record IsRunning (t : Timer) : Type 0 where
  pub words : IsWord t
  pub started : t.prescaler_counter < prescaler t

-- Whether the loop of `cycles_to_next_fifo_overflow` looks at timer `i`.
abbrev pub counts : ℕ → Timer → Bool
counts i t = enabled t && not (cascade t && ltb 0 i)

module _ (t u : Timer) (rest : List Timer) where
  abbrev pub pair_first : Timers
  pair_first = record { timers = t ∷ u ∷ rest }
