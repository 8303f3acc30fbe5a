-- ===== src/Bus/Timing/Credit.antt =====
-- The credit of the prefetch buffer as the cycles since it was last restarted.
use vibe_gba.Prelude.{ℕ, ◌+◌, List, [], ◌∷◌}
use vibe_gba.Bus.Timing.{Prefetch, advance, restart}

pub data Activity : Type 0 where
  busy : ℕ → Activity
  branch : Activity

pub perform : ℕ → Activity → Prefetch → Prefetch
perform max_credit (busy cycles) p = advance cycles max_credit p
perform max_credit branch p = restart p

pub run : ℕ → List Activity → Prefetch → Prefetch
unfolding perform
run max_credit [] p = p
run max_credit (a ∷ as') p = run max_credit as' (perform max_credit a p)

-- The cycles since the last branch, on top of those there were.
pub since_branch : List Activity → ℕ → ℕ
since_branch [] cycles = cycles
since_branch (busy more ∷ as') cycles = since_branch as' (cycles + more)
since_branch (branch ∷ as') cycles = since_branch as' 0
