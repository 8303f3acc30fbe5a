-- ===== src/Bus/Timing/Examples.antt =====
-- The wait states and the prefetch credit at concrete values.
use vibe_gba.Prelude.{List, [], ◌∷◌}
use vibe_gba.Bus.Timing.Credit.{Activity, busy, branch}

abbrev activities : List Activity
activities = busy 3 ∷ branch ∷ busy 4 ∷ busy 90 ∷ []
