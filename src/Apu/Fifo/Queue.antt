-- ===== src/Apu/Fifo/Queue.antt =====
-- What a sound FIFO promises: a queue of at most 32 samples, oldest first, beside the sample that
-- is playing.
use vibe_gba.Prelude.{Bool, List, [], ◌∷◌, ◌++◌, ltb, leb, if◌then◌else◌, length}
use vibe_gba.Prelude.Int.{ℤ}

pub record Sound : Type 0 where
  pub waiting : List ℤ
  pub playing : ℤ

-- A sample that does not fit is dropped.
unfoldable pub offer : ℤ → Sound → Sound
offer sample q =
    if ltb (length q.waiting) 32 then record q { waiting = q.waiting ++ (sample ∷ []) } else q

next : List ℤ → ℤ → Sound
next [] playing = record { waiting = []; playing = playing }
next (x ∷ xs) playing = record { waiting = xs; playing = x }

-- The next sample starts; with none waiting the last one goes on. Half a queue or less asks for
-- a refill.
unfoldable pub tick : Sound → Sound × Bool
unfolding next
tick q = let q' = next q.waiting q.playing in (q', leb (length q'.waiting) 16)

-- The samples of a 32-bit write, in order.
unfoldable pub offer_all : List ℤ → Sound → Sound
offer_all [] q = q
offer_all (x ∷ xs) q = offer_all xs (offer x q)
