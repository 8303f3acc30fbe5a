-- ===== src/Scheduler/Examples.antt =====
-- A queue of three events.
use vibe_gba.Prelude.{◌≡◌, refl, some, [], ◌∷◌}
use vibe_gba.Scheduler.{
  Event, Scheduler, h_blank, h_blank_end, apu_sample, pop_if_ready, pop, or_first, take_ready,
}
use vibe_gba.Scheduler.Earliest.{IsDue, pop_if_ready-IsDue}

abbrev sample : Event
sample = record { fire_time = 512; kind = apu_sample }

abbrev queue : Scheduler
queue = record {
  timestamp = 1000;
  events =
      record { fire_time = 1006; kind = h_blank }
      ∷ sample
      ∷ record { fire_time = 1232; kind = h_blank_end }
      ∷ [];
}

test_sample_first : (pop_if_ready queue).1 ≡ some sample
unfolding pop_if_ready pop or_first take_ready
test_sample_first = refl

pop_if_ready-IsDue_example : IsDue queue (pop_if_ready queue)
pop_if_ready-IsDue_example = pop_if_ready-IsDue queue
