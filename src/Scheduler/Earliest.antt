-- ===== src/Scheduler/Earliest.antt =====
-- A pop gives the earliest event, once it is due, and loses none.
use vibe_gba.Prelude.{
  ℕ, ◌+◌, ◌≤◌, ◌≡◌, refl, arith, Bool-cases, inl, inr, Option, none, some, List, [], ◌∷◌, leb,
}
use vibe_gba.Scheduler.{Event, Scheduler, or_first, pop, take_ready, pop_if_ready}

-- `rest` is `all` with one `e` taken out.
pub data TakenOut (e : Event) : List Event → List Event → Type 0 where
  first : {es : List Event} → TakenOut e es (e ∷ es)
  later : {x : Event} {rest es : List Event} → TakenOut e rest es → TakenOut e (x ∷ rest) (x ∷ es)

-- Every event fires at the time or after it.
pub AllFrom : ℕ → List Event → Type 0
AllFrom t [] = 0 ≤ 0
AllFrom t (e ∷ es) = (t ≤ e.fire_time) × AllFrom t es

AllFrom-le : (t u : ℕ) (es : List Event) → t ≤ u → AllFrom u es → AllFrom t es
unfolding AllFrom
AllFrom-le t u [] h a = a
AllFrom-le t u (e ∷ es) h (l, a) = (omega arith, AllFrom-le t u es h a)

-- What a pop gives.
pub IsEarliest : List Event → Option (Event × List Event) → Type 0
IsEarliest es none = es ≡ []
IsEarliest es (some (e, rest)) = TakenOut e rest es × AllFrom e.fire_time es

or_first-IsEarliest :
    (e : Event) (es : List Event) (r : Option (Event × List Event))
    → IsEarliest es r
    → IsEarliest (e ∷ es) (or_first e es r)
unfolding or_first IsEarliest AllFrom
or_first-IsEarliest e es none p = rw p (first, (omega arith, omega arith))
or_first-IsEarliest e es (some (x, rest)) (out, all) =
    elim (Bool-cases (leb e.fire_time x.fire_time)) [
      | inl b ↦
          rw b (first, (omega arith, AllFrom-le e.fire_time x.fire_time es (ground arith) all))
      | inr b ↦ rw b (later out, (ground arith, all))
    ]

pop-IsEarliest : (es : List Event) → IsEarliest es (pop es)
unfolding pop
pop-IsEarliest [] = unfold IsEarliest in refl
pop-IsEarliest (e ∷ es) = or_first-IsEarliest e es (pop es) (pop-IsEarliest es)

-- What `pop_if_ready` does to a scheduler: an event that it returns is due, none that was queued
-- fires earlier, and exactly it leaves the queue; when it returns none, every queued event is after
-- the timestamp and nothing changes.
pub IsDue : Scheduler → Scheduler × Option Event → Type 0
IsDue s (s', none) = (s' ≡ s) × AllFrom (s.timestamp + 1) s.events
IsDue s (s', some e) =
    (e.fire_time ≤ s.timestamp)
    × TakenOut e s'.events s.events
    × AllFrom e.fire_time s.events
    × (s'.timestamp ≡ s.timestamp)

take_ready-IsDue :
    (s : Scheduler) (r : Option (Event × List Event))
    → IsEarliest s.events r
    → IsDue s (take_ready r s)
unfolding take_ready IsDue IsEarliest
take_ready-IsDue s none p = (refl, rw p (unfold AllFrom in omega arith))
take_ready-IsDue s (some (e, rest)) (out, all) = elim (Bool-cases (leb e.fire_time s.timestamp)) [
  | inl b ↦ rw b (ground arith, out, all, refl)
  | inr b ↦ rw b (refl, AllFrom-le (s.timestamp + 1) e.fire_time s.events (ground arith) all)
]

-- A pop of the scheduler returns an event exactly when one is due: then it is due, none that was
-- queued fires earlier, and it alone leaves the queue; else every queued event is after the
-- timestamp and the scheduler is as it was.
pub pop_if_ready-IsDue : (s : Scheduler) → IsDue s (pop_if_ready s)
unfolding pop_if_ready
pop_if_ready-IsDue s = take_ready-IsDue s (pop s.events) (pop-IsEarliest s.events)
