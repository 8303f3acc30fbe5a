-- ===== src/Scheduler.antt =====
-- gba-core/src/scheduler.rs: the queue of timed events. A binary heap is the list of what it holds:
-- its greatest element is the earliest event, and which of several equal ones it gives first is
-- left open by its documentation, so the first in the list is taken.
pub mod Earliest
pub mod Cancel
mod Examples
use vibe_gba.Prelude.{
  ℕ, ◌%◌, ◌^◌, ◌+◌, ◌*◌, Bool, not, Option, none, some, List, [], ◌∷◌, leb, ◌==◌, if◌then◌else◌,
}

pub data EventKind : Type 0 where
  h_blank h_blank_end : EventKind
  timer_overflow dma_complete : ℕ → EventKind
  apu_sample apu_frame_sequencer : EventKind

-- A number for each kind, the channel being a `u8`.
pub kind_number : EventKind → ℕ
kind_number h_blank = 0
kind_number h_blank_end = 1
kind_number apu_sample = 2
kind_number apu_frame_sequencer = 3
kind_number (timer_overflow i) = 4 + 2 * i
kind_number (dma_complete i) = 5 + 2 * i

pub is_kind : EventKind → EventKind → Bool
unfolding kind_number
is_kind a b = kind_number a == kind_number b

pub record Event : Type 0 where
  pub fire_time : ℕ
  pub kind : EventKind

pub record Scheduler : Type 0 where
  pub timestamp : ℕ
  pub events : List Event

pub new : Scheduler
new = record { timestamp = 0; events = [] }

pub add_cycles : ℕ → Scheduler → Scheduler
add_cycles cycles s = record s { timestamp = (s.timestamp + cycles) % 2 ^ 64 }

pub advance_to : ℕ → Scheduler → Scheduler
advance_to time s = record s { timestamp = time }

pub schedule : Event → Scheduler → Scheduler
schedule event s = record s { events = event ∷ s.events }

-- Puts an event back in front, or takes it if it is no later than the earliest of the others.
pub or_first : Event → List Event → Option (Event × List Event) → Option (Event × List Event)
or_first e es none = some (e, es)
or_first e es (some (x, rest)) =
    if leb e.fire_time x.fire_time then some (e, es) else some (x, e ∷ rest)

-- `BinaryHeap::pop`: the earliest event and the others.
pub pop : List Event → Option (Event × List Event)
unfolding or_first
pop [] = none
pop (e ∷ es) = or_first e es (pop es)

pub time_of : Option (Event × List Event) → Option ℕ
time_of none = none
time_of (some (e, rest)) = some e.fire_time

pub peek_time : Scheduler → Option ℕ
unfolding time_of pop
peek_time s = time_of (pop s.events)

pub take_ready : Option (Event × List Event) → Scheduler → Scheduler × Option Event
take_ready none s = (s, none)
take_ready (some (e, rest)) s =
    if leb e.fire_time s.timestamp then (record s { events = rest }, some e) else (s, none)

pub pop_if_ready : Scheduler → Scheduler × Option Event
unfolding take_ready pop
pop_if_ready s = take_ready (pop s.events) s

pub without : EventKind → List Event → List Event
unfolding is_kind
without kind [] = []
without kind (e ∷ es) =
    let rest = without kind es in if not (is_kind e.kind kind) then e ∷ rest else rest

pub cancel : EventKind → Scheduler → Scheduler
unfolding without
cancel kind s = record s { events = without kind s.events }
