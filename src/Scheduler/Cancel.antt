-- ===== src/Scheduler/Cancel.antt =====
-- A cancellation removes the events of one kind and no others.
use vibe_gba.Prelude.{ℕ, ◌≡◌, List, [], ◌∷◌, ◌==◌, if◌then◌else◌, ◌%◌, ◌/◌, ◌-◌}
use vibe_gba.Scheduler.{
  EventKind, h_blank, h_blank_end, timer_overflow, dma_complete, apu_sample, apu_frame_sequencer,
  Event, Scheduler,
}

-- The second list is the first without the events of a kind, in the same order.
pub data Cancelled (kind : EventKind) : List Event → List Event → Type 0 where
  done : Cancelled kind [] []
  dropped :
      {e : Event} {es rest : List Event}
      → e.kind ≡ kind
      → Cancelled kind es rest
      → Cancelled kind (e ∷ es) rest
  kept :
      {e : Event} {es rest : List Event}
      → ¬ (e.kind ≡ kind)
      → Cancelled kind es rest
      → Cancelled kind (e ∷ es) (e ∷ rest)

kind_of : ℕ → EventKind
kind_of n =
    if n == 0
    then h_blank
    else if n == 1
    then h_blank_end
    else if n == 2
    then apu_sample
    else if n == 3
    then apu_frame_sequencer
    else if n % 2 == 0
    then timer_overflow ((n - 4) / 2)
    else dma_complete ((n - 5) / 2)
