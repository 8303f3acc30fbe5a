-- ===== src/Dma/Examples.antt =====
-- Transfers over a memory that is a list of halfword writes.
use vibe_gba.Prelude.{ℕ, ◌≡◌, refl, true, List, [], ◌∷◌}
use vibe_gba.Dma.{
  DmaChannel, DmaMemory, new, is_fifo, execute_dma_transfer, word_size_32, src_control,
  dest_control, step, copy_unit, copy_loop, finish, timing, is_timing, timing_number, irq_enabled,
  repeats,
}
use vibe_gba.Dma.Active.{Step, write_control_reg, transfer}

-- Every halfword reads as its address; the writes are kept, the latest first.
abbrev log : DmaMemory (List (ℕ × ℕ))
log = record {
  read16 = λ m a. a;
  read32 = λ m a. a;
  write16 = λ m a v. (a, v) ∷ m;
  write32 = λ m a v. (a, v) ∷ m;
}

-- Two halfwords, the source going up and the destination down.
abbrev channel : DmaChannel
channel = record new {
  control = 0x8020;
  internal_sad = 0x101;
  internal_dad = 0x200;
  internal_count = 2;
  active = true;
}

test_downwards : (execute_dma_transfer log 3 channel []).1 ≡ (0x1fe, 0x102) ∷ (0x200, 0x100) ∷ []
unfolding execute_dma_transfer copy_loop copy_unit is_fifo finish word_size_32 src_control
    dest_control step timing is_timing timing_number irq_enabled repeats
test_downwards = refl

abbrev steps : List Step
steps = write_control_reg 0x8020 5 ∷ transfer ∷ write_control_reg 0x8000 9 ∷ []
