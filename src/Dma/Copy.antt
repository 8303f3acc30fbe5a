-- ===== src/Dma/Copy.antt =====
-- What a transfer does to memory, with every address in closed form.
use vibe_gba.Prelude.{ℕ, zero, suc, ◌+◌, ◌*◌, ◌%◌, ◌^◌, Bool}
use vibe_gba.Dma.{DmaMemory, copy_unit}

-- Where unit `i` lies: `i` steps from the base, in 32 bits.
pub place : ℕ → ℕ → ℕ → ℕ
place base by i = (base + i * by) % 2 ^ 32

module _ {M : Type 0} (memory : DmaMemory M) where
  -- `n` units from unit `i` on.
  pub copies : Bool → ℕ → ℕ → ℕ → ℕ → ℕ → ℕ → M → M
  unfolding place
  copies wide src dst src_step dst_step zero i m = m
  copies wide src dst src_step dst_step (suc n) i m =
      copies wide src dst src_step dst_step n (suc i)
        (copy_unit memory wide (place src src_step i) (place dst dst_step i) m)

  -- `n` words from word `i` on, all to one address.
  pub fifo_words : ℕ → ℕ → ℕ → ℕ → M → M
  unfolding place
  fifo_words src dst zero i m = m
  fifo_words src dst (suc n) i m =
      fifo_words src dst n (suc i) (memory.write32 m dst (memory.read32 m (place src 4 i)))
