-- ===== src/Dma/Active.antt =====
-- A channel is active exactly while its enable bit is set.
use vibe_gba.Prelude.{ℕ, ◌≡◌, refl, Bool, List, [], ◌∷◌}
use vibe_gba.Prelude.Bits.{bit_set}
use vibe_gba.Dma.{DmaChannel, DmaMemory, new, enabled, channel_control, execute_dma_transfer}

pub IsConsistent : DmaChannel → Type 0
IsConsistent c = c.active ≡ enabled c

abbrev pub bit_15 : ℕ → Bool
bit_15 control = bit_set control 15

-- A write of the control register, or a transfer.
pub data Step : Type 0 where
  write_control_reg : (value now : ℕ) → Step
  transfer : Step

module _ {M : Type 0} (memory : DmaMemory M) (id : ℕ) where
  pub perform : Step → DmaChannel × M → DmaChannel × M
  perform (write_control_reg value now) (c, m) = ((channel_control id value now c).0, m)
  perform transfer (c, m) =
      ((execute_dma_transfer memory id c m).0, (execute_dma_transfer memory id c m).1)

  pub run : List Step → DmaChannel × M → DmaChannel × M
  unfolding perform
  run [] s = s
  run (x ∷ xs) s = run xs (perform x s)

pub new-IsConsistent : IsConsistent new
unfolding IsConsistent enabled
new-IsConsistent = refl
