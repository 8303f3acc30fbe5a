-- ===== src/Bus/Port.antt =====
-- gba-core/src/bus/mod.rs as the processor sees it: the operations of the bus on its own state. A
-- read may change the state, since it counts cycles and moves the open-bus latch.
use vibe_gba.Prelude.{ℕ, Bool}

pub record Port (S : Type 0) : Type 0 where
  pub read8 : ℕ → S → S × ℕ
  pub read16 : ℕ → S → S × ℕ
  pub read32 : ℕ → S → S × ℕ
  pub write8 : ℕ → ℕ → S → S
  pub write16 : ℕ → ℕ → S → S
  pub write32 : ℕ → ℕ → S → S
  pub fetch16 : ℕ → Bool → S → S × ℕ
  pub fetch32 : ℕ → Bool → S → S × ℕ
  pub break_sequential : S → S
  pub set_last_pc : ℕ → S → S
  pub set_bios_latch : ℕ → S → S
  pub take_mem_cycles : S → S × ℕ
  pub prefetch_advance : ℕ → S → S
  pub tick_backup : ℕ → S → S
  pub has_pending : S → Bool
