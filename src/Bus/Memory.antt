-- ===== src/Bus/Memory.antt =====
-- What the processor may rely on where the bus has memory, between two addresses: aligned words are
-- read as they were written. `word` is the word at an address.
use vibe_gba.Prelude.{ℕ, ◌+◌, ◌%◌, ◌^◌, ◌≤◌, ◌<◌, ◌≡◌, ◌==◌, if◌then◌else◌}
use vibe_gba.Bus.Port.{Port}

pub record IsMemory (S : Type 0) (port : Port S) (lo hi : ℕ) (word : S → ℕ → ℕ) : Type 0 where
  pub bounded : hi ≤ 2 ^ 32
  pub reads : (a : ℕ) (s : S) → lo ≤ a → a + 4 ≤ hi → a % 4 ≡ 0 → (port.read32 a s).1 ≡ word s a
  pub keeps : (a : ℕ) (s : S) → word (port.read32 a s).0 ≡ word s
  pub writes :
      (a v b : ℕ) (s : S)
      → lo ≤ a
      → a + 4 ≤ hi
      → a % 4 ≡ 0
      → lo ≤ b
      → b + 4 ≤ hi
      → b % 4 ≡ 0
      → v < 2 ^ 32
      → word (port.write32 a v s) b ≡ (if a == b then v else word s b)
