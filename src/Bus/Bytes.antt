-- ===== src/Bus/Bytes.antt =====
-- What a decompressor may rely on where the bus has memory, between two addresses: bytes are read as
-- they were written. `byte` is the byte at an address.
use vibe_gba.Prelude.{ℕ, ◌^◌, ◌≤◌, ◌<◌, ◌≡◌, ◌==◌, if◌then◌else◌}
use vibe_gba.Bus.Port.{Port}

pub record IsBytes (S : Type 0) (port : Port S) (lo hi : ℕ) (byte : S → ℕ → ℕ) : Type 0 where
  pub bounded : hi ≤ 2 ^ 32
  pub reads : (a : ℕ) (s : S) → lo ≤ a → a < hi → (port.read8 a s).1 ≡ byte s a
  pub keeps : (a : ℕ) (s : S) → byte (port.read8 a s).0 ≡ byte s
  pub writes :
      (a v b : ℕ) (s : S)
      → lo ≤ a
      → a < hi
      → lo ≤ b
      → b < hi
      → byte (port.write8 a v s) b ≡ (if a == b then v else byte s b)
