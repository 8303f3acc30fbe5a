-- ===== src/Bios/Unpack/Whole.antt =====
-- The run-length decompressor on a whole stream of runs.
use vibe_gba.Prelude.{ℕ, ◌+◌, ◌/◌, ◌^◌, ◌≤◌, ◌<◌, ◌≡◌, ◌⊎◌, List, length}
use vibe_gba.Bus.Port.{Port}
use vibe_gba.Bus.Bytes.{IsBytes}
use vibe_gba.Bios.RunLength.{Run, expand, encode, AllFit, Holds}

module _ {S : Type 0} (port : Port S) (lo hi : ℕ) (byte : S → ℕ → ℕ)
    (m : IsBytes S port lo hi byte) where
  -- A compressed stream at `src`, and room for its output at `dst`, in the same memory and apart.
  pub record IsCompressed (runs : List Run) (src dst : ℕ) (bus : S) : Type 0 where
    pub fit : AllFit runs
    pub header : (port.read32 src bus).1 / 2 ^ 8 ≡ length (expand runs)
    pub header_keeps : byte (port.read32 src bus).0 ≡ byte bus
    pub source : Holds (byte bus) (src + 4) (encode runs)
    pub src_lo : lo ≤ src + 4
    pub src_hi : src + 4 + length (encode runs) < hi
    pub dst_lo : lo ≤ dst
    pub dst_hi : dst + length (expand runs) < hi
    pub apart : (src + 4 + length (encode runs) ≤ dst) ⊎ (dst + length (expand runs) ≤ src + 4)
