-- ===== src/Backup/Media/Search.antt =====
-- The search for a signature against its meaning, a place in the ROM where the signature stands.
use vibe_gba.Prelude.{ℕ, ◌≡◌, List, ◌++◌}

-- `pattern` stands somewhere in `rom`.
pub Occurs : List ℕ → List ℕ → Type 0
Occurs pattern rom = (before : List ℕ) × (after : List ℕ) × (rom ≡ before ++ (pattern ++ after))
