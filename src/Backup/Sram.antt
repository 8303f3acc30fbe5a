-- ===== src/Backup/Sram.antt =====
-- gba-core/src/backup/sram.rs: battery-backed memory of 32 KB.
pub mod Mirror
use vibe_gba.Prelude.{ℕ, ◌*◌, ◌%◌, ◌^◌, List, ltb, if◌then◌else◌, length, get_or, set, replicate}

pub record Sram : Type 0 where
  pub cells : List ℕ

pub new : Sram
new = record { cells = replicate (32 * 1024) 0xff }

-- `addr & 0x7FFF`.
abbrev pub index : ℕ → ℕ
index addr = addr % 2 ^ 15

pub read : ℕ → Sram → ℕ
read addr s = if ltb (index addr) (length s.cells) then get_or s.cells (index addr) 0xff else 0xff

pub write : ℕ → ℕ → Sram → Sram
write addr val s =
    if ltb (index addr) (length s.cells)
    then record s { cells = set s.cells (index addr) val }
    else s
