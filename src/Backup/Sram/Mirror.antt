-- ===== src/Backup/Sram/Mirror.antt =====
-- The chip as a memory of 32 KB that repeats through its address range.
use vibe_gba.Prelude.{
  ℕ, ◌*◌, ◌%◌, ◌^◌, ◌≡◌, refl, ap, ◌∙◌, arith, List, [], ◌∷◌, ◌==◌, if◌then◌else◌,
}
use vibe_gba.Prelude.{length, length-set, length-replicate, get_or-set_self, get_or-set_ne}
use vibe_gba.Backup.Sram.{Sram, new, index, read, write}

pub IsFull : Sram → Type 0
IsFull s = length s.cells ≡ 2 ^ 15

pub new-IsFull : IsFull new
unfolding IsFull new
new-IsFull = length-replicate {A = ℕ} (32 * 1024) 0xff

pub write-IsFull : (addr val : ℕ) (s : Sram) → IsFull s → IsFull (write addr val s)
unfolding IsFull write
write-IsFull addr val s full = ground (arith, length-set s.cells (index addr) val)

read-write :
    (a b val : ℕ) (s : Sram)
    → IsFull s
    → read b (write a val s) ≡ (if index a == index b then val else read b s)
unfolding IsFull read write
read-write a b val s full = ground (
  arith,
  length-set s.cells (index a) val,
  get_or-set_self s.cells (index a) val 0xff,
  get_or-set_ne s.cells (index a) (index b) val 0xff,
)

pub write_all : List (ℕ × ℕ) → Sram → Sram
write_all [] s = s
write_all ((addr, val) ∷ ws) s = write_all ws (write addr val s)

-- The value of the last write to the address or to one that is a multiple of 32 KB away.
pub last_written : ℕ → List (ℕ × ℕ) → ℕ → ℕ
last_written b [] byte = byte
last_written b ((addr, val) ∷ ws) byte =
    last_written b ws (if addr % 0x8000 == b % 0x8000 then val else byte)

-- On a chip of 32 KB a read returns, after any writes, the value last written to the address or to
-- one that differs from it by a multiple of 32 KB, and what the chip held before if there is none.
pub read-write_all :
    (b : ℕ) (ws : List (ℕ × ℕ)) (s : Sram)
    → IsFull s
    → read b (write_all ws s) ≡ last_written b ws (read b s)
unfolding write_all last_written
read-write_all b [] s full = refl
read-write_all b ((addr, val) ∷ ws) s full =
    read-write_all b ws (write addr val s) (write-IsFull addr val s full)
    ∙ ap (last_written b ws) (read-write addr b val s full)
