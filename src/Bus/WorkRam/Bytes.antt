-- ===== src/Bus/WorkRam/Bytes.antt =====
-- gba-core/src/bus/mod.rs: the bytes of the two work memories.
use vibe_gba.Prelude.{ℕ, ◌/◌, ◌%◌, ◌^◌, ◌≡◌, refl, ap, ◌∙◌, arith, ◌==◌, if◌then◌else◌}
use vibe_gba.Bus.State.{Bus, Chips, store_byte}
use vibe_gba.Bus.Cycles.{add_mem_cycles}
use vibe_gba.Bus.Reads.{fetch_byte, latched, read8}
use vibe_gba.Bus.Stores.{write8, put_byte}
use vibe_gba.Bus.Bytes.{IsBytes}
use vibe_gba.Bus.Transfer.{bus_port, nested_dma}
use vibe_gba.Bus.Whole.{add_mem_cycles-IsSameMemory, read8-IsSameMemory}
use vibe_gba.Bus.WorkRam.{at_iwram, at_ewram, same_iwram, same_ewram}

-- The rows of the address map for the two memories, with the BIOS before them.
module _ {ℓ} {B : Type ℓ} (page : ℕ) (bios ewram iwram rest : B) where
  byte_at_iwram :
      page ≡ 3
      → (if page == 0x00
          then bios
          else if page == 0x02
          then ewram
          else if page == 0x03
          then iwram
          else rest)
        ≡ iwram
  byte_at_iwram p = rw p refl

  byte_at_ewram :
      page ≡ 2
      → (if page == 0x00
          then bios
          else if page == 0x02
          then ewram
          else if page == 0x03
          then iwram
          else rest)
        ≡ ewram
  byte_at_ewram p = rw p refl

module _ {A P : Type 0} where
  pub iwram_byte : Bus A P → ℕ → ℕ
  iwram_byte b a = b.iwram (a % 2 ^ 15)

  pub ewram_byte : Bus A P → ℕ → ℕ
  ewram_byte b a = b.ewram (a % 2 ^ 18)

module _ {A P : Type 0} (chips : Chips A P) (wall depth : ℕ) where
  put_iwram_byte :
      (a v : ℕ) (b : Bus A P)
      → a / 2 ^ 24 ≡ 3
      → put_byte chips wall (nested_dma chips wall depth) a v b
        ≡ record b { iwram = store_byte (a % 2 ^ 15) v b.iwram }
  unfolding put_byte
  put_iwram_byte a v b p = at_iwram (a / 2 ^ 24) _ _ _ p

  put_ewram_byte :
      (a v : ℕ) (b : Bus A P)
      → a / 2 ^ 24 ≡ 2
      → put_byte chips wall (nested_dma chips wall depth) a v b
        ≡ record b { ewram = store_byte (a % 2 ^ 18) v b.ewram }
  unfolding put_byte
  put_ewram_byte a v b p = at_ewram (a / 2 ^ 24) _ _ _ p

  fetch_iwram_byte :
      (a : ℕ) (b : Bus A P) → a / 2 ^ 24 ≡ 3 → (fetch_byte chips a b).1 ≡ iwram_byte b a
  unfolding fetch_byte iwram_byte
  fetch_iwram_byte a b p = ap (λ (r : Bus A P × ℕ). r.1) (byte_at_iwram (a / 2 ^ 24) _ _ _ _ p)

  fetch_ewram_byte :
      (a : ℕ) (b : Bus A P) → a / 2 ^ 24 ≡ 2 → (fetch_byte chips a b).1 ≡ ewram_byte b a
  unfolding fetch_byte ewram_byte
  fetch_ewram_byte a b p = ap (λ (r : Bus A P × ℕ). r.1) (byte_at_ewram (a / 2 ^ 24) _ _ _ _ p)

  iwram-IsBytes : IsBytes (Bus A P) (bus_port chips wall depth) 0x03000000 0x03008000 iwram_byte
  unfolding bus_port iwram_byte read8 write8 latched store_byte
  iwram-IsBytes = record {
    bounded = omega arith;
    reads = λ a b l h.
        fetch_iwram_byte a (add_mem_cycles a 1 b) (omega arith)
        ∙ ap (λ (m : ℕ → ℕ). m (a % 2 ^ 15)) (add_mem_cycles-IsSameMemory a 1 b).iwram;
    keeps = λ a b.
        ap {B = ℕ → ℕ} (λ (m : ℕ → ℕ) (x : ℕ). m (x % 2 ^ 15)) (read8-IsSameMemory chips a b).iwram;
    writes = λ a v j b l h lj hj.
        ap (λ (x : Bus A P). iwram_byte x j)
          (put_iwram_byte a v (add_mem_cycles a 1 b) (omega arith))
        ∙ same_iwram a j v ((add_mem_cycles a 1 b).iwram (j % 2 ^ 15)) l h lj hj
        ∙ ap (λ (m : ℕ → ℕ). if a == j then v else m (j % 2 ^ 15))
            (add_mem_cycles-IsSameMemory a 1 b).iwram;
  }

  ewram-IsBytes : IsBytes (Bus A P) (bus_port chips wall depth) 0x02000000 0x02040000 ewram_byte
  unfolding bus_port ewram_byte read8 write8 latched store_byte
  ewram-IsBytes = record {
    bounded = omega arith;
    reads = λ a b l h.
        fetch_ewram_byte a (add_mem_cycles a 1 b) (omega arith)
        ∙ ap (λ (m : ℕ → ℕ). m (a % 2 ^ 18)) (add_mem_cycles-IsSameMemory a 1 b).ewram;
    keeps = λ a b.
        ap {B = ℕ → ℕ} (λ (m : ℕ → ℕ) (x : ℕ). m (x % 2 ^ 18)) (read8-IsSameMemory chips a b).ewram;
    writes = λ a v j b l h lj hj.
        ap (λ (x : Bus A P). ewram_byte x j)
          (put_ewram_byte a v (add_mem_cycles a 1 b) (omega arith))
        ∙ same_ewram a j v ((add_mem_cycles a 1 b).ewram (j % 2 ^ 18)) l h lj hj
        ∙ ap (λ (m : ℕ → ℕ). if a == j then v else m (j % 2 ^ 18))
            (add_mem_cycles-IsSameMemory a 1 b).ewram;
  }

  -- Both work memories are memory by bytes too: a byte is read as it was last written, a write
  -- leaves the other bytes of that memory alone, and the read of a byte anywhere leaves all of both.
  pub work_bytes_are_memory :
      IsBytes (Bus A P) (bus_port chips wall depth) 0x02000000 0x02040000 ewram_byte
      × IsBytes (Bus A P) (bus_port chips wall depth) 0x03000000 0x03008000 iwram_byte
  work_bytes_are_memory = (ewram-IsBytes, iwram-IsBytes)
