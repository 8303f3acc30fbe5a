-- ===== src/Bus/WorkRam.antt =====
-- gba-core/src/bus/mod.rs: the two work memories are memory for the processor, whatever it reads
-- elsewhere.
pub mod Bytes
use vibe_gba.Prelude.{
  ℕ, ◌*◌, ◌/◌, ◌%◌, ◌^◌, ◌≤◌, ◌<◌, ◌≡◌, refl, ap, ◌∙◌, arith, ◌==◌, if◌then◌else◌,
}
use vibe_gba.Bus.State.{Bus, Chips, word_at, store_word}
use vibe_gba.Bus.Cycles.{add_mem_cycles}
use vibe_gba.Bus.Reads.{fetch_word, latched, read32}
use vibe_gba.Bus.Stores.{write32, put_word}
use vibe_gba.Bus.Memory.{IsMemory}
use vibe_gba.Bus.Transfer.{bus_port, nested_dma}
use vibe_gba.Bus.Whole.{word_at-store_word, add_mem_cycles-IsSameMemory, read32-IsSameMemory}

module _ {A P : Type 0} where
  -- The words of the two memories.
  pub iwram_word : Bus A P → ℕ → ℕ
  iwram_word b a = word_at b.iwram (a % 2 ^ 15)

  pub ewram_word : Bus A P → ℕ → ℕ
  ewram_word b a = word_at b.ewram (a % 2 ^ 18)

-- The first two rows of the address map.
module _ {ℓ} {B : Type ℓ} (page : ℕ) (ewram iwram rest : B) where
  pub at_iwram :
      page ≡ 3 → (if page == 0x02 then ewram else if page == 0x03 then iwram else rest) ≡ iwram
  at_iwram p = rw p refl

  pub at_ewram :
      page ≡ 2 → (if page == 0x02 then ewram else if page == 0x03 then iwram else rest) ≡ ewram
  at_ewram p = rw p refl

-- Two addresses of one memory are masked to the same place only if they are the same.
pub same_iwram :
    (a j x y : ℕ)
    → 0x03000000 ≤ a
    → a < 0x03008000
    → 0x03000000 ≤ j
    → j < 0x03008000
    → (if a % 2 ^ 15 == j % 2 ^ 15 then x else y) ≡ (if a == j then x else y)
same_iwram a j x y p q r s = ground arith

pub same_ewram :
    (a j x y : ℕ)
    → 0x02000000 ≤ a
    → a < 0x02040000
    → 0x02000000 ≤ j
    → j < 0x02040000
    → (if a % 2 ^ 18 == j % 2 ^ 18 then x else y) ≡ (if a == j then x else y)
same_ewram a j x y p q r s = ground arith

module _ {A P : Type 0} (chips : Chips A P) (wall depth : ℕ) where
  fetch_iwram : (a : ℕ) (b : Bus A P) → a / 2 ^ 24 ≡ 3 → (fetch_word chips a b).1 ≡ iwram_word b a
  unfolding fetch_word iwram_word
  fetch_iwram a b p = ap (λ (r : Bus A P × ℕ). r.1) (at_iwram (a / 2 ^ 24) _ _ _ p)

  fetch_ewram : (a : ℕ) (b : Bus A P) → a / 2 ^ 24 ≡ 2 → (fetch_word chips a b).1 ≡ ewram_word b a
  unfolding fetch_word ewram_word
  fetch_ewram a b p = ap (λ (r : Bus A P × ℕ). r.1) (at_ewram (a / 2 ^ 24) _ _ _ p)

  put_iwram :
      (a v : ℕ) (b : Bus A P)
      → a / 2 ^ 24 ≡ 3
      → put_word chips wall (nested_dma chips wall depth) a v b
        ≡ record b { iwram = store_word (a % 2 ^ 15) v b.iwram }
  unfolding put_word
  put_iwram a v b p = at_iwram (a / 2 ^ 24) _ _ _ p

  put_ewram :
      (a v : ℕ) (b : Bus A P)
      → a / 2 ^ 24 ≡ 2
      → put_word chips wall (nested_dma chips wall depth) a v b
        ≡ record b { ewram = store_word (a % 2 ^ 18) v b.ewram }
  unfolding put_word
  put_ewram a v b p = at_ewram (a / 2 ^ 24) _ _ _ p

  module _ (a : ℕ) (aligned : a / 4 * 4 ≡ a) (b : Bus A P) where
    read_of : (read32 chips a b).1 ≡ (fetch_word chips a (add_mem_cycles a 4 b)).1
    unfolding read32 latched
    read_of = ap (λ (x : ℕ). (fetch_word chips x (add_mem_cycles x 4 b)).1) aligned

    write_of :
        (v : ℕ)
        → write32 chips wall (nested_dma chips wall depth) a v b
          ≡ put_word chips wall (nested_dma chips wall depth) a v (add_mem_cycles a 4 b)
    unfolding write32
    write_of v =
        ap (λ (x : ℕ). put_word chips wall (nested_dma chips wall depth) x v (add_mem_cycles a 4 b))
          aligned

  iwram-IsMemory : IsMemory (Bus A P) (bus_port chips wall depth) 0x03000000 0x03008000 iwram_word
  unfolding bus_port iwram_word
  iwram-IsMemory = record {
    bounded = omega arith;
    reads = λ a b l h q.
        read_of a (omega arith) b
        ∙ fetch_iwram a (add_mem_cycles a 4 b) (omega arith)
        ∙ ap (λ (m : ℕ → ℕ). word_at m (a % 2 ^ 15)) (add_mem_cycles-IsSameMemory a 4 b).iwram;
    keeps = λ a b.
        ap {B = ℕ → ℕ} (λ (m : ℕ → ℕ) (x : ℕ). word_at m (x % 2 ^ 15))
          (read32-IsSameMemory chips a b).iwram;
    writes = λ a v j b l h q lj hj r w.
        ap (λ (x : Bus A P). iwram_word x j)
          (write_of a (omega arith) b v ∙ put_iwram a v (add_mem_cycles a 4 b) (omega arith))
        ∙ word_at-store_word (add_mem_cycles a 4 b).iwram (a % 2 ^ 15) (j % 2 ^ 15) v (omega arith)
            (omega arith) w
        ∙ same_iwram a j v (word_at (add_mem_cycles a 4 b).iwram (j % 2 ^ 15)) l (omega arith) lj
            (omega arith)
        ∙ ap (λ (m : ℕ → ℕ). if a == j then v else word_at m (j % 2 ^ 15))
            (add_mem_cycles-IsSameMemory a 4 b).iwram;
  }

  ewram-IsMemory : IsMemory (Bus A P) (bus_port chips wall depth) 0x02000000 0x02040000 ewram_word
  unfolding bus_port ewram_word
  ewram-IsMemory = record {
    bounded = omega arith;
    reads = λ a b l h q.
        read_of a (omega arith) b
        ∙ fetch_ewram a (add_mem_cycles a 4 b) (omega arith)
        ∙ ap (λ (m : ℕ → ℕ). word_at m (a % 2 ^ 18)) (add_mem_cycles-IsSameMemory a 4 b).ewram;
    keeps = λ a b.
        ap {B = ℕ → ℕ} (λ (m : ℕ → ℕ) (x : ℕ). word_at m (x % 2 ^ 18))
          (read32-IsSameMemory chips a b).ewram;
    writes = λ a v j b l h q lj hj r w.
        ap (λ (x : Bus A P). ewram_word x j)
          (write_of a (omega arith) b v ∙ put_ewram a v (add_mem_cycles a 4 b) (omega arith))
        ∙ word_at-store_word (add_mem_cycles a 4 b).ewram (a % 2 ^ 18) (j % 2 ^ 18) v (omega arith)
            (omega arith) w
        ∙ same_ewram a j v (word_at (add_mem_cycles a 4 b).ewram (j % 2 ^ 18)) l (omega arith) lj
            (omega arith)
        ∙ ap (λ (m : ℕ → ℕ). if a == j then v else word_at m (j % 2 ^ 18))
            (add_mem_cycles-IsSameMemory a 4 b).ewram;
  }

  -- For the processor both work memories, with 256 KB from 0x02000000 and 32 KB from 0x03000000, are
  -- memory: an aligned word is read as it was last written, a write leaves the other words of that
  -- memory alone, and a read of any address of the bus, of a register, the save chip or the open bus
  -- too, leaves every word of both.
  pub work_ram_is_memory :
      IsMemory (Bus A P) (bus_port chips wall depth) 0x02000000 0x02040000 ewram_word
      × IsMemory (Bus A P) (bus_port chips wall depth) 0x03000000 0x03008000 iwram_word
  work_ram_is_memory = (ewram-IsMemory, iwram-IsMemory)
