-- ===== src/Apu/Fifo/Refine.antt =====
-- A valid channel behaves as the queue of the samples that it holds.
use vibe_gba.Prelude.{ℕ, zero, suc, ◌+◌, ◌-◌, ◌%◌, ◌<◌, ◌≡◌, refl, ap, arith}
use vibe_gba.Prelude.{List, [], ◌∷◌, ◌++◌, length, get_or, set, get_or-set_self, get_or-set_ne}
use vibe_gba.Prelude.Int.{ℤ, pos}
use vibe_gba.Apu.Fifo.{FifoChannel, push_byte, pop_sample}
use vibe_gba.Apu.Fifo.Queue.{Sound, offer, tick}
use vibe_gba.Apu.Fifo.Valid.{IsValid}

module _ (buf : List ℤ) where
  -- The `n` samples from index `h` on, going round at the capacity.
  abbrev pub held : ℕ → ℕ → List ℤ
  held h zero = []
  held h (suc n) = get_or buf h (pos 0) ∷ held ((h + 1) % 32) n

  length-held : (h n : ℕ) → length (held h n) ≡ n
  length-held h zero = refl
  length-held h (suc n) = ap suc (length-held ((h + 1) % 32) n)

  held-pos : (h n : ℕ) → 0 < n → held h n ≡ get_or buf h (pos 0) ∷ held ((h + 1) % 32) (n - 1)
  held-pos h zero p = absurd (omega arith)
  held-pos h (suc n) p = ap (λ k. held h (suc k)) (omega arith)

-- A write just behind the samples that are held makes one more.
held-set :
    (buf : List ℤ) (x : ℤ) (n h w : ℕ)
    → length buf ≡ 32
    → h < 32
    → n < 32
    → w ≡ (h + n) % 32
    → held (set buf w x) h (suc n) ≡ held buf h n ++ (x ∷ [])
held-set buf x zero h w s p q e =
    let same : w ≡ h = omega arith in rw (same, get_or-set_self buf h x (pos 0) (omega arith))
held-set buf x (suc n) h w s p q e =
    let later = held-set buf x n ((h + 1) % 32) w s (omega arith) (omega arith) (omega arith) in
    rw (get_or-set_ne buf w h x (pos 0) (omega arith)) (ap (λ l. get_or buf h (pos 0) ∷ l) later)

abbrev pub view : FifoChannel → Sound
view c = record { waiting = held c.buffer c.read_pos c.count; playing = c.current_sample }

-- `push_byte` is `offer` on the queue that the buffer holds: the sample is appended, or dropped
-- when 32 are waiting.
pub push_byte_refines :
    (x : ℤ) {c : FifoChannel} → IsValid c → view (push_byte x c) ≡ offer x (view c)
unfolding push_byte offer
push_byte_refines x {c} v = ground (
  arith,
  length-held c.buffer c.read_pos c.count,
  held-set c.buffer x c.count c.read_pos c.write_pos,
)

-- `pop_sample` plays the oldest sample, keeps the last one when none waits, and asks for a refill
-- exactly when at most 16 are left.
pub pop_sample_refines :
    {c : FifoChannel}
    → IsValid c
    → let (c', refill) = pop_sample c in (view c', refill) ≡ tick (view c)
unfolding pop_sample tick
pop_sample_refines {c} v = ground (
  arith,
  held-pos c.buffer c.read_pos c.count,
  length-held c.buffer ((c.read_pos + 1) % 32) (c.count - 1),
  length-held c.buffer c.read_pos c.count,
)
