-- ===== src/Apu/Fifo/Valid.antt =====
-- The representation invariant of the circular buffer.
use vibe_gba.Prelude.{ℕ, ◌+◌, ◌%◌, ◌≤◌, ◌<◌, ◌≡◌, arith, List, [], ◌∷◌, length, length-set}
use vibe_gba.Prelude.Int.{ℤ, as_i8}
use vibe_gba.Apu.Fifo.{
  FifoChannel, new, reset, push_byte, push_bytes, write32, write16, latch_sample, pop_sample,
}

pub record IsValid (c : FifoChannel) : Type 0 where
  pub sized : length c.buffer ≡ 32
  pub read_in : c.read_pos < 32
  pub count_in : c.count ≤ 32
  pub write_at : c.write_pos ≡ (c.read_pos + c.count) % 32

pub new-IsValid : IsValid new
unfolding new
new-IsValid = omega arith

pub reset-IsValid : {c : FifoChannel} → IsValid c → IsValid (reset c)
unfolding reset
reset-IsValid v = omega arith

pub push_byte-IsValid : (x : ℤ) {c : FifoChannel} → IsValid c → IsValid (push_byte x c)
unfolding push_byte
push_byte-IsValid x {c} v = ground (arith, length-set c.buffer c.write_pos x)

pub latch_sample-IsValid : {c : FifoChannel} → IsValid c → IsValid (latch_sample c)
unfolding latch_sample
latch_sample-IsValid v = ground arith

pub pop_sample-IsValid : {c : FifoChannel} → IsValid c → IsValid (pop_sample c).0
unfolding pop_sample
pop_sample-IsValid v = ground arith

pub push_bytes-IsValid :
    (bytes : List ℕ) {c : FifoChannel} → IsValid c → IsValid (push_bytes bytes c)
unfolding push_bytes
push_bytes-IsValid [] v = v
push_bytes-IsValid (byte ∷ bytes) v = push_bytes-IsValid bytes (push_byte-IsValid (as_i8 byte) v)

pub write32-IsValid : (value : ℕ) {c : FifoChannel} → IsValid c → IsValid (write32 value c)
unfolding write32
write32-IsValid value v = push_bytes-IsValid _ v

pub write16-IsValid : (value : ℕ) {c : FifoChannel} → IsValid c → IsValid (write16 value c)
unfolding write16
write16-IsValid value v = push_byte-IsValid _ (push_byte-IsValid _ v)
