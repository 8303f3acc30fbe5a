-- ===== src/Apu/Fifo.antt =====
-- gba-core/src/apu/fifo.rs: a sample FIFO of the sound DMA, a circular buffer of 32 bytes. A method
-- that takes `&mut self` returns the new channel beside its result.
pub mod Queue
pub mod Valid
pub mod Refine
pub mod Trace
mod Examples
use vibe_gba.Prelude.{ℕ, ◌+◌, ◌-◌, ◌*◌, ◌/◌, ◌%◌, ◌^◌, Bool, true, false, List, [], ◌∷◌}
use vibe_gba.Prelude.{ltb, leb, if◌then◌else◌, get_or, set, replicate}
use vibe_gba.Prelude.Int.{ℤ, pos, as_i8, halve}

abbrev pub fifo_capacity : ℕ
fifo_capacity = 32

-- `buffer` holds `i8` samples; the four last counters are `u64`.
pub record FifoChannel : Type 0 where
  pub buffer : List ℤ
  pub read_pos : ℕ
  pub write_pos : ℕ
  pub count : ℕ
  pub current_sample : ℤ
  pub timer_select : ℕ
  pub enable_left : Bool
  pub enable_right : Bool
  pub volume_full : Bool
  pub push_count : ℕ
  pub pop_count : ℕ
  pub refill_request_count : ℕ
  pub push_dropped_count : ℕ

-- `x += 1` on a diagnostic `u64`.
abbrev pub bump_u64 : ℕ → ℕ
bump_u64 x = (x + 1) % 2 ^ 64

unfoldable pub new : FifoChannel
new = record {
  buffer = replicate fifo_capacity (pos 0);
  read_pos = 0;
  write_pos = 0;
  count = 0;
  current_sample = pos 0;
  timer_select = 0;
  enable_left = false;
  enable_right = false;
  volume_full = false;
  push_count = 0;
  pop_count = 0;
  refill_request_count = 0;
  push_dropped_count = 0;
}

pub reset : FifoChannel → FifoChannel
reset c = record c { read_pos = 0; write_pos = 0; count = 0; current_sample = pos 0 }

-- The guard keeps `count + 1` and `write_pos + 1` far from a `usize` wrap.
pub push_byte : ℤ → FifoChannel → FifoChannel
push_byte sample c =
    if ltb c.count fifo_capacity
    then record c {
      buffer = set c.buffer c.write_pos sample;
      write_pos = (c.write_pos + 1) % fifo_capacity;
      count = c.count + 1;
      push_count = bump_u64 c.push_count;
    }
    else record c { push_dropped_count = bump_u64 c.push_dropped_count }

-- `to_le_bytes`: the byte at an index, lowest first.
abbrev pub le_byte : ℕ → ℕ → ℕ
le_byte value i = value / 2 ^ (8 * i) % 2 ^ 8

-- The loop of `write32`: each byte of the slice, as an `i8`.
pub push_bytes : List ℕ → FifoChannel → FifoChannel
push_bytes [] c = c
push_bytes (byte ∷ bytes) c = push_bytes bytes (push_byte (as_i8 byte) c)

pub write32 : ℕ → FifoChannel → FifoChannel
write32 value c =
    push_bytes (le_byte value 0 ∷ le_byte value 1 ∷ le_byte value 2 ∷ le_byte value 3 ∷ []) c

pub write16 : ℕ → FifoChannel → FifoChannel
write16 value c = push_byte (as_i8 (le_byte value 1)) (push_byte (as_i8 (le_byte value 0)) c)

-- The first half of `pop_sample`: latch the next sample, if there is one.
pub latch_sample : FifoChannel → FifoChannel
latch_sample c =
    if ltb 0 c.count
    then record c {
      current_sample = get_or c.buffer c.read_pos (pos 0);
      read_pos = (c.read_pos + 1) % fifo_capacity;
      count = c.count - 1;
      pop_count = bump_u64 c.pop_count;
    }
    else c

-- The result says whether the channel asks for a DMA refill.
pub pop_sample : FifoChannel → FifoChannel × Bool
unfolding latch_sample
pop_sample c =
    let c' = latch_sample c in
    let need_refill = leb c'.count 16 in
    (
      if need_refill
          then record c' { refill_request_count = bump_u64 c'.refill_request_count }
          else c',
      need_refill,
    )

pub output : FifoChannel → ℤ
output c = if c.volume_full then c.current_sample else halve c.current_sample
