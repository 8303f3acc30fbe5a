-- ===== src/Dma.antt =====
-- gba-core/src/dma.rs: the four DMA channels.
pub mod Copy
pub mod Active
mod Examples
use vibe_gba.Prelude.{
  ℕ, zero, suc, ◌+◌, ◌-◌, ◌*◌, ◌/◌, ◌%◌, ◌^◌, bit_and, Bool, true, false, not, ◌&&◌, ◌||◌, Option,
  none, some, List, [], ◌∷◌, ltb, leb, ◌==◌, if◌then◌else◌, get_or, set,
}
use vibe_gba.Prelude.Bits.{bit_set, not16}

pub data DmaTiming : Type 0 where
  immediate v_blank h_blank special : DmaTiming

pub timing_number : DmaTiming → ℕ
timing_number immediate = 0
timing_number v_blank = 1
timing_number h_blank = 2
timing_number special = 3

-- `==` of two timings.
pub is_timing : DmaTiming → DmaTiming → Bool
unfolding timing_number
is_timing a b = timing_number a == timing_number b

pub data AddrControl : Type 0 where
  increment decrement fixed increment_reload : AddrControl

pub record DmaChannel : Type 0 where
  pub sad : ℕ
  pub dad : ℕ
  pub count : ℕ
  pub control : ℕ
  pub internal_sad : ℕ
  pub internal_dad : ℕ
  pub internal_count : ℕ
  pub active : Bool
  pub run_count : ℕ
  pub last_latch_cycle : ℕ

abbrev pub new : DmaChannel
new = record {
  sad = 0;
  dad = 0;
  count = 0;
  control = 0;
  internal_sad = 0;
  internal_dad = 0;
  internal_count = 0;
  active = false;
  run_count = 0;
  last_latch_cycle = 0;
}

pub enabled : DmaChannel → Bool
enabled c = bit_set c.control 15

pub timing : DmaChannel → DmaTiming
timing c =
    let t = c.control / 2 ^ 12 % 4 in
    if t == 0 then immediate else if t == 1 then v_blank else if t == 2 then h_blank else special

pub word_size_32 : DmaChannel → Bool
word_size_32 c = bit_set c.control 10

pub repeats : DmaChannel → Bool
repeats c = bit_set c.control 9

pub irq_enabled : DmaChannel → Bool
irq_enabled c = bit_set c.control 14

pub dest_control : DmaChannel → AddrControl
dest_control c =
    let t = c.control / 2 ^ 5 % 4 in
    if t == 0
    then increment
    else if t == 1
    then decrement
    else if t == 2
    then fixed
    else increment_reload

pub src_control : DmaChannel → AddrControl
src_control c =
    let t = c.control / 2 ^ 7 % 4 in
    if t == 0 then increment else if t == 1 then decrement else if t == 2 then fixed else increment

-- 27 address bits for the channels 0 to 2, 28 for the channel 3.
mask_address : ℕ → ℕ → ℕ
mask_address channel_id addr =
    if leb channel_id 2 then addr % 2 ^ 27 else if channel_id == 3 then addr % 2 ^ 28 else addr

-- The count register, 0 standing for the maximum.
full_count : ℕ → ℕ → ℕ
full_count channel_id raw_count =
    if raw_count == 0 then (if leb channel_id 2 then 0x4000 else 0x10000) else raw_count

pub latch : ℕ → DmaChannel → DmaChannel
unfolding mask_address full_count
latch channel_id c = record c {
  internal_sad = mask_address channel_id c.sad;
  internal_dad = mask_address channel_id c.dad;
  internal_count = full_count channel_id c.count;
}

reloads : AddrControl → Bool
reloads increment_reload = true
reloads _ = false

pub reload_for_repeat : ℕ → DmaChannel → DmaChannel
unfolding mask_address full_count reloads dest_control
reload_for_repeat channel_id c = record c {
  internal_dad = if reloads (dest_control c) then mask_address channel_id c.dad else c.internal_dad;
  internal_count = full_count channel_id c.count;
}

abbrev pub DmaController : Type 0
DmaController = List DmaChannel

-- One channel at a write of its control register, and whether it runs at once.
pub channel_control : ℕ → ℕ → ℕ → DmaChannel → DmaChannel × Bool
unfolding enabled latch timing is_timing
channel_control channel_id value now c =
    let c' = record c { control = value } in
    if not (enabled c) && enabled c'
    then (
      record (latch channel_id c') { active = true; last_latch_cycle = now },
      is_timing (timing c') immediate,
    )
    else if not (enabled c')
    then (record c' { active = false }, false)
    else (c', false)

pub write_control : ℕ → ℕ → ℕ → DmaController → DmaController × Option ℕ
unfolding channel_control
write_control channel_id value now cs =
    let (c, runs) = channel_control channel_id value now (get_or cs channel_id new) in
    (set cs channel_id c, if runs then some channel_id else none)

-- The loop of `channels_for_timing` from channel `i` on.
pub channels_from : ℕ → DmaTiming → DmaController → List ℕ
unfolding enabled timing is_timing
channels_from i t [] = []
channels_from i t (c ∷ cs) =
    let rest = channels_from (i + 1) t cs in
    if enabled c && c.active && is_timing (timing c) t then i ∷ rest else rest

pub channels_for_timing : DmaTiming → DmaController → List ℕ
unfolding channels_from
channels_for_timing t cs = channels_from 0 t cs

-- The closures that the bus passes, over its state.
pub record DmaMemory (M : Type 0) : Type 0 where
  pub read16 : M → ℕ → ℕ
  pub read32 : M → ℕ → ℕ
  pub write16 : M → ℕ → ℕ → M
  pub write32 : M → ℕ → ℕ → M

pub record DmaTransferResult : Type 0 where
  pub cycles : ℕ
  pub irq : Bool
  pub channel_disabled : Bool

-- A signed step as the 32-bit word that is added.
pub step : AddrControl → ℕ → ℕ
step increment word_size = word_size
step increment_reload word_size = word_size
step decrement word_size = 2 ^ 32 - word_size
step fixed word_size = 0

abbrev pub wrapping_add : ℕ → ℕ → ℕ
wrapping_add a b = (a + b) % 2 ^ 32

pub is_fifo : ℕ → DmaChannel → Bool
unfolding timing is_timing
is_fifo channel_id c = (channel_id == 1 || channel_id == 2) && is_timing (timing c) special

-- The repeat or the end of a channel after its transfer, and whether it is disabled.
pub finish : ℕ → DmaChannel → DmaChannel × Bool
unfolding repeats timing is_timing reload_for_repeat
finish channel_id c =
    if repeats c && not (is_timing (timing c) immediate)
    then (reload_for_repeat channel_id c, false)
    else (record c { control = bit_and c.control (not16 (2 ^ 15)); active = false }, true)

module _ {M : Type 0} (memory : DmaMemory M) where
  -- One unit: the address is aligned by `& !3` or `& !1`.
  pub copy_unit : Bool → ℕ → ℕ → M → M
  copy_unit true src dst m = memory.write32 m (dst / 4 * 4) (memory.read32 m (src / 4 * 4))
  copy_unit false src dst m = memory.write16 m (dst / 2 * 2) (memory.read16 m (src / 2 * 2))

  pub copy_loop : Bool → ℕ → ℕ → ℕ → DmaChannel → M → DmaChannel × M
  unfolding copy_unit
  copy_loop wide src_step dst_step zero c m = (c, m)
  copy_loop wide src_step dst_step (suc n) c m =
      copy_loop wide src_step dst_step n
        (record c {
          internal_sad = wrapping_add c.internal_sad src_step;
          internal_dad = wrapping_add c.internal_dad dst_step;
        })
        (copy_unit wide c.internal_sad c.internal_dad m)

  -- The loop of a sound FIFO: the destination stays, and nothing is aligned.
  pub fifo_loop : ℕ → DmaChannel → M → DmaChannel × M
  fifo_loop zero c m = (c, m)
  fifo_loop (suc n) c m =
      fifo_loop n (record c { internal_sad = wrapping_add c.internal_sad 4 })
        (memory.write32 m c.internal_dad (memory.read32 m c.internal_sad))

  pub execute_dma_transfer : ℕ → DmaChannel → M → DmaChannel × M × DmaTransferResult
  unfolding is_fifo fifo_loop copy_loop finish word_size_32 src_control dest_control step
      irq_enabled
  execute_dma_transfer channel_id c m =
      let wide = word_size_32 c in
      let word_size = if wide then 4 else 2 in
      if is_fifo channel_id c
      then (let (c', m') = fifo_loop 4 c m in
          (c', m', record { cycles = 4; irq = irq_enabled c'; channel_disabled = false }))
      else (let (c', m') =
            copy_loop wide (step (src_control c) word_size) (step (dest_control c) word_size)
              c.internal_count c m in
          let (c'', disabled) = finish channel_id c' in
          (
            c'',
            m',
            record { cycles = c.internal_count; irq = irq_enabled c'; channel_disabled = disabled },
          ))
