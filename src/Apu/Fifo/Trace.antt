-- ===== src/Apu/Fifo/Trace.antt =====
-- Every sequence of calls on a channel, against the queue of samples.
use vibe_gba.Prelude.{ℕ, ◌≡◌, refl, ap, ◌∙◌, Bool, false, List, [], ◌∷◌}
use vibe_gba.Prelude.Int.{ℤ, pos, as_i8}
use vibe_gba.Apu.Fifo.{FifoChannel, le_byte, new, reset, push_bytes, write32, write16, pop_sample}
use vibe_gba.Apu.Fifo.Queue.{Sound, offer, offer_all, tick}
use vibe_gba.Apu.Fifo.Valid.{IsValid, push_byte-IsValid, pop_sample-IsValid, write32-IsValid}
use vibe_gba.Apu.Fifo.Valid.{write16-IsValid, reset-IsValid, new-IsValid}
use vibe_gba.Apu.Fifo.Refine.{view, push_byte_refines, pop_sample_refines}

-- What drives a channel: register writes by the CPU or a DMA, timer overflows, and the reset bit.
pub data FifoOp : Type 0 where
  store_word : ℕ → FifoOp
  store_half : ℕ → FifoOp
  timer_tick : FifoOp
  clear : FifoOp

-- The sample that plays after a call, and whether the call asks for a refill.
pub record Reply : Type 0 where
  pub sample : ℤ
  pub refill : Bool

pub step : FifoOp → FifoChannel → FifoChannel × Bool
step (store_word value) c = (write32 value c, false)
step (store_half value) c = (write16 value c, false)
step timer_tick c = pop_sample c
step clear c = (reset c, false)

unfoldable pub run : List FifoOp → FifoChannel → List Reply
unfolding step
run [] c = []
run (op ∷ ops) c =
    let (c', refill) = step op c in
    record { sample = c'.current_sample; refill = refill } ∷ run ops c'

-- The bytes that a store carries, as samples.
abbrev samples : List ℕ → List ℤ
samples [] = []
samples (byte ∷ bytes) = as_i8 byte ∷ samples bytes

abbrev word_samples : ℕ → List ℤ
word_samples v = samples (le_byte v 0 ∷ le_byte v 1 ∷ le_byte v 2 ∷ le_byte v 3 ∷ [])

abbrev half_samples : ℕ → List ℤ
half_samples v = samples (le_byte v 0 ∷ le_byte v 1 ∷ [])

spec_step : FifoOp → Sound → Sound × Bool
spec_step (store_word value) q = (offer_all (word_samples value) q, false)
spec_step (store_half value) q = (offer_all (half_samples value) q, false)
spec_step timer_tick q = tick q
spec_step clear q = (record { waiting = []; playing = pos 0 }, false)

unfoldable pub spec_run : List FifoOp → Sound → List Reply
unfolding spec_step
spec_run [] q = []
spec_run (op ∷ ops) q =
    let (q', refill) = spec_step op q in
    record { sample = q'.playing; refill = refill } ∷ spec_run ops q'

write16_refines :
    (value : ℕ) {c : FifoChannel}
    → IsValid c
    → view (write16 value c) ≡ offer_all (half_samples value) (view c)
unfolding write16 offer_all
write16_refines value {c} v =
    push_byte_refines _ (push_byte-IsValid (as_i8 (le_byte value 0)) v)
    ∙ ap (offer (as_i8 (le_byte value 1))) (push_byte_refines (as_i8 (le_byte value 0)) v)

push_bytes_refines :
    (bytes : List ℕ) {c : FifoChannel}
    → IsValid c
    → view (push_bytes bytes c) ≡ offer_all (samples bytes) (view c)
unfolding push_bytes offer_all
push_bytes_refines [] v = refl
push_bytes_refines (byte ∷ bytes) v =
    push_bytes_refines bytes (push_byte-IsValid (as_i8 byte) v)
    ∙ ap (offer_all (samples bytes)) (push_byte_refines (as_i8 byte) v)

write32_refines :
    (value : ℕ) {c : FifoChannel}
    → IsValid c
    → view (write32 value c) ≡ offer_all (word_samples value) (view c)
unfolding write32
write32_refines value v = push_bytes_refines _ v

step-IsValid : (op : FifoOp) {c : FifoChannel} → IsValid c → IsValid (step op c).0
unfolding step
step-IsValid (store_word value) v = write32-IsValid value v
step-IsValid (store_half value) v = write16-IsValid value v
step-IsValid timer_tick v = pop_sample-IsValid v
step-IsValid clear v = reset-IsValid v

step_refines :
    (op : FifoOp) {c : FifoChannel}
    → IsValid c
    → let (c', refill) = step op c in (view c', refill) ≡ spec_step op (view c)
unfolding step spec_step reset
step_refines (store_word value) v = ap (λ q. (q, false)) (write32_refines value v)
step_refines (store_half value) v = ap (λ q. (q, false)) (write16_refines value v)
step_refines timer_tick v = pop_sample_refines v
step_refines clear v = refl

run_from_refines :
    (ops : List FifoOp) {c : FifoChannel} → IsValid c → run ops c ≡ spec_run ops (view c)
unfolding run spec_run
run_from_refines [] v = refl
run_from_refines (op ∷ ops) {c} v =
    rw (run_from_refines ops (step-IsValid op v), ← step_refines op v)

-- No sequence of stores, timer ticks and resets tells a fresh channel from the empty queue.
pub run_refines :
    (ops : List FifoOp) → run ops new ≡ spec_run ops (record { waiting = []; playing = pos 0 })
unfolding new
run_refines ops = run_from_refines ops new-IsValid
