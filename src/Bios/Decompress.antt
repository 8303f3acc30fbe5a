-- ===== src/Bios/Decompress.antt =====
-- gba-core/src/bios.rs: the decompressors LZ77 and run length. Each `while` runs on a number of
-- rounds, for which the length of the output is enough.
use vibe_gba.Prelude.{ℕ, zero, suc, ◌+◌, ◌-◌, ◌*◌, ◌/◌, ◌%◌, ◌^◌, Bool, ◌==◌, if◌then◌else◌}
use vibe_gba.Prelude.Bits.{bit_set}
use vibe_gba.Bus.Port.{Port}
use vibe_gba.Arm7tdmi.Cpu.{even, wrapping_sub}
use vibe_gba.Arm7tdmi.Loops.{wrapping_add}

-- The variables of a decompression.
pub record Stream (S : Type 0) : Type 0 where
  pub src_pos : ℕ
  pub dst_pos : ℕ
  pub remaining : ℕ
  pub vram_buffer : ℕ
  pub vram_byte_count : ℕ
  pub bus : S

-- `while remaining > 0`, for at most `n` rounds.
unfoldable pub while_remaining : {S : Type 0} → (Stream S → Stream S) → ℕ → Stream S → Stream S
while_remaining round zero t = t
while_remaining round (suc n) t =
    let rest = while_remaining round n (round t) in if t.remaining == 0 then t else rest

module _ {S : Type 0} (port : Port S) where
  open port use {read8, read32, write8, write16}

  -- The next byte of the source.
  unfoldable pub take_byte : Stream S → Stream S × ℕ
  take_byte t =
      let (bus', val) = read8 t.src_pos t.bus in
      (record t { src_pos = wrapping_add t.src_pos 1; bus = bus' }, val)

  module _ (vram_mode : Bool) where
    -- A byte of the output: in VRAM mode every second one writes its halfword.
    unfoldable pub emit : ℕ → Stream S → Stream S
    emit val t =
        let low = t.vram_byte_count % 2 == 0 in
        let buffer = if low then val else t.vram_buffer % 2 ^ 8 + val * 2 ^ 8 in
        let moved = record t { dst_pos = wrapping_add t.dst_pos 1; remaining = t.remaining - 1 } in
        if vram_mode
        then record moved {
          vram_buffer = buffer;
          vram_byte_count = t.vram_byte_count + 1;
          bus = if low then t.bus else write16 (even t.dst_pos) buffer t.bus;
        }
        else record moved { bus = write8 t.dst_pos val t.bus }

    -- The loops over the bytes of a run: of one value, of the source, and of the output before.
    unfoldable pub emit_run : ℕ → ℕ → Stream S → Stream S
    unfolding emit
    emit_run zero val t = t
    emit_run (suc n) val t =
        let rest = emit_run n val (emit val t) in if t.remaining == 0 then t else rest

    unfoldable pub emit_literals : ℕ → Stream S → Stream S
    unfolding take_byte emit
    emit_literals zero t = t
    emit_literals (suc n) t =
        let (t', val) = take_byte t in
        let rest = emit_literals n (emit val t') in if t.remaining == 0 then t else rest

    unfoldable pub emit_back : ℕ → ℕ → Stream S → Stream S
    unfolding emit
    emit_back zero offset t = t
    emit_back (suc n) offset t =
        let (bus', val) = read8 (wrapping_sub t.dst_pos offset) t.bus in
        let rest = emit_back n offset (emit val (record t { bus = bus' })) in
        if t.remaining == 0 then t else rest

    -- A round of run length.
    unfoldable pub rl_round : Stream S → Stream S
    unfolding take_byte emit_run emit_literals
    rl_round t =
        let (t1, flag) = take_byte t in
        if bit_set flag 7
        then (let (t2, val) = take_byte t1 in emit_run (flag % 2 ^ 7 + 3) val t2)
        else emit_literals (flag % 2 ^ 7 + 1) t1

    -- A reference of LZ77 to the output before.
    unfoldable pub lz77_reference : Stream S → Stream S
    unfolding take_byte emit_back
    lz77_reference t =
        let (t1, byte1) = take_byte t in
        let (t2, byte2) = take_byte t1 in
        emit_back (byte1 / 2 ^ 4 + 3) (byte1 % 2 ^ 4 * 2 ^ 8 + byte2 + 1) t2

    -- A bit of the flags stands for a reference or a literal byte.
    unfoldable pub lz77_token : Bool → Stream S → Stream S
    unfolding lz77_reference emit_literals
    lz77_token is_reference t = if is_reference then lz77_reference t else emit_literals 1 t

    -- The `n` lower bits of the flags, from the highest on.
    unfoldable pub lz77_bits : ℕ → ℕ → Stream S → Stream S
    unfolding lz77_token
    lz77_bits zero flags t = t
    lz77_bits (suc n) flags t =
        let rest = lz77_bits n flags (lz77_token (bit_set flags n) t) in
        if t.remaining == 0 then t else rest

    unfoldable pub lz77_round : Stream S → Stream S
    unfolding take_byte lz77_bits
    lz77_round t = let (t', flags) = take_byte t in lz77_bits 8 flags t'

    -- The state at the start: the header has the length of the output above its lowest byte.
    unfoldable pub open_stream : ℕ → ℕ → S → Stream S
    open_stream src dst bus =
        let (bus', header) = read32 src bus in
        record {
          src_pos = wrapping_add src 4;
          dst_pos = dst;
          remaining = header / 2 ^ 8;
          vram_buffer = 0;
          vram_byte_count = 0;
          bus = bus';
        }

    unfoldable pub rl_decompress : ℕ → ℕ → S → S
    unfolding open_stream rl_round while_remaining
    rl_decompress src dst bus =
        let t = open_stream src dst bus in
        let done = while_remaining rl_round t.remaining t in done.bus

    unfoldable pub lz77_decompress : ℕ → ℕ → S → S
    unfolding open_stream lz77_round while_remaining
    lz77_decompress src dst bus =
        let t = open_stream src dst bus in
        let done = while_remaining lz77_round t.remaining t in done.bus
