-- ===== src/Bus/Writes.antt =====
-- gba-core/src/bus/mod.rs: the writes of the bus and of the I/O registers. A write that starts a DMA
-- runs it at once: `run_dma` is the transfer, which Bus/Transfer.antt defines over these writes.
use vibe_gba.Prelude.{
  ℕ, ◌+◌, ◌-◌, ◌*◌, ◌/◌, ◌%◌, ◌^◌, true, ◌&&◌, ◌||◌, ◌==◌, if◌then◌else◌, ltb, leb, List, get_or,
  set, some, none,
}
use vibe_gba.Timer.{Timers, write_reload, write_control}
use vibe_gba.Interrupt.{write_ie, write_if, write_ime}
use vibe_gba.Dma
use vibe_gba.Dma.{DmaChannel, DmaController}
use vibe_gba.Bus.IoRegs.{IoRegisters, write_bg_ref_low, write_bg_ref_high}
use vibe_gba.Bus.Timing
use vibe_gba.Bus.State.{Bus, Chips}
use vibe_gba.Bus.Registers.{read_io16}

-- `(word & 0xFFFF0000) | val` and `(word & 0xFFFF) | val << 16`.
unfoldable pub with_low_half : ℕ → ℕ → ℕ
with_low_half val word = word / 2 ^ 16 * 2 ^ 16 + val

unfoldable pub with_high_half : ℕ → ℕ → ℕ
with_high_half val word = word % 2 ^ 16 + val * 2 ^ 16

-- A halfword with a byte written at an address.
unfoldable pub merge_byte : ℕ → ℕ → ℕ → ℕ
merge_byte addr val half =
    if addr % 2 == 0 then half / 2 ^ 8 * 2 ^ 8 + val else half % 2 ^ 8 + val * 2 ^ 8

-- The display registers with no effect outside, `0x000..=0x054`.
unfoldable pub write_display : ℕ → ℕ → IoRegisters → IoRegisters
write_display off val io =
    if off == 0x000
    then record io { dispcnt = val }
    else if off == 0x002
    then record io { green_swap = val }
    else if off == 0x004
    then record io { dispstat = io.dispstat % 2 ^ 3 + val / 2 ^ 3 * 2 ^ 3 }
    else if off == 0x006
    then io
    else if ltb off 0x010
    then record io { bgcnt = set io.bgcnt ((off - 0x008) / 2) val }
    else if ltb off 0x020
    then (let bg = (off - 0x010) / 4 in
        let ofs = get_or io.bg_ofs bg List.[] in
        record io { bg_ofs = set io.bg_ofs bg (set ofs ((off - 0x010) / 2 % 2) (val % 2 ^ 9)) })
    else if ltb off 0x028
    then record io { bg2_affine = set io.bg2_affine ((off - 0x020) / 2) val }
    else if leb 0x030 off && ltb off 0x038
    then record io { bg3_affine = set io.bg3_affine ((off - 0x030) / 2) val }
    else if off == 0x040
    then record io { winh = set io.winh 0 val }
    else if off == 0x042
    then record io { winh = set io.winh 1 val }
    else if off == 0x044
    then record io { winv = set io.winv 0 val }
    else if off == 0x046
    then record io { winv = set io.winv 1 val }
    else if off == 0x048
    then record io { winin = val }
    else if off == 0x04a
    then record io { winout = val }
    else if off == 0x04c
    then record io { mosaic = val }
    else if off == 0x050
    then record io { bldcnt = val }
    else if off == 0x052
    then record io { bldalpha = val }
    else if off == 0x054
    then record io { bldy = val }
    else io

-- The addresses and the count of a DMA channel, by the place in its twelve bytes.
unfoldable pub write_channel : ℕ → ℕ → DmaChannel → DmaChannel
unfolding with_low_half with_high_half
write_channel place val c =
    if place == 0
    then record c { sad = with_low_half val c.sad }
    else if place == 2
    then record c { sad = with_high_half val c.sad }
    else if place == 4
    then record c { dad = with_low_half val c.dad }
    else if place == 6
    then record c { dad = with_high_half val c.dad }
    else if place == 8
    then record c { count = val }
    else c

unfoldable pub write_timers : ℕ → ℕ → Timers → Timers
write_timers off val timers =
    let id = (off - 0x100) / 4 in
    if off % 4 == 0
    then write_reload id val timers
    else if off % 4 == 2
    then write_control id val timers
    else timers

module _ {A P : Type 0} (chips : Chips A P) where
  -- The reference points of the backgrounds 2 and 3, which the PPU reloads.
  unfoldable pub write_reference : ℕ → ℕ → Bus A P → Bus A P
  write_reference off val b =
      let bg = if ltb off 0x030 then 2 else 3 in
      let axis = off / 4 % 2 in
      let io =
        if off % 4 == 0
        then write_bg_ref_low bg axis val b.io
        else write_bg_ref_high bg axis val b.io in
      record b { io = io; ppu = chips.reload_bg_ref bg axis io b.ppu }

  module _ (run_dma : ℕ → Bus A P → Bus A P) where
    unfoldable pub write_dma : ℕ → ℕ → Bus A P → Bus A P
    unfolding write_channel
    write_dma off val b =
        let ch = (off - 0x0b0) / 12 in
        let place = (off - 0x0b0) % 12 in
        if place == 10
        then (let (dma, started) = Dma.write_control ch val b.now b.dma in
            let b' = record b { dma = dma } in elim started [ none ↦ b' | some id ↦ run_dma ch b' ])
        else record b { dma = set b.dma ch (write_channel place val (get_or b.dma ch Dma.new)) }

    unfoldable pub write_io16 : ℕ → ℕ → Bus A P → Bus A P
    unfolding write_display write_reference write_dma write_timers
    write_io16 addr val b =
        let off = addr % 2 ^ 10 in
        if (leb 0x028 off && ltb off 0x030) || (leb 0x038 off && ltb off 0x040)
        then write_reference off val b
        else if ltb off 0x060
        then record b { io = write_display off val b.io }
        else if leb off 0x0a8
        then record b { apu = chips.write_reg (off - 0x60) val b.apu }
        else if leb 0x0b0 off && leb off 0x0de
        then write_dma off val b
        else if leb 0x100 off && leb off 0x10e
        then record b { timers = write_timers off val b.timers }
        else if off == 0x132
        then record b { keypad = record b.keypad { keycnt = val } }
        else if off == 0x200
        then record b { interrupt = write_ie val b.interrupt }
        else if off == 0x202
        then record b { interrupt = write_if val b.interrupt }
        else if off == 0x208
        then record b { interrupt = write_ime val b.interrupt }
        else if off == 0x204
        then record b { io = record b.io { waitcnt = val }; wait = Timing.update val b.wait }
        else if off == 0x300
        then record b { io = record b.io { postflg = val % 2 ^ 8 } }
        else b

    -- HALTCNT alone is a byte; another byte goes into its halfword.
    unfoldable pub write_io8 : ℕ → ℕ → Bus A P → Bus A P
    unfolding merge_byte write_io16
    write_io8 addr val b =
        if addr % 2 ^ 10 == 0x301
        then record b { io = record b.io { haltcnt = val }; halt_requested = true }
        else (let aligned = addr / 2 * 2 in
            write_io16 aligned (merge_byte addr val (read_io16 chips aligned b)) b)
