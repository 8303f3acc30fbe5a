-- ===== src/Bus/Transfer.antt =====
-- gba-core/src/bus/mod.rs: the DMA transfer over the bus itself, and the processor's view of the bus.
-- A transfer may write the control register of a channel and so run a transfer within: the depth of
-- that nesting is an argument, and a transfer below the last level does nothing.
use vibe_gba.Prelude.{
  ℕ, zero, suc, ◌+◌, ◌*◌, ◌/◌, ◌^◌, bit_and, Bool, false, not, ◌&&◌, ◌||◌, if◌then◌else◌, get_or,
  set, some,
}
use vibe_gba.Backup.Media.{BackupMedia}
use vibe_gba.Backup.Media
use vibe_gba.Backup.Eeprom
use vibe_gba.Interrupt
use vibe_gba.Bus.Timing.{rom_region}
use vibe_gba.Bus.Timing
use vibe_gba.Dma
use vibe_gba.Dma.{
  DmaChannel, DmaController, enabled, word_size_32, irq_enabled, src_control, dest_control, step,
  is_fifo, repeats, timing, is_timing, immediate, reload_for_repeat, wrapping_add,
}
use vibe_gba.Prelude.Bits.{not16}
use vibe_gba.Bus.Port.{Port}
use vibe_gba.Bus.State.{Bus, Chips, eeprom_access}
use vibe_gba.Bus.Reads.{read8, read16, read32}
use vibe_gba.Bus.Stores.{write8, write16, write32}

-- The EEPROM takes its address width from the length of the transfer.
unfoldable pub announce : ℕ → BackupMedia → BackupMedia
announce count (BackupMedia.eeprom e) = BackupMedia.eeprom (Eeprom.set_addr_width_from_dma count e)
announce count m = m

-- Whether a channel runs again: a repeat that is not immediate.
unfoldable pub is_repeated : DmaChannel → Bool
is_repeated c = repeats c && not (is_timing (timing c) immediate)

unfoldable pub end_channel : ℕ → Bool → DmaChannel → DmaChannel
end_channel ch again c =
    if again
    then reload_for_repeat ch c
    else record c { control = bit_and c.control (not16 (2 ^ 15)); active = false }

module _ {A P : Type 0} (chips : Chips A P) (wall : ℕ) (nested : ℕ → Bus A P → Bus A P) where
  -- One unit of a transfer, between aligned addresses.
  unfoldable pub move_unit : Bool → ℕ → ℕ → Bus A P → Bus A P
  unfolding read16 read32 write16 write32
  move_unit wide src dst b =
      if wide
      then (let (b', val) = read32 chips (src / 4 * 4) b in
          write32 chips wall nested (dst / 4 * 4) val b')
      else (let (b', val) = read16 chips (src / 2 * 2) b in
          write16 chips wall nested (dst / 2 * 2) val b')

  unfoldable pub move_units : Bool → ℕ → ℕ → ℕ → ℕ → ℕ → Bus A P → Bus A P × ℕ × ℕ
  unfolding move_unit
  move_units wide src_step dst_step zero src dst b = (b, src, dst)
  move_units wide src_step dst_step (suc n) src dst b =
      move_units wide src_step dst_step n (wrapping_add src src_step) (wrapping_add dst dst_step)
        (move_unit wide src dst b)

  -- The words that a sound FIFO asked for.
  unfoldable pub move_fifo : ℕ → ℕ → ℕ → Bus A P → Bus A P × ℕ
  unfolding read32 write32
  move_fifo zero src dst b = (b, src)
  move_fifo (suc n) src dst b =
      let (b', val) = read32 chips src b in
      move_fifo n (wrapping_add src 4) dst (write32 chips wall nested dst val b')

  unfoldable pub update_channel : ℕ → (DmaChannel → DmaChannel) → Bus A P → Bus A P
  update_channel ch f b = record b { dma = set b.dma ch (f (get_or b.dma ch Dma.new)) }

  -- The bus, the cycles and whether an interrupt is asked for.
  unfoldable pub run_dma : ℕ → Bus A P → Bus A P × ℕ × Bool
  unfolding announce eeprom_access move_units move_fifo update_channel is_repeated end_channel
  run_dma ch b =
      let c = get_or b.dma ch Dma.new in
      let wide = word_size_32 c in
      let size = if wide then 4 else 2 in
      let counted =
        update_channel ch (λ (c' : DmaChannel). record c' { run_count = c'.run_count + 1 }) b in
      let told =
        if eeprom_access c.internal_dad counted
        then record counted { backup = announce c.internal_count counted.backup }
        else counted in
      if not (enabled c) || not c.active
      then (b, 0, false)
      else if is_fifo ch c
      then (let (b', src) = move_fifo 4 c.internal_sad c.internal_dad told in
          (
            update_channel ch (λ (c' : DmaChannel). record c' { internal_sad = src }) b',
            4,
            irq_enabled c,
          ))
      else (let (b', src, dst) =
            move_units wide (step (src_control c) size) (step (dest_control c) size)
              c.internal_count c.internal_sad c.internal_dad told in
          let at_end = λ (c' : DmaChannel).
            end_channel ch (is_repeated c) (record c' { internal_sad = src; internal_dad = dst }) in
          (update_channel ch at_end b', c.internal_count, irq_enabled c))

module _ {A P : Type 0} (chips : Chips A P) (wall : ℕ) where
  -- The transfers within a transfer, `depth` of them.
  unfoldable pub nested_dma : ℕ → ℕ → Bus A P → Bus A P
  unfolding run_dma
  nested_dma zero ch b = b
  nested_dma (suc depth) ch b = (run_dma chips wall (nested_dma depth) ch b).0

  unfoldable pub fetch16 : ℕ → Bool → Bus A P → Bus A P × ℕ
  unfolding read16
  fetch16 addr seq b = read16 chips addr (record b { fetch_mode = some seq })

  unfoldable pub fetch32 : ℕ → Bool → Bus A P → Bus A P × ℕ
  unfolding read32
  fetch32 addr seq b = read32 chips addr (record b { fetch_mode = some seq })

  unfoldable pub bus_port : ℕ → Port (Bus A P)
  unfolding read8 read16 read32 write8 write16 write32 fetch16 fetch32 nested_dma
  bus_port depth = record {
    read8 = read8 chips;
    read16 = read16 chips;
    read32 = read32 chips;
    write8 = write8 chips wall (nested_dma depth);
    write16 = write16 chips wall (nested_dma depth);
    write32 = write32 chips wall (nested_dma depth);
    fetch16 = fetch16;
    fetch32 = fetch32;
    break_sequential = λ b. record b { last_access_end = 0xffffffff };
    set_last_pc = λ pc b. record b { last_pc = pc };
    set_bios_latch = λ word b. record b { bios_latch = word };
    take_mem_cycles = λ b. (record b { mem_access_cycles = 0 }, b.mem_access_cycles);
    prefetch_advance = λ cycles b. record b { prefetch = Timing.advance cycles 64 b.prefetch };
    tick_backup = λ cycles b. record b { backup = Media.tick cycles b.backup };
    has_pending = λ b. Interrupt.has_pending b.interrupt;
  }
