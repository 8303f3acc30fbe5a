-- ===== src/Bus/Registers.antt =====
-- gba-core/src/bus/mod.rs: the reads of the I/O registers.
use vibe_gba.Prelude.{ℕ, ◌-◌, ◌*◌, ◌/◌, ◌%◌, ◌^◌, ◌&&◌, ◌==◌, if◌then◌else◌, ltb, leb, get_or}
use vibe_gba.Bus.State.{Bus, Chips}
use vibe_gba.Bus.IoRegs.{IoRegisters}
use vibe_gba.Dma
use vibe_gba.Dma.{DmaController}
use vibe_gba.Timer.{Timers, read_counter, timer_at}
use vibe_gba.Keypad.{read_keyinput}
use vibe_gba.Interrupt.{read_ie, read_if, read_ime}

-- The display registers, `0x000..=0x054`.
unfoldable pub read_display : ℕ → IoRegisters → ℕ
read_display off io =
    if off == 0x000
    then io.dispcnt
    else if off == 0x002
    then io.green_swap
    else if off == 0x004
    then io.dispstat
    else if off == 0x006
    then io.vcount
    else if off == 0x008
    then get_or io.bgcnt 0 0
    else if off == 0x00a
    then get_or io.bgcnt 1 0
    else if off == 0x00c
    then get_or io.bgcnt 2 0
    else if off == 0x00e
    then get_or io.bgcnt 3 0
    else if off == 0x040
    then get_or io.winh 0 0
    else if off == 0x042
    then get_or io.winh 1 0
    else if off == 0x044
    then get_or io.winv 0 0
    else if off == 0x046
    then get_or io.winv 1 0
    else if off == 0x048
    then io.winin
    else if off == 0x04a
    then io.winout
    else if off == 0x04c
    then io.mosaic
    else if off == 0x050
    then io.bldcnt
    else if off == 0x052
    then io.bldalpha
    else 0

-- The control halfwords of the DMA channels, `0x0B0..=0x0DE`; the rest is write-only.
unfoldable pub read_dma : ℕ → DmaController → ℕ
read_dma off dma =
    let control = λ (ch : ℕ). (get_or dma ch Dma.new).control in
    if off == 0x0ba
    then control 0
    else if off == 0x0c6
    then control 1
    else if off == 0x0d2
    then control 2
    else if off == 0x0de
    then control 3
    else 0

-- `0x100..=0x10E`.
unfoldable pub read_timers : ℕ → Timers → ℕ
read_timers off timers =
    let id = (off - 0x100) / 4 in
    if off % 4 == 0
    then read_counter timers id
    else if off % 4 == 2
    then (timer_at timers id).control
    else 0

module _ {A P : Type 0} (chips : Chips A P) where
  unfoldable pub read_io16 : ℕ → Bus A P → ℕ
  unfolding read_display read_dma read_timers
  read_io16 addr b =
      let off = addr % 2 ^ 10 in
      if ltb off 0x060
      then read_display off b.io
      else if leb off 0x0a8
      then chips.read_reg (off - 0x60) b.apu
      else if leb 0x0b0 off && leb off 0x0de
      then read_dma off b.dma
      else if leb 0x100 off && leb off 0x10e
      then read_timers off b.timers
      else if off == 0x130
      then read_keyinput b.keypad
      else if off == 0x132
      then b.keypad.keycnt
      else if off == 0x200
      then read_ie b.interrupt
      else if off == 0x202
      then read_if b.interrupt
      else if off == 0x208
      then read_ime b.interrupt
      else if off == 0x204
      then b.io.waitcnt
      else if off == 0x300
      then b.io.postflg
      else 0

  unfoldable pub read_io8 : ℕ → Bus A P → ℕ
  unfolding read_io16
  read_io8 addr b =
      let half = read_io16 (addr / 2 * 2) b in if addr % 2 == 0 then half % 2 ^ 8 else half / 2 ^ 8
