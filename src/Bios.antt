-- ===== src/Bios.antt =====
-- gba-core/src/bios.rs: the calls of the BIOS that the emulator carries out itself, on the processor
-- and over the bus. Sums of addresses wrap, as in a build for release. The calls that use
-- floating-point numbers, BitUnPack and the dispatch with its traces are not here.
pub mod Decompress
pub mod Division
pub mod Ends
pub mod RunLength
pub mod Unpack
mod Examples
use vibe_gba.Prelude.{
  ℕ, zero, suc, ◌+◌, ◌-◌, ◌*◌, ◌/◌, ◌%◌, ◌^◌, bit_and, Bool, true, false, not, ◌&&◌, ◌||◌, ◌==◌,
  if◌then◌else◌, ltb, leb, Option, some, none, get_or, set, List,
}
use vibe_gba.Prelude.Bits.{bit_set, not16, not32}
use vibe_gba.Prelude.Int.{ℤ, pos, negsuc, as_i32, as_u32}
use vibe_gba.Bus.Port.{Port}
use vibe_gba.Arm7tdmi.Psr
use vibe_gba.Arm7tdmi.Psr.{irq, supervisor, system, bank_index}
use vibe_gba.Arm7tdmi.Cpu.{Cpu, even}
use vibe_gba.Arm7tdmi.Loops.{for_each, wrapping_add, word_aligned}
use vibe_gba.Arm7tdmi.Arm.Data.{put}

abbrev pub r : ℕ → Cpu → ℕ
r i c = get_or c.regs i 0

unfoldable pub swi_halt : Cpu → Cpu
swi_halt c = record c { halted = true }

-- Stop is taken for halt.
unfoldable pub swi_stop : Cpu → Cpu
swi_stop c = record c { halted = true }

unfoldable pub swi_get_bios_checksum : Cpu → Cpu
unfolding put
swi_get_bios_checksum c = put 0 0xbaae187f c

-- The size of a number, whatever its sign, and the number of a sign and a size.
unfoldable pub magnitude : ℤ → ℕ
magnitude (pos n) = n
magnitude (negsuc n) = suc n

unfoldable pub is_negative : ℤ → Bool
is_negative (pos n) = false
is_negative (negsuc n) = true

unfoldable pub signed : Bool → ℕ → ℤ
signed negative zero = pos 0
signed false (suc n) = pos (suc n)
signed true (suc n) = negsuc n

-- `/` and `%` of two i32: the quotient is rounded to zero and the remainder has the dividend's sign.
unfoldable pub quotient : ℤ → ℤ → ℤ
unfolding magnitude is_negative signed
quotient n d =
    signed (if is_negative n then not (is_negative d) else is_negative d)
      (magnitude n / magnitude d)

unfoldable pub remainder : ℤ → ℤ → ℤ
unfolding magnitude is_negative signed
remainder n d = signed (is_negative n) (magnitude n % magnitude d)

-- The division panics where the quotient is no i32: the least number by -1.
unfoldable pub swi_div : Cpu → Option Cpu
unfolding put quotient remainder magnitude
swi_div c =
    let numer = as_i32 (r 0 c) in
    let denom = as_i32 (r 1 c) in
    if r 1 c == 0
    then some c
    else if r 0 c == 2 ^ 31 && r 1 c == 2 ^ 32 - 1
    then none
    else some (
        put 3 (magnitude (quotient numer denom))
          (put 1 (as_u32 (remainder numer denom)) (put 0 (as_u32 (quotient numer denom)) c)))

unfoldable pub swi_div_arm : Cpu → Option Cpu
unfolding swi_div put
swi_div_arm c = swi_div (put 1 (r 0 c) (put 0 (r 1 c) c))

module _ {S : Type 0} (port : Port S) where
  open port use {read8, read16, read32, write8, write16, write32}

  -- `for addr in (start..start + 4 * n).step_by(4)`.
  unfoldable pub clear_words : ℕ → ℕ → S → S
  clear_words start n bus = for_each 0 n (λ (i : ℕ) (s : S). write32 (start + i * 4) 0 s) bus

  unfoldable pub swi_register_ram_reset : Cpu → S → S
  unfolding clear_words
  swi_register_ram_reset c bus =
      let flags = r 0 c in
      let b1 = if bit_set flags 0 then clear_words 0x02000000 0x10000 bus else bus in
      let b2 = if bit_set flags 1 then clear_words 0x03000000 0x1f80 b1 else b1 in
      let b3 = if bit_set flags 2 then clear_words 0x05000000 0x100 b2 else b2 in
      let b4 = if bit_set flags 3 then clear_words 0x06000000 0x6000 b3 else b3 in
      if bit_set flags 4 then clear_words 0x07000000 0x100 b4 else b4

  -- The registers but the program counter, with both interrupts' bits as System mode is entered.
  unfoldable pub swi_soft_reset : Cpu → S → Cpu × S
  swi_soft_reset c bus =
      let (bus1, flag) = read8 0x03007ffa bus in
      let bus2 = for_each 0x03007e00 0x200 (λ (addr : ℕ) (s : S). write8 addr 0 s) bus1 in
      let cleared = set (for_each 0 13 (λ (i : ℕ) (rs : List ℕ). set rs i 0) c.regs) 14 0 in
      (
        record c {
          regs = set (set cleared 13 0x03007f00) 15 (if flag == 0 then 0x08000000 else 0x02000000);
          banked = record c.banked {
            sp =
                set (set c.banked.sp (bank_index irq) 0x03007fa0) (bank_index supervisor)
                  0x03007fe0;
          };
          cpsr = record { bits = bit_and (Psr.new system).bits (not32 (2 ^ 7)) };
          pipeline_flushed = true;
        },
        bus2,
      )

  unfoldable pub swi_intr_wait : Cpu → S → Cpu × S
  swi_intr_wait c bus =
      let irq_flags = r 1 c % 2 ^ 16 in
      let discarded =
        if r 0 c == 0
        then bus
        else (let (bus', current) = read16 0x03007ff8 bus in
            write16 0x03007ff8 (bit_and current (not16 irq_flags)) bus') in
      (
        record c { intrwait_mask = if irq_flags == 0 then 0xffff else irq_flags; halted = true },
        discarded,
      )

  unfoldable pub swi_vblank_intr_wait : Cpu → S → Cpu × S
  unfolding swi_intr_wait put
  swi_vblank_intr_wait c bus = swi_intr_wait (put 1 1 (put 0 1 c)) bus

  -- A unit of CpuSet: words or halfwords, from the source or of the one value of a fill.
  unfoldable pub copy_unit : Bool → Option ℕ → ℕ → ℕ → ℕ → S → S
  copy_unit word (some fill) src dst i bus =
      if word
      then write32 (word_aligned (wrapping_add dst (i * 4))) fill bus
      else write16 (even (wrapping_add dst (i * 2))) fill bus
  copy_unit word none src dst i bus =
      if word
      then (let (bus', val) = read32 (word_aligned (wrapping_add src (i * 4))) bus in
          write32 (word_aligned (wrapping_add dst (i * 4))) val bus')
      else (let (bus', val) = read16 (even (wrapping_add src (i * 2))) bus in
          write16 (even (wrapping_add dst (i * 2))) val bus')

  -- The value of a fill, which is read once.
  unfoldable pub fill_value : Bool → Bool → ℕ → S → S × Option ℕ
  fill_value word fixed src bus =
      if fixed
      then (let (bus', val) =
            if word then read32 (word_aligned src) bus else read16 (even src) bus in
          (bus', some val))
      else (bus, none)

  unfoldable pub copy_units : Bool → ℕ → Cpu → S → S
  unfolding fill_value copy_unit
  copy_units word count c bus =
      let (bus', fill) = fill_value word (bit_set (r 2 c) 24) (r 0 c) bus in
      for_each 0 count (copy_unit word fill (r 0 c) (r 1 c)) bus'

  unfoldable pub swi_cpu_set : Cpu → S → S
  unfolding copy_units
  swi_cpu_set c bus = copy_units (bit_set (r 2 c) 26) (r 2 c % 2 ^ 21) c bus

  -- Words, in whole groups of eight.
  unfoldable pub swi_cpu_fast_set : Cpu → S → S
  unfolding copy_units
  swi_cpu_fast_set c bus = copy_units true ((r 2 c % 2 ^ 21 + 7) / 8 * 8) c bus
