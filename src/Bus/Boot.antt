-- ===== src/Bus/Boot.antt =====
-- gba-core/src/bus/mod.rs: the bus at the start, and the BIOS that stands in where none is given.
use vibe_gba.Prelude.{
  ℕ, ◌+◌, ◌/◌, ◌%◌, ◌^◌, Bool, true, false, List, set, replicate, Option, some, none, if◌then◌else◌,
}
use vibe_gba.Backup.Media.{detect_backup_type}
use vibe_gba.Rtc
use vibe_gba.Dma
use vibe_gba.Interrupt
use vibe_gba.Keypad
use vibe_gba.Timer
use vibe_gba.Bus.IoRegs
use vibe_gba.Bus.Timing
use vibe_gba.Bus.State.{Bus}

-- The four bytes of a word from an address on.
unfoldable pub store_le : ℕ → ℕ → List ℕ → List ℕ
store_le a word bios =
    set
      (set (set (set bios a (word % 2 ^ 8)) (a + 1) (word / 2 ^ 8 % 2 ^ 8)) (a + 2)
        (word / 2 ^ 16 % 2 ^ 8))
      (a + 3) (word / 2 ^ 24 % 2 ^ 8)

-- The interrupt handler from 0x18 on, and the word that the fetch beyond its end finds.
unfoldable pub make_hle_bios : List ℕ
unfolding store_le
make_hle_bios = store_le 0x30 0xe3a02004 (
    store_le 0x2c 0xe25ef004 (
      store_le 0x28 0xe8bd500f (
        store_le 0x24 0xe510f004 (
          store_le 0x20 0xe28fe000
            (store_le 0x1c 0xe3a00404 (store_le 0x18 0xe92d500f (replicate 0x4000 0)))))))

-- A BIOS that is given is used, else the one above with the screen blanked.
unfoldable pub new : {A P : Type 0} → A → P → Option (List ℕ) → List ℕ → Bus A P
unfolding make_hle_bios
new apu ppu bios rom =
    let bios_data : List ℕ = elim bios [ none ↦ make_hle_bios | some image ↦ image ] in
    let has_bios : Bool = elim bios [ none ↦ false | some image ↦ true ] in
    let io = IoRegs.new in
    record {
      bios = bios_data;
      ewram = λ i. 0;
      iwram = λ i. 0;
      io = if has_bios then io else record io { dispcnt = 0x0080 };
      ppu = ppu;
      apu = apu;
      palette = λ i. 0;
      vram = λ i. 0;
      oam = λ i. 0;
      rom = rom;
      backup = detect_backup_type rom;
      dma = replicate 4 Dma.new;
      timers = Timer.new;
      interrupt = Interrupt.new;
      keypad = Keypad.new;
      rtc = record Rtc.new { enabled = Rtc.detect rom };
      last_read = 0;
      bios_latch = 0xe129f000;
      has_bios = has_bios;
      halt_requested = false;
      last_pc = 0;
      mem_access_cycles = 0;
      last_access_end = 0xffffffff;
      now = 0;
      wait = Timing.new_table;
      prefetch = Timing.new;
      fetch_mode = none;
    }
