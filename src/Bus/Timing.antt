-- ===== src/Bus/Timing.antt =====
-- gba-core/src/bus/timing.rs: the wait states of the cartridge and the credit of its prefetch buffer.
pub mod Credit
pub mod Waits
mod Examples
use vibe_gba.Prelude.{
  ℕ, ◌+◌, ◌/◌, ◌%◌, ◌^◌, min, Bool, true, false, ◌||◌, List, [], ◌∷◌, ◌==◌, if◌then◌else◌, set,
  replicate,
}
use vibe_gba.Prelude.Bits.{bit_set}

pub record WaitTable : Type 0 where
  pub rom_n16 : List ℕ
  pub rom_s16 : List ℕ
  pub sram : ℕ
  pub prefetch_enabled : Bool

pub n_extra : ℕ → ℕ
n_extra field =
    let f = field % 4 in if f == 0 then 3 else if f == 1 then 2 else if f == 2 then 1 else 7

pub update : ℕ → WaitTable → WaitTable
unfolding n_extra
update waitcnt t = record t {
  rom_n16 =
      set (set (set t.rom_n16 0 (n_extra (waitcnt / 2 ^ 2))) 1 (n_extra (waitcnt / 2 ^ 5))) 2
        (n_extra (waitcnt / 2 ^ 8));
  rom_s16 =
      set
        (set (set t.rom_s16 0 (if bit_set waitcnt 4 then 0 else 1)) 1
          (if bit_set waitcnt 7 then 0 else 3))
        2 (if bit_set waitcnt 10 then 0 else 7);
  sram = n_extra (waitcnt % 4);
  prefetch_enabled = bit_set waitcnt 14;
}

pub new_table : WaitTable
unfolding update
new_table = update 0 (record {
  rom_n16 = replicate 3 0;
  rom_s16 = replicate 3 0;
  sram = 0;
  prefetch_enabled = false;
})

pub rom_region : ℕ → ℕ
rom_region addr =
    let page = addr / 2 ^ 24 % 16 in
    if page == 0x8 || page == 0x9 then 0 else if page == 0xa || page == 0xb then 1 else 2

pub record Prefetch : Type 0 where
  pub credit : ℕ
  pub streaming : Bool

pub new : Prefetch
new = record { credit = 0; streaming = false }

pub advance : ℕ → ℕ → Prefetch → Prefetch
advance cycles max_credit p =
    if p.streaming then record p { credit = min (p.credit + cycles) max_credit } else p

pub restart : Prefetch → Prefetch
restart p = record { credit = 0; streaming = true }
