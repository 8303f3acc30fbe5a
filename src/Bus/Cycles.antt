-- ===== src/Bus/Cycles.antt =====
-- gba-core/src/bus/mod.rs: the cycles of an access, as they are counted where no environment
-- variable picks another mode.
use vibe_gba.Prelude.{
  ℕ, ◌+◌, ◌-◌, ◌/◌, ◌%◌, ◌^◌, Bool, true, false, not, ◌&&◌, ◌||◌, ◌==◌, if◌then◌else◌, leb, get_or,
  Option, some, none,
}
use vibe_gba.Bus.State.{Bus}
use vibe_gba.Bus.Timing.{WaitTable, Prefetch, rom_region, restart}

abbrev pub region : ℕ → ℕ
region addr = addr / 2 ^ 24 % 2 ^ 4

abbrev pub is_rom : ℕ → Bool
is_rom r = leb 0x8 r && leb r 0xd

-- A halfword of a fetch from the ROM: the cycles it costs and the buffer it leaves.
unfoldable pub fetch_half : WaitTable → ℕ → Bool → Prefetch → ℕ × Prefetch
fetch_half wait r jump p =
    let s = get_or wait.rom_s16 r 0 in
    if jump
    then (get_or wait.rom_n16 r 0, restart p)
    else if wait.prefetch_enabled
    then if leb s p.credit
      then (0, record { credit = p.credit - s; streaming = true })
      else (s - p.credit, record { credit = 0; streaming = true })
    else (s, record p { streaming = true })

-- The whole fetch, of one halfword or two.
unfoldable pub fetch_cost : WaitTable → ℕ → ℕ → Bool → Prefetch → ℕ × Prefetch
unfolding fetch_half
fetch_cost wait addr width seq p =
    let r = rom_region addr in
    let first = fetch_half wait r (not seq) p in
    if leb 4 width
    then (let second = fetch_half wait r false first.1 in (first.0 + second.0, second.1))
    else first

-- The extra cycles of a data access outside the ROM.
unfoldable pub data_cost : WaitTable → ℕ → ℕ → ℕ
data_cost wait addr width =
    let page = region addr in
    if page == 0x2
    then if leb 4 width then 5 else 2
    else if page == 0x5 || page == 0x6
    then if leb 4 width then 1 else 0
    else if leb 0xe page
    then wait.sram
    else 0

module _ {A P : Type 0} where
  unfoldable pub charge_data : ℕ → ℕ → Bus A P → Bus A P
  unfolding data_cost
  charge_data addr width b =
      if is_rom (region addr)
      then (let r = rom_region addr in
          let n = get_or b.wait.rom_n16 r 0 in
          record b {
            prefetch = restart b.prefetch;
            mem_access_cycles =
                b.mem_access_cycles + (if leb 4 width then n + get_or b.wait.rom_s16 r 0 else n);
          })
      else record b { mem_access_cycles = b.mem_access_cycles + data_cost b.wait addr width }

  unfoldable pub charge_fetch : ℕ → ℕ → Bool → Bus A P → Bus A P
  unfolding fetch_cost
  charge_fetch addr width seq b =
      if not (is_rom (region addr))
      then if region addr == 0x2
        then record b { mem_access_cycles = b.mem_access_cycles + (if leb 4 width then 5 else 2) }
        else b
      else (let (extra, p) = fetch_cost b.wait addr width seq b.prefetch in
          record b { prefetch = p; mem_access_cycles = b.mem_access_cycles + extra })

  unfoldable pub charge : Option Bool → ℕ → ℕ → Bus A P → Bus A P
  unfolding charge_data charge_fetch
  charge (some seq) addr width b = charge_fetch addr width seq b
  charge none addr width b = charge_data addr width b

  -- The mode is taken: the access after it is one of data.
  unfoldable pub add_mem_cycles : ℕ → ℕ → Bus A P → Bus A P
  unfolding charge
  add_mem_cycles addr width b = charge b.fetch_mode addr width (record b { fetch_mode = none })
