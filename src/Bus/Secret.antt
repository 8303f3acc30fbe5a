-- ===== src/Bus/Secret.antt =====
-- gba-core/src/bus/mod.rs: what the program outside of the BIOS learns of it.
use vibe_gba.Prelude.{
  ℕ, ◌+◌, ◌*◌, ◌/◌, ◌%◌, ◌^◌, ◌≤◌, ◌≡◌, refl, ap, sym, ◌∙◌, arith, Bool, true, false, not, ◌&&◌,
  ◌||◌, ◌==◌, if◌then◌else◌, leb, le→not_ltb, Option, some, none, List,
}
use vibe_gba.Bus.State.{Bus, Chips, eeprom_access}
use vibe_gba.Bus.Cycles.{add_mem_cycles, charge, charge_data, charge_fetch, region, is_rom}
use vibe_gba.Bus.Registers.{read_io16, read_io8}
use vibe_gba.Bus.Reads.{
  read_bios, read_bios16, read_vram8, read_vram16, read_rom8, read_rom16, read_backup, fetch_byte,
  fetch_half, fetch_word, two_halves, latched, read8, read16, read32,
}
use vibe_gba.Bus.Whole.{add_mem_cycles-IsSameMemory, read16-Reads}

module _ {A P : Type 0} (other : List ℕ) where
  -- The same bus with another BIOS, and the same read there.
  abbrev pub with_bios : Bus A P → Bus A P
  with_bios b = record b { bios = other }

  abbrev pub elsewhere : Bus A P × ℕ → Bus A P × ℕ
  elsewhere (b, v) = (with_bios b, v)

  if_elsewhere :
      (t : Bool) (x y x' y' : Bus A P × ℕ)
      → x' ≡ elsewhere x
      → y' ≡ elsewhere y
      → (if t then x' else y') ≡ elsewhere (if t then x else y)
  if_elsewhere true x y x' y' p q = p
  if_elsewhere false x y x' y' p q = q

  if_bus :
      (t : Bool) (x y x' y' : Bus A P)
      → x' ≡ with_bios x
      → y' ≡ with_bios y
      → (if t then x' else y') ≡ with_bios (if t then x else y)
  if_bus true x y x' y' p q = p
  if_bus false x y x' y' p q = q

  charge-with_bios :
      (mode : Option Bool) (addr width : ℕ) (b : Bus A P)
      → charge mode addr width (with_bios b) ≡ with_bios (charge mode addr width b)
  unfolding charge charge_data charge_fetch
  charge-with_bios (some seq) addr width b =
      if_bus (not (is_rom (region addr))) _ _ _ _ (if_bus (region addr == 0x2) _ _ _ _ refl refl)
        refl
  charge-with_bios none addr width b = if_bus (is_rom (region addr)) _ _ _ _ refl refl

  add_mem_cycles-with_bios :
      (addr width : ℕ) (b : Bus A P)
      → add_mem_cycles addr width (with_bios b) ≡ with_bios (add_mem_cycles addr width b)
  unfolding add_mem_cycles
  add_mem_cycles-with_bios addr width b =
      charge-with_bios b.fetch_mode addr width (record b { fetch_mode = none })

  abbrev latch_byte : ℕ → Bus A P → ℕ
  latch_byte addr b = b.bios_latch / 2 ^ (addr % 4 * 8) % 2 ^ 8

  read_bios_out :
      (addr : ℕ) (b : Bus A P) → 0x4000 ≤ b.last_pc → read_bios addr b ≡ (b, latch_byte addr b)
  unfolding read_bios
  read_bios_out addr b out = rw (le→not_ltb b.last_pc 0x4000 out) refl

  read_bios16_out :
      (addr : ℕ) (b : Bus A P)
      → 0x4000 ≤ b.last_pc
      → read_bios16 addr b ≡ (b, latch_byte addr b + latch_byte (addr + 1) b * 2 ^ 8)
  unfolding read_bios16
  read_bios16_out addr b out = rw (read_bios_out addr b out, read_bios_out (addr + 1) b out) refl

  module _ (b : Bus A P) (out : 0x4000 ≤ b.last_pc) (addr : ℕ) where
    read_bios-elsewhere : read_bios addr (with_bios b) ≡ elsewhere (read_bios addr b)
    read_bios-elsewhere =
        read_bios_out addr (with_bios b) out ∙ sym (ap elsewhere (read_bios_out addr b out))

    read_bios16-elsewhere : read_bios16 addr (with_bios b) ≡ elsewhere (read_bios16 addr b)
    read_bios16-elsewhere =
        read_bios16_out addr (with_bios b) out ∙ sym (ap elsewhere (read_bios16_out addr b out))

  module _ (chips : Chips A P) where
    fetch_byte-elsewhere :
        (addr : ℕ) (b : Bus A P)
        → 0x4000 ≤ b.last_pc
        → fetch_byte chips addr (with_bios b) ≡ elsewhere (fetch_byte chips addr b)
    unfolding fetch_byte read_io8 read_io16 read_vram8 read_rom8 read_backup eeprom_access
    fetch_byte-elsewhere addr b out =
        let page = addr / 2 ^ 24 in
        if_elsewhere (page == 0x00) _ _ _ _ (read_bios-elsewhere b out addr) (
          if_elsewhere (page == 0x02) _ _ _ _ refl (
            if_elsewhere (page == 0x03) _ _ _ _ refl (
              if_elsewhere (page == 0x04) _ _ _ _ refl (
                if_elsewhere (page == 0x05) _ _ _ _ refl (
                  if_elsewhere (page == 0x06) _ _ _ _ refl (
                    if_elsewhere (page == 0x07) _ _ _ _ refl (
                      if_elsewhere (leb 0x08 page && leb page 0x0c) _ _ _ _ refl (
                        if_elsewhere (page == 0x0d) _ _ _ _
                          (if_elsewhere (eeprom_access addr b) _ _ _ _ refl refl)
                          (if_elsewhere (page == 0x0e || page == 0x0f) _ _ _ _ refl refl)))))))))

    fetch_half-elsewhere :
        (addr : ℕ) (b : Bus A P)
        → 0x4000 ≤ b.last_pc
        → fetch_half chips addr (with_bios b) ≡ elsewhere (fetch_half chips addr b)
    unfolding fetch_half read_io16 read_vram16 read_rom16 read_backup eeprom_access
    fetch_half-elsewhere addr b out =
        let page = addr / 2 ^ 24 in
        if_elsewhere (page == 0x00) _ _ _ _ (read_bios16-elsewhere b out addr) (
          if_elsewhere (page == 0x02) _ _ _ _ refl (
            if_elsewhere (page == 0x03) _ _ _ _ refl (
              if_elsewhere (page == 0x04) _ _ _ _ refl (
                if_elsewhere (page == 0x05) _ _ _ _ refl (
                  if_elsewhere (page == 0x06) _ _ _ _ refl (
                    if_elsewhere (page == 0x07) _ _ _ _ refl (
                      if_elsewhere (leb 0x08 page && leb page 0x0c) _ _ _ _ refl (
                        if_elsewhere (page == 0x0d) _ _ _ _
                          (if_elsewhere (eeprom_access addr b) _ _ _ _ refl refl)
                          (if_elsewhere (page == 0x0e || page == 0x0f) _ _ _ _ refl refl)))))))))

    -- An access of either kind after its cycles, which are the same.
    read-elsewhere :
        (addr width : ℕ) (b : Bus A P) (fetch : Bus A P → Bus A P × ℕ)
        → ((x : Bus A P) → 0x4000 ≤ x.last_pc → fetch (with_bios x) ≡ elsewhere (fetch x))
        → 0x4000 ≤ b.last_pc
        → latched (fetch (add_mem_cycles addr width (with_bios b)))
          ≡ elsewhere (latched (fetch (add_mem_cycles addr width b)))
    unfolding latched
    read-elsewhere addr width b fetch h out =
        ap (λ (x : Bus A P). latched (fetch x)) (add_mem_cycles-with_bios addr width b)
        ∙ ap latched (
            h (add_mem_cycles addr width b)
              (omega (arith, out, (add_mem_cycles-IsSameMemory addr width b).last_pc)))

    read8-elsewhere :
        (addr : ℕ) (b : Bus A P)
        → 0x4000 ≤ b.last_pc
        → read8 chips addr (with_bios b) ≡ elsewhere (read8 chips addr b)
    unfolding read8
    read8-elsewhere addr b =
        read-elsewhere addr 1 b (fetch_byte chips addr) (fetch_byte-elsewhere addr)

    read16-elsewhere :
        (addr : ℕ) (b : Bus A P)
        → 0x4000 ≤ b.last_pc
        → read16 chips addr (with_bios b) ≡ elsewhere (read16 chips addr b)
    unfolding read16
    read16-elsewhere addr b =
        read-elsewhere (addr / 2 * 2) 2 b (fetch_half chips (addr / 2 * 2))
          (fetch_half-elsewhere (addr / 2 * 2))

    -- Two halfwords, where nothing else answers.
    twice : ℕ → Bus A P → Bus A P × ℕ
    twice addr b =
        let (b1, lo) = read16 chips addr b in
        let (b2, hi) = read16 chips (addr + 2) b1 in (b2, lo + hi * 2 ^ 16)

    twice-elsewhere :
        (addr : ℕ) (b : Bus A P)
        → 0x4000 ≤ b.last_pc
        → twice addr (with_bios b) ≡ elsewhere (twice addr b)
    unfolding twice
    twice-elsewhere addr b out =
        let kept = (read16-Reads chips addr b).kept.last_pc in
        let first = read16 chips addr b in
        ap
          (λ (r : Bus A P × ℕ).
            ((read16 chips (addr + 2) r.0).0, r.1 + (read16 chips (addr + 2) r.0).1 * 2 ^ 16))
          (read16-elsewhere addr b out)
        ∙ ap (λ (r : Bus A P × ℕ). (r.0, first.1 + r.1 * 2 ^ 16))
            (read16-elsewhere (addr + 2) first.0 (omega (arith, out, kept)))

    fetch_word-elsewhere :
        (addr : ℕ) (b : Bus A P)
        → 0x4000 ≤ b.last_pc
        → fetch_word chips addr (with_bios b) ≡ elsewhere (fetch_word chips addr b)
    unfolding fetch_word two_halves read_io16 read_vram16 read_rom16 read_backup eeprom_access twice
    fetch_word-elsewhere addr b out =
        let page = addr / 2 ^ 24 in
        if_elsewhere (page == 0x02) _ _ _ _ refl (
          if_elsewhere (page == 0x03) _ _ _ _ refl (
            if_elsewhere (page == 0x04) _ _ _ _ refl (
              if_elsewhere (page == 0x05) _ _ _ _ refl (
                if_elsewhere (page == 0x06) _ _ _ _ refl (
                  if_elsewhere (page == 0x07) _ _ _ _ refl (
                    if_elsewhere (page == 0x0d && eeprom_access addr b) _ _ _ _ refl (
                      if_elsewhere (leb 0x08 page && leb page 0x0d) _ _ _ _ refl (
                        if_elsewhere (page == 0x0e || page == 0x0f) _ _ _ _ refl
                          (twice-elsewhere addr b out)))))))))

    read32-elsewhere :
        (addr : ℕ) (b : Bus A P)
        → 0x4000 ≤ b.last_pc
        → read32 chips addr (with_bios b) ≡ elsewhere (read32 chips addr b)
    unfolding read32
    read32-elsewhere addr b =
        read-elsewhere (addr / 4 * 4) 4 b (fetch_word chips (addr / 4 * 4))
          (fetch_word-elsewhere (addr / 4 * 4))

    -- Outside of the BIOS, a read of any width at any address gives a value, and leaves a bus, that do
    -- not depend on what the BIOS holds.
    pub bios_is_protected :
        (addr : ℕ) (b : Bus A P)
        → 0x4000 ≤ b.last_pc
        → (read8 chips addr (with_bios b) ≡ elsewhere (read8 chips addr b))
          × (read16 chips addr (with_bios b) ≡ elsewhere (read16 chips addr b))
          × (read32 chips addr (with_bios b) ≡ elsewhere (read32 chips addr b))
    bios_is_protected addr b out =
        (read8-elsewhere addr b out, read16-elsewhere addr b out, read32-elsewhere addr b out)
