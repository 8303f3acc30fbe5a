-- ===== src/Bus/Whole.antt =====
-- gba-core/src/bus/mod.rs: what a read of any address leaves as it was.
use vibe_gba.Prelude.{
  ℕ, ◌+◌, ◌*◌, ◌/◌, ◌%◌, ◌^◌, ◌<◌, ◌≡◌, length, refl, ◌∙◌, arith, Bool, true, false, not, ◌&&◌,
  ◌||◌, ◌==◌, if◌then◌else◌, ltb, leb, Option, some, none,
}
use vibe_gba.Bus.State.{Bus, Chips, eeprom_access, store_byte, word_at, store_word}
use vibe_gba.Bus.Reads.{fetch_byte, read8}
use vibe_gba.Bus.Cycles.{add_mem_cycles, charge, charge_data, charge_fetch, region, is_rom}
use vibe_gba.Bus.Reads.{
  read_bios, read_bios16, read_backup, fetch_half, fetch_word, two_halves, latched, read16, read32,
}

-- A word is read as it was stored, and no other aligned word is changed.
pub word_at-store_word :
    (m : ℕ → ℕ) (i j v : ℕ)
    → i % 4 ≡ 0
    → j % 4 ≡ 0
    → v < 2 ^ 32
    → word_at (store_word i v m) j ≡ (if i == j then v else word_at m j)
unfolding word_at store_word store_byte
word_at-store_word m i j v a b h = ground arith

module _ {A P : Type 0} where
  pub record IsSameMemory (b b' : Bus A P) : Type 0 where
    pub ewram : b'.ewram ≡ b.ewram
    pub iwram : b'.iwram ≡ b.iwram
    pub last_pc : b'.last_pc ≡ b.last_pc

  pub same : (b : Bus A P) → IsSameMemory b b
  same b = record { ewram = refl; iwram = refl; last_pc = refl }

  pub after : {a b c : Bus A P} → IsSameMemory a b → IsSameMemory b c → IsSameMemory a c
  after p q = record {
    ewram = q.ewram ∙ p.ewram;
    iwram = q.iwram ∙ p.iwram;
    last_pc = q.last_pc ∙ p.last_pc;
  }

  either :
      {a : Bus A P} (t : Bool) (x y : Bus A P)
      → IsSameMemory a x
      → IsSameMemory a y
      → IsSameMemory a (if t then x else y)
  either true x y p q = p
  either false x y p q = q

  charge-IsSameMemory :
      (mode : Option Bool) (addr width : ℕ) (b : Bus A P)
      → IsSameMemory b (charge mode addr width b)
  unfolding charge charge_data charge_fetch
  charge-IsSameMemory (some seq) addr width b =
      either (not (is_rom (region addr))) _ _
        (either (region addr == 0x2) _ _ (record { ewram = refl; iwram = refl; last_pc = refl })
          (same b))
        (record { ewram = refl; iwram = refl; last_pc = refl })
  charge-IsSameMemory none addr width b =
      either (is_rom (region addr)) _ _ (record { ewram = refl; iwram = refl; last_pc = refl })
        (record { ewram = refl; iwram = refl; last_pc = refl })

  pub add_mem_cycles-IsSameMemory :
      (addr width : ℕ) (b : Bus A P) → IsSameMemory b (add_mem_cycles addr width b)
  unfolding add_mem_cycles
  add_mem_cycles-IsSameMemory addr width b =
      after (record { ewram = refl; iwram = refl; last_pc = refl })
        (charge-IsSameMemory b.fetch_mode addr width (record b { fetch_mode = none }))

  -- The bus that a read gives has the same work memories and the same program counter.
  pub record Reads (b : Bus A P) (r : Bus A P × ℕ) : Type 0 where
    pub kept : IsSameMemory b r.0

  Reads-if :
      {b : Bus A P} (t : Bool) {x y : Bus A P × ℕ}
      → Reads b x
      → Reads b y
      → Reads b (if t then x else y)
  Reads-if true p q = p
  Reads-if false p q = q

  pure_read : (b : Bus A P) (v : ℕ) → Reads b (b, v)
  pure_read b v = record { kept = same b }

  read_bios-Reads : (addr : ℕ) (b : Bus A P) → Reads b (read_bios addr b)
  unfolding read_bios
  read_bios-Reads addr b =
      let i = addr % 2 ^ 14 in
      Reads-if (ltb b.last_pc 0x4000)
        (Reads-if (ltb (i + 3) (length b.bios))
          (record { kept = record { ewram = refl; iwram = refl; last_pc = refl } }) (pure_read b _))
        (pure_read b _)

  read_bios16-Reads : (addr : ℕ) (b : Bus A P) → Reads b (read_bios16 addr b)
  unfolding read_bios16
  read_bios16-Reads addr b = record {
    kept =
        after (read_bios-Reads addr b).kept (read_bios-Reads (addr + 1) (read_bios addr b).0).kept;
  }

  read_backup-Reads : (addr : ℕ) (b : Bus A P) → Reads b (read_backup addr b)
  unfolding read_backup
  read_backup-Reads addr b = record { kept = record { ewram = refl; iwram = refl; last_pc = refl } }

  -- What is done to the value alone.
  with_value : {b : Bus A P} {r : Bus A P × ℕ} (v : ℕ) → Reads b r → Reads b (r.0, v)
  with_value v p = record { kept = p.kept }

  read_after :
      (addr width : ℕ) (b : Bus A P) (fetch : Bus A P → Bus A P × ℕ)
      → ((b' : Bus A P) → Reads b' (fetch b'))
      → Reads b (latched (fetch (add_mem_cycles addr width b)))
  unfolding latched
  read_after addr width b fetch h = record {
    kept = after (add_mem_cycles-IsSameMemory addr width b) (
        after (h (add_mem_cycles addr width b)).kept
          (record { ewram = refl; iwram = refl; last_pc = refl }));
  }

module _ {A P : Type 0} (chips : Chips A P) where
  fetch_half-Reads : (addr : ℕ) (b : Bus A P) → Reads b (fetch_half chips addr b)
  unfolding fetch_half
  fetch_half-Reads addr b =
      let page = addr / 2 ^ 24 in
      Reads-if (page == 0x00) (read_bios16-Reads addr b) (
        Reads-if (page == 0x02) (pure_read b _) (
          Reads-if (page == 0x03) (pure_read b _) (
            Reads-if (page == 0x04) (pure_read b _) (
              Reads-if (page == 0x05) (pure_read b _) (
                Reads-if (page == 0x06) (pure_read b _) (
                  Reads-if (page == 0x07) (pure_read b _) (
                    Reads-if (leb 0x08 page && leb page 0x0c) (pure_read b _) (
                      Reads-if (page == 0x0d)
                        (Reads-if (eeprom_access addr b) (read_backup-Reads 0 b) (pure_read b _))
                        (Reads-if (page == 0x0e || page == 0x0f)
                          (with_value _ (read_backup-Reads (addr % 2 ^ 16) b))
                          (pure_read b _))))))))))

  pub read16-Reads : (addr : ℕ) (b : Bus A P) → Reads b (read16 chips addr b)
  unfolding read16
  read16-Reads addr b =
      read_after (addr / 2 * 2) 2 b (fetch_half chips (addr / 2 * 2))
        (fetch_half-Reads (addr / 2 * 2))

  fetch_word-Reads : (addr : ℕ) (b : Bus A P) → Reads b (fetch_word chips addr b)
  unfolding fetch_word two_halves
  fetch_word-Reads addr b =
      let page = addr / 2 ^ 24 in
      Reads-if (page == 0x02) (pure_read b _) (
        Reads-if (page == 0x03) (pure_read b _) (
          Reads-if (page == 0x04) (pure_read b _) (
            Reads-if (page == 0x05) (pure_read b _) (
              Reads-if (page == 0x06) (pure_read b _) (
                Reads-if (page == 0x07) (pure_read b _) (
                  Reads-if (page == 0x0d && eeprom_access addr b) (read_backup-Reads 0 b) (
                    Reads-if (leb 0x08 page && leb page 0x0d) (pure_read b _) (
                      Reads-if (page == 0x0e || page == 0x0f)
                        (with_value _ (read_backup-Reads (addr % 2 ^ 16) b))
                        (record {
                          kept =
                              after (read16-Reads addr b).kept
                                (read16-Reads (addr + 2) (read16 chips addr b).0).kept;
                        })))))))))

  pub read32-IsSameMemory : (addr : ℕ) (b : Bus A P) → IsSameMemory b (read32 chips addr b).0
  unfolding read32
  read32-IsSameMemory addr b =
      (read_after (addr / 4 * 4) 4 b (fetch_word chips (addr / 4 * 4))
        (fetch_word-Reads (addr / 4 * 4))).kept

  fetch_byte-Reads : (addr : ℕ) (b : Bus A P) → Reads b (fetch_byte chips addr b)
  unfolding fetch_byte
  fetch_byte-Reads addr b =
      let page = addr / 2 ^ 24 in
      Reads-if (page == 0x00) (read_bios-Reads addr b) (
        Reads-if (page == 0x02) (pure_read b _) (
          Reads-if (page == 0x03) (pure_read b _) (
            Reads-if (page == 0x04) (pure_read b _) (
              Reads-if (page == 0x05) (pure_read b _) (
                Reads-if (page == 0x06) (pure_read b _) (
                  Reads-if (page == 0x07) (pure_read b _) (
                    Reads-if (leb 0x08 page && leb page 0x0c) (pure_read b _) (
                      Reads-if (page == 0x0d)
                        (Reads-if (eeprom_access addr b) (read_backup-Reads 0 b) (pure_read b _))
                        (Reads-if (page == 0x0e || page == 0x0f)
                          (read_backup-Reads (addr % 2 ^ 16) b) (pure_read b _))))))))))

  pub read8-IsSameMemory : (addr : ℕ) (b : Bus A P) → IsSameMemory b (read8 chips addr b).0
  unfolding read8
  read8-IsSameMemory addr b =
      (read_after addr 1 b (fetch_byte chips addr) (fetch_byte-Reads addr)).kept
