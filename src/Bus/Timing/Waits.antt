-- ===== src/Bus/Timing/Waits.antt =====
-- The wait states that a WAITCNT value stands for.
use vibe_gba.Prelude.{
  ℕ, zero, suc, ◌+◌, ◌*◌, ◌/◌, ◌%◌, ◌^◌, ◌<◌, ◌≡◌, refl, arith, Bool, [], ◌∷◌, ◌==◌, if◌then◌else◌,
  get_or,
}
use vibe_gba.Prelude.Bits.{bit_set}
use vibe_gba.Bus.Timing.{WaitTable, update, n_extra}

-- The first access to the region `i` of the ROM by the two bits of its field.
pub first_waits : ℕ → ℕ
first_waits f = if f == 0 then 3 else if f == 1 then 2 else if f == 2 then 1 else 7

-- The following accesses to the region 0, 1 or 2 where its bit does not make them fast.
pub slow_waits : ℕ → ℕ
slow_waits i = if i == 0 then 1 else if i == 1 then 3 else 7

pub record Decodes (waitcnt : ℕ) (t : WaitTable) : Type 0 where
  pub first : (i : ℕ) → i < 3 → get_or t.rom_n16 i 0 ≡ first_waits (waitcnt / 2 ^ (2 + 3 * i) % 4)
  pub next :
      (i : ℕ)
      → i < 3
      → get_or t.rom_s16 i 0 ≡ (if bit_set waitcnt (4 + 3 * i) then 0 else slow_waits i)
  pub sram : t.sram ≡ first_waits (waitcnt % 4)
  pub prefetch : t.prefetch_enabled ≡ bit_set waitcnt 14

below_three : (P : ℕ → Type 0) → P 0 → P 1 → P 2 → (i : ℕ) → i < 3 → P i
below_three P a b c zero h = a
below_three P a b c (suc zero) h = b
below_three P a b c (suc (suc zero)) h = c
below_three P a b c (suc (suc (suc i))) h = absurd (omega arith)

-- A write of WAITCNT sets, for each of the three regions of the ROM, the first access by the two
-- bits at 2 + 3 i and the following ones by bit 4 + 3 i, the SRAM by its two low bits and the
-- prefetch by bit 14, whatever the table held.
pub update-Decodes :
    (waitcnt n0 n1 n2 s0 s1 s2 w : ℕ) (b : Bool)
    → Decodes waitcnt (
        update waitcnt (record {
          rom_n16 = n0 ∷ n1 ∷ n2 ∷ [];
          rom_s16 = s0 ∷ s1 ∷ s2 ∷ [];
          sram = w;
          prefetch_enabled = b;
        }))
unfolding update n_extra first_waits slow_waits
update-Decodes waitcnt n0 n1 n2 s0 s1 s2 w b =
    let t = update waitcnt (record {
      rom_n16 = n0 ∷ n1 ∷ n2 ∷ [];
      rom_s16 = s0 ∷ s1 ∷ s2 ∷ [];
      sram = w;
      prefetch_enabled = b;
    }) in
    record {
      first =
          below_three (λ i. get_or t.rom_n16 i 0 ≡ first_waits (waitcnt / 2 ^ (2 + 3 * i) % 4)) refl
            refl refl;
      next =
          below_three
            (λ i. get_or t.rom_s16 i 0 ≡ (if bit_set waitcnt (4 + 3 * i) then 0 else slow_waits i))
            refl refl refl;
      sram = ground arith;
      prefetch = refl;
    }
