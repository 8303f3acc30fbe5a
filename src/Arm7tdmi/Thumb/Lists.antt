-- ===== src/Arm7tdmi/Thumb/Lists.antt =====
-- The loops over a list of registers: the words of the list, and the addresses of a walk.
pub mod Stores
pub mod Loads
use vibe_gba.Prelude.{
  ℕ, zero, suc, ◌+◌, ◌*◌, ◌/◌, ◌%◌, ◌^◌, ◌≤◌, ◌<◌, ◌≡◌, refl, ◌∙◌, arith, true, false,
  if◌then◌else◌, Bool-cases, inl, inr, to_ℕ,
}
use vibe_gba.Prelude.Bits.{bit_set, bit_set-suc}
use vibe_gba.Bus.Port.{Port}
use vibe_gba.Bus.Memory.{IsMemory}
use vibe_gba.Arm7tdmi.Loops.{count_ones}
use vibe_gba.Arm7tdmi.Arm.Transfer.{Walk}

-- How many registers of the list lie in `first..first + n`.
pub slots : ℕ → ℕ → ℕ → ℕ
slots rlist first zero = 0
slots rlist first (suc n) = to_ℕ (bit_set rlist first) + slots rlist (suc first) n

-- The words from an address on are the values of the registers of the list.
pub Stored : ℕ → (ℕ → ℕ) → (ℕ → ℕ) → ℕ → ℕ → ℕ → Type 0
Stored rlist value word a first zero = 0 ≤ 0
Stored rlist value word a first (suc n) =
    if bit_set rlist first
    then (word a ≡ value first) × Stored rlist value word (a + 4) (suc first) n
    else Stored rlist value word a (suc first) n

low_bit : (x : ℕ) → to_ℕ (bit_set x 0) ≡ x % 2
low_bit x = ground arith

slots-half : (x first n : ℕ) → slots x (suc first) n ≡ slots (x / 2) first n
unfolding slots
slots-half x first zero = refl
slots-half x first (suc n) = rw (bit_set-suc x first, slots-half x (suc first) n) refl

pub count_ones-slots : (n x : ℕ) → count_ones n x ≡ slots x 0 n
unfolding count_ones slots
count_ones-slots zero x = refl
count_ones-slots (suc n) x = ground (arith, count_ones-slots n (x / 2), slots-half x 0 n, low_bit x)

module _ (rlist first n : ℕ) where
  pub slots_in :
      bit_set rlist first ≡ true → slots rlist first (suc n) ≡ 1 + slots rlist (suc first) n
  unfolding slots
  slots_in e = rw e refl

  pub slots_out :
      bit_set rlist first ≡ false → slots rlist first (suc n) ≡ slots rlist (suc first) n
  unfolding slots
  slots_out e = rw e (omega arith)

module _ (rlist : ℕ) (value word : ℕ → ℕ) (a first n : ℕ) where
  pub Stored_in :
      bit_set rlist first ≡ true
      → Stored rlist value word a first (suc n)
      → (word a ≡ value first) × Stored rlist value word (a + 4) (suc first) n
  unfolding Stored
  Stored_in e s = rw e at s

  pub Stored_out :
      bit_set rlist first ≡ false
      → Stored rlist value word a first (suc n)
      → Stored rlist value word a (suc first) n
  unfolding Stored
  Stored_out e s = rw e at s

pub next_addr : (a : ℕ) → a + 4 < 2 ^ 32 → (a + 4) % 2 ^ 32 ≡ a + 4
next_addr a h = omega arith

-- The stored words matter only where they stand.
pub Stored_frame :
    (rlist : ℕ) (value w w' : ℕ → ℕ) (n first a : ℕ)
    → ((b : ℕ) → a ≤ b → b < a + 4 * slots rlist first n → b % 4 ≡ a % 4 → w' b ≡ w b)
    → Stored rlist value w a first n
    → Stored rlist value w' a first n
unfolding Stored slots
Stored_frame rlist value w w' zero first a h s = s
Stored_frame rlist value w w' (suc n) first a h s = elim (Bool-cases (bit_set rlist first)) [
  | inl e ↦
      let s' : (w a ≡ value first) × Stored rlist value w (a + 4) (suc first) n = rw e at s in
      rw e (
        h a (omega arith) (ground arith) refl ∙ s'.0,
        Stored_frame rlist value w w' n (suc first) (a + 4)
            (λ b l k q. h b (omega arith) (ground arith) (omega arith)) s'.1,
      )
  | inr e ↦ rw e (
      Stored_frame rlist value w w' n (suc first) a (λ b l k q. h b l (ground arith) q) (rw e at s))
]

module _ {S : Type 0} (port : Port S) (lo hi : ℕ) (word : S → ℕ → ℕ)
    (m : IsMemory S port lo hi word) (rlist : ℕ) where
  -- The addresses of a walk over `n` registers lie in the memory.
  pub record Fits (first n : ℕ) (t : Walk S) : Type 0 where
    pub aligned : t.addr % 4 ≡ 0
    pub above : lo ≤ t.addr
    pub below : t.addr + 4 * slots rlist first n ≤ hi
    pub no_wrap : t.addr + 4 * slots rlist first n < 2 ^ 32

  pub Fits-out :
      (first n : ℕ) (t : Walk S)
      → bit_set rlist first ≡ false
      → Fits first (suc n) t
      → Fits (suc first) n t
  Fits-out first n t e f =
      let k = slots_out rlist first n e in
      record {
        aligned = f.aligned;
        above = f.above;
        below = omega (arith, k, f.below);
        no_wrap = omega (arith, k, f.no_wrap);
      }

  pub Fits-in :
      (first n : ℕ) (t t' : Walk S)
      → bit_set rlist first ≡ true
      → t'.addr ≡ t.addr + 4
      → Fits first (suc n) t
      → Fits (suc first) n t'
  Fits-in first n t t' e a f =
      let k = slots_in rlist first n e in
      record {
        aligned = omega (arith, a, f.aligned);
        above = omega (arith, a, f.above);
        below = omega (arith, a, k, f.below);
        no_wrap = omega (arith, a, k, f.no_wrap);
      }
