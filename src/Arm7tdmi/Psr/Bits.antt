-- ===== src/Arm7tdmi/Psr/Bits.antt =====
-- What each setter of the status register changes, bit by bit, and what the getters see of it.
use vibe_gba.Prelude.{
  ℕ, zero, suc, ◌*◌, ◌^◌, ◌≤◌, ◌<◌, bit_and, ◌≡◌, refl, ap, ap₂, ◌∙◌, arith, Bool, true, false, not,
  ◌&&◌, ◌||◌, ◌==◌, if◌then◌else◌, to_ℕ,
}
use vibe_gba.Prelude.Bits.{bit_set, bit_set-and, bit_set-or, bit_set-not, bit_set-pow, not32}
use vibe_gba.Prelude.Words.{bit_and-lt, bit_or-lt, mod_bits_ext, bit_set-zero}
use native.Mathlib.Nat.{pow-le-pow_right}
use vibe_gba.Arm7tdmi.Psr.{
  CpuMode, user, fiq, irq, supervisor, abort, undefined, system, mode_bits, from_bits, Psr, mode,
  set_bit, disable_irq, set_mode,
}

-- The status register is a 32-bit word.
unfoldable pub IsWord : Psr → Type 0
IsWord p = p.bits < 2 ^ 32

value_bit : (k j : ℕ) (value : Bool) → bit_set (to_ℕ value * 2 ^ k) j ≡ ((k == j) && value)
value_bit k j true = ap (λ (t : ℕ). bit_set t j) (omega arith) ∙ bit_set-pow k j ∙ ground arith
value_bit k j false = ap (λ (t : ℕ). bit_set t j) (omega arith) ∙ bit_set-zero j ∙ ground arith

pow-lt : (k : ℕ) → k < 32 → 2 ^ k < 2 ^ 32
pow-lt k h = omega (arith, pow-le-pow_right {n = 2} (omega arith) {i = k} {j = 31} (omega arith))

-- A setter changes the one bit.
pub set_bit-bit :
    (k j : ℕ) (value : Bool) (p : Psr)
    → k < 32
    → j < 32
    → bit_set (set_bit k value p).bits j ≡ (if k == j then value else bit_set p.bits j)
unfolding set_bit
set_bit-bit k j value p h l =
    bit_set-or j (bit_and p.bits (not32 (2 ^ k))) (to_ℕ value * 2 ^ k)
    ∙ ap₂ (λ (a b : Bool). a || b)
        (bit_set-and j p.bits (not32 (2 ^ k))
          ∙ ap (λ (t : Bool). bit_set p.bits j && t)
              (bit_set-not 32 j (2 ^ k) (pow-lt k h) l ∙ ap not (bit_set-pow k j)))
        (value_bit k j value)
    ∙ ground arith

pub disable_irq-bit :
    (j : ℕ) (p : Psr) → bit_set (disable_irq p).bits j ≡ ((7 == j) || bit_set p.bits j)
unfolding disable_irq
disable_irq-bit j p =
    bit_set-or j p.bits (2 ^ 7)
    ∙ ap (λ (t : Bool). bit_set p.bits j || t) (bit_set-pow 7 j)
    ∙ ground arith

-- The mode goes by the five low bits.
pub mode-low :
    (p q : Psr) → ((k : ℕ) → k < 5 → bit_set p.bits k ≡ bit_set q.bits k) → mode p ≡ mode q
unfolding mode from_bits
mode-low p q h = rw (mod_bits_ext 5 p.bits q.bits h) refl

low_mask : (k : ℕ) → k < 5 → bit_set 0x1f k ≡ true
low_mask zero h = refl
low_mask (suc zero) h = refl
low_mask (suc (suc zero)) h = refl
low_mask (suc (suc (suc zero))) h = refl
low_mask (suc (suc (suc (suc zero)))) h = refl
low_mask (suc (suc (suc (suc (suc k))))) h = absurd (omega arith)

from_bits-mode_bits : (m : CpuMode) → from_bits (mode_bits m) ≡ m
unfolding from_bits mode_bits
from_bits-mode_bits user = refl
from_bits-mode_bits fiq = refl
from_bits-mode_bits irq = refl
from_bits-mode_bits supervisor = refl
from_bits-mode_bits abort = refl
from_bits-mode_bits undefined = refl
from_bits-mode_bits system = refl

set_mode-low :
    (m : CpuMode) (p : Psr) (k : ℕ)
    → k < 5
    → bit_set (set_mode m p).bits k ≡ bit_set (mode_bits m) k
unfolding set_mode
set_mode-low m p k h =
    bit_set-or k (bit_and p.bits (not32 0x1f)) (mode_bits m)
    ∙ ap (λ (t : Bool). t || bit_set (mode_bits m) k)
        (bit_set-and k p.bits (not32 0x1f)
          ∙ ap (λ (t : Bool). bit_set p.bits k && t)
              (bit_set-not 32 k 0x1f (omega arith) (omega arith) ∙ ap not (low_mask k h)))
    ∙ ground arith

-- A switch of the mode is seen by the getter.
pub mode-set_mode : (m : CpuMode) (p : Psr) → mode (set_mode m p) ≡ m
unfolding mode
mode-set_mode m p =
    mode-low (set_mode m p) (record { bits = mode_bits m }) (set_mode-low m p)
    ∙ from_bits-mode_bits m

-- A flag above the mode bits leaves the mode.
pub mode-set_bit :
    (k : ℕ) (value : Bool) (p : Psr) → 5 ≤ k → k < 32 → mode (set_bit k value p) ≡ mode p
mode-set_bit k value p h l =
    mode-low (set_bit k value p) p (λ j m. set_bit-bit k j value p l (omega arith) ∙ ground arith)

pub mode-disable_irq : (p : Psr) → mode (disable_irq p) ≡ mode p
mode-disable_irq p = mode-low (disable_irq p) p (λ j m. disable_irq-bit j p ∙ ground arith)

pub set_bit-IsWord :
    (k : ℕ) (value : Bool) (p : Psr) → IsWord p → k < 32 → IsWord (set_bit k value p)
unfolding IsWord set_bit
set_bit-IsWord k value p h l =
    bit_or-lt 32 (bit_and p.bits (not32 (2 ^ k))) (to_ℕ value * 2 ^ k)
      (bit_and-lt 32 p.bits (not32 (2 ^ k)) h) (value-lt value)
  where
    value-lt : (b : Bool) → to_ℕ b * 2 ^ k < 2 ^ 32
    value-lt true = omega (arith, pow-lt k l)
    value-lt false = omega arith
