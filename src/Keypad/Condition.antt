-- ===== src/Keypad/Condition.antt =====
-- The keypad interrupt as a condition on the buttons.
use vibe_gba.Prelude.{
  ℕ, ◌%◌, ◌^◌, ◌<◌, bit_and, ◌≡◌, refl, sym, ap₂, ◌∙◌, arith, Bool, true, false, not, ◌&&◌, ◌||◌,
  ◌==◌, if◌then◌else◌,
}
use vibe_gba.Prelude.Bits.{bit_set, bit_set-and, not16}
use vibe_gba.Prelude.Words.{bit_and-lt, bit_set-mod}
use vibe_gba.Prelude.Lines.{
  any_below, any_below_cong, any_bit, all_below, all_below_cong, all_bits, same,
}
use vibe_gba.Keypad.{Keypad, set_keys, check_irq}

-- Which buttons raise the interrupt, bit 15 of KEYCNT choosing between all and any of those it names.
pub fires : ℕ → ℕ → Bool
fires keycnt pressed =
    bit_set keycnt 14
    && (if bit_set keycnt 15
        then all_below 10 (λ k. not (bit_set keycnt k) || bit_set pressed k)
        else any_below 10 (λ k. bit_set keycnt k && bit_set pressed k))

twice_inverted : (p : ℕ) → p < 2 ^ 16 → not16 (not16 p % 2 ^ 10) % 2 ^ 10 ≡ p % 2 ^ 10
twice_inverted p h = omega arith

low_bit : (x k : ℕ) → k < 10 → bit_set (x % 2 ^ 10) k ≡ bit_set x k
low_bit x k h = ground (arith, bit_set-mod 10 k x)

masked_bit :
    (p m k : ℕ)
    → k < 10
    → bit_set (bit_and (p % 2 ^ 10) (m % 2 ^ 10)) k ≡ (bit_set p k && bit_set m k)
masked_bit p m k h =
    bit_set-and k (p % 2 ^ 10) (m % 2 ^ 10)
    ∙ ap₂ (λ (a b : Bool). a && b) (low_bit p k h) (low_bit m k h)

covers : (a b : Bool) → same (a && b) b ≡ (not b || a)
covers true true = refl
covers true false = refl
covers false true = refl
covers false false = refl

flip_and : (a b : Bool) → (a && b) ≡ (b && a)
flip_and true true = refl
flip_and true false = refl
flip_and false true = refl
flip_and false false = refl

all_named :
    (p m : ℕ)
    → (bit_and (p % 2 ^ 10) (m % 2 ^ 10) == m % 2 ^ 10)
      ≡ all_below 10 (λ k. not (bit_set m k) || bit_set p k)
all_named p m =
    sym (
      all_bits 10 (bit_and (p % 2 ^ 10) (m % 2 ^ 10)) (m % 2 ^ 10)
        (bit_and-lt 10 (p % 2 ^ 10) (m % 2 ^ 10) (omega arith)) (omega arith))
    ∙ all_below_cong 10
        (λ k. same (bit_set (bit_and (p % 2 ^ 10) (m % 2 ^ 10)) k) (bit_set (m % 2 ^ 10) k))
        (λ k. not (bit_set m k) || bit_set p k)
        (λ k l. ap₂ same (masked_bit p m k l) (low_bit m k l) ∙ covers (bit_set p k) (bit_set m k))

any_named :
    (p m : ℕ)
    → not (bit_and (p % 2 ^ 10) (m % 2 ^ 10) == 0) ≡ any_below 10 (λ k. bit_set m k && bit_set p k)
any_named p m =
    sym (
      any_bit 10 (bit_and (p % 2 ^ 10) (m % 2 ^ 10))
        (bit_and-lt 10 (p % 2 ^ 10) (m % 2 ^ 10) (omega arith)))
    ∙ any_below_cong 10 (bit_set (bit_and (p % 2 ^ 10) (m % 2 ^ 10)))
        (λ k. bit_set m k && bit_set p k)
        (λ k l. masked_bit p m k l ∙ flip_and (bit_set p k) (bit_set m k))

-- With a 16-bit mask of buttons held down, the interrupt is raised exactly when bit 14 of KEYCNT
-- enables it and, of the buttons that its ten low bits name, all are down (bit 15 set) or at least
-- one is (bit 15 clear).
pub set_keys-check_irq :
    (pressed : ℕ) (k : Keypad)
    → pressed < 2 ^ 16
    → check_irq (set_keys pressed k) ≡ fires k.keycnt pressed
unfolding set_keys check_irq fires
set_keys-check_irq pressed k h =
    rw (twice_inverted pressed h, all_named pressed k.keycnt, any_named pressed k.keycnt)
      (ground arith)
