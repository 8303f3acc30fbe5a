-- ===== src/Prelude/Lines.antt =====
-- A word as a bundle of lines: tests of a whole word as tests of its bits.
use Prim.Native.Nat.{ℕ, zero, suc, ◌/◌, ◌^◌, ◌<◌}
use mathlib.Core.Path.{◌≡◌, refl, ap, ap₂, ◌∙◌}
use mathlib.Core.Bool.{Bool, true, false, not, ◌&&◌, ◌||◌}
use native.Mathlib.Omega.{arith}
use native.Mathlib.Nat.{pow-succ'}
use vibe_gba.Prelude.Bools.{◌==◌}
use vibe_gba.Prelude.Bits.{bit_set, bit_set-suc}

-- Some, and every, number below a bound passes a test.
abbrev pub any_below : ℕ → (ℕ → Bool) → Bool
any_below zero f = false
any_below (suc n) f = f 0 || any_below n (λ k. f (suc k))

abbrev pub all_below : ℕ → (ℕ → Bool) → Bool
all_below zero f = true
all_below (suc n) f = f 0 && all_below n (λ k. f (suc k))

pub any_below_cong :
    (n : ℕ) (f g : ℕ → Bool) → ((k : ℕ) → k < n → f k ≡ g k) → any_below n f ≡ any_below n g
any_below_cong zero f g h = refl
any_below_cong (suc n) f g h =
    ap₂ (λ (a b : Bool). a || b) (h 0 (omega arith))
      (any_below_cong n (λ k. f (suc k)) (λ k. g (suc k)) (λ k l. h (suc k) (omega arith)))

pub all_below_cong :
    (n : ℕ) (f g : ℕ → Bool) → ((k : ℕ) → k < n → f k ≡ g k) → all_below n f ≡ all_below n g
all_below_cong zero f g h = refl
all_below_cong (suc n) f g h =
    ap₂ (λ (a b : Bool). a && b) (h 0 (omega arith))
      (all_below_cong n (λ k. f (suc k)) (λ k. g (suc k)) (λ k l. h (suc k) (omega arith)))

-- A word of `w` bits is not zero when one of its bits is set.
pub any_bit : (w x : ℕ) → x < 2 ^ w → any_below w (bit_set x) ≡ not (x == 0)
any_bit zero x h = ground arith
any_bit (suc w) x h =
    ap (λ (t : Bool). bit_set x 0 || t)
      (any_below_cong w (λ k. bit_set x (suc k)) (bit_set (x / 2)) (λ k l. bit_set-suc x k)
        ∙ any_bit w (x / 2) (omega (arith, pow-succ' 2 w)))
    ∙ ground arith

abbrev pub same : Bool → Bool → Bool
same true b = b
same false b = not b

-- Words of `w` bits are equal when all their bits are.
pub all_bits :
    (w x y : ℕ)
    → x < 2 ^ w
    → y < 2 ^ w
    → all_below w (λ k. same (bit_set x k) (bit_set y k)) ≡ (x == y)
all_bits zero x y h l = ground arith
all_bits (suc w) x y h l =
    ap (λ (t : Bool). same (bit_set x 0) (bit_set y 0) && t)
      (all_below_cong w (λ k. same (bit_set x (suc k)) (bit_set y (suc k)))
          (λ k. same (bit_set (x / 2) k) (bit_set (y / 2) k))
          (λ k m. ap₂ same (bit_set-suc x k) (bit_set-suc y k))
        ∙ all_bits w (x / 2) (y / 2) (omega (arith, pow-succ' 2 w)) (omega (arith, pow-succ' 2 w)))
    ∙ ground arith
