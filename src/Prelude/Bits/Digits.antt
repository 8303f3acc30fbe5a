-- ===== src/Prelude/Bits/Digits.antt =====
-- The native bit operations one binary digit at a time.
use Prim.Native.Nat.{bit_and, bit_or, bit_xor, digits, differ}
use Prim.Native.Nat.{bit_and-bitwise, bit_or-bitwise, bit_xor-bitwise}
use Prim.Native.Nat.{min, max, ◌<◌, ◌≤◌, ◌%◌, ◌/◌, ◌*◌, ◌+◌, ℕ, suc, zero}
use native.Mathlib.Omega.{arith}
use mathlib.Core.Path.{◌≡◌, ap, refl}

-- An operation on numbers is `bit` on the lowest digits and itself on the halves.
abbrev pub Halves : (ℕ → ℕ → ℕ) → (ℕ → ℕ → ℕ) → Type 0
Halves op bit = (x y : ℕ) → op x y ≡ op (x / 2) (y / 2) * 2 + bit (x % 2) (y % 2)

module _ (past : ℕ → ℕ) (bit : ℕ → ℕ → ℕ) where
  next_digit : ℕ → ℕ → ℕ → ℕ
  next_digit x y upper = upper * 2 + bit (x % 2) (y % 2)

  -- More digits than the first number has change nothing.
  digits_enough :
      (fewer more x y : ℕ)
      → x ≤ fewer
      → x ≤ more
      → digits past bit fewer x y ≡ digits past bit more x y
  unfolding next_digit
  digits_enough zero zero x y le le' = refl
  digits_enough (suc fewer) zero zero y le le' = refl
  digits_enough zero (suc more) zero y le le' = refl
  digits_enough (suc fewer) zero (suc x) y le le' = absurd (omega arith)
  digits_enough zero (suc more) (suc x) y le le' = absurd (omega arith)
  digits_enough (suc fewer) (suc more) zero y le le' = refl
  digits_enough (suc fewer) (suc more) (suc x) y le le' =
      let half : suc x / 2 ≤ fewer = omega arith in
      let half' : suc x / 2 ≤ more = omega arith in
      ap (next_digit (suc x) y) (digits_enough fewer more (suc x / 2) (y / 2) half half')

  digits_split :
      (x y : ℕ)
      → digits past bit (suc x) (suc x) y
        ≡ next_digit (suc x) y (digits past bit (suc x / 2) (suc x / 2) (y / 2))
  unfolding next_digit
  digits_split x y =
      let half : suc x / 2 ≤ x = omega arith in
      let itself : suc x / 2 ≤ suc x / 2 = omega arith in
      ap (next_digit (suc x) y) (digits_enough x (suc x / 2) (suc x / 2) (y / 2) half itself)

pub bit_and-Halves : Halves bit_and min
bit_and-Halves zero y = simp bit_and-bitwise (omega arith)
bit_and-Halves (suc x) y = simp bit_and-bitwise (unfold next_digit in digits_split (λ y. 0) min x y)

pub bit_or-Halves : Halves bit_or max
bit_or-Halves zero y = simp bit_or-bitwise (omega arith)
bit_or-Halves (suc x) y = simp bit_or-bitwise (unfold next_digit in digits_split (λ y. y) max x y)

differ_bits : (x y : ℕ) → x < 2 → y < 2 → differ x y ≡ (x + y) % 2
differ_bits (suc zero) (suc zero) l l' = refl
differ_bits (suc zero) zero l l' = refl
differ_bits zero y l l' = omega arith
differ_bits (suc (suc x)) y l l' = absurd (omega arith)
differ_bits (suc zero) (suc (suc y)) l l' = absurd (omega arith)

split_differ :
    (x y : ℕ)
    → digits (λ y. y) differ (suc x) (suc x) y
      ≡ digits (λ y. y) differ (suc x / 2) (suc x / 2) (y / 2) * 2 + differ (suc x % 2) (y % 2)
split_differ x y = unfold next_digit in digits_split (λ y. y) differ x y

pub bit_xor-halves : (x y : ℕ) → bit_xor x y ≡ bit_xor (x / 2) (y / 2) * 2 + (x + y) % 2
bit_xor-halves zero y = simp bit_xor-bitwise (omega arith)
bit_xor-halves (suc x) y =
    let low = differ_bits (suc x % 2) (y % 2) (omega arith) (omega arith) in
    simp bit_xor-bitwise (omega (arith, low, split_differ x y))

pub bit_and-zero_left : (y : ℕ) → bit_and 0 y ≡ 0
bit_and-zero_left y = simp bit_and-bitwise refl

-- Every digit of 0 is 0, the smaller of any two.
no_common_digit : (n x : ℕ) → digits (λ y. 0) min n x 0 ≡ 0
no_common_digit zero x = refl
no_common_digit (suc n) zero = refl
no_common_digit (suc n) (suc x) = omega (arith, no_common_digit n (suc x / 2))

pub bit_and-zero_right : (x : ℕ) → bit_and x 0 ≡ 0
bit_and-zero_right zero = refl
bit_and-zero_right (suc x) = simp bit_and-bitwise (no_common_digit (suc x) (suc x))
