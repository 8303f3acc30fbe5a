-- ===== src/Backup/Eeprom/Bits.antt =====
-- Serial bits, most significant first, as numbers.
use vibe_gba.Prelude.{
  ℕ, ◌+◌, ◌*◌, ◌^◌, ◌<◌, ◌≡◌, ap, ◌∙◌, arith, Bool, true, false, List, [], ◌∷◌, length, to_ℕ,
}
use native.Mathlib.Nat.{pow-succ'}

-- The number whose bits, highest first, follow those of `acc`.
abbrev pub value_from : ℕ → List Bool → ℕ
value_from acc [] = acc
value_from acc (b ∷ bs) = value_from (acc * 2 + to_ℕ b) bs

abbrev pub value : List Bool → ℕ
value bs = value_from 0 bs

pub value_from_lem : (acc : ℕ) (bs : List Bool) → value_from acc bs ≡ acc * 2 ^ length bs + value bs
value_from_lem acc [] = omega arith
value_from_lem acc (b ∷ bs) =
    let first = value_from_lem (acc * 2 + to_ℕ b) bs in
    let second = value_from_lem (0 * 2 + to_ℕ b) bs in
    omega (arith, first, second, ap (λ (t : ℕ). acc * t) (pow-succ' 2 (length bs)))

pub value-cons : (b : Bool) (bs : List Bool) → value (b ∷ bs) ≡ to_ℕ b * 2 ^ length bs + value bs
value-cons b bs =
    value_from_lem (0 * 2 + to_ℕ b) bs ∙ ap (λ (t : ℕ). t * 2 ^ length bs + value bs) (omega arith)

pub value-lt : (bs : List Bool) → value bs < 2 ^ length bs
value-lt [] = omega arith
value-lt (true ∷ bs) = omega (arith, value-cons true bs, value-lt bs, pow-succ' 2 (length bs))
value-lt (false ∷ bs) = omega (arith, value-cons false bs, value-lt bs, pow-succ' 2 (length bs))
