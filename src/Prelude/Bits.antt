-- ===== src/Prelude/Bits.antt =====
-- Machine words as numbers: casts, single bits, and the laws of `&`, `|`, `^` and `!` on bits.
pub mod Digits
use Digits.{bit_and-zero_right, bit_and-Halves, bit_or-Halves, bit_xor-halves}
use Prim.Native.Nat.{ℕ, zero, suc, ◌+◌, ◌-◌, ◌*◌, ◌/◌, ◌%◌, ◌^◌, ◌≤◌, ◌<◌, bit_and, bit_or, bit_xor}
use mathlib.Core.Path.{◌≡◌, refl, sym, ap, ◌∙◌}
use mathlib.Core.Bool.{Bool, true, false, not, ◌&&◌, ◌||◌, xor}
use native.Mathlib.Omega.{arith}
use native.Mathlib.Nat.{pow-succ', div-div-eq-div-mul, zero-div, div-add-mod', one-le-pow}
use vibe_gba.Prelude.Bools.{◌==◌}

abbrev pub u8 : ℕ → ℕ
u8 n = n % 2 ^ 8

abbrev pub u16 : ℕ → ℕ
u16 n = n % 2 ^ 16

abbrev pub u32 : ℕ → ℕ
u32 n = n % 2 ^ 32

-- `!x` on an unsigned type.
abbrev pub not8 : ℕ → ℕ
not8 x = 2 ^ 8 - 1 - x

abbrev pub not16 : ℕ → ℕ
not16 x = 2 ^ 16 - 1 - x

abbrev pub not32 : ℕ → ℕ
not32 x = 2 ^ 32 - 1 - x

infixl 75 ◌>>>◌ ◌<<<◌
abbrev pub ◌>>>◌ : ℕ → ℕ → ℕ
x >>> k = x / 2 ^ k

abbrev pub ◌<<<◌ : ℕ → ℕ → ℕ
x <<< k = x * 2 ^ k

-- `x & (1 << k) != 0`, and `(x >> k) & 1 != 0`.
abbrev pub bit_set : ℕ → ℕ → Bool
bit_set x k = x / 2 ^ k % 2 == 1

pub bit_set-suc : (x k : ℕ) → bit_set x (suc k) ≡ bit_set (x / 2) k
bit_set-suc x k =
    ap (λ (t : ℕ). t % 2 == 1)
      (ap (λ (t : ℕ). x / t) (pow-succ' 2 k) ∙ sym (div-div-eq-div-mul x 2 (2 ^ k)))

-- The lowest bit of an operation, and the halves of its result.
and_low : (a b : ℕ) → bit_set (bit_and a b) 0 ≡ (bit_set a 0 && bit_set b 0)
and_low a b = ground (arith, bit_and-Halves a b)

pub bit_set-and : (k a b : ℕ) → bit_set (bit_and a b) k ≡ (bit_set a k && bit_set b k)
bit_set-and zero a b = ground (arith, bit_and-Halves a b)
bit_set-and (suc k) a b =
    rw
      (
        bit_set-suc (bit_and a b) k,
        bit_set-suc a k,
        bit_set-suc b k,
        ← bit_set-and k (a / 2) (b / 2),
      )
      (ap (λ (t : ℕ). bit_set t k) (omega (arith, bit_and-Halves a b)))

pub bit_set-or : (k a b : ℕ) → bit_set (bit_or a b) k ≡ (bit_set a k || bit_set b k)
bit_set-or zero a b = ground (arith, bit_or-Halves a b)
bit_set-or (suc k) a b =
    rw
      (bit_set-suc (bit_or a b) k, bit_set-suc a k, bit_set-suc b k, ← bit_set-or k (a / 2) (b / 2))
      (ap (λ (t : ℕ). bit_set t k) (omega (arith, bit_or-Halves a b)))

-- `!x` flips each of the `w` bits of a word.
pub bit_set-not : (w k x : ℕ) → x < 2 ^ w → k < w → bit_set (2 ^ w - 1 - x) k ≡ not (bit_set x k)
bit_set-not zero k x h l = absurd (omega arith)
bit_set-not (suc w) zero x h l = ground (arith, pow-succ' 2 w)
bit_set-not (suc w) (suc k) x h l =
    rw
      (
        bit_set-suc (2 ^ suc w - 1 - x) k,
        bit_set-suc x k,
        ← bit_set-not w k (x / 2) (omega (arith, pow-succ' 2 w)) (omega arith),
      )
      (ap (λ (t : ℕ). bit_set t k) (omega (arith, pow-succ' 2 w)))

pub bit_set-xor : (k a b : ℕ) → bit_set (bit_xor a b) k ≡ xor (bit_set a k) (bit_set b k)
unfolding xor
bit_set-xor zero a b = ground (arith, bit_xor-halves a b)
bit_set-xor (suc k) a b =
    rw
      (
        bit_set-suc (bit_xor a b) k,
        bit_set-suc a k,
        bit_set-suc b k,
        ← bit_set-xor k (a / 2) (b / 2),
      )
      (ap (λ (t : ℕ). bit_set t k) (omega (arith, bit_xor-halves a b)))

bit_set-zero : (k : ℕ) → bit_set 0 k ≡ false
bit_set-zero k = ap (λ (t : ℕ). t % 2 == 1) (zero-div (2 ^ k))

-- One bit alone.
pub bit_set-pow : (n k : ℕ) → bit_set (2 ^ n) k ≡ (n == k)
bit_set-pow zero zero = refl
bit_set-pow zero (suc k) = rw (bit_set-suc 1 k) (ground (arith, bit_set-zero k))
bit_set-pow (suc n) zero = ground (arith, pow-succ' 2 n)
bit_set-pow (suc n) (suc k) =
    rw (bit_set-suc (2 ^ suc n) k)
      (ap (λ (t : ℕ). bit_set t k) (omega (arith, pow-succ' 2 n)) ∙ bit_set-pow n k ∙ ground arith)

pub mod-pow-suc : (a k : ℕ) → a % 2 ^ suc k ≡ a / 2 % 2 ^ k * 2 + a % 2
mod-pow-suc a k = rw (pow-succ' 2 k) (
    omega (
      arith,
      div-add-mod' a (2 * 2 ^ k),
      div-add-mod' (a / 2) (2 ^ k),
      ap (λ (t : ℕ). t * 2 ^ k) (div-div-eq-div-mul a 2 (2 ^ k)),
    ))

-- A mask of low bits is a remainder.
pub bit_and-mask : (k a : ℕ) → bit_and a (2 ^ k - 1) ≡ a % 2 ^ k
bit_and-mask zero a = rw bit_and-zero_right (omega arith)
bit_and-mask (suc k) a =
    let half : (2 ^ suc k - 1) / 2 ≡ 2 ^ k - 1 = omega (arith, pow-succ' 2 k, one-le-pow k 2) in
    omega (
      arith,
      pow-succ' 2 k,
      one-le-pow k 2,
      bit_and-Halves a (2 ^ suc k - 1),
      ap (λ (t : ℕ). bit_and (a / 2) t) half,
      bit_and-mask k (a / 2),
      mod-pow-suc a k,
    )

-- Words of `w` bits are equal when all their bits are.
pub bits_ext :
    (w a b : ℕ) → a < 2 ^ w → b < 2 ^ w → ((k : ℕ) → k < w → bit_set a k ≡ bit_set b k) → a ≡ b
bits_ext zero a b p q h = omega arith
bits_ext (suc w) a b p q h =
    let upper =
      bits_ext w (a / 2) (b / 2) (omega (arith, pow-succ' 2 w)) (omega (arith, pow-succ' 2 w))
        (λ k l. sym (bit_set-suc a k) ∙ h (suc k) (omega arith) ∙ bit_set-suc b k) in
    ground (arith, h 0)
