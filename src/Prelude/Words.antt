-- ===== src/Prelude/Words.antt =====
-- Shifts and rotations of machine words bit by bit, and the bounds of `&`, `|` and `^`.
use Prim.Native.Nat.{ℕ, zero, suc, ◌+◌, ◌-◌, ◌*◌, ◌/◌, ◌%◌, ◌^◌, ◌≤◌, ◌<◌, bit_and, bit_or, bit_xor}
use mathlib.Core.Path.{◌≡◌, sym, ap, ◌∙◌}
use mathlib.Core.Logic.{◌⊎◌, inl, inr}
use mathlib.Core.Bool.{Bool, false, ◌&&◌}
use native.Mathlib.Omega.{arith}
use native.Mathlib.Nat.{pow-succ', div-div-eq-div-mul, div-le_self, zero-div}
use vibe_gba.Prelude.Bools.{◌==◌, ltb, leb}
use vibe_gba.Prelude.Bits.{bit_set, bit_set-suc, bit_set-or, mod-pow-suc}
use vibe_gba.Prelude.Bits.Digits.{bit_and-zero_left, bit_and-Halves, bit_or-Halves, bit_xor-halves}

pub bit_set-zero : (k : ℕ) → bit_set 0 k ≡ false
bit_set-zero k = ap (λ (t : ℕ). t % 2 == 1) (zero-div (2 ^ k))

shl-zero : (x : ℕ) → x * 2 ^ 0 ≡ x
shl-zero x = omega arith

mod-zero : (x : ℕ) → x % 2 ^ 0 ≡ 0
mod-zero x = omega arith

below_one : (x : ℕ) → x < 2 ^ 0 → x ≡ 0
below_one x h = omega arith

-- A shift to the right moves bit `k + n` to bit `k`.
pub bit_set-shr : (n k x : ℕ) → bit_set (x / 2 ^ n) k ≡ bit_set x (k + n)
bit_set-shr zero k x =
    ap (λ (t : ℕ). bit_set t k) (omega arith) ∙ ap (λ (t : ℕ). bit_set x t) (omega arith)
bit_set-shr (suc n) k x =
    ap (λ (t : ℕ). bit_set (x / t) k) (pow-succ' 2 n)
    ∙ ap (λ (t : ℕ). bit_set t k) (sym (div-div-eq-div-mul x 2 (2 ^ n)))
    ∙ bit_set-shr n k (x / 2)
    ∙ sym (bit_set-suc x (k + n))
    ∙ ap (λ (t : ℕ). bit_set x t) (omega arith)

double-low : (x : ℕ) → bit_set (x * 2) 0 ≡ false
double-low x = ground arith

double-half : (x : ℕ) → x * 2 / 2 ≡ x
double-half x = omega arith

bit_set-double : (k x : ℕ) → bit_set (x * 2) (suc k) ≡ bit_set x k
bit_set-double k x = bit_set-suc (x * 2) k ∙ ap (λ (t : ℕ). bit_set t k) (double-half x)

shl-suc : (n x : ℕ) → x * 2 ^ suc n ≡ x * 2 ^ n * 2
shl-suc n x = ap (λ (t : ℕ). x * t) (pow-succ' 2 n) ∙ grind arith

-- A shift to the left moves bit `k - n` to bit `k` and clears the `n` lowest.
pub bit_set-shl : (n k x : ℕ) → bit_set (x * 2 ^ n) k ≡ (leb n k && bit_set x (k - n))
bit_set-shl zero k x = ground (arith, ap (λ (t : ℕ). bit_set t k) (shl-zero x))
bit_set-shl (suc n) zero x =
    ap (λ (t : ℕ). bit_set t 0) (shl-suc n x) ∙ double-low (x * 2 ^ n) ∙ ground arith
bit_set-shl (suc n) (suc k) x =
    ap (λ (t : ℕ). bit_set t (suc k)) (shl-suc n x)
    ∙ bit_set-double k (x * 2 ^ n)
    ∙ bit_set-shl n k x
    ∙ ground arith

mod-half : (w x : ℕ) → x % 2 ^ suc w / 2 ≡ x / 2 % 2 ^ w
mod-half w x = omega (arith, mod-pow-suc x w)

-- A cast to `w` bits keeps the `w` lowest.
pub bit_set-mod : (w k x : ℕ) → bit_set (x % 2 ^ w) k ≡ (ltb k w && bit_set x k)
bit_set-mod zero k x = ap (λ (t : ℕ). bit_set t k) (mod-zero x) ∙ bit_set-zero k ∙ ground arith
bit_set-mod (suc w) zero x = ground (arith, mod-pow-suc x w)
bit_set-mod (suc w) (suc k) x =
    bit_set-suc (x % 2 ^ suc w) k
    ∙ ap (λ (t : ℕ). bit_set t k) (mod-half w x)
    ∙ bit_set-mod w k (x / 2)
    ∙ ap (λ (t : Bool). ltb k w && t) (sym (bit_set-suc x k))
    ∙ ground arith

pub bit_set_past : (w k x : ℕ) → x < 2 ^ w → w ≤ k → bit_set x k ≡ false
bit_set_past zero k x h l = ap (λ (t : ℕ). bit_set t k) (below_one x h) ∙ bit_set-zero k
bit_set_past (suc w) zero x h l = absurd (omega arith)
bit_set_past (suc w) (suc k) x h l =
    bit_set-suc x k ∙ bit_set_past w k (x / 2) (omega (arith, pow-succ' 2 w)) (omega arith)

-- Casts to `w` bits agree when the `w` lowest bits do.
pub mod_bits_ext :
    (w a b : ℕ) → ((k : ℕ) → k < w → bit_set a k ≡ bit_set b k) → a % 2 ^ w ≡ b % 2 ^ w
mod_bits_ext zero a b h = omega arith
mod_bits_ext (suc w) a b h =
    let upper =
      mod_bits_ext w (a / 2) (b / 2)
        (λ k l. sym (bit_set-suc a k) ∙ h (suc k) (omega arith) ∙ bit_set-suc b k) in
    ground (arith, h 0, mod-pow-suc a w, mod-pow-suc b w)

pub bit_and-lt : (w a b : ℕ) → a < 2 ^ w → bit_and a b < 2 ^ w
bit_and-lt zero a b h = rw (below_one a h, bit_and-zero_left b) (omega arith)
bit_and-lt (suc w) a b h =
    let upper = bit_and-lt w (a / 2) (b / 2) (omega (arith, pow-succ' 2 w)) in
    omega (arith, bit_and-Halves a b, pow-succ' 2 w)

pub bit_or-lt : (w a b : ℕ) → a < 2 ^ w → b < 2 ^ w → bit_or a b < 2 ^ w
bit_or-lt zero a b h l = rw (below_one a h, below_one b l) (omega arith)
bit_or-lt (suc w) a b h l =
    let upper =
      bit_or-lt w (a / 2) (b / 2) (omega (arith, pow-succ' 2 w)) (omega (arith, pow-succ' 2 w)) in
    omega (arith, bit_or-Halves a b, pow-succ' 2 w)

pub bit_xor-lt : (w a b : ℕ) → a < 2 ^ w → b < 2 ^ w → bit_xor a b < 2 ^ w
bit_xor-lt zero a b h l = rw (below_one a h, below_one b l) (omega arith)
bit_xor-lt (suc w) a b h l =
    let upper =
      bit_xor-lt w (a / 2) (b / 2) (omega (arith, pow-succ' 2 w)) (omega (arith, pow-succ' 2 w)) in
    omega (arith, bit_xor-halves a b, pow-succ' 2 w)

-- `x.rotate_right(n)` of a 32-bit word. For `n = 0` the left shift leaves nothing.
pub rotate_right : ℕ → ℕ → ℕ
rotate_right x n = bit_or (x / 2 ^ (n % 32)) (x * 2 ^ (32 - n % 32) % 2 ^ 32)

wrap_below : (n : ℕ) → n < 32 → n % 32 ≡ n
wrap_below n h = omega arith

wrap_past : (k s : ℕ) → 32 ≤ k + s → k < 32 → s < 32 → (k + s) % 32 ≡ k - (32 - s)
wrap_past k s h l t = omega arith

rotated_bit :
    (x s k : ℕ)
    → x < 2 ^ 32
    → k < 32
    → (k + s < 32) ⊎ (32 ≤ k + s)
    → s < 32
    → bit_set (bit_or (x / 2 ^ s) (x * 2 ^ (32 - s) % 2 ^ 32)) k ≡ bit_set x ((k + s) % 32)
rotated_bit x s k h l (inl below) t =
    rw
      (
        bit_set-or k (x / 2 ^ s) (x * 2 ^ (32 - s) % 2 ^ 32),
        bit_set-shr s k x,
        bit_set-mod 32 k (x * 2 ^ (32 - s)),
        bit_set-shl (32 - s) k x,
        wrap_below (k + s) below,
      )
      (ground arith)
rotated_bit x s k h l (inr past) t =
    rw
      (
        bit_set-or k (x / 2 ^ s) (x * 2 ^ (32 - s) % 2 ^ 32),
        bit_set-shr s k x,
        bit_set-mod 32 k (x * 2 ^ (32 - s)),
        bit_set-shl (32 - s) k x,
        bit_set_past 32 (k + s) x h past,
        wrap_past k s past l t,
      )
      (ground arith)

-- A rotation moves bit `k + n`, counted round, to bit `k`.
pub bit_set-rotate_right :
    (x n k : ℕ) → x < 2 ^ 32 → k < 32 → bit_set (rotate_right x n) k ≡ bit_set x ((k + n) % 32)
unfolding rotate_right
bit_set-rotate_right x n k h l =
    rotated_bit x (n % 32) k h l (omega arith) (omega arith)
    ∙ ap (λ (t : ℕ). bit_set x t) (omega arith)

shr-lt : (value n : ℕ) → value < 2 ^ 32 → value / 2 ^ n < 2 ^ 32
shr-lt value n h = omega (arith, div-le_self value (2 ^ n))

pub rotate_right-lt : (value n : ℕ) → value < 2 ^ 32 → rotate_right value n < 2 ^ 32
unfolding rotate_right
rotate_right-lt value n h =
    bit_or-lt 32 (value / 2 ^ (n % 32)) (value * 2 ^ (32 - n % 32) % 2 ^ 32)
      (shr-lt value (n % 32) h) (omega arith)
