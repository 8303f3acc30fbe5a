-- ===== src/Prelude/Int.antt =====
-- Signed values over the native numbers, and the casts of Rust's signed types.
use Prim.Native.Nat.{ℕ, suc, ◌+◌, ◌-◌, ◌*◌, ◌/◌, ◌%◌, ◌^◌}
use mathlib.Core.Bool.{Bool, true, false}
use vibe_gba.Prelude.Bools.{leb, ltb, if◌then◌else◌}

-- `negsuc n` is -(n + 1).
pub data ℤ : Type 0 where
  pos : ℕ → ℤ
  negsuc : ℕ → ℤ

abbrev pub pos_part : ℤ → ℕ
pos_part (pos n) = n
pos_part (negsuc n) = 0

abbrev pub neg_part : ℤ → ℕ
neg_part (pos n) = 0
neg_part (negsuc n) = suc n

-- a - b, as an integer.
abbrev pub sub_ℕ : ℕ → ℕ → ℤ
sub_ℕ a b = if leb b a then pos (a - b) else negsuc (b - a - 1)

-- `byte as i8`.
abbrev pub as_i8 : ℕ → ℤ
as_i8 b = if ltb b 128 then pos b else negsuc (255 - b)

-- `half as i16`.
abbrev pub as_i16 : ℕ → ℤ
as_i16 h = if ltb h (2 ^ 15) then pos h else negsuc (2 ^ 16 - 1 - h)

-- Rust's `/` on signed values rounds towards zero.
abbrev pub halve : ℤ → ℤ
halve (pos n) = pos (n / 2)
halve (negsuc n) = sub_ℕ 0 (suc n / 2)

infixl 65 ◌+ℤ◌
infixl 70 ◌*ℤ◌
abbrev pub ◌+ℤ◌ : ℤ → ℤ → ℤ
pos m +ℤ pos n = pos (m + n)
pos m +ℤ negsuc n = sub_ℕ m (suc n)
negsuc m +ℤ pos n = sub_ℕ n (suc m)
negsuc m +ℤ negsuc n = negsuc (suc (m + n))

abbrev pub leb_ℤ : ℤ → ℤ → Bool
leb_ℤ (pos m) (pos n) = leb m n
leb_ℤ (pos m) (negsuc n) = false
leb_ℤ (negsuc m) (pos n) = true
leb_ℤ (negsuc m) (negsuc n) = leb n m

-- `value as i32` of a word, and `as u32` of a signed value.
abbrev pub as_i32 : ℕ → ℤ
as_i32 value = if ltb value (2 ^ 31) then pos value else negsuc (2 ^ 32 - 1 - value)

abbrev pub as_u32 : ℤ → ℕ
as_u32 (pos n) = n % 2 ^ 32
as_u32 (negsuc n) = 2 ^ 32 - 1 - n % 2 ^ 32

abbrev pub ◌*ℤ◌ : ℤ → ℤ → ℤ
pos m *ℤ pos n = pos (m * n)
pos m *ℤ negsuc n = sub_ℕ 0 (m * suc n)
negsuc m *ℤ pos n = sub_ℕ 0 (suc m * n)
negsuc m *ℤ negsuc n = pos (suc m * suc n)

-- `value as u64`.
abbrev pub as_u64 : ℤ → ℕ
as_u64 (pos n) = n % 2 ^ 64
as_u64 (negsuc n) = 2 ^ 64 - 1 - n % 2 ^ 64
