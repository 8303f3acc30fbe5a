-- ===== src/Arm7tdmi/Alu/Shifts.antt =====
-- The barrel shifter against a description of each bit of its result.
use vibe_gba.Prelude.{
  ℕ, zero, suc, ◌+◌, ◌-◌, ◌*◌, ◌/◌, ◌%◌, ◌^◌, ◌≤◌, ◌<◌, min, ◌≡◌, ◌≢◌, ◌⊎◌, inl, inr, ap, ◌∙◌,
  arith, Bool, true, false, not, ◌&&◌, ltb, leb, ◌==◌, lt→ltb, le→not_ltb, le→leb, lt→not_leb,
  ne→not_==, eq→==,
}
use vibe_gba.Prelude.Bits.{bit_set, bit_set-not}
use vibe_gba.Prelude.Words.{
  bit_set-shr, bit_set-shl, bit_set-mod, bit_set_past, bit_set-zero, rotate_right,
  bit_set-rotate_right, rotate_right-lt,
}
use vibe_gba.Arm7tdmi.Alu.{
  ShiftType, lsl, lsr, asr, ror, as_i32, as_u32, shift_down, shift_lsl, shift_lsr, shift_asr,
  shift_ror, sign_fill, barrel_shift,
}

-- The bit that a shift by `n` brings to place `k`.
pub shifted_bit : ShiftType → ℕ → ℕ → ℕ → Bool
shifted_bit lsl value n k = leb n k && bit_set value (k - n)
shifted_bit lsr value n k = bit_set value (k + n)
shifted_bit asr value n k = bit_set value (min (k + n) 31)
shifted_bit ror value n k = bit_set value ((k + n) % 32)

-- The bit that a shift by `n` pushes out last.
pub last_out : ShiftType → ℕ → ℕ → Bool
last_out lsl value n = leb n 32 && bit_set value (32 - n)
last_out lsr value n = bit_set value (n - 1)
last_out asr value n = bit_set value (min (n - 1) 31)
last_out ror value n = bit_set value ((n - 1) % 32)

pub record IsShift (kind : ShiftType) (value n : ℕ) (r : ℕ × Bool) : Type 0 where
  pub bits : (k : ℕ) → k < 32 → bit_set r.0 k ≡ shifted_bit kind value n k
  pub carry : r.1 ≡ last_out kind value n

-- A right shift by an immediate of zero stands for one by 32.
unfoldable pub effective_amount : ShiftType → ℕ → Bool → ℕ
effective_amount lsr zero true = 32
effective_amount asr zero true = 32
effective_amount _ n immediate = n

bit_at : (value a b : ℕ) → a ≡ b → bit_set value a ≡ bit_set value b
bit_at value a b e = ap (λ (t : ℕ). bit_set value t) e

capped_below : (n : ℕ) → n < 32 → min n 31 ≡ n
capped_below n h = omega arith

capped_past : (n : ℕ) → 31 ≤ n → min n 31 ≡ 31
capped_past n h = omega arith

-- An arithmetic shift of a word without its sign bit, and of one with it.
positive_bit :
    (value n k : ℕ)
    → value < 2 ^ 31
    → k < 32
    → (k + n < 31) ⊎ (31 ≤ k + n)
    → bit_set (value / 2 ^ n % 2 ^ 32) k ≡ bit_set value (min (k + n) 31)
positive_bit value n k h l (inl below) =
    rw (bit_set-mod 32 k (value / 2 ^ n), bit_set-shr n k value, capped_below (k + n) (omega arith))
      (ground arith)
positive_bit value n k h l (inr past) =
    rw
      (
        bit_set-mod 32 k (value / 2 ^ n),
        bit_set-shr n k value,
        capped_past (k + n) past,
        bit_set_past 31 (k + n) value h past,
        bit_set_past 31 31 value h (omega arith),
      )
      (ground arith)

sign_bit : (value : ℕ) → 2 ^ 31 ≤ value → value < 2 ^ 32 → bit_set value 31 ≡ true
sign_bit value h l = ground arith

negative_bit :
    (value n k : ℕ)
    → 2 ^ 31 ≤ value
    → value < 2 ^ 32
    → k < 32
    → (k + n < 32) ⊎ (32 ≤ k + n)
    → bit_set (2 ^ 32 - 1 - (2 ^ 32 - 1 - value) / 2 ^ n % 2 ^ 32) k
      ≡ bit_set value (min (k + n) 31)
negative_bit value n k g h l (inl below) =
    bit_set-not 32 k ((2 ^ 32 - 1 - value) / 2 ^ n % 2 ^ 32) (omega arith) l
    ∙ ap not (
        bit_set-mod 32 k ((2 ^ 32 - 1 - value) / 2 ^ n)
        ∙ ap (λ (t : Bool). ltb k 32 && t)
            (bit_set-shr n k (2 ^ 32 - 1 - value) ∙ bit_set-not 32 (k + n) value h below))
    ∙ rw (capped_below (k + n) below) (ground arith)
negative_bit value n k g h l (inr past) =
    bit_set-not 32 k ((2 ^ 32 - 1 - value) / 2 ^ n % 2 ^ 32) (omega arith) l
    ∙ ap not (
        bit_set-mod 32 k ((2 ^ 32 - 1 - value) / 2 ^ n)
        ∙ ap (λ (t : Bool). ltb k 32 && t)
            (bit_set-shr n k (2 ^ 32 - 1 - value)
              ∙ bit_set_past 32 (k + n) (2 ^ 32 - 1 - value) (omega arith) past))
    ∙ rw (capped_past (k + n) (omega arith), sign_bit value g h) (ground arith)

down_bit :
    (value n k : ℕ)
    → value < 2 ^ 32
    → k < 32
    → (value < 2 ^ 31) ⊎ (2 ^ 31 ≤ value)
    → bit_set (as_u32 (shift_down (as_i32 value) n)) k ≡ bit_set value (min (k + n) 31)
down_bit value n k h l (inl p) =
    rw (lt→ltb value (2 ^ 31) p) (positive_bit value n k p l (omega arith))
down_bit value n k h l (inr p) =
    rw (le→not_ltb value (2 ^ 31) p) (negative_bit value n k p h l (omega arith))

split : (n m : ℕ) → (n < m) ⊎ (m ≤ n)
split n m = omega arith

low_bit : (x : ℕ) → x % 2 ≡ x / 2 ^ 0 % 2
low_bit x = omega arith

high_bit : (x : ℕ) → x < 2 ^ 32 → not (x / 2 ^ 31 == 0) ≡ bit_set x 31
high_bit x h = ground arith

lsl-IsShift :
    (value n : ℕ) (c : Bool) → value < 2 ^ 32 → 0 < n → IsShift lsl value n (shift_lsl value n c)
unfolding shift_lsl shifted_bit last_out
lsl-IsShift value n c h p = record {
  bits = λ k l.
      ground (arith, bit_set-mod 32 k (value * 2 ^ n), bit_set-shl n k value, bit_set-zero k);
  carry = ground (arith, low_bit value);
}

lsr-IsShift :
    (value n : ℕ) (c imm : Bool)
    → value < 2 ^ 32
    → 0 < n
    → IsShift lsr value n (shift_lsr value n c imm)
unfolding shift_lsr shifted_bit last_out
lsr-IsShift value n c imm h p = record {
  bits =
      λ k l. ground (arith, bit_set-shr n k value, bit_set-zero k, bit_set_past 32 (k + n) value h);
  carry = ground (arith, high_bit value h, bit_set_past 32 (n - 1) value h);
}

fill_bit :
    (value k : ℕ) → value < 2 ^ 32 → k < 32 → bit_set (sign_fill value).0 k ≡ bit_set value 31
fill_bit value k h l = ground (arith, bit_set-zero k, bit_set-not 32 k 0 (omega arith) l)

fill_carry : (value : ℕ) → value < 2 ^ 32 → (sign_fill value).1 ≡ bit_set value 31
fill_carry value h = ground arith

asr_amount : (n : ℕ) → 0 < n → (n ≤ 31) ⊎ (32 ≤ n)
asr_amount n p = omega arith

asr_by :
    (value n : ℕ) (c imm : Bool)
    → value < 2 ^ 32
    → 0 < n
    → (n ≤ 31) ⊎ (32 ≤ n)
    → IsShift asr value n (shift_asr value n c imm)
unfolding shift_asr shifted_bit last_out
asr_by value n c imm h p (inl few) =
    rw (ne→not_== n 0 (omega arith), le→leb n 31 few)
      (record {
        bits = λ k l. down_bit value n k h l (split value (2 ^ 31));
        carry =
            ap (λ (t : ℕ). t == 1) (low_bit (as_u32 (shift_down (as_i32 value) (n - 1))))
            ∙ down_bit value (n - 1) 0 h (omega arith) (split value (2 ^ 31))
            ∙ bit_at value _ _ (omega arith);
      })
asr_by value n c imm h p (inr many) =
    rw (ne→not_== n 0 (omega arith), lt→not_leb n 31 many)
      (record {
        bits = λ k l. fill_bit value k h l ∙ bit_at value 31 (min (k + n) 31) (omega arith);
        carry = fill_carry value h ∙ bit_at value 31 (min (n - 1) 31) (omega arith);
      })

asr-IsShift :
    (value n : ℕ) (c imm : Bool)
    → value < 2 ^ 32
    → 0 < n
    → IsShift asr value n (shift_asr value n c imm)
asr-IsShift value n c imm h p = asr_by value n c imm h p (asr_amount n p)

whole_turn : (value n k : ℕ) → k < 32 → n % 32 ≡ 0 → bit_set value k ≡ bit_set value ((k + n) % 32)
whole_turn value n k l e = bit_at value _ _ (omega arith)

ror_by :
    (value n : ℕ) (c imm : Bool)
    → value < 2 ^ 32
    → 0 < n
    → (n % 32 ≡ 0) ⊎ (n % 32 ≢ 0)
    → IsShift ror value n (shift_ror value n c imm)
unfolding shift_ror shifted_bit last_out
ror_by value n c imm h p (inl e) =
    rw (ne→not_== n 0 (omega arith), eq→== (n % 32) 0 e)
      (record {
        bits = λ k l. whole_turn value n k l e;
        carry = high_bit value h ∙ bit_at value 31 ((n - 1) % 32) (omega arith);
      })
ror_by value n c imm h p (inr e) =
    rw (ne→not_== n 0 (omega arith), ne→not_== (n % 32) 0 e)
      (record {
        bits = λ k l. bit_set-rotate_right value (n % 32) k h l ∙ bit_at value _ _ (omega arith);
        carry =
            high_bit (rotate_right value (n % 32)) (rotate_right-lt value (n % 32) h)
            ∙ bit_set-rotate_right value (n % 32) 31 h (omega arith)
            ∙ bit_at value _ _ (omega arith);
      })

-- Every shift of a word by an amount that is not zero, the immediate zero of a right shift counting
-- as 32: each bit of the result is the bit that the shift brings there, and the carry is the last
-- bit pushed out.
pub barrel_shift-IsShift :
    (kind : ShiftType) (value n : ℕ) (c imm : Bool)
    → value < 2 ^ 32
    → 0 < effective_amount kind n imm
    → IsShift kind value (effective_amount kind n imm) (barrel_shift value kind n c imm)
unfolding effective_amount barrel_shift
barrel_shift-IsShift lsl value n c imm h p = lsl-IsShift value n c h p
barrel_shift-IsShift ror value n c imm h p = ror_by value n c imm h p (omega arith)
barrel_shift-IsShift lsr value zero c true h p = lsr-IsShift value 32 c true h (omega arith)
barrel_shift-IsShift lsr value zero c false h p = absurd (omega arith)
barrel_shift-IsShift lsr value (suc n) c imm h p = lsr-IsShift value (suc n) c imm h p
barrel_shift-IsShift asr value zero c true h p = asr-IsShift value 32 c true h (omega arith)
barrel_shift-IsShift asr value zero c false h p = absurd (omega arith)
barrel_shift-IsShift asr value (suc n) c imm h p = asr-IsShift value (suc n) c imm h p
