-- ===== src/Arm7tdmi/Alu/Adder.antt =====
-- The adder against addition of integers, unsigned and signed, and subtraction through it.
use vibe_gba.Prelude.{
  ℕ, ◌+◌, ◌*◌, ◌/◌, ◌%◌, ◌^◌, ◌<◌, bit_and, bit_xor, ◌≡◌, ◌↔◌, refl, sym, ap₂, subst, ◌∙◌, arith,
  Bool, true, false, not, ◌&&◌, ltb, leb, ◌==◌, to_ℕ,
}
use vibe_gba.Prelude.Bits.{bit_set, bit_set-and, bit_set-xor, not32}
use vibe_gba.Prelude.Words.{bit_and-lt, bit_xor-lt}
use vibe_gba.Prelude.Int.{pos, ◌+ℤ◌}
use vibe_gba.Arm7tdmi.Alu.{as_i32, add_with_carry, sub_with_carry}
use mathlib.Core.Bool.{xor}

-- Two signs differ.
abbrev pub differ : Bool → Bool → Bool
differ true b = not b
differ false b = b

differ-xor : (a b : Bool) → xor a b ≡ differ a b
unfolding xor
differ-xor true true = refl
differ-xor true false = refl
differ-xor false true = refl
differ-xor false false = refl

pub top_bit : (x : ℕ) → x < 2 ^ 32 → not (x / 2 ^ 31 == 0) ≡ bit_set x 31
top_bit x h = ground arith

bit_set-sign : (x : ℕ) → x < 2 ^ 32 → bit_set x 31 ≡ leb (2 ^ 31) x
bit_set-sign x h = ground arith

-- `((a ^ r) & (b ^ r)) >> 31 != 0`: the sign of the result is that of neither operand.
overflow_test :
    (a b r : ℕ)
    → a < 2 ^ 32
    → b < 2 ^ 32
    → r < 2 ^ 32
    → not (bit_and (bit_xor a r) (bit_xor b r) / 2 ^ 31 == 0)
      ≡ (differ (leb (2 ^ 31) a) (leb (2 ^ 31) r) && differ (leb (2 ^ 31) b) (leb (2 ^ 31) r))
overflow_test a b r ha hb hr =
    top_bit _ (bit_and-lt 32 (bit_xor a r) (bit_xor b r) (bit_xor-lt 32 a r ha hr))
    ∙ bit_set-and 31 (bit_xor a r) (bit_xor b r)
    ∙ ap₂ (λ (s t : Bool). s && t) (bit_set-xor 31 a r) (bit_set-xor 31 b r)
    ∙ ap₂ (λ (s t : Bool). s && t) (differ-xor (bit_set a 31) (bit_set r 31))
        (differ-xor (bit_set b 31) (bit_set r 31))
    ∙ ground (arith, bit_set-sign a ha, bit_set-sign b hb, bit_set-sign r hr)

signed_sum :
    (a b r : ℕ) (c : Bool)
    → a < 2 ^ 32
    → b < 2 ^ 32
    → r ≡ (a + b + to_ℕ c) % 2 ^ 32
    → ((differ (leb (2 ^ 31) a) (leb (2 ^ 31) r) && differ (leb (2 ^ 31) b) (leb (2 ^ 31) r))
        ≡ false)
      ↔ (as_i32 r ≡ as_i32 a +ℤ as_i32 b +ℤ pos (to_ℕ c))
signed_sum a b r true h l e = (λ q. ground arith, λ q. ground arith)
signed_sum a b r false h l e = (λ q. ground arith, λ q. ground arith)

-- What a sum is of two words and a carry: as numbers, and as signed numbers.
pub record IsSum (a b : ℕ) (c : Bool) (r : ℕ × Bool × Bool) : Type 0 where
  pub word : r.0 < 2 ^ 32
  pub unsigned : r.0 + to_ℕ r.1 * 2 ^ 32 ≡ a + b + to_ℕ c
  pub signed : (r.2 ≡ false) ↔ (as_i32 r.0 ≡ as_i32 a +ℤ as_i32 b +ℤ pos (to_ℕ c))

unsigned_sum :
    (a b : ℕ) (c : Bool)
    → a < 2 ^ 32
    → b < 2 ^ 32
    → (a + b + to_ℕ c) % 2 ^ 32 + to_ℕ (ltb 0xffffffff (a + b + to_ℕ c)) * 2 ^ 32 ≡ a + b + to_ℕ c
unsigned_sum a b c h l = ground arith

-- The adder: for words, the result and the carry are the sum of both and the carry in, and the
-- overflow is clear exactly when the result, read as a signed word, is the sum of the signed words.
pub add_with_carry_lem :
    (a b : ℕ) (c : Bool) → a < 2 ^ 32 → b < 2 ^ 32 → IsSum a b c (add_with_carry a b c)
unfolding add_with_carry
add_with_carry_lem a b c h l = record {
  word = omega arith;
  unsigned = unsigned_sum a b c h l;
  signed =
      subst
        (λ (v : Bool).
          (v ≡ false) ↔ (as_i32 ((a + b + to_ℕ c) % 2 ^ 32) ≡ as_i32 a +ℤ as_i32 b +ℤ pos (to_ℕ c)))
        (sym (overflow_test a b ((a + b + to_ℕ c) % 2 ^ 32) h l (omega arith)))
        (signed_sum a b ((a + b + to_ℕ c) % 2 ^ 32) c h l refl);
}

-- What a difference is of two words and a borrow (the carry inverted).
pub record IsDifference (a b : ℕ) (c : Bool) (r : ℕ × Bool × Bool) : Type 0 where
  pub word : r.0 < 2 ^ 32
  pub unsigned : r.0 + b + to_ℕ (not c) ≡ a + to_ℕ (not r.1) * 2 ^ 32
  pub signed : (r.2 ≡ false) ↔ (as_i32 r.0 +ℤ as_i32 b +ℤ pos (to_ℕ (not c)) ≡ as_i32 a)

move_over :
    (a b r : ℕ) (c : Bool)
    → b < 2 ^ 32
    → a < 2 ^ 32
    → r < 2 ^ 32
    → as_i32 r ≡ as_i32 a +ℤ as_i32 (not32 b) +ℤ pos (to_ℕ c)
    → as_i32 r +ℤ as_i32 b +ℤ pos (to_ℕ (not c)) ≡ as_i32 a
move_over a b r true h l k e = ground arith
move_over a b r false h l k e = ground arith

move_back :
    (a b r : ℕ) (c : Bool)
    → b < 2 ^ 32
    → a < 2 ^ 32
    → r < 2 ^ 32
    → as_i32 r +ℤ as_i32 b +ℤ pos (to_ℕ (not c)) ≡ as_i32 a
    → as_i32 r ≡ as_i32 a +ℤ as_i32 (not32 b) +ℤ pos (to_ℕ c)
move_back a b r true h l k e = ground arith
move_back a b r false h l k e = ground arith

signed_difference :
    (a b r : ℕ) (c v : Bool)
    → b < 2 ^ 32
    → a < 2 ^ 32
    → r < 2 ^ 32
    → (v ≡ false) ↔ (as_i32 r ≡ as_i32 a +ℤ as_i32 (not32 b) +ℤ pos (to_ℕ c))
    → (v ≡ false) ↔ (as_i32 r +ℤ as_i32 b +ℤ pos (to_ℕ (not c)) ≡ as_i32 a)
signed_difference a b r c v h l k (to, from) =
    (λ e. move_over a b r c h l k (to e), λ e. from (move_back a b r c h l k e))

unsigned_difference :
    (a b r : ℕ) (c d : Bool)
    → b < 2 ^ 32
    → r + to_ℕ d * 2 ^ 32 ≡ a + not32 b + to_ℕ c
    → r + b + to_ℕ (not c) ≡ a + to_ℕ (not d) * 2 ^ 32
unsigned_difference a b r c d h e = ground arith

-- The subtraction: for words, with the carry as the inverted borrow, in and out, the result is the
-- difference, and the overflow is clear exactly when it is so for the signed words.
pub sub_with_carry_lem :
    (a b : ℕ) (c : Bool) → a < 2 ^ 32 → b < 2 ^ 32 → IsDifference a b c (sub_with_carry a b c)
unfolding sub_with_carry
sub_with_carry_lem a b c h l =
    let s = add_with_carry_lem a (not32 b) c h (omega arith) in
    record {
      word = s.word;
      unsigned = unsigned_difference a b _ c _ l s.unsigned;
      signed = signed_difference a b _ c _ l h s.word s.signed;
    }
