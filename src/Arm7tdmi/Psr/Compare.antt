-- ===== src/Arm7tdmi/Psr/Compare.antt =====
-- The condition codes after a comparison, as relations of the words compared.
use vibe_gba.Prelude.{
  ℕ, ◌/◌, ◌^◌, ◌<◌, ◌≡◌, ap, ap₂, ◌∙◌, arith, Bool, true, not, ◌&&◌, ◌||◌, leb, ltb, ◌==◌,
}
use vibe_gba.Prelude.Bits.{bit_set}
use vibe_gba.Prelude.Int.{leb_ℤ, as_i32}
use vibe_gba.Arm7tdmi.Alu.{sub_with_carry}
use vibe_gba.Arm7tdmi.Alu.Adder.{IsDifference, sub_with_carry_lem}
use vibe_gba.Arm7tdmi.Psr.{
  Psr, n, z, c, v, set_bit, set_n, set_z, set_c, set_v, set_nz, check_condition, equal,
}
use vibe_gba.Arm7tdmi.Psr.Bits.{IsWord, set_bit-bit, set_bit-IsWord}

-- The flags of an arithmetic result, in the order in which they are set.
unfoldable pub set_flags : ℕ × Bool × Bool → Psr → Psr
set_flags (result, carry, overflow) p = set_v overflow (set_c carry (set_nz result p))

pub record HasFlags (r : ℕ × Bool × Bool) (p : Psr) : Type 0 where
  pub negative : n p ≡ leb (2 ^ 31) r.0
  pub zero : z p ≡ (r.0 == 0)
  pub carry : c p ≡ r.1
  pub overflow : v p ≡ r.2

n-top_bit : (p : Psr) → IsWord p → n p ≡ bit_set p.bits 31
unfolding n IsWord
n-top_bit p h = ground arith

set_flags-HasFlags :
    (result : ℕ) (carry overflow : Bool) (p : Psr)
    → IsWord p
    → result < 2 ^ 32
    → HasFlags (result, carry, overflow) (set_flags (result, carry, overflow) p)
unfolding set_flags set_n set_z set_c set_v set_nz z c v
set_flags-HasFlags result carry overflow p w h =
    let sign = not (result / 2 ^ 31 == 0) in
    let p1 = set_bit 31 sign p in
    let p2 = set_bit 30 (result == 0) p1 in
    let p3 = set_bit 29 carry p2 in
    let w1 = set_bit-IsWord 31 sign p w (omega arith) in
    let w2 = set_bit-IsWord 30 (result == 0) p1 w1 (omega arith) in
    let w3 = set_bit-IsWord 29 carry p2 w2 (omega arith) in
    let w4 = set_bit-IsWord 28 overflow p3 w3 (omega arith) in
    record {
      negative =
          n-top_bit (set_bit 28 overflow p3) w4
          ∙ set_bit-bit 28 31 overflow p3 (omega arith) (omega arith)
          ∙ set_bit-bit 29 31 carry p2 (omega arith) (omega arith)
          ∙ set_bit-bit 30 31 (result == 0) p1 (omega arith) (omega arith)
          ∙ set_bit-bit 31 31 sign p (omega arith) (omega arith)
          ∙ ground arith;
      zero =
          set_bit-bit 28 30 overflow p3 (omega arith) (omega arith)
          ∙ set_bit-bit 29 30 carry p2 (omega arith) (omega arith)
          ∙ set_bit-bit 30 30 (result == 0) p1 (omega arith) (omega arith);
      carry =
          set_bit-bit 28 29 overflow p3 (omega arith) (omega arith)
          ∙ set_bit-bit 29 29 carry p2 (omega arith) (omega arith);
      overflow = set_bit-bit 28 28 overflow p3 (omega arith) (omega arith);
    }

-- What each condition says of two words that were compared.
pub record Compares (a b : ℕ) (p : Psr) : Type 0 where
  pub eq : check_condition 0x0 p ≡ (a == b)
  pub ne : check_condition 0x1 p ≡ not (a == b)
  pub cs : check_condition 0x2 p ≡ leb b a
  pub lo : check_condition 0x3 p ≡ ltb a b
  pub hi : check_condition 0x8 p ≡ ltb b a
  pub ls : check_condition 0x9 p ≡ leb a b
  pub ge : check_condition 0xa p ≡ leb_ℤ (as_i32 b) (as_i32 a)
  pub lt : check_condition 0xb p ≡ not (leb_ℤ (as_i32 b) (as_i32 a))
  pub gt : check_condition 0xc p ≡ not (leb_ℤ (as_i32 a) (as_i32 b))
  pub le : check_condition 0xd p ≡ leb_ℤ (as_i32 a) (as_i32 b)

module _ (a b r : ℕ) (carry overflow : Bool) (d : IsDifference a b true (r, carry, overflow)) where
  no_borrow : a < 2 ^ 32 → b < 2 ^ 32 → carry ≡ leb b a
  no_borrow h l = ground (arith, d.unsigned, d.word)

  no_difference : a < 2 ^ 32 → b < 2 ^ 32 → (r == 0) ≡ (a == b)
  no_difference h l = ground (arith, d.unsigned, d.word)

  signed_order :
      a < 2 ^ 32 → b < 2 ^ 32 → equal (leb (2 ^ 31) r) overflow ≡ leb_ℤ (as_i32 b) (as_i32 a)
  signed_order h l = ground (arith, d.unsigned, d.word, d.signed)

le_as_lt_or_eq :
    (a b : ℕ)
    → b < 2 ^ 32
    → a < 2 ^ 32
    → ((a == b) || not (leb_ℤ (as_i32 b) (as_i32 a))) ≡ leb_ℤ (as_i32 a) (as_i32 b)
le_as_lt_or_eq a b l h = ground arith

gt_as_ge_and_ne :
    (a b : ℕ)
    → b < 2 ^ 32
    → a < 2 ^ 32
    → (not (a == b) && leb_ℤ (as_i32 b) (as_i32 a)) ≡ not (leb_ℤ (as_i32 a) (as_i32 b))
gt_as_ge_and_ne a b l h = ground arith

flags-Compares :
    (a b r : ℕ) (carry overflow : Bool) (p : Psr)
    → a < 2 ^ 32
    → b < 2 ^ 32
    → IsDifference a b true (r, carry, overflow)
    → HasFlags (r, carry, overflow) p
    → Compares a b p
unfolding check_condition
flags-Compares a b r carry overflow p h l d f =
    let zf = f.zero ∙ no_difference a b r carry overflow d h l in
    let cf = f.carry ∙ no_borrow a b r carry overflow d h l in
    let of' : equal (n p) (v p) ≡ leb_ℤ (as_i32 b) (as_i32 a) =
      ap₂ equal f.negative f.overflow ∙ signed_order a b r carry overflow d h l in
    record {
      eq = zf;
      ne = ap not zf;
      cs = cf;
      lo = rw cf (ground arith);
      hi = rw (cf, zf) (ground arith);
      ls = rw (cf, zf) (ground arith);
      ge = of';
      lt = ap not of';
      gt = rw (zf, of') (gt_as_ge_and_ne a b l h);
      le = rw (zf, of') (le_as_lt_or_eq a b l h);
    }

-- After two words are compared by a subtraction that sets the flags, each condition code tells how
-- they compare: EQ, NE, CS, CC, HI and LS as unsigned numbers, GE, LT, GT and LE as signed ones.
pub sub_with_carry-Compares :
    (a b : ℕ) (p : Psr)
    → a < 2 ^ 32
    → b < 2 ^ 32
    → IsWord p
    → Compares a b (set_flags (sub_with_carry a b true) p)
sub_with_carry-Compares a b p h l w =
    let d = sub_with_carry_lem a b true h l in
    let r = sub_with_carry a b true in
    flags-Compares a b r.0 r.1 r.2 (set_flags r p) h l d (set_flags-HasFlags r.0 r.1 r.2 p w d.word)
