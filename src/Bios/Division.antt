-- ===== src/Bios/Division.antt =====
-- The division of the BIOS, against its registers as signed numbers.
use vibe_gba.Prelude.{
  ℕ, zero, suc, ◌+◌, ◌-◌, ◌*◌, ◌/◌, ◌%◌, ◌^◌, ◌≤◌, ◌<◌, ◌≡◌, ◌≢◌, refl, ap, sym, ◌∙◌, arith, Bool,
  Bool-cases, inl, inr, ltb→lt, ==→eq, ne→not_==, true, false, not, ◌&&◌, ◌==◌, if◌then◌else◌, ltb,
  length, length-set, Option, some, none, List, subst, get_or, set, get_or-set_self, get_or-set_ne,
}
use vibe_gba.Prelude.Int.{ℤ, as_i32, as_u32}
use vibe_gba.Arm7tdmi.Cpu.{Cpu}
use vibe_gba.Arm7tdmi.Arm.Data.{put}
use vibe_gba.Bios.{r, magnitude, is_negative, signed, quotient, remainder, swi_div}

-- A quotient rounded to zero, with the remainder that goes with it.
pub record IsQuotient (n d q m : ℤ) : Type 0 where
  pub sum : magnitude n ≡ magnitude d * magnitude q + magnitude m
  pub less : magnitude m < magnitude d
  pub sign_q :
      q ≡ signed (if is_negative n then not (is_negative d) else is_negative d) (magnitude q)
  pub sign_m : m ≡ signed (is_negative n) (magnitude m)

magnitude-signed : (s : Bool) (n : ℕ) → magnitude (signed s n) ≡ n
unfolding magnitude signed
magnitude-signed s zero = refl
magnitude-signed false (suc n) = refl
magnitude-signed true (suc n) = refl

division : (a d : ℕ) → 0 < d → a ≡ d * (a / d) + a % d
division a d h = omega arith

quotient-IsQuotient : (n d : ℤ) → 0 < magnitude d → IsQuotient n d (quotient n d) (remainder n d)
unfolding quotient remainder
quotient-IsQuotient n d h =
    let s = if is_negative n then not (is_negative d) else is_negative d in
    let a = magnitude-signed s (magnitude n / magnitude d) in
    let b = magnitude-signed (is_negative n) (magnitude n % magnitude d) in
    record {
      sum = rw (a, b) (division (magnitude n) (magnitude d) h);
      less = rw b (omega (arith, h));
      sign_q = rw a refl;
      sign_m = rw b refl;
    }

-- A size that fits, with its sign, through a register.
as_i32-as_u32 :
    (s : Bool) (n : ℕ)
    → n ≤ 2 ^ 31
    → (s ≡ false → n < 2 ^ 31)
    → as_i32 (as_u32 (signed s n)) ≡ signed s n
unfolding signed
as_i32-as_u32 s zero h k = refl
as_i32-as_u32 false (suc n) h k = let l = k refl in ground arith
as_i32-as_u32 true (suc n) h k = ground arith

div-le : (a d : ℕ) → 0 < d → a / d ≤ a
div-le a zero h = omega (arith, h)
div-le a (suc e) h = let s = division a (suc e) h in omega arith

div-le_half : (a d : ℕ) → 2 ≤ d → 2 * (a / d) ≤ a
div-le_half a zero h = omega (arith, h)
div-le_half a (suc zero) h = omega (arith, h)
div-le_half a (suc (suc e)) h = let s = division a (suc (suc e)) (omega arith) in omega arith

-- The size of a register as a signed number.
magnitude-le : (x : ℕ) → x < 2 ^ 32 → magnitude (as_i32 x) ≤ 2 ^ 31
unfolding magnitude
magnitude-le x h = ground arith

positive-lt : (x : ℕ) → is_negative (as_i32 x) ≡ false → magnitude (as_i32 x) < 2 ^ 31
unfolding magnitude is_negative
positive-lt x h = ground arith

nonzero : (x : ℕ) → x < 2 ^ 32 → x ≢ 0 → 0 < magnitude (as_i32 x)
unfolding magnitude
nonzero x l h = ground arith

-- The least number has the largest size, and -1 the size one.
least : (x : ℕ) → x < 2 ^ 32 → magnitude (as_i32 x) ≡ 2 ^ 31 → x ≡ 2 ^ 31
unfolding magnitude
least x l h = ground arith

minus_one :
    (x : ℕ) → x < 2 ^ 32 → is_negative (as_i32 x) ≡ true → magnitude (as_i32 x) ≡ 1 → x ≡ 2 ^ 32 - 1
unfolding magnitude is_negative
minus_one x l n h = ground arith

module _ (x y : ℕ) (lx : x < 2 ^ 32) (ly : y < 2 ^ 32) (divides : y ≢ 0)
    (fits : ¬ ((x ≡ 2 ^ 31) × (y ≡ 2 ^ 32 - 1))) where
  abbrev a : ℕ
  a = magnitude (as_i32 x)

  abbrev d : ℕ
  d = magnitude (as_i32 y)

  quotient-lt :
      (if is_negative (as_i32 x) then not (is_negative (as_i32 y)) else is_negative (as_i32 y))
        ≡ false
      → a / d < 2 ^ 31
  quotient-lt e = elim (Bool-cases (is_negative (as_i32 x))) [
    | inr p ↦ omega (arith, div-le a d (nonzero y ly divides), positive-lt x p)
    | inl p ↦ elim (Bool-cases (ltb a (2 ^ 31))) [
      | inl l ↦ omega (arith, div-le a d (nonzero y ly divides), ltb→lt a (2 ^ 31) l)
      | inr g ↦
          let m = magnitude-le x lx in
          let big : a ≡ 2 ^ 31 = ground (arith, m) in
          let n : is_negative (as_i32 y) ≡ true = ground (arith) in
          let two : 2 ≤ d = elim (Bool-cases (d == 1)) [
            | inl q ↦ absurd (fits (least x lx big, minus_one y ly n (==→eq d 1 q)))
            | inr q ↦ ground (arith, nonzero y ly divides)
          ] in
          omega (arith, m, div-le_half a d two)
    ]
  ]

  register_quotient :
      as_i32 (as_u32 (quotient (as_i32 x) (as_i32 y))) ≡ quotient (as_i32 x) (as_i32 y)
  unfolding quotient
  register_quotient =
      let s =
        if is_negative (as_i32 x) then not (is_negative (as_i32 y)) else is_negative (as_i32 y) in
      as_i32-as_u32 s (a / d) (omega (arith, div-le a d (nonzero y ly divides), magnitude-le x lx))
        quotient-lt

  register_remainder :
      as_i32 (as_u32 (remainder (as_i32 x) (as_i32 y))) ≡ remainder (as_i32 x) (as_i32 y)
  unfolding remainder
  register_remainder =
      let m = magnitude-le y ly in
      let n = nonzero y ly divides in
      as_i32-as_u32 (is_negative (as_i32 x)) (a % d) (omega arith) (λ e. omega arith)

last_branch :
    {A : Type 0} (s t : Bool) (x y z : A)
    → s ≡ false
    → t ≡ false
    → (if s then x else if t then y else z) ≡ z
last_branch s t x y z p q = rw (p, q) refl

not_both :
    (x y : ℕ) → ¬ ((x ≡ 2 ^ 31) × (y ≡ 2 ^ 32 - 1)) → (x == 2 ^ 31 && y == 2 ^ 32 - 1) ≡ false
not_both x y h = elim (Bool-cases (x == 2 ^ 31)) [
  | inr p ↦ rw p refl
  | inl p ↦ rw (p, ne→not_== y (2 ^ 32 - 1) (λ q. h (==→eq x (2 ^ 31) p, q))) refl
]

-- The registers after the three writes.
record AreWritten (rs rs' : List ℕ) (a b s : ℕ) : Type 0 where
  pub first : get_or rs' 0 0 ≡ a
  pub second : get_or rs' 1 0 ≡ b
  pub third : get_or rs' 3 0 ≡ s
  pub others : (i : ℕ) → i ≢ 0 → i ≢ 1 → i ≢ 3 → get_or rs' i 0 ≡ get_or rs i 0

three_writes :
    (rs : List ℕ)
    → length rs ≡ 16
    → (a b s : ℕ) → AreWritten rs (set (set (set rs 0 a) 1 b) 3 s) a b s
three_writes rs z a b s =
    let one = set rs 0 a in
    let two = set one 1 b in
    let z1 = length-set rs 0 a in
    let z2 = length-set one 1 b in
    record {
      first =
          get_or-set_ne two 3 0 s 0 (omega arith)
          ∙ get_or-set_ne one 1 0 b 0 (omega arith)
          ∙ get_or-set_self rs 0 a 0 (omega (arith, z));
      second =
          get_or-set_ne two 3 1 s 0 (omega arith)
          ∙ get_or-set_self one 1 b 0 (omega (arith, z, z1));
      third = get_or-set_self two 3 s 0 (omega (arith, z, z1, z2));
      others = λ i p q t.
          get_or-set_ne two 3 i s 0 (λ e. t (sym e))
          ∙ get_or-set_ne one 1 i b 0 (λ e. q (sym e))
          ∙ get_or-set_ne rs 0 i a 0 (λ e. p (sym e));
    }

-- What the division leaves: the quotient and the remainder as signed numbers, the size of the
-- quotient, and every other register.
pub record IsDivided (c e : Cpu) : Type 0 where
  pub quotient : IsQuotient (as_i32 (r 0 c)) (as_i32 (r 1 c)) (as_i32 (r 0 e)) (as_i32 (r 1 e))
  pub size : r 3 e ≡ magnitude (as_i32 (r 0 e))
  pub others : (i : ℕ) → i ≢ 0 → i ≢ 1 → i ≢ 3 → r i e ≡ r i c

-- The outcome is a processor of which something holds.
unfoldable pub Gives : Option Cpu → (Cpu → Type 0) → Type 0
Gives none P = ⊥
Gives (some e) P = P e

module _ (c : Cpu) (size : length c.regs ≡ 16) (lx : r 0 c < 2 ^ 32) (ly : r 1 c < 2 ^ 32) where
  by_zero : r 1 c ≡ 0 → swi_div c ≡ some c
  unfolding swi_div
  by_zero e = rw e refl

  overflows : r 0 c ≡ 2 ^ 31 → r 1 c ≡ 2 ^ 32 - 1 → swi_div c ≡ none
  unfolding swi_div
  overflows p q = rw (p, q) refl

  module _ (divides : r 1 c ≢ 0) (fits : ¬ ((r 0 c ≡ 2 ^ 31) × (r 1 c ≡ 2 ^ 32 - 1))) where
    abbrev q : ℤ
    q = quotient (as_i32 (r 0 c)) (as_i32 (r 1 c))

    abbrev m : ℤ
    m = remainder (as_i32 (r 0 c)) (as_i32 (r 1 c))

    abbrev divided : Cpu
    divided = put 3 (magnitude q) (put 1 (as_u32 m) (put 0 (as_u32 q) c))

    swi_div-divided : swi_div c ≡ some divided
    unfolding swi_div
    swi_div-divided =
        last_branch _ _ _ _ _ (ne→not_== (r 1 c) 0 divides) (not_both (r 0 c) (r 1 c) fits)

    divided-IsDivided : IsDivided c divided
    unfolding put
    divided-IsDivided =
        let w = three_writes c.regs size (as_u32 q) (as_u32 m) (magnitude q) in
        let back : as_i32 (get_or divided.regs 0 0) ≡ q =
          ap (λ (x : ℕ). as_i32 x) w.first ∙ register_quotient (r 0 c) (r 1 c) lx ly divides fits in
        let rest : as_i32 (get_or divided.regs 1 0) ≡ m =
          ap (λ (x : ℕ). as_i32 x) w.second
          ∙ register_remainder (r 0 c) (r 1 c) lx ly divides fits in
        record {
          quotient =
              subst
                (λ (x : ℤ).
                  IsQuotient (as_i32 (r 0 c)) (as_i32 (r 1 c)) x (as_i32 (get_or divided.regs 1 0)))
                (sym back)
                (subst (λ (y : ℤ). IsQuotient (as_i32 (r 0 c)) (as_i32 (r 1 c)) q y) (sym rest)
                  (quotient-IsQuotient (as_i32 (r 0 c)) (as_i32 (r 1 c))
                    (nonzero (r 1 c) ly divides)));
          size = w.third ∙ sym (ap magnitude back);
          others = w.others;
        }

  -- With words in the registers: a division by zero leaves the processor alone; the division of the
  -- least number by -1 panics; any other gives the quotient rounded to zero, a remainder smaller than
  -- the divisor and of the dividend's sign, and the size of the quotient, and no other register
  -- changes.
  pub swi_div-IsDivided :
      (r 1 c ≡ 0 → swi_div c ≡ some c)
      × (r 0 c ≡ 2 ^ 31 → r 1 c ≡ 2 ^ 32 - 1 → swi_div c ≡ none)
      × (r 1 c ≢ 0 → ¬ ((r 0 c ≡ 2 ^ 31) × (r 1 c ≡ 2 ^ 32 - 1)) → Gives (swi_div c) (IsDivided c))
  unfolding Gives
  swi_div-IsDivided = (
    by_zero,
    overflows,
    λ divides fits.
        subst (λ (o : Option Cpu). Gives o (IsDivided c)) (sym (swi_div-divided divides fits))
          (divided-IsDivided divides fits),
  )
