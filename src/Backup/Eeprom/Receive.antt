-- ===== src/Backup/Eeprom/Receive.antt =====
-- Reading the output register out, bit by bit.
use vibe_gba.Prelude.{
  ℕ, zero, suc, ◌+◌, ◌*◌, ◌/◌, ◌%◌, ◌^◌, ◌≤◌, ◌<◌, ◌≡◌, refl, ap, ap₂, subst, ◌∙◌, sym, arith, Bool,
  true, false, List, [], ◌∷◌, length, to_ℕ,
}
use native.Mathlib.Nat.{pow-succ'}
use vibe_gba.Backup.Eeprom.{Eeprom, idle, read_out, read_bit}
use vibe_gba.Backup.Eeprom.Bits.{value, value-cons, value-lt}

-- `n` reads: the chip after them, and the bits in order.
pub read_bits : ℕ → Eeprom → Eeprom × List ℕ
read_bits zero e = (e, [])
read_bits (suc n) e =
    let (e', bit) = read_bit e in let (e'', rest) = read_bits n e' in (e'', bit ∷ rest)

abbrev pub numbers : List Bool → List ℕ
numbers [] = []
numbers (b ∷ bs) = to_ℕ b ∷ numbers bs

below : (v q p : ℕ) → v < q → 0 < p → v * p < p * q
below v q p h k = grind arith

shift_out :
    (b : Bool) (v q p : ℕ)
    → v < q
    → p * q ≡ 2 ^ 63
    → ((to_ℕ b * q + v) * p / 2 ^ 63 % 2 ≡ to_ℕ b)
      × ((to_ℕ b * q + v) * p * 2 % 2 ^ 64 ≡ v * (p * 2))
shift_out b v q zero h e = absurd (omega arith)
shift_out true v q (suc p) h e = omega (arith, below v q (suc p) h (omega arith))
shift_out false v q (suc p) h e = omega (arith, below v q (suc p) h (omega arith))

-- The top bit of a register that holds `bs` in its highest places, and the register behind it.
top_bit :
    (b : Bool) (bs : List Bool) (p : ℕ)
    → p * 2 ^ suc (length bs) ≡ 2 ^ 64
    → (value (b ∷ bs) * p / 2 ^ 63 % 2 ≡ to_ℕ b)
      × (value (b ∷ bs) * p * 2 % 2 ^ 64 ≡ value bs * (p * 2))
      × (p * 2 * 2 ^ length bs ≡ 2 ^ 64)
top_bit b bs p e =
    let halves : p * 2 ^ length bs ≡ 2 ^ 63 =
      omega (arith, ap (λ (t : ℕ). p * t) (pow-succ' 2 (length bs))) in
    let out = shift_out b (value bs) (2 ^ length bs) p (value-lt bs) halves in
    (rw (value-cons b bs) out.0, rw (value-cons b bs) out.1, omega (arith, halves))

-- A chip in `read_out` with the data bits `bs` still to send.
record Sending (bs : List Bool) (p : ℕ) (e : Eeprom) : Type 0 where
  sending : e.state ≡ read_out
  left : e.read_bits_left ≡ length bs
  register : e.read_buf ≡ value bs * p
  places : p * 2 ^ length bs ≡ 2 ^ 64

read_bit-Sending :
    (b : Bool) (c : Bool) (bs : List Bool) (p : ℕ) {e : Eeprom}
    → length (b ∷ c ∷ bs) ≤ 64
    → Sending (b ∷ c ∷ bs) p e
    → ((read_bit e).1 ≡ to_ℕ b) × Sending (c ∷ bs) (p * 2) (read_bit e).0
unfolding read_bit
read_bit-Sending b c bs p {e} small s =
    let top = top_bit b (c ∷ bs) p s.places in ground (arith, s, top)

read_bit-last :
    (b : Bool) (p : ℕ) {e : Eeprom}
    → Sending (b ∷ []) p e
    → ((read_bit e).1 ≡ to_ℕ b) × ((read_bit e).0.state ≡ idle)
unfolding read_bit
read_bit-last b p {e} s = let top = top_bit b [] p s.places in ground (arith, s, top)

-- What a read leaves alone.
abbrev pub SameChip : Eeprom → Eeprom → Type 0
SameChip e e' = (e'.cells ≡ e.cells) × (e'.size ≡ e.size) × (e'.addr_width ≡ e.addr_width)

read_bit-SameChip : (e : Eeprom) → SameChip e (read_bit e).0
unfolding read_bit
read_bit-SameChip e = ground arith

pub read_bits-SameChip : (n : ℕ) (e : Eeprom) → SameChip e (read_bits n e).0
unfolding read_bits
read_bits-SameChip zero e = (refl, refl, refl)
read_bits-SameChip (suc n) e =
    let first = read_bit-SameChip e in
    let rest = read_bits-SameChip n (read_bit e).0 in
    (rest.0 ∙ first.0, rest.1 ∙ first.1, rest.2 ∙ first.2)

read_bits-Sending :
    (b : Bool) (bs : List Bool) (p : ℕ) {e : Eeprom}
    → length (b ∷ bs) ≤ 64
    → Sending (b ∷ bs) p e
    → ((read_bits (length (b ∷ bs)) e).1 ≡ numbers (b ∷ bs))
      × ((read_bits (length (b ∷ bs)) e).0.state ≡ idle)
unfolding read_bits
read_bits-Sending b [] p small s =
    let last = read_bit-last b p s in (ap (λ (t : ℕ). t ∷ []) last.0, last.1)
read_bits-Sending b (c ∷ bs) p small s =
    let first = read_bit-Sending b c bs p small s in
    let rest = read_bits-Sending c bs (p * 2) (omega arith) first.1 in
    (ap₂ ◌∷◌ first.0 rest.0, rest.1)

-- With more than 64 bits left the next one is a dummy 0, and the register stays.
read_bit-dummy :
    (n : ℕ) {e : Eeprom}
    → e.state ≡ read_out
    → e.read_bits_left ≡ 65 + n
    → read_bit e ≡ (record e { read_bits_left = 64 + n }, 0)
unfolding read_bit
read_bit-dummy n {e} s l = ground arith

-- A chip that begins to send: the register holds the value of `bs`.
pub record Loaded (bs : List Bool) (e : Eeprom) : Type 0 where
  pub sending : e.state ≡ read_out
  pub left : e.read_bits_left ≡ 68
  pub register : e.read_buf ≡ value bs

read_bits-dummies :
    (n : ℕ) (e : Eeprom)
    → e.state ≡ read_out
    → e.read_bits_left ≡ 68
    → read_bits (suc (suc (suc (suc n)))) e ≡ (
      (read_bits n (record e { read_bits_left = 64 })).0,
      0 ∷ 0 ∷ 0 ∷ 0 ∷ (read_bits n (record e { read_bits_left = 64 })).1,
    )
unfolding read_bits
read_bits-dummies n e s l =
    rw
      (
        read_bit-dummy 3 {e = e} s l,
        read_bit-dummy 2 {e = record e { read_bits_left = 67 }} s refl,
        read_bit-dummy 1 {e = record e { read_bits_left = 66 }} s refl,
        read_bit-dummy 0 {e = record e { read_bits_left = 65 }} s refl,
      )
      refl

read_bits-data :
    (bs : List Bool) (e : Eeprom)
    → length bs ≡ 64
    → Loaded bs e
    → ((read_bits (suc (suc (suc (suc (length bs))))) e).1 ≡ 0 ∷ 0 ∷ 0 ∷ 0 ∷ numbers bs)
      × ((read_bits (suc (suc (suc (suc (length bs))))) e).0.state ≡ idle)
read_bits-data [] e full l = absurd (omega arith)
read_bits-data (b ∷ bs) e full l =
    let from_top =
      read_bits-Sending b bs 1 {e = record e { read_bits_left = 64 }} (omega arith) (record {
        sending = l.sending;
        left = sym full;
        register = l.register ∙ omega arith;
        places = rw full refl;
      }) in
    rw (read_bits-dummies (length (b ∷ bs)) e l.sending l.left)
      (ap (λ (t : List ℕ). 0 ∷ 0 ∷ 0 ∷ 0 ∷ t) from_top.0, from_top.1)

-- 68 reads give four zeros and the 64 data bits, and end in `idle`.
pub read_bits-Loaded :
    (bs : List Bool) (e : Eeprom)
    → length bs ≡ 64
    → Loaded bs e
    → ((read_bits 68 e).1 ≡ 0 ∷ 0 ∷ 0 ∷ 0 ∷ numbers bs) × ((read_bits 68 e).0.state ≡ idle)
read_bits-Loaded bs e full l =
    subst (λ n. ((read_bits n e).1 ≡ 0 ∷ 0 ∷ 0 ∷ 0 ∷ numbers bs) × ((read_bits n e).0.state ≡ idle))
      (omega (arith, full)) (read_bits-data bs e full l)
