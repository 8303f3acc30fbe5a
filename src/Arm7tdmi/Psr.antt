-- ===== src/Arm7tdmi/Psr.antt =====
-- gba-core/src/arm7tdmi/mod.rs: the processor modes, the program status register and the condition
-- codes.
pub mod Bits
pub mod Compare
mod Examples
use vibe_gba.Prelude.{
  ℕ, ◌-◌, ◌*◌, ◌/◌, ◌%◌, ◌^◌, bit_and, bit_or, Bool, true, false, not, ◌&&◌, ◌||◌, ◌==◌,
  if◌then◌else◌, to_ℕ,
}
use vibe_gba.Prelude.Bits.{not32}

pub data CpuMode : Type 0 where
  user fiq irq supervisor abort undefined system : CpuMode

-- `mode as u32`.
unfoldable pub mode_bits : CpuMode → ℕ
mode_bits user = 0x10
mode_bits fiq = 0x11
mode_bits irq = 0x12
mode_bits supervisor = 0x13
mode_bits abort = 0x17
mode_bits undefined = 0x1b
mode_bits system = 0x1f

-- `bits & 0x1F`; bits of no mode count as User.
unfoldable pub from_bits : ℕ → CpuMode
from_bits bits =
    let m = bits % 2 ^ 5 in
    if m == 0x10
    then user
    else if m == 0x11
    then fiq
    else if m == 0x12
    then irq
    else if m == 0x13
    then supervisor
    else if m == 0x17
    then abort
    else if m == 0x1b
    then undefined
    else if m == 0x1f
    then system
    else user

unfoldable pub bank_index : CpuMode → ℕ
bank_index user = 0
bank_index system = 0
bank_index fiq = 1
bank_index irq = 2
bank_index supervisor = 3
bank_index abort = 4
bank_index undefined = 5

unfoldable pub has_spsr : CpuMode → Bool
has_spsr user = false
has_spsr system = false
has_spsr _ = true

-- `==` of two modes.
unfoldable pub is_mode : CpuMode → CpuMode → Bool
unfolding mode_bits
is_mode a b = mode_bits a == mode_bits b

pub record Psr : Type 0 where
  pub bits : ℕ

unfoldable pub new : CpuMode → Psr
unfolding mode_bits
new m = record { bits = bit_or (bit_or (mode_bits m) (2 ^ 7)) (2 ^ 6) }

abbrev pub flag : ℕ → Psr → Bool
flag k p = p.bits / 2 ^ k % 2 == 1

unfoldable pub n : Psr → Bool
n p = not (p.bits / 2 ^ 31 == 0)

unfoldable pub z : Psr → Bool
z p = flag 30 p

unfoldable pub c : Psr → Bool
c p = flag 29 p

unfoldable pub v : Psr → Bool
v p = flag 28 p

unfoldable pub irq_disabled : Psr → Bool
irq_disabled p = flag 7 p

unfoldable pub fiq_disabled : Psr → Bool
fiq_disabled p = flag 6 p

unfoldable pub thumb : Psr → Bool
thumb p = flag 5 p

unfoldable pub mode : Psr → CpuMode
unfolding from_bits
mode p = from_bits p.bits

-- `(bits & !(1 << k)) | (value << k)`, the text of each setter.
unfoldable pub set_bit : ℕ → Bool → Psr → Psr
set_bit k value p = record { bits = bit_or (bit_and p.bits (not32 (2 ^ k))) (to_ℕ value * 2 ^ k) }

unfoldable pub set_n : Bool → Psr → Psr
unfolding set_bit
set_n value p = set_bit 31 value p

unfoldable pub set_z : Bool → Psr → Psr
unfolding set_bit
set_z value p = set_bit 30 value p

unfoldable pub set_c : Bool → Psr → Psr
unfolding set_bit
set_c value p = set_bit 29 value p

unfoldable pub set_v : Bool → Psr → Psr
unfolding set_bit
set_v value p = set_bit 28 value p

unfoldable pub set_nz : ℕ → Psr → Psr
unfolding set_n set_z
set_nz result p = set_z (result == 0) (set_n (not (result / 2 ^ 31 == 0)) p)

unfoldable pub set_thumb : Bool → Psr → Psr
unfolding set_bit
set_thumb value p = set_bit 5 value p

-- `bits |= 1 << 7`.
unfoldable pub disable_irq : Psr → Psr
disable_irq p = record { bits = bit_or p.bits (2 ^ 7) }

-- `(bits & !0x1F) | mode`, as `switch_mode` has it.
unfoldable pub set_mode : CpuMode → Psr → Psr
unfolding mode_bits
set_mode m p = record { bits = bit_or (bit_and p.bits (not32 0x1f)) (mode_bits m) }

abbrev equal : Bool → Bool → Bool
equal true b = b
equal false b = not b

-- The condition code of an instruction against the flags.
unfoldable pub check_condition : ℕ → Psr → Bool
unfolding n z c v
check_condition cond p =
    let code = cond % 16 in
    if code == 0x0
    then z p
    else if code == 0x1
    then not (z p)
    else if code == 0x2
    then c p
    else if code == 0x3
    then not (c p)
    else if code == 0x4
    then n p
    else if code == 0x5
    then not (n p)
    else if code == 0x6
    then v p
    else if code == 0x7
    then not (v p)
    else if code == 0x8
    then c p && not (z p)
    else if code == 0x9
    then not (c p) || z p
    else if code == 0xa
    then equal (n p) (v p)
    else if code == 0xb
    then not (equal (n p) (v p))
    else if code == 0xc
    then not (z p) && equal (n p) (v p)
    else if code == 0xd
    then z p || not (equal (n p) (v p))
    else true
