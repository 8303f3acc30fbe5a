-- ===== src/Bus/IoRegs/Reference.antt =====
-- A reference point as the signed 28-bit number that its two halves spell.
use vibe_gba.Prelude.{
  ℕ, ◌+◌, ◌-◌, ◌*◌, ◌/◌, ◌%◌, ◌^◌, ◌<◌, ◌≡◌, ap, ◌∙◌, arith, Bool, false, ◌&&◌, ltb, ◌==◌,
  if◌then◌else◌,
}
use vibe_gba.Prelude.Bits.{bit_set}
use vibe_gba.Prelude.Int.{ℤ, pos, negsuc, as_u32}
use vibe_gba.Bus.IoRegs.{
  IoRegisters, sign_extend_28, update_latch, with_low, with_high, write_bg_ref_low,
  write_bg_ref_high,
}

-- The number of a 28-bit word in two's complement.
signed_28 : ℕ → ℤ
signed_28 n = if ltb n (2 ^ 27) then pos n else negsuc (2 ^ 28 - 1 - n)

-- The four latches.
latches : IoRegisters → ℤ × ℤ × ℤ × ℤ
latches io = (io.bg2x_latch, io.bg2y_latch, io.bg3x_latch, io.bg3y_latch)

-- The latches with one of them replaced.
replaced : ℕ → ℕ → ℤ → ℤ × ℤ × ℤ × ℤ → ℤ × ℤ × ℤ × ℤ
replaced bg coord v (x2, y2, x3, y3) = (
  if bg == 2 && coord == 0 then v else x2,
  if bg == 2 && coord == 1 then v else y2,
  if bg == 3 && coord == 0 then v else x3,
  if bg == 3 && coord == 1 then v else y3,
)

sign_extend_28-word : (n : ℕ) → n < 2 ^ 32 → (n / 2 ^ 28 ≡ 0) → sign_extend_28 n ≡ signed_28 n
unfolding sign_extend_28 signed_28
sign_extend_28-word n h l = ground arith

as_u32-lt : (z : ℤ) → as_u32 z < 2 ^ 32
as_u32-lt (pos n) = omega arith
as_u32-lt (negsuc n) = omega arith

low_half : (n : ℕ) → n < 2 ^ 32 → as_u32 (sign_extend_28 n) % 2 ^ 16 ≡ n % 2 ^ 16
unfolding sign_extend_28
low_half n h = ground arith

kept : (n low : ℕ) → low < 2 ^ 16 → (n / 2 ^ 16 * 2 ^ 16 + low) % 2 ^ 16 ≡ low
kept n low h = omega arith

halves :
    (low high : ℕ) (z : ℤ)
    → low < 2 ^ 16
    → high < 2 ^ 12
    → with_high high (with_low low z) ≡ signed_28 (low + high * 2 ^ 16)
unfolding with_high with_low
halves low high z h l =
    ap (λ (t : ℕ). sign_extend_28 (t + high * 2 ^ 16))
      (low_half (as_u32 z / 2 ^ 16 * 2 ^ 16 + low) (omega (arith, as_u32-lt z))
        ∙ kept (as_u32 z) low h)
    ∙ sign_extend_28-word (low + high * 2 ^ 16) (omega arith) (omega arith)

update_latch-latches :
    (bg coord : ℕ) (v : ℤ) (f g : ℤ → ℤ) (io : IoRegisters)
    → ((z : ℤ) → f (g z) ≡ v)
    → latches (update_latch bg coord f (update_latch bg coord g io))
      ≡ replaced bg coord v (latches io)
unfolding update_latch latches replaced
update_latch-latches bg coord v f g io h =
    ground (arith, h io.bg2x_latch, h io.bg2y_latch, h io.bg3x_latch, h io.bg3y_latch)

-- A low half and then a high half of twelve bits, written to a reference point of the background 2
-- or 3, leave the signed 28-bit number that they spell in its latch, whatever it held, and the
-- other latches as they were. A pair that names no latch changes none.
write_bg_ref_low-write_bg_ref_high :
    (bg coord low high : ℕ) (io : IoRegisters)
    → low < 2 ^ 16
    → high < 2 ^ 12
    → latches (write_bg_ref_high bg coord high (write_bg_ref_low bg coord low io))
      ≡ replaced bg coord (signed_28 (low + high * 2 ^ 16)) (latches io)
unfolding write_bg_ref_low write_bg_ref_high
write_bg_ref_low-write_bg_ref_high bg coord low high io h l =
    update_latch-latches bg coord (signed_28 (low + high * 2 ^ 16)) (with_high high) (with_low low)
      io (λ z. halves low high z h l)

-- The range of a signed 28-bit number.
fits_28 : ℤ → Bool
fits_28 (pos n) = ltb n (2 ^ 27)
fits_28 (negsuc n) = ltb n (2 ^ 27)

-- A high half whose bit 11 is clear, but not its four top bits, leaves a number outside of 28 bits
-- in the latch, whatever it held.
with_high-fits_28 :
    (high : ℕ) (z : ℤ)
    → high < 2 ^ 16
    → bit_set high 11 ≡ false
    → 0 < high / 2 ^ 12
    → fits_28 (with_high high z) ≡ false
unfolding with_high sign_extend_28 fits_28
with_high-fits_28 high z h b t = ground (arith, as_u32-lt z)
