-- ===== src/Bus/IoRegs.antt =====
-- gba-core/src/bus/io_regs.rs: the display registers, and the reference points of the affine
-- backgrounds, which are written in two halves.
pub mod Reference
use vibe_gba.Prelude.{
  ℕ, ◌+◌, ◌*◌, ◌/◌, ◌%◌, ◌^◌, Bool, ◌&&◌, List, [], ◌∷◌, ◌==◌, if◌then◌else◌, replicate,
}
use vibe_gba.Prelude.Bits.{bit_set}
use vibe_gba.Prelude.Int.{ℤ, pos, as_i32, as_u32}

-- The latches are `i32`, the others `u16` or `u8`.
pub record IoRegisters : Type 0 where
  pub dispcnt : ℕ
  pub green_swap : ℕ
  pub dispstat : ℕ
  pub vcount : ℕ
  pub bgcnt : List ℕ
  pub bg_ofs : List (List ℕ)
  pub bg2_affine : List ℕ
  pub bg2x_latch : ℤ
  pub bg2y_latch : ℤ
  pub bg3_affine : List ℕ
  pub bg3x_latch : ℤ
  pub bg3y_latch : ℤ
  pub winh : List ℕ
  pub winv : List ℕ
  pub winin : ℕ
  pub winout : ℕ
  pub mosaic : ℕ
  pub bldcnt : ℕ
  pub bldalpha : ℕ
  pub bldy : ℕ
  pub sound_regs : List ℕ
  pub waitcnt : ℕ
  pub postflg : ℕ
  pub haltcnt : ℕ

pub new : IoRegisters
new = record {
  dispcnt = 0;
  green_swap = 0;
  dispstat = 0;
  vcount = 0;
  bgcnt = replicate 4 0;
  bg_ofs = replicate 4 (replicate 2 0);
  bg2_affine = replicate 4 0;
  bg2x_latch = pos 0;
  bg2y_latch = pos 0;
  bg3_affine = replicate 4 0;
  bg3x_latch = pos 0;
  bg3y_latch = pos 0;
  winh = replicate 2 0;
  winv = replicate 2 0;
  winin = 0;
  winout = 0;
  mosaic = 0;
  bldcnt = 0;
  bldalpha = 0;
  bldy = 0;
  sound_regs = replicate 0x50 0;
  waitcnt = 0;
  postflg = 0;
  haltcnt = 0;
}

-- `val | 0xF000_0000` sets the four high bits of the word.
pub sign_extend_28 : ℕ → ℤ
sign_extend_28 val = if bit_set val 27 then as_i32 (val % 2 ^ 28 + 0xf0000000) else as_i32 val

-- The latch that (bg, coord) names is changed; any other pair names none.
pub update_latch : ℕ → ℕ → (ℤ → ℤ) → IoRegisters → IoRegisters
update_latch bg coord f io =
    if bg == 2 && coord == 0
    then record io { bg2x_latch = f io.bg2x_latch }
    else if bg == 2 && coord == 1
    then record io { bg2y_latch = f io.bg2y_latch }
    else if bg == 3 && coord == 0
    then record io { bg3x_latch = f io.bg3x_latch }
    else if bg == 3 && coord == 1
    then record io { bg3y_latch = f io.bg3y_latch }
    else io

-- `(latch & !0xFFFF) | val`, of halves that do not meet.
pub with_low : ℕ → ℤ → ℤ
unfolding sign_extend_28
with_low val latch = sign_extend_28 (as_u32 latch / 2 ^ 16 * 2 ^ 16 + val)

-- `(latch & 0xFFFF) | (val << 16)`.
pub with_high : ℕ → ℤ → ℤ
unfolding sign_extend_28
with_high val latch = sign_extend_28 (as_u32 latch % 2 ^ 16 + val * 2 ^ 16)

pub write_bg_ref_low : ℕ → ℕ → ℕ → IoRegisters → IoRegisters
unfolding update_latch with_low
write_bg_ref_low bg coord val io = update_latch bg coord (with_low val) io

pub write_bg_ref_high : ℕ → ℕ → ℕ → IoRegisters → IoRegisters
unfolding update_latch with_high
write_bg_ref_high bg coord val io = update_latch bg coord (with_high val) io
