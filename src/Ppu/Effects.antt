-- ===== src/Ppu/Effects.antt =====
-- gba-core/src/ppu/effects.rs: the colour effects on 15-bit colours.
pub mod Blend
use vibe_gba.Prelude.{ℕ, ◌+◌, ◌-◌, ◌*◌, ◌/◌, ◌%◌, ◌^◌, min, Bool, false, ltb, ◌==◌, if◌then◌else◌}
use vibe_gba.Prelude.Bits.{bit_set}

pub data BlendMode : Type 0 where
  no_effect alpha brightness_up brightness_down : BlendMode

pub from_bldcnt : ℕ → BlendMode
from_bldcnt bldcnt =
    let m = bldcnt / 2 ^ 6 % 4 in
    if m == 0
    then no_effect
    else if m == 1
    then alpha
    else if m == 2
    then brightness_up
    else brightness_down

pub is_first_target : ℕ → ℕ → Bool
is_first_target bldcnt layer = if ltb 5 layer then false else bit_set bldcnt layer

pub is_second_target : ℕ → ℕ → Bool
is_second_target bldcnt layer = if ltb 5 layer then false else bit_set bldcnt (8 + layer)

-- `(color >> 5 * i) & 0x1F`, red, green and blue.
abbrev pub red : ℕ → ℕ
red color = color % 2 ^ 5

abbrev pub green : ℕ → ℕ
green color = color / 2 ^ 5 % 2 ^ 5

abbrev pub blue : ℕ → ℕ
blue color = color / 2 ^ 10 % 2 ^ 5

-- `r | (g << 5) | (b << 10)`, of components below 32, whose bits do not meet.
abbrev pub pack : ℕ → ℕ → ℕ → ℕ
pack r g b = r + g * 2 ^ 5 + b * 2 ^ 10

pub alpha_component : ℕ → ℕ → ℕ → ℕ → ℕ
alpha_component c1 c2 eva evb = min ((c1 * eva + c2 * evb) / 16) 31

pub alpha_blend : ℕ → ℕ → ℕ → ℕ → ℕ
unfolding alpha_component
alpha_blend color1 color2 eva_raw evb_raw =
    let eva = min eva_raw 16 in
    let evb = min evb_raw 16 in
    pack (alpha_component (red color1) (red color2) eva evb)
      (alpha_component (green color1) (green color2) eva evb)
      (alpha_component (blue color1) (blue color2) eva evb)

pub brighter : ℕ → ℕ → ℕ
brighter c evy = c + (31 - c) * evy / 16

pub brightness_increase : ℕ → ℕ → ℕ
unfolding brighter
brightness_increase color evy_raw =
    let evy = min evy_raw 16 in
    pack (brighter (red color) evy) (brighter (green color) evy) (brighter (blue color) evy)

pub darker : ℕ → ℕ → ℕ
darker c evy = c - c * evy / 16

pub brightness_decrease : ℕ → ℕ → ℕ
unfolding darker
brightness_decrease color evy_raw =
    let evy = min evy_raw 16 in
    pack (darker (red color) evy) (darker (green color) evy) (darker (blue color) evy)
