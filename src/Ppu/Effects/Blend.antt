-- ===== src/Ppu/Effects/Blend.antt =====
-- The laws of the blends, component by component.
use vibe_gba.Prelude.{ℕ, ◌+◌, ◌-◌, ◌*◌, ◌^◌, ◌≤◌, ◌<◌, min, ◌≡◌, refl, sym, ap, arith}
use native.Mathlib.Nat.{mul-le-mul_left, mul-add}
use vibe_gba.Ppu.Effects.{
  red, green, blue, pack, alpha_component, alpha_blend, brighter, brightness_increase, darker,
  brightness_decrease,
}

-- A colour between two others in every component.
pub record IsBetween (low high color : ℕ) : Type 0 where
  pub red_low : red low ≤ red color
  pub red_high : red color ≤ red high
  pub green_low : green low ≤ green color
  pub green_high : green color ≤ green high
  pub blue_low : blue low ≤ blue color
  pub blue_high : blue color ≤ blue high
  pub fits : color < 2 ^ 15

brighter-between : (c e : ℕ) → c < 32 → e ≤ 16 → (c ≤ brighter c e) × (brighter c e ≤ 31)
unfolding brighter
brighter-between c e h l =
    (omega (arith, mul-le-mul_left (31 - c) l), omega (arith, mul-le-mul_left (31 - c) l))

darker-between : (c e : ℕ) → c < 32 → e ≤ 16 → (darker c e ≤ c) × (darker c e ≤ 31)
unfolding darker
darker-between c e h l = (omega arith, omega arith)

brighter-ends : (c : ℕ) → c < 32 → (brighter c 0 ≡ c) × (brighter c 16 ≡ 31)
unfolding brighter
brighter-ends c h = (omega arith, omega arith)

darker-ends : (c : ℕ) → c < 32 → (darker c 0 ≡ c) × (darker c 16 ≡ 0)
unfolding darker
darker-ends c h = (omega arith, omega arith)

packed :
    (r g b : ℕ)
    → r < 32
    → g < 32
    → b < 32
    → (red (pack r g b) ≡ r)
      × (green (pack r g b) ≡ g)
      × (blue (pack r g b) ≡ b)
      × (pack r g b < 2 ^ 15)
packed r g b h l k = (omega arith, omega arith, omega arith, omega arith)

pack-components : (color : ℕ) → color < 2 ^ 15 → pack (red color) (green color) (blue color) ≡ color
pack-components color h = omega arith

full : (e : ℕ) → 16 ≤ e → min e 16 ≡ 16
full e h = omega arith

-- Brightening keeps every component between the colour's own and the 31 of white: it leaves a
-- colour alone at 0 and makes it white from 16 on.
pub brightness_increase-IsBetween :
    (color evy : ℕ)
    → color < 2 ^ 15
    → IsBetween color 0x7fff (brightness_increase color evy)
      × (brightness_increase color 0 ≡ color)
      × (16 ≤ evy → brightness_increase color evy ≡ 0x7fff)
unfolding brightness_increase
brightness_increase-IsBetween color evy h =
    let r = brighter-between (red color) (min evy 16) (omega arith) (omega arith) in
    let g = brighter-between (green color) (min evy 16) (omega arith) (omega arith) in
    let b = brighter-between (blue color) (min evy 16) (omega arith) (omega arith) in
    let p =
      packed (brighter (red color) (min evy 16)) (brighter (green color) (min evy 16))
        (brighter (blue color) (min evy 16)) (omega (arith, r.1)) (omega (arith, g.1))
        (omega (arith, b.1)) in
    let er = brighter-ends (red color) (omega arith) in
    let eg = brighter-ends (green color) (omega arith) in
    let eb = brighter-ends (blue color) (omega arith) in
    (
      record {
        red_low = rw p.0 r.0;
        red_high = rw p.0 r.1;
        green_low = rw p.1 g.0;
        green_high = rw p.1 g.1;
        blue_low = rw p.2 b.0;
        blue_high = rw p.2 b.1;
        fits = p.3;
      },
      rw (er.0, eg.0, eb.0) (pack-components color h),
      λ m. rw (full evy m, er.1, eg.1, eb.1) refl,
    )

-- Darkening keeps every component between 0 and the colour's own: it leaves a colour alone at 0 and
-- makes it black from 16 on.
pub brightness_decrease-IsBetween :
    (color evy : ℕ)
    → color < 2 ^ 15
    → IsBetween 0 color (brightness_decrease color evy)
      × (brightness_decrease color 0 ≡ color)
      × (16 ≤ evy → brightness_decrease color evy ≡ 0)
unfolding brightness_decrease
brightness_decrease-IsBetween color evy h =
    let r = darker-between (red color) (min evy 16) (omega arith) (omega arith) in
    let g = darker-between (green color) (min evy 16) (omega arith) (omega arith) in
    let b = darker-between (blue color) (min evy 16) (omega arith) (omega arith) in
    let p =
      packed (darker (red color) (min evy 16)) (darker (green color) (min evy 16))
        (darker (blue color) (min evy 16)) (omega (arith, r.1)) (omega (arith, g.1))
        (omega (arith, b.1)) in
    let er = darker-ends (red color) (omega arith) in
    let eg = darker-ends (green color) (omega arith) in
    let eb = darker-ends (blue color) (omega arith) in
    (
      record {
        red_low = omega arith;
        red_high = rw p.0 r.0;
        green_low = omega arith;
        green_high = rw p.1 g.0;
        blue_low = omega arith;
        blue_high = rw p.2 b.0;
        fits = p.3;
      },
      rw (er.0, eg.0, eb.0) (pack-components color h),
      λ m. rw (full evy m, er.1, eg.1, eb.1) refl,
    )

component-swap : (c d e f : ℕ) → alpha_component c d e f ≡ alpha_component d c f e
unfolding alpha_component
component-swap c d e f = omega arith

component-full : (c d : ℕ) → c < 32 → alpha_component c d 16 0 ≡ c
unfolding alpha_component
component-full c d h = omega arith

component-even : (c e f : ℕ) → c < 32 → e + f ≡ 16 → alpha_component c c e f ≡ c
unfolding alpha_component
component-even c e f h s = omega (arith, sym (mul-add c e f), ap (λ (t : ℕ). c * t) s)

-- Blending is symmetric in the two colours with their coefficients, returns the first colour when
-- it has all the weight, and leaves a colour alone that is blended with itself by coefficients that
-- add up to 16.
pub alpha_blend-laws :
    (c d e f : ℕ)
    → c < 2 ^ 15
    → (alpha_blend c d e f ≡ alpha_blend d c f e)
      × (alpha_blend c d 16 0 ≡ c)
      × (e + f ≡ 16 → alpha_blend c c e f ≡ c)
unfolding alpha_blend
alpha_blend-laws c d e f h = (
  rw
      (
        component-swap (red c) (red d) (min e 16) (min f 16),
        component-swap (green c) (green d) (min e 16) (min f 16),
        component-swap (blue c) (blue d) (min e 16) (min f 16),
      )
      refl,
  rw
      (
        component-full (red c) (red d) (omega arith),
        component-full (green c) (green d) (omega arith),
        component-full (blue c) (blue d) (omega arith),
      )
      (pack-components c h),
  λ s.
      rw
        (
          component-even (red c) (min e 16) (min f 16) (omega arith) (omega arith),
          component-even (green c) (min e 16) (min f 16) (omega arith) (omega arith),
          component-even (blue c) (min e 16) (min f 16) (omega arith) (omega arith),
        )
        (pack-components c h),
)
