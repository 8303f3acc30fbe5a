-- ===== src/Ppu/Window/Region.antt =====
-- Every pixel of a line by the region it lies in.
use vibe_gba.Prelude.{
  ℕ, zero, suc, ◌+◌, ◌-◌, ◌/◌, ◌%◌, ◌^◌, ◌<◌, ◌≡◌, refl, ap, ◌∙◌, arith, Bool, true, false, not,
  ◌&&◌, ◌||◌, Option, none, some, List, ltb, if◌then◌else◌, get_or,
}
use vibe_gba.Prelude.Bits.{bit_set}
use vibe_gba.Bus.IoRegs.{IoRegisters}
use vibe_gba.Ppu.Window.{
  WindowFlags, from_bits, all_enabled, is_in_window_range, inside, pixel, pixels,
  compute_window_line,
}

-- A byte lies in the range from `start` to `end`, counted round 256, when it is nearer to `start`
-- than `end` is.
pub in_circle : ℕ → ℕ → ℕ → Bool
in_circle coord start end = ltb ((coord + 256 - start) % 256) ((end + 256 - start) % 256)

is_in_window_range-circle :
    (coord start end : ℕ)
    → coord < 256
    → start < 256
    → end < 256
    → is_in_window_range coord start end ≡ in_circle coord start end
unfolding is_in_window_range in_circle
is_in_window_range-circle coord start end h l k = ground arith

-- The rectangle of a window: its high bytes are where it starts, its low bytes where it ends.
pub in_rectangle : ℕ → ℕ → ℕ → ℕ → Bool
in_rectangle winv winh line x =
    in_circle line (winv / 2 ^ 8) (winv % 2 ^ 8) && in_circle x (winh / 2 ^ 8) (winh % 2 ^ 8)

-- The control bits of the first region that the pixel lies in.
pub control_bits : ℕ → IoRegisters → List Bool → ℕ → ℕ
unfolding in_rectangle
control_bits line io obj x =
    if bit_set io.dispcnt 13 && in_rectangle (get_or io.winv 0 0) (get_or io.winh 0 0) line x
    then io.winin % 2 ^ 6
    else if bit_set io.dispcnt 14 && in_rectangle (get_or io.winv 1 0) (get_or io.winh 1 0) line x
    then io.winin / 2 ^ 8 % 2 ^ 6
    else if bit_set io.dispcnt 15 && get_or obj x false
    then io.winout / 2 ^ 8 % 2 ^ 6
    else io.winout % 2 ^ 6

pub record AreWords (io : IoRegisters) : Type 0 where
  pub v0 : get_or io.winv 0 0 < 2 ^ 16
  pub v1 : get_or io.winv 1 0 < 2 ^ 16
  pub h0 : get_or io.winh 0 0 < 2 ^ 16
  pub h1 : get_or io.winh 1 0 < 2 ^ 16

inside-rectangle :
    (on : Bool) (winv winh line x : ℕ)
    → winv < 2 ^ 16
    → winh < 2 ^ 16
    → line < 256
    → x < 256
    → inside on winv winh line x ≡ (on && in_rectangle winv winh line x)
unfolding inside in_rectangle
inside-rectangle on winv winh line x v h l k =
    rw
      (
        is_in_window_range-circle line (winv / 2 ^ 8) (winv % 2 ^ 8) l (omega arith) (omega arith),
        is_in_window_range-circle x (winh / 2 ^ 8) (winh % 2 ^ 8) k (omega arith) (omega arith),
      )
      refl

pixel-control :
    (line : ℕ) (io : IoRegisters) (obj : List Bool) (x : ℕ)
    → AreWords io
    → line < 256
    → x < 256
    → pixel line io obj x ≡ from_bits (control_bits line io obj x)
unfolding pixel control_bits
pixel-control line io obj x w l k =
    rw
      (
        inside-rectangle (bit_set io.dispcnt 13) (get_or io.winv 0 0) (get_or io.winh 0 0) line x
            w.v0 w.h0 l k,
        inside-rectangle (bit_set io.dispcnt 14) (get_or io.winv 1 0) (get_or io.winh 1 0) line x
            w.v1 w.h1 l k,
      )
      (ground arith)

get_or-pixels :
    (n x i : ℕ) (f : ℕ → WindowFlags) (d : WindowFlags)
    → i < n
    → get_or (pixels n x f) i d ≡ f (x + i)
unfolding pixels
get_or-pixels zero x i f d h = absurd (omega arith)
get_or-pixels (suc n) x zero f d h = ap f (omega arith)
get_or-pixels (suc n) x (suc i) f d h =
    get_or-pixels n (suc x) i f d (omega arith) ∙ ap f (omega arith)

add_zero : (x : ℕ) → 0 + x ≡ x
add_zero x = omega arith

-- What a line is: absent when no window is on, and else the flags of each of the 240 pixels.
pub IsLine : ℕ → IoRegisters → List Bool → Option (List WindowFlags) → Type 0
IsLine line io obj none =
    (bit_set io.dispcnt 13 || bit_set io.dispcnt 14 || bit_set io.dispcnt 15) ≡ false
IsLine line io obj (some flags) =
    ((bit_set io.dispcnt 13 || bit_set io.dispcnt 14 || bit_set io.dispcnt 15) ≡ true)
    × ((x : ℕ) → x < 240 → get_or flags x all_enabled ≡ from_bits (control_bits line io obj x))

-- For 16-bit window registers and a line number of a byte, no line is computed exactly when no
-- window is on; else every pixel has the flags of the first region that it lies in, of the window
-- 0, the window 1, the object window and the outside, a window's range going round past 255 where
-- it ends before it starts.
pub compute_window_line-IsLine :
    (line : ℕ) (io : IoRegisters) (obj : List Bool)
    → AreWords io
    → line < 256
    → IsLine line io obj (compute_window_line line io obj)
unfolding compute_window_line IsLine
compute_window_line-IsLine line io obj w l =
    go (bit_set io.dispcnt 13) (bit_set io.dispcnt 14) (bit_set io.dispcnt 15) refl refl refl
  where
    shown :
        (x : ℕ)
        → x < 240
        → get_or (pixels 240 0 (pixel line io obj)) x all_enabled
          ≡ from_bits (control_bits line io obj x)
    shown x h =
        get_or-pixels 240 0 x (pixel line io obj) all_enabled h
        ∙ ap (pixel line io obj) (add_zero x)
        ∙ pixel-control line io obj x w l (omega arith)

    go :
        (a b c : Bool)
        → bit_set io.dispcnt 13 ≡ a
        → bit_set io.dispcnt 14 ≡ b
        → bit_set io.dispcnt 15 ≡ c
        → IsLine line io obj
            (if not a && not b && not c then none else some (pixels 240 0 (pixel line io obj)))
    go true b c p q r = (rw p refl, shown)
    go false true c p q r = (rw (p, q) refl, shown)
    go false false true p q r = (rw (p, q, r) refl, shown)
    go false false false p q r = rw (p, q, r) refl
