-- ===== src/Ppu/Window.antt =====
-- gba-core/src/ppu/window.rs: which layers each pixel of a line shows.
pub mod Region
mod Examples
use vibe_gba.Prelude.{
  ℕ, zero, suc, ◌+◌, ◌/◌, ◌%◌, ◌^◌, Bool, true, false, not, ◌&&◌, ◌||◌, Option, none, some, List,
  [], ◌∷◌, ltb, leb, ◌==◌, if◌then◌else◌, get_or, replicate,
}
use vibe_gba.Prelude.Bits.{bit_set}
use vibe_gba.Bus.IoRegs.{IoRegisters}

pub record WindowFlags : Type 0 where
  pub bg_enable : List Bool
  pub obj_enable : Bool
  pub effects_enable : Bool

pub from_bits : ℕ → WindowFlags
from_bits bits = record {
  bg_enable = bit_set bits 0 ∷ bit_set bits 1 ∷ bit_set bits 2 ∷ bit_set bits 3 ∷ [];
  obj_enable = bit_set bits 4;
  effects_enable = bit_set bits 5;
}

pub all_enabled : WindowFlags
all_enabled = record { bg_enable = replicate 4 true; obj_enable = true; effects_enable = true }

pub is_in_window_range : ℕ → ℕ → ℕ → Bool
is_in_window_range coord start end =
    if leb start end then leb start coord && ltb coord end else leb start coord || ltb coord end

-- What the line has of one window: on, and from x1 to x2 where the line is inside of it.
pub inside : Bool → ℕ → ℕ → ℕ → ℕ → Bool
unfolding is_in_window_range
inside on winv winh line x =
    on
    && (is_in_window_range line (winv / 2 ^ 8) (winv % 2 ^ 8)
        && is_in_window_range x (winh / 2 ^ 8) (winh % 2 ^ 8))

-- The body of the loop over the pixels.
pub pixel : ℕ → IoRegisters → List Bool → ℕ → WindowFlags
unfolding from_bits inside
pixel line io obj_window_line x =
    if inside (bit_set io.dispcnt 13) (get_or io.winv 0 0) (get_or io.winh 0 0) line x
    then from_bits (io.winin % 2 ^ 6)
    else if inside (bit_set io.dispcnt 14) (get_or io.winv 1 0) (get_or io.winh 1 0) line x
    then from_bits (io.winin / 2 ^ 8 % 2 ^ 6)
    else if bit_set io.dispcnt 15 && get_or obj_window_line x false
    then from_bits (io.winout / 2 ^ 8 % 2 ^ 6)
    else from_bits (io.winout % 2 ^ 6)

pub pixels : ℕ → ℕ → (ℕ → WindowFlags) → List WindowFlags
pixels zero x f = []
pixels (suc n) x f = f x ∷ pixels n (suc x) f

pub compute_window_line : ℕ → IoRegisters → List Bool → Option (List WindowFlags)
unfolding pixel pixels
compute_window_line line io obj_window_line =
    if not (bit_set io.dispcnt 13) && not (bit_set io.dispcnt 14) && not (bit_set io.dispcnt 15)
    then none
    else some (pixels 240 0 (pixel line io obj_window_line))
