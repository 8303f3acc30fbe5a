-- ===== src/Backup/Flash/Busy.antt =====
-- The window after a write in which the chip counts as busy.
use vibe_gba.Prelude.{ℕ, ◌+◌, ◌-◌, ◌≡◌, refl, arith, ltb, not, ◌||◌, List, [], ◌∷◌}
use vibe_gba.Backup.Flash.{
  Flash, FlashState, ready, is_ready, busy_window, write, tick, is_busy, dispatch, command,
  erase_sector, program_cell, offset_of,
}

pub ticks : List ℕ → Flash → Flash
ticks [] f = f
ticks (n ∷ ns) f = ticks ns (tick n f)

pub total : List ℕ → ℕ
total [] = 0
total (n ∷ ns) = n + total ns

ticks-frame :
    (ns : List ℕ) (f : Flash)
    → ((ticks ns f).state ≡ f.state) × ((ticks ns f).busy_cycles ≡ f.busy_cycles - total ns)
unfolding ticks total tick
ticks-frame [] f = (refl, omega arith)
ticks-frame (n ∷ ns) f = let rest = ticks-frame ns (tick n f) in (rest.0, omega (arith, rest.1))

busy-dispatch :
    (s : FlashState) (offset val : ℕ) (f : Flash)
    → (dispatch s offset val f).busy_cycles ≡ f.busy_cycles
unfolding dispatch command erase_sector program_cell
busy-dispatch ready offset val f = ground arith
busy-dispatch _ offset val f = ground arith

-- After any write the chip is busy until 200000 cycles have passed, in whatever portions they are
-- counted, and after that exactly when a command sequence is open.
pub is_busy-write :
    (addr val : ℕ) (ns : List ℕ) (f : Flash)
    → is_busy (ticks ns (write addr val f))
      ≡ (not (is_ready (write addr val f).state) || ltb (total ns) 200000)
unfolding is_busy write
is_busy-write addr val ns f =
    let g = dispatch f.state (offset_of addr) val (record f { busy_cycles = busy_window }) in
    ground (
      arith,
      ticks-frame ns g,
      busy-dispatch f.state (offset_of addr) val (record f { busy_cycles = busy_window }),
    )
