-- ===== src/Backup/Flash/Safety.antt =====
-- What any sequence of writes can do: the cells change only behind a complete handshake.
use vibe_gba.Prelude.{ℕ, ◌≡◌, ◌⊎◌, inl, inr, refl, arith}
use vibe_gba.Prelude.{List, [], ◌∷◌}
use vibe_gba.Backup.Flash.{
  Flash, FlashState, ready, cmd1, cmd2, chip_id, prepare_erase, erase1, erase2, write_byte,
  bank_switch, offset_of, busy_window, write, dispatch, command, erase_sector, program_cell,
}

-- A store by the CPU, or any stretch of time, to the chip. The newest comes first.
pub data Store : Type 0 where
  at : ℕ → ℕ → Store

pub after : List Store → Flash → Flash
after [] f = f
after (at addr val ∷ past) f = write addr val (after past f)

-- The newest stores are the given ones, newest first: an offset and a value each.
abbrev pub Ends : List (ℕ × ℕ) → List Store → Type 0
Ends [] past = Unit {0}
Ends ((offset, val) ∷ want) [] = ⊥
Ends ((offset, val) ∷ want) (at addr byte ∷ past) =
    (offset_of addr ≡ offset) × (byte ≡ val) × Ends want past

abbrev unlocked : ℕ → List (ℕ × ℕ)
unlocked cmd = (0x5555, cmd) ∷ (0x2aaa, 0x55) ∷ (0x5555, 0xaa) ∷ []

abbrev unlocked_erase : List (ℕ × ℕ)
unlocked_erase = (0x2aaa, 0x55) ∷ (0x5555, 0xaa) ∷ unlocked 0x80

-- What each state says of the stores that led to it.
abbrev Knows : FlashState → List Store → Type 0
Knows cmd1 past = Ends ((0x5555, 0xaa) ∷ []) past
Knows cmd2 past = Ends ((0x2aaa, 0x55) ∷ (0x5555, 0xaa) ∷ []) past
Knows prepare_erase past = Ends (unlocked 0x80) past
Knows erase1 past = Ends ((0x5555, 0xaa) ∷ unlocked 0x80) past
Knows erase2 past = Ends unlocked_erase past
Knows write_byte past = Ends (unlocked 0xa0) past
Knows bank_switch past = Ends (unlocked 0xb0) past
Knows _ past = Unit {0}

dispatch-Knows :
    (s : FlashState) (addr val : ℕ) (past : List Store) (f : Flash)
    → f.state ≡ s
    → Knows s past
    → Knows (dispatch s (offset_of addr) val f).state (at addr val ∷ past)
unfolding dispatch command erase_sector program_cell
dispatch-Knows ready addr val past f e h = ground arith
dispatch-Knows chip_id addr val past f e h = ground arith
dispatch-Knows _ addr val past f e h = ground arith

after-Knows : (past : List Store) (f : Flash) → f.state ≡ ready → Knows (after past f).state past
unfolding after write
after-Knows [] f idle = rw idle tt
after-Knows (at addr val ∷ past) f idle =
    dispatch-Knows (after past f).state addr val past
      (record (after past f) { busy_cycles = busy_window }) refl (after-Knows past f idle)

dispatch-cells :
    (s : FlashState) (offset val : ℕ) (past : List Store) (f : Flash)
    → Knows s past
    → ((dispatch s offset val f).cells ≡ f.cells)
      ⊎ Ends (unlocked 0xa0) past
      ⊎ Ends unlocked_erase past
unfolding dispatch
dispatch-cells write_byte offset val past f h = inr (inl h)
dispatch-cells erase2 offset val past f h = inr (inr h)
dispatch-cells ready offset val past f h = inl (ground arith)
dispatch-cells _ offset val past f h = inl (ground arith)

-- From an idle chip, whatever was stored: the next store leaves every cell alone, unless the
-- newest stores before it are the complete byte-program handshake (0xAA, 0x55, 0xA0) or the
-- complete erase handshake (0xAA, 0x55, 0x80, 0xAA, 0x55), each at its address.
pub cells_need_handshake :
    (past : List Store) (addr val : ℕ) (f : Flash)
    → f.state ≡ ready
    → ((after (at addr val ∷ past) f).cells ≡ (after past f).cells)
      ⊎ Ends ((0x5555, 0xa0) ∷ (0x2aaa, 0x55) ∷ (0x5555, 0xaa) ∷ []) past
      ⊎ Ends
          ((0x2aaa, 0x55) ∷ (0x5555, 0xaa) ∷ (0x5555, 0x80) ∷ (0x2aaa, 0x55) ∷ (0x5555, 0xaa) ∷ [])
          past
unfolding after write
cells_need_handshake past addr val f idle =
    dispatch-cells (after past f).state (offset_of addr) val past
      (record (after past f) { busy_cycles = busy_window }) (after-Knows past f idle)
