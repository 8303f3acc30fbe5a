-- ===== src/Backup/Eeprom/Width.antt =====
-- The width of an address, told by the length of the DMA that carries a command.
use vibe_gba.Prelude.{
  ℕ, ◌+◌, ◌≡◌, ◌≢◌, ◌⊎◌, inl, inr, refl, arith, Bool, List, [], ◌∷◌, ◌++◌, length, length-append,
}
use vibe_gba.Backup.Eeprom.{
  Eeprom, SizeKind, unknown, small, large, set_addr_width_from_dma, choose_width,
  effective_addr_width, width_of,
}
use vibe_gba.Backup.Eeprom.Send.{HasWidth}
use vibe_gba.Backup.Eeprom.Exchange.{write_command, read_command}

length-write_command :
    (addr block : List Bool) (stop : Bool)
    → length (write_command addr block stop) ≡ 3 + length addr + length block
length-write_command addr block stop =
    omega (arith, length-append addr (block ++ (stop ∷ [])), length-append block (stop ∷ []))

length-read_command :
    (addr : List Bool) (dummy : Bool) → length (read_command addr dummy) ≡ 3 + length addr
length-read_command addr dummy = omega (arith, length-append addr (dummy ∷ []))

choose_width-small :
    (count : ℕ) (e : Eeprom)
    → e.size ≡ unknown
    → (count ≡ 9) ⊎ (count ≡ 73)
    → HasWidth 6 (set_addr_width_from_dma count e)
unfolding set_addr_width_from_dma choose_width effective_addr_width width_of
choose_width-small count e u (inl h) = rw (u, h) (record { known = λ q. cc; width = refl })
choose_width-small count e u (inr h) = rw (u, h) (record { known = λ q. cc; width = refl })

choose_width-large :
    (count : ℕ) (e : Eeprom)
    → e.size ≡ unknown
    → (count ≡ 17) ⊎ (count ≡ 81)
    → HasWidth 14 (set_addr_width_from_dma count e)
unfolding set_addr_width_from_dma choose_width effective_addr_width width_of
choose_width-large count e u (inl h) = rw (u, h) (record { known = λ q. cc; width = refl })
choose_width-large count e u (inr h) = rw (u, h) (record { known = λ q. cc; width = refl })

choose_width-known :
    (s : SizeKind) (count : ℕ) (e : Eeprom) → s ≢ unknown → choose_width s count e ≡ e
unfolding choose_width
choose_width-known unknown count e k = absurd (k refl)
choose_width-known small count e k = refl
choose_width-known large count e k = refl

choose_width-read_back : (s : SizeKind) (e : Eeprom) → choose_width s 68 e ≡ e
unfolding choose_width
choose_width-read_back unknown e = refl
choose_width-read_back small e = refl
choose_width-read_back large e = refl

-- For a chip of unknown size, the length of the DMA that carries a read or a write command with
-- a 6-bit or a 14-bit address fixes exactly that width; a chip that knows its size ignores it, and
-- so does any chip the 68-unit read-back.
pub set_addr_width_from_dma_lem :
    (addr block : List Bool) (b : Bool) (e : Eeprom)
    → (length addr ≡ 6) ⊎ (length addr ≡ 14)
    → length block ≡ 64
    → (e.size ≡ unknown
        → HasWidth (length addr) (set_addr_width_from_dma (length (write_command addr block b)) e)
          × HasWidth (length addr) (set_addr_width_from_dma (length (read_command addr b)) e))
      × ((count : ℕ) → e.size ≢ unknown → set_addr_width_from_dma count e ≡ e)
      × (set_addr_width_from_dma 68 e ≡ e)
unfolding set_addr_width_from_dma
set_addr_width_from_dma_lem addr block b e w n = (
  λ u. elim w [
    | inl six ↦ rw six (
      choose_width-small _ e u (inr (omega (arith, length-write_command addr block b))),
      choose_width-small _ e u (inl (omega (arith, length-read_command addr b))),
    )
    | inr more ↦ rw more (
      choose_width-large _ e u (inr (omega (arith, length-write_command addr block b))),
      choose_width-large _ e u (inl (omega (arith, length-read_command addr b))),
    )
  ],
  λ count k. choose_width-known e.size count e k,
  choose_width-read_back e.size e,
)
