-- ===== src/Backup/Flash/ChipId.antt =====
-- The choice of the identification that the chip reports.
use vibe_gba.Prelude.{ℕ, ◌≡◌, ◌⊎◌, refl, Option, none, some, List, [], ◌∷◌}
use vibe_gba.Backup.Flash.{ChipId, candidates, scan, first_found, pick_chip_id}

-- The identification stands in the ROM at an even offset, with a byte behind it.
pub data Occurs (lo hi : ℕ) : List ℕ → Type 0 where
  here : {a b c : ℕ} {rom : List ℕ} → a ≡ lo → b ≡ hi → Occurs lo hi (a ∷ b ∷ c ∷ rom)
  later : {a b c : ℕ} {rom : List ℕ} → Occurs lo hi (c ∷ rom) → Occurs lo hi (a ∷ b ∷ c ∷ rom)

-- `id` is the first of `ids` that occurs in the ROM, and `otherwise` if none does.
abbrev pub IsChoice : ChipId → List ChipId → List ℕ → ChipId → Type 0
IsChoice otherwise [] rom id = id ≡ otherwise
IsChoice otherwise ((mfr, dev) ∷ ids) rom id =
    (Occurs mfr dev rom × (id ≡ (mfr, dev)))
    ⊎ ((¬ Occurs mfr dev rom) × IsChoice otherwise ids rom id)

abbrev or_else : Option ChipId → ChipId → ChipId
or_else (some id) otherwise = id
or_else none otherwise = otherwise

first_found_short : (ids : List ChipId) (a b : ℕ) → first_found ids (a ∷ b ∷ []) ≡ none
unfolding first_found scan
first_found_short [] a b = refl
first_found_short ((mfr, dev) ∷ ids) a b = first_found_short ids a b

-- The last halfword of a ROM is never looked at: a ROM of one halfword, whatever identification it
-- is, gets the default.
pub pick_chip_id_last :
    (size mfr dev : ℕ) → pick_chip_id size (some (mfr ∷ dev ∷ [])) ≡ pick_chip_id size none
unfolding pick_chip_id
pick_chip_id_last size mfr dev = rw (first_found_short (candidates size) mfr dev, pick_chip_id)
