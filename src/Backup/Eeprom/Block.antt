-- ===== src/Backup/Eeprom/Block.antt =====
-- An 8-byte block in the cells: what `store_data` writes, `begin_read` loads.
use vibe_gba.Prelude.{
  ℕ, zero, suc, ◌+◌, ◌*◌, ◌/◌, ◌%◌, ◌^◌, ◌≤◌, ◌<◌, ◌≡◌, ◌⊎◌, inl, refl, ◌∙◌, arith, true, List,
  length, ltb, lt→ltb, get_or, set, length-set, get_or-set_self, get_or-set_ne,
}
use vibe_gba.Backup.Eeprom.{load_bytes, store_bytes}

pub length-store_bytes :
    (n v at : ℕ) (cells : List ℕ) → length (store_bytes n v at cells) ≡ length cells
unfolding store_bytes
length-store_bytes zero v at cells = refl
length-store_bytes (suc n) v at cells =
    length-store_bytes n v (at + 1) _
    ∙ ground (arith, length-set cells at (v / 2 ^ (8 * n) % 2 ^ 8))

-- A cell outside the block keeps its byte.
pub get_or-store_bytes_out :
    (n v at : ℕ) (cells : List ℕ) (j : ℕ)
    → (j < at) ⊎ (at + n ≤ j)
    → get_or (store_bytes n v at cells) j 0xff ≡ get_or cells j 0xff
unfolding store_bytes
get_or-store_bytes_out zero v at cells j h = refl
get_or-store_bytes_out (suc n) v at cells j h =
    get_or-store_bytes_out n v (at + 1) _ j (omega arith)
    ∙ ground (arith, get_or-set_ne cells at j (v / 2 ^ (8 * n) % 2 ^ 8) 0xff)

-- The bytes of `v` from byte `n - 1` down, shifted into `val`.
abbrev combine : ℕ → ℕ → ℕ → ℕ
combine zero v val = val
combine (suc n) v val = combine n v (val * 2 ^ 8 % 2 ^ 64 + v / 2 ^ (8 * n) % 2 ^ 8)

load-store :
    (n v at : ℕ) (cells : List ℕ) (val : ℕ)
    → at + n ≤ length cells
    → load_bytes n at (store_bytes n v at cells) val ≡ combine n v val
unfolding load_bytes store_bytes
load-store zero v at cells val fits = refl
load-store (suc n) v at cells val fits =
    let byte = v / 2 ^ (8 * n) % 2 ^ 8 in
    let inside = lt→ltb at (length cells) (omega arith) in
    let cells' = set cells at byte in
    let here : get_or (store_bytes n v (at + 1) cells') at 0xff ≡ byte =
      get_or-store_bytes_out n v (at + 1) cells' at (inl (omega arith))
      ∙ get_or-set_self cells at byte 0xff (omega arith) in
    let still : ltb at (length (store_bytes n v (at + 1) cells')) ≡ true =
      lt→ltb at _
        (omega (arith, length-store_bytes n v (at + 1) cells', length-set cells at byte)) in
    rw (inside, still, here)
      (load-store n v (at + 1) cells' (val * 2 ^ 8 % 2 ^ 64 + byte)
        (omega (arith, length-set cells at byte)))

combine_all : (v : ℕ) → v < 2 ^ 64 → combine 8 v 0 ≡ v
combine_all v h = omega arith

-- Where the block lies inside the cells, the loaded word is the stored one.
pub load_bytes-store_bytes :
    (v at : ℕ) (cells : List ℕ)
    → v < 2 ^ 64
    → at + 8 ≤ length cells
    → load_bytes 8 at (store_bytes 8 v at cells) 0 ≡ v
load_bytes-store_bytes v at cells small fits = load-store 8 v at cells 0 fits ∙ combine_all v small
