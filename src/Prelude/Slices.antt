-- ===== src/Prelude/Slices.antt =====
-- Slices of fixed arrays, and the reads of an array after a write in one law each.
use Prim.Native.Nat.{ℕ, zero, suc, ◌+◌, ◌-◌, ◌≤◌, ◌<◌}
use mathlib.Core.Path.{◌≡◌, refl, ap, ◌∙◌}
use mathlib.Core.Bool.{◌&&◌}
use mathlib.Core.List.{List, [], ◌∷◌}
use native.Mathlib.Omega.{arith}
use vibe_gba.Prelude.Bools.{ltb, leb, ◌==◌, if◌then◌else◌}
use vibe_gba.Prelude.Arrays.{length, get_or, set}

module _ {ℓ} {A : Type ℓ} where
  -- `xs[lo..lo + n]`.
  abbrev pub slice : ℕ → ℕ → List A → List A
  slice lo zero xs = []
  slice lo (suc n) [] = []
  slice zero (suc n) (x ∷ xs) = x ∷ slice zero n xs
  slice (suc lo) (suc n) (x ∷ xs) = slice lo (suc n) xs

  -- `xs[lo..].copy_from_slice(ys)`; what does not fit is dropped.
  abbrev pub copy_into : ℕ → List A → List A → List A
  copy_into lo ys [] = []
  copy_into zero [] (x ∷ xs) = x ∷ xs
  copy_into zero (y ∷ ys) (x ∷ xs) = y ∷ copy_into zero ys xs
  copy_into (suc lo) ys (x ∷ xs) = x ∷ copy_into lo ys xs

succ_add : (a b : ℕ) → suc (a + b) ≡ suc a + b
succ_add a b = omega arith

add_succ : (a b : ℕ) → suc (a + b) ≡ a + suc b
add_succ a b = omega arith

module _ {ℓ} {A : Type ℓ} where
  pub get_or-set :
      (xs : List A) (i j : ℕ) (v d : A)
      → get_or (set xs i v) j d ≡ (if i == j && ltb i (length xs) then v else get_or xs j d)
  get_or-set [] i j v d = ground arith
  get_or-set (x ∷ xs) zero zero v d = ground arith
  get_or-set (x ∷ xs) zero (suc j) v d = ground arith
  get_or-set (x ∷ xs) (suc i) zero v d = ground arith
  get_or-set (x ∷ xs) (suc i) (suc j) v d = get_or-set xs i j v d ∙ ground arith

  pub get_or-slice :
      (lo n : ℕ) (xs : List A) (j : ℕ) (d : A)
      → j < n
      → lo + n ≤ length xs
      → get_or (slice lo n xs) j d ≡ get_or xs (lo + j) d
  get_or-slice lo zero xs j d h l = absurd (omega arith)
  get_or-slice lo (suc n) [] j d h l = absurd (omega arith)
  get_or-slice zero (suc n) (x ∷ xs) zero d h l = refl
  get_or-slice zero (suc n) (x ∷ xs) (suc j) d h l =
      get_or-slice zero n xs j d (omega arith) (omega arith)
      ∙ ap (λ (t : ℕ). get_or (x ∷ xs) t d) (add_succ 0 j)
  get_or-slice (suc lo) (suc n) (x ∷ xs) j d h l =
      get_or-slice lo (suc n) xs j d h (omega arith)
      ∙ ap (λ (t : ℕ). get_or (x ∷ xs) t d) (succ_add lo j)

  pub length-slice : (lo n : ℕ) (xs : List A) → lo + n ≤ length xs → length (slice lo n xs) ≡ n
  length-slice lo zero xs l = refl
  length-slice lo (suc n) [] l = absurd (omega arith)
  length-slice zero (suc n) (x ∷ xs) l = ap suc (length-slice zero n xs (omega arith))
  length-slice (suc lo) (suc n) (x ∷ xs) l = length-slice lo (suc n) xs (omega arith)

  pub get_or-copy_into :
      (lo : ℕ) (ys xs : List A) (j : ℕ) (d : A)
      → get_or (copy_into lo ys xs) j d ≡ (
          if leb lo j && ltb j (lo + length ys) && ltb j (length xs)
          then get_or ys (j - lo) d
          else get_or xs j d)
  get_or-copy_into lo ys [] j d = ground arith
  get_or-copy_into zero [] (x ∷ xs) j d = ground arith
  get_or-copy_into zero (y ∷ ys) (x ∷ xs) zero d = ground arith
  get_or-copy_into zero (y ∷ ys) (x ∷ xs) (suc j) d = get_or-copy_into zero ys xs j d ∙ ground arith
  get_or-copy_into (suc lo) ys (x ∷ xs) zero d = ground arith
  get_or-copy_into (suc lo) ys (x ∷ xs) (suc j) d = get_or-copy_into lo ys xs j d ∙ ground arith

  pub length-copy_into : (lo : ℕ) (ys xs : List A) → length (copy_into lo ys xs) ≡ length xs
  length-copy_into lo ys [] = refl
  length-copy_into zero [] (x ∷ xs) = refl
  length-copy_into zero (y ∷ ys) (x ∷ xs) = ap suc (length-copy_into zero ys xs)
  length-copy_into (suc lo) ys (x ∷ xs) = ap suc (length-copy_into lo ys xs)
