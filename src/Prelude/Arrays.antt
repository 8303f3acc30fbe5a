-- ===== src/Prelude/Arrays.antt =====
-- Fixed arrays and vectors as lists, measured and indexed by native numbers.
use Prim.Native.Nat.{ℕ, zero, suc, ◌+◌, ◌≤◌, ◌<◌}
use mathlib.Core.Path.{◌≡◌, refl, ap}
use mathlib.Core.Logic.{◌≢◌, ◌⊎◌, inr}
use mathlib.Core.List.{List, [], ◌∷◌, ◌++◌}
use native.Mathlib.Omega.{arith}

module _ {ℓ} {A : Type ℓ} where
  abbrev pub length : List A → ℕ
  length [] = 0
  length (x ∷ xs) = suc (length xs)

  -- The element at an index, and `d` past the end.
  abbrev pub get_or : List A → ℕ → A → A
  get_or [] i d = d
  get_or (x ∷ xs) zero d = x
  get_or (x ∷ xs) (suc i) d = get_or xs i d

  -- A write out of bounds changes nothing.
  abbrev pub set : List A → ℕ → A → List A
  set [] i v = []
  set (x ∷ xs) zero v = v ∷ xs
  set (x ∷ xs) (suc i) v = x ∷ set xs i v

  abbrev pub replicate : ℕ → A → List A
  replicate zero a = []
  replicate (suc n) a = a ∷ replicate n a

  pub length-append : (xs ys : List A) → length (xs ++ ys) ≡ length xs + length ys
  length-append [] ys = omega arith
  length-append (x ∷ xs) ys = omega (arith, length-append xs ys)

module _ {ℓ} {A : Type ℓ} where
  pub length-set : (xs : List A) (i : ℕ) (v : A) → length (set xs i v) ≡ length xs
  length-set [] i v = refl
  length-set (x ∷ xs) zero v = refl
  length-set (x ∷ xs) (suc i) v = ap suc (length-set xs i v)

  pub get_or-set_self :
      (xs : List A) (i : ℕ) (v d : A) → i < length xs → get_or (set xs i v) i d ≡ v
  get_or-set_self [] i v d h = elim h [ ]
  get_or-set_self (x ∷ xs) zero v d h = refl
  get_or-set_self (x ∷ xs) (suc i) v d h = get_or-set_self xs i v d (omega arith)

  pub get_or-set_ne :
      (xs : List A) (i j : ℕ) (v d : A) → i ≢ j → get_or (set xs i v) j d ≡ get_or xs j d
  get_or-set_ne [] i j v d h = refl
  get_or-set_ne (x ∷ xs) zero zero v d h = absurd (h refl)
  get_or-set_ne (x ∷ xs) zero (suc j) v d h = refl
  get_or-set_ne (x ∷ xs) (suc i) zero v d h = refl
  get_or-set_ne (x ∷ xs) (suc i) (suc j) v d h = get_or-set_ne xs i j v d (λ e. h (ap suc e))

  pub length-replicate : (n : ℕ) (a : A) → length (replicate n a) ≡ n
  length-replicate zero a = refl
  length-replicate (suc n) a = ap suc (length-replicate n a)

  pub get_or-replicate : (n i : ℕ) (a : A) → get_or (replicate n a) i a ≡ a
  get_or-replicate zero i a = refl
  get_or-replicate (suc n) zero a = refl
  get_or-replicate (suc n) (suc i) a = get_or-replicate n i a

  -- `xs[lo..hi].fill(v)`, for a range that may reach past the end.
  abbrev pub fill_range : List A → ℕ → ℕ → A → List A
  fill_range [] lo hi v = []
  fill_range (x ∷ xs) lo zero v = x ∷ xs
  fill_range (x ∷ xs) zero (suc hi) v = v ∷ fill_range xs zero hi v
  fill_range (x ∷ xs) (suc lo) (suc hi) v = x ∷ fill_range xs lo hi v

  pub length-fill_range :
      (xs : List A) (lo hi : ℕ) (v : A) → length (fill_range xs lo hi v) ≡ length xs
  length-fill_range [] lo hi v = refl
  length-fill_range (x ∷ xs) lo zero v = refl
  length-fill_range (x ∷ xs) zero (suc hi) v = ap suc (length-fill_range xs zero hi v)
  length-fill_range (x ∷ xs) (suc lo) (suc hi) v = ap suc (length-fill_range xs lo hi v)

  pub get_or-fill_range_in :
      (xs : List A) (lo hi i : ℕ) (v : A) → lo ≤ i → i < hi → get_or (fill_range xs lo hi v) i v ≡ v
  get_or-fill_range_in [] lo hi i v p q = refl
  get_or-fill_range_in (x ∷ xs) lo zero i v p q = elim q [ ]
  get_or-fill_range_in (x ∷ xs) zero (suc hi) zero v p q = refl
  get_or-fill_range_in (x ∷ xs) zero (suc hi) (suc i) v p q =
      get_or-fill_range_in xs zero hi i v (omega arith) (omega arith)
  get_or-fill_range_in (x ∷ xs) (suc lo) (suc hi) zero v p q = absurd (omega arith)
  get_or-fill_range_in (x ∷ xs) (suc lo) (suc hi) (suc i) v p q =
      get_or-fill_range_in xs lo hi i v (omega arith) (omega arith)

  pub get_or-fill_range_out :
      (xs : List A) (lo hi i : ℕ) (v d : A)
      → (i < lo) ⊎ (hi ≤ i)
      → get_or (fill_range xs lo hi v) i d ≡ get_or xs i d
  get_or-fill_range_out [] lo hi i v d h = refl
  get_or-fill_range_out (x ∷ xs) lo zero i v d h = refl
  get_or-fill_range_out (x ∷ xs) zero (suc hi) zero v d h = absurd (omega arith)
  get_or-fill_range_out (x ∷ xs) zero (suc hi) (suc i) v d h =
      get_or-fill_range_out xs zero hi i v d (inr (omega arith))
  get_or-fill_range_out (x ∷ xs) (suc lo) (suc hi) zero v d h = refl
  get_or-fill_range_out (x ∷ xs) (suc lo) (suc hi) (suc i) v d h =
      get_or-fill_range_out xs lo hi i v d (omega arith)

  pub get_or_past : (xs : List A) (i : ℕ) (d : A) → length xs ≤ i → get_or xs i d ≡ d
  get_or_past [] i d h = refl
  get_or_past (x ∷ xs) zero d h = absurd (omega arith)
  get_or_past (x ∷ xs) (suc i) d h = get_or_past xs i d (omega arith)
