-- ===== src/Timer/Cycles.antt =====
-- A batch of cycles in the normal mode against a timer that is clocked once a cycle.
use vibe_gba.Prelude.{
  ℕ, zero, suc, ◌+◌, ◌/◌, ◌%◌, ◌^◌, ◌≤◌, ◌<◌, ◌≡◌, ◌⊎◌, inl, inr, refl, ap, sym, ◌∙◌, arith,
}
use vibe_gba.Prelude.{lt→ltb, ltb, ◌==◌, if◌then◌else◌, get_or}
use native.Mathlib.Numerals.{add-one}
use native.Mathlib.Nat.{add-zero, div-le_self, div-add-mod', mod-lt, mod-eq_of_lt, div-eq_of_lt}
use native.Mathlib.Decide.{dec_lt}
use vibe_gba.Prelude.Bits.{u32}
use vibe_gba.Timer.{Timer, prescaler, prescaler_dividers, increment_timer, advance}
use vibe_gba.Timer.Count.{one_tick, ticks, IsWord, increment_timer-eq-ticks, quotient_unique}

-- One CPU cycle: the prescaler goes up, and at its limit it restarts and the counter ticks.
pub one_cycle : Timer × ℕ → Timer × ℕ
one_cycle (t, n) =
    let p = t.prescaler_counter + 1 in
    if p == prescaler t
    then one_tick (record t { prescaler_counter = 0 }, n)
    else (record t { prescaler_counter = p }, n)

unfoldable pub cycles : ℕ → Timer × ℕ → Timer × ℕ
cycles zero s = s
cycles (suc k) s = one_cycle (cycles k s)

divider_bounds :
    (k : ℕ) → k < 4 → (1 ≤ get_or prescaler_dividers k 1) × (get_or prescaler_dividers k 1 ≤ 1024)
divider_bounds zero h = omega arith
divider_bounds (suc zero) h = omega arith
divider_bounds (suc (suc zero)) h = omega arith
divider_bounds (suc (suc (suc zero))) h = omega arith
divider_bounds (suc (suc (suc (suc k)))) h = absurd (omega arith)

pub prescaler_bounds : (t : Timer) → (1 ≤ prescaler t) × (prescaler t ≤ 1024)
unfolding prescaler
prescaler_bounds t = divider_bounds (t.control % 4) (omega arith)

abbrev with_prescaler : ℕ → Timer × ℕ → Timer × ℕ
with_prescaler p (t, n) = (record t { prescaler_counter = p }, n)

one_tick-with_prescaler :
    (p : ℕ) (s : Timer × ℕ) → one_tick (with_prescaler p s) ≡ with_prescaler p (one_tick s)
unfolding one_tick
one_tick-with_prescaler p (t, n) = ground arith

ticks-with_prescaler :
    (k p : ℕ) (s : Timer × ℕ) → ticks k (with_prescaler p s) ≡ with_prescaler p (ticks k s)
unfolding ticks
ticks-with_prescaler zero p s = refl
ticks-with_prescaler (suc k) p s =
    rw (ticks-with_prescaler k p s) (one_tick-with_prescaler p (ticks k s))

control-one_tick : (s : Timer × ℕ) → (one_tick s).0.control ≡ s.0.control
unfolding one_tick
control-one_tick (t, n) = ground arith

control-ticks : (k : ℕ) (s : Timer × ℕ) → (ticks k s).0.control ≡ s.0.control
unfolding ticks
control-ticks zero s = refl
control-ticks (suc k) s = control-one_tick (ticks k s) ∙ control-ticks k s

prescaler-ext : (t u : Timer) → t.control ≡ u.control → prescaler t ≡ prescaler u
unfolding prescaler
prescaler-ext t u e = rw e

quotient-suc :
    (x p : ℕ)
    → 1 ≤ p
    → ((x % p + 1 ≡ p) × ((x + 1) / p ≡ x / p + 1) × ((x + 1) % p ≡ 0))
      ⊎ ((x % p + 1 < p) × ((x + 1) / p ≡ x / p) × ((x + 1) % p ≡ x % p + 1))
quotient-suc x p h = elim (dec_lt (x % p + 1) p) [
  | yes l ↦
      let same =
        quotient_unique (x / p) (x % p + 1) p (x + 1) l (omega (arith, div-add-mod' x p)) in
      inr (l, same.0, same.1)
  | no g ↦
      let full : x % p + 1 ≡ p = omega (arith, mod-lt x {m = p} (omega arith)) in
      let more = quotient_unique (x / p + 1) 0 p (x + 1) h (omega (arith, div-add-mod' x p)) in
      inl (full, more.0, more.1)
]

one_cycle-wraps :
    (r : ℕ) (s : Timer × ℕ)
    → r + 1 ≡ prescaler s.0
    → one_cycle (with_prescaler r s) ≡ with_prescaler 0 (one_tick s)
unfolding one_cycle
one_cycle-wraps r (t, n) e = ground (
  arith,
  prescaler-ext (record t { prescaler_counter = r }) t refl,
  one_tick-with_prescaler 0 (t, n),
)

one_cycle-counts :
    (r : ℕ) (s : Timer × ℕ)
    → r + 1 < prescaler s.0
    → one_cycle (with_prescaler r s) ≡ with_prescaler (r + 1) s
unfolding one_cycle
one_cycle-counts r (t, n) e =
    ground (arith, prescaler-ext (record t { prescaler_counter = r }) t refl)

module _ (t : Timer) (start : t.prescaler_counter < prescaler t) where
  abbrev clocked : ℕ → Timer × ℕ
  clocked x = with_prescaler (x % prescaler t) (ticks (x / prescaler t) (t, 0))

  same_prescaler : (q : ℕ) → prescaler (ticks q (t, 0)).0 ≡ prescaler t
  same_prescaler q = prescaler-ext (ticks q (t, 0)).0 t (control-ticks q (t, 0))

  one_cycle-clocked : (x : ℕ) → one_cycle (clocked x) ≡ clocked (x + 1)
  unfolding ticks
  one_cycle-clocked x = elim (quotient-suc x (prescaler t) (prescaler_bounds t).0) [
    | inl w ↦
        rw (w.1, w.2, add-one)
          (one_cycle-wraps (x % prescaler t) (ticks (x / prescaler t) (t, 0))
            (w.0 ∙ sym (same_prescaler (x / prescaler t))))
    | inr w ↦
        rw (w.1, w.2)
          (one_cycle-counts (x % prescaler t) (ticks (x / prescaler t) (t, 0))
            (rw (same_prescaler (x / prescaler t)) w.0))
  ]

  -- After `k` cycles the prescaler stands at a remainder, and the counter has ticked the quotient.
  cycles-eq-clocked : (k : ℕ) → cycles k (t, 0) ≡ clocked (t.prescaler_counter + k)
  unfolding cycles ticks
  cycles-eq-clocked zero = rw (add-zero, mod-eq_of_lt start, div-eq_of_lt start)
  cycles-eq-clocked (suc k) =
      ap one_cycle (cycles-eq-clocked k)
      ∙ one_cycle-clocked (t.prescaler_counter + k)
      ∙ ap clocked (omega arith)

increment-clocked :
    (q r : ℕ) {t : Timer}
    → IsWord t
    → t.counter + q < 2 ^ 32
    → (if ltb 0 q
        then increment_timer (record t { prescaler_counter = r }) q
        else (record t { prescaler_counter = r }, 0))
      ≡ with_prescaler r (ticks q (t, 0))
unfolding ticks
increment-clocked zero r v small = refl
increment-clocked (suc q) r {t} v small =
    let batch =
      increment_timer-eq-ticks (suc q) {t = record t { prescaler_counter = r }}
        (record { reload_fits = v.reload_fits; counter_fits = v.counter_fits }) small in
    rw (lt→ltb 0 (suc q) (omega arith)) (batch ∙ ticks-with_prescaler (suc q) r (t, 0))

-- For a prescaler counter in range and a batch that does not leave `u32`, `advance` over a batch
-- of cycles is the timer clocked cycle by cycle: registers and number of overflows agree.
pub advance-eq-cycles :
    (k : ℕ) {t : Timer}
    → IsWord t
    → t.prescaler_counter < prescaler t
    → k < 2 ^ 31
    → advance k t ≡ cycles k (t, 0)
unfolding advance
advance-eq-cycles k {t} v start small =
    let fits : u32 (t.prescaler_counter + k) ≡ t.prescaler_counter + k =
      omega (arith, prescaler_bounds t) in
    rw fits (
      increment-clocked ((t.prescaler_counter + k) / prescaler t)
        ((t.prescaler_counter + k) % prescaler t) v
        (omega (arith, prescaler_bounds t, div-le_self (t.prescaler_counter + k) (prescaler t)))
      ∙ sym (cycles-eq-clocked t start k))
