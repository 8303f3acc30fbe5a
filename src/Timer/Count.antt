-- ===== src/Timer/Count.antt =====
-- `increment_timer` against a counter that goes up by one tick at a time.
use vibe_gba.Prelude.{
  ℕ, zero, suc, ◌+◌, ◌-◌, ◌*◌, ◌/◌, ◌%◌, ◌^◌, ◌≤◌, ◌<◌, ◌≡◌, ◌⊎◌, inl, inr, refl, ap, arith,
}
use vibe_gba.Prelude.{◌==◌, if◌then◌else◌}
use native.Mathlib.Nat.{mul-add-div_right, mul-add-mod_self_right, div-eq_of_lt, mod-eq_of_lt}
use vibe_gba.Timer.{Timer, increment_timer}

-- One tick of the hardware: at 0xFFFF the counter is reloaded and overflows. The second part
-- counts the overflows.
unfoldable pub one_tick : Timer × ℕ → Timer × ℕ
one_tick (t, n) =
    if t.counter == 65535
    then (record t { counter = t.reload }, n + 1)
    else (record t { counter = t.counter + 1 }, n)

unfoldable pub ticks : ℕ → Timer × ℕ → Timer × ℕ
ticks zero s = s
ticks (suc k) s = one_tick (ticks k s)

-- The registers are 16 bits wide.
pub record IsWord (t : Timer) : Type 0 where
  pub reload_fits : t.reload < 65536
  pub counter_fits : t.counter < 65536

-- Where `k` ticks from `t` stand: not yet overflowed, or `n` times round the reload range.
record After (t : Timer) (k : ℕ) (s : Timer × ℕ) : Type 0 where
  same : s.0 ≡ record t { counter = s.0.counter }
  fits : s.0.counter < 65536
  place :
      ((s.1 ≡ 0) × (s.0.counter ≡ t.counter + k))
      ⊎ ((1 ≤ s.1)
          × (t.reload ≤ s.0.counter)
          × (t.counter + k ≡ 65536 + (s.1 - 1) * (65536 - t.reload) + (s.0.counter - t.reload)))

one_more : (n r : ℕ) → 1 ≤ n → n * r ≡ (n - 1) * r + r
one_more zero r h = absurd (omega arith)
one_more (suc n) r h =
    let below : suc n - 1 ≡ n = omega arith in omega (arith, ap (λ (t : ℕ). t * r) below)

-- Quotient and remainder are the only numbers that make up `x`.
pub quotient_unique : (q c r x : ℕ) → c < r → x ≡ q * r + c → (x / r ≡ q) × (x % r ≡ c)
quotient_unique q c r x h e = (
  rw e (omega (arith, mul-add-div_right {m = r} (omega arith) q c, div-eq_of_lt h)),
  rw e (omega (arith, mul-add-mod_self_right q r c, mod-eq_of_lt h)),
)

one_tick-After :
    (k : ℕ) {t : Timer} (s : Timer × ℕ) → IsWord t → After t k s → After t (suc k) (one_tick s)
unfolding one_tick
one_tick-After k {t} (s, n) v h = elim h.place [
  | inl p ↦ record {
    same = ground (arith, h.same);
    fits = ground (arith, h.same);
    place = ground (arith, h.same);
  }
  | inr p ↦ record {
    same = ground (arith, h.same);
    fits = ground (arith, h.same);
    place = ground (arith, h.same, one_more n (65536 - t.reload) p.0);
  }
]

ticks-After : (k : ℕ) {t : Timer} → IsWord t → After t k (ticks k (t, 0))
unfolding ticks
ticks-After zero v = record { same = refl; fits = v.counter_fits; place = inl (refl, omega arith) }
ticks-After (suc k) {t} v = one_tick-After k (ticks k (t, 0)) v (ticks-After k v)

-- The place determines the closed form.
After-increment_timer :
    (k : ℕ) {t : Timer} (s : Timer × ℕ)
    → IsWord t
    → t.counter + k < 2 ^ 32
    → After t k s
    → increment_timer t k ≡ s
unfolding increment_timer
After-increment_timer k {t} (s, n) v small h = ground (
  arith,
  h.same,
  h.place,
  quotient_unique (n - 1) (s.counter - t.reload) (65536 - t.reload) (t.counter + k - 65536),
)

-- For a counter and a number of ticks that do not leave `u32`, `increment_timer` is that number of
-- single ticks of the hardware: the same counter, and every overflow counted.
pub increment_timer-eq-ticks :
    (k : ℕ) {t : Timer} → IsWord t → t.counter + k < 2 ^ 32 → increment_timer t k ≡ ticks k (t, 0)
increment_timer-eq-ticks k {t} v small =
    After-increment_timer k (ticks k (t, 0)) v small (ticks-After k v)
