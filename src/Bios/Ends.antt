-- ===== src/Bios/Ends.antt =====
-- The decompressors end: each round of their loops writes a byte of the output at least.
use vibe_gba.Prelude.{
  ℕ, zero, suc, ◌+◌, ◌-◌, ◌*◌, ◌/◌, ◌%◌, ◌^◌, ◌≤◌, ◌<◌, ◌≡◌, ◌≢◌, subst, refl, ap, sym, ◌∙◌, arith,
  Bool, true, false, ◌==◌, if◌then◌else◌, Bool-cases, inl, inr, ==→eq, eq→==, ne→not_==,
}
use vibe_gba.Prelude.Bits.{bit_set}
use vibe_gba.Bus.Port.{Port}
use vibe_gba.Arm7tdmi.Cpu.{wrapping_sub}
use vibe_gba.Bios.Decompress.{
  Stream, while_remaining, take_byte, emit, emit_run, emit_literals, emit_back, rl_round,
  lz77_reference, lz77_token, lz77_bits, lz77_round,
}

-- A loop has ended after `n` rounds: nothing remains, and more rounds change nothing.
pub record HasEnded {S : Type 0} (round : Stream S → Stream S) (n : ℕ) (t : Stream S) : Type 0 where
  pub nothing_left : (while_remaining round n t).remaining ≡ 0
  pub enough : (k : ℕ) → while_remaining round (n + k) t ≡ while_remaining round n t

module _ {S : Type 0} where
  -- A loop whose rounds lower what remains, on enough rounds.
  module _ (round : Stream S → Stream S)
      (falls : (t : Stream S) → t.remaining ≢ 0 → (round t).remaining < t.remaining) where
    pub while_remaining-stop :
        (n : ℕ) (t : Stream S) → t.remaining ≡ 0 → while_remaining round n t ≡ t
    unfolding while_remaining
    while_remaining-stop zero t h = refl
    while_remaining-stop (suc n) t h = rw h refl

    pub while_remaining-go :
        (n : ℕ) (t : Stream S)
        → t.remaining ≢ 0
        → while_remaining round (suc n) t ≡ while_remaining round n (round t)
    unfolding while_remaining
    while_remaining-go n t h = rw (ne→not_== t.remaining 0 h) refl

    pub while_remaining-HasEnded : (n : ℕ) (t : Stream S) → t.remaining ≤ n → HasEnded round n t
    while_remaining-HasEnded zero t h =
        let e : t.remaining ≡ 0 = omega arith in
        record {
          nothing_left = ap (λ (x : Stream S). x.remaining) (while_remaining-stop 0 t e) ∙ e;
          enough = λ k. while_remaining-stop (0 + k) t e ∙ sym (while_remaining-stop 0 t e);
        }
    while_remaining-HasEnded (suc n) t h = elim (Bool-cases (t.remaining == 0)) [
      | inl p ↦
          let e = ==→eq t.remaining 0 p in
          record {
            nothing_left =
                ap (λ (x : Stream S). x.remaining) (while_remaining-stop (suc n) t e) ∙ e;
            enough =
                λ k. while_remaining-stop (suc n + k) t e ∙ sym (while_remaining-stop (suc n) t e);
          }
      | inr p ↦
          let ne : t.remaining ≢ 0 = ground arith in
          let rest = while_remaining-HasEnded n (round t) (omega (arith, falls t ne)) in
          record {
            nothing_left =
                ap (λ (x : Stream S). x.remaining) (while_remaining-go n t ne) ∙ rest.nothing_left;
            enough = λ k.
                ap (λ (x : ℕ). while_remaining round x t) (omega arith)
                ∙ while_remaining-go (n + k) t ne
                ∙ rest.enough k
                ∙ sym (while_remaining-go n t ne);
          }
    ]

pub at_false : {A : Type 0} (b : Bool) (x y : A) → b ≡ false → (if b then x else y) ≡ y
at_false b x y e = rw e refl

pub at_true : {A : Type 0} (b : Bool) (x y : A) → b ≡ true → (if b then x else y) ≡ x
at_true b x y e = rw e refl

the_suc : (a k : ℕ) → suc (a + k) ≡ a + suc k
the_suc a k = omega arith

module _ {S : Type 0} (port : Port S) (vram : Bool) where
  emit_remaining : (val : ℕ) (t : Stream S) → (emit port vram val t).remaining ≡ t.remaining - 1
  unfolding emit
  emit_remaining val t = elim (Bool-cases vram) [ inl e ↦ rw e refl | inr e ↦ rw e refl ]

  -- None of the loops over bytes raises what remains, and one with a byte to go lowers it.
  emit_run-le : (n val : ℕ) (t : Stream S) → (emit_run port vram n val t).remaining ≤ t.remaining
  unfolding emit_run
  emit_run-le zero val t = omega arith
  emit_run-le (suc n) val t =
      ground (arith, emit_run-le n val (emit port vram val t), emit_remaining val t)

  emit_run-lt :
      (n val : ℕ) (t : Stream S)
      → t.remaining ≢ 0
      → (emit_run port vram (suc n) val t).remaining < t.remaining
  unfolding emit_run
  emit_run-lt n val t h =
      ground (arith, emit_run-le n val (emit port vram val t), emit_remaining val t)

  emit_literals-le : (n : ℕ) (t : Stream S) → (emit_literals port vram n t).remaining ≤ t.remaining
  unfolding emit_literals take_byte
  emit_literals-le zero t = omega arith
  emit_literals-le (suc n) t =
      let t' = (take_byte port t).0 in
      let val = (take_byte port t).1 in
      ground (arith, emit_literals-le n (emit port vram val t'), emit_remaining val t')

  emit_literals-lt :
      (n : ℕ) (t : Stream S)
      → t.remaining ≢ 0
      → (emit_literals port vram (suc n) t).remaining < t.remaining
  unfolding emit_literals take_byte
  emit_literals-lt n t h =
      let t' = (take_byte port t).0 in
      let val = (take_byte port t).1 in
      ground (arith, emit_literals-le n (emit port vram val t'), emit_remaining val t')

  emit_back-le :
      (n offset : ℕ) (t : Stream S) → (emit_back port vram n offset t).remaining ≤ t.remaining
  unfolding emit_back
  emit_back-le zero offset t = omega arith
  emit_back-le (suc n) offset t =
      let read = port.read8 (wrapping_sub t.dst_pos offset) t.bus in
      let t' : Stream S = record t { bus = read.0 } in
      ground (arith, emit_back-le n offset (emit port vram read.1 t'), emit_remaining read.1 t')

  emit_back-lt :
      (n offset : ℕ) (t : Stream S)
      → t.remaining ≢ 0
      → (emit_back port vram (suc n) offset t).remaining < t.remaining
  unfolding emit_back
  emit_back-lt n offset t h =
      let read = port.read8 (wrapping_sub t.dst_pos offset) t.bus in
      let t' : Stream S = record t { bus = read.0 } in
      ground (arith, emit_back-le n offset (emit port vram read.1 t'), emit_remaining read.1 t')

  pub rl_round-lt :
      (t : Stream S) → t.remaining ≢ 0 → (rl_round port vram t).remaining < t.remaining
  unfolding rl_round take_byte
  rl_round-lt t h =
      let t1 = (take_byte port t).0 in
      let flag = (take_byte port t).1 in
      let t2 = (take_byte port t1).0 in
      elim (Bool-cases (bit_set flag 7)) [
        | inl e ↦ rw e (
            subst
              (λ (n : ℕ). (emit_run port vram n (take_byte port t1).1 t2).remaining < t.remaining)
              (the_suc (flag % 2 ^ 7) 2)
              (emit_run-lt (flag % 2 ^ 7 + 2) (take_byte port t1).1 t2 h))
        | inr e ↦ rw e (
            subst (λ (n : ℕ). (emit_literals port vram n t1).remaining < t.remaining)
              (the_suc (flag % 2 ^ 7) 0) (emit_literals-lt (flag % 2 ^ 7 + 0) t1 h))
      ]

  lz77_reference-lt :
      (t : Stream S) → t.remaining ≢ 0 → (lz77_reference port vram t).remaining < t.remaining
  unfolding lz77_reference take_byte
  lz77_reference-lt t h =
      let t1 = (take_byte port t).0 in
      let byte1 = (take_byte port t).1 in
      let t2 = (take_byte port t1).0 in
      let offset = byte1 % 2 ^ 4 * 2 ^ 8 + (take_byte port t1).1 + 1 in
      subst (λ (n : ℕ). (emit_back port vram n offset t2).remaining < t.remaining)
        (the_suc (byte1 / 2 ^ 4) 2) (emit_back-lt (byte1 / 2 ^ 4 + 2) offset t2 h)

  lz77_token-lt :
      (b : Bool) (t : Stream S)
      → t.remaining ≢ 0
      → (lz77_token port vram b t).remaining < t.remaining
  unfolding lz77_token
  lz77_token-lt true t h = lz77_reference-lt t h
  lz77_token-lt false t h = emit_literals-lt 0 t h

  lz77_bits-go :
      (n flags : ℕ) (t : Stream S)
      → t.remaining ≢ 0
      → lz77_bits port vram (suc n) flags t
        ≡ lz77_bits port vram n flags (lz77_token port vram (bit_set flags n) t)
  unfolding lz77_bits
  lz77_bits-go n flags t h = at_false _ _ _ (ne→not_== t.remaining 0 h)

  lz77_bits-stop :
      (n flags : ℕ) (t : Stream S) → t.remaining ≡ 0 → lz77_bits port vram (suc n) flags t ≡ t
  unfolding lz77_bits
  lz77_bits-stop n flags t h = at_true _ _ _ (eq→== t.remaining 0 h)

  lz77_bits-le :
      (n flags : ℕ) (t : Stream S) → (lz77_bits port vram n flags t).remaining ≤ t.remaining
  lz77_bits-le zero flags t = unfold lz77_bits in omega arith
  lz77_bits-le (suc n) flags t = elim (Bool-cases (t.remaining == 0)) [
    | inl e ↦ omega (
      arith,
      ap (λ (x : Stream S). x.remaining) (lz77_bits-stop n flags t (==→eq t.remaining 0 e)),
    )
    | inr e ↦
        let ne : t.remaining ≢ 0 = ground arith in
        omega (
          arith,
          ap (λ (x : Stream S). x.remaining) (lz77_bits-go n flags t ne),
          lz77_token-lt (bit_set flags n) t ne,
          lz77_bits-le n flags (lz77_token port vram (bit_set flags n) t),
        )
  ]

  lz77_bits-lt :
      (n flags : ℕ) (t : Stream S)
      → t.remaining ≢ 0
      → (lz77_bits port vram (suc n) flags t).remaining < t.remaining
  lz77_bits-lt n flags t h = omega (
    arith,
    ap (λ (x : Stream S). x.remaining) (lz77_bits-go n flags t h),
    lz77_token-lt (bit_set flags n) t h,
    lz77_bits-le n flags (lz77_token port vram (bit_set flags n) t),
  )

  lz77_round-lt :
      (t : Stream S) → t.remaining ≢ 0 → (lz77_round port vram t).remaining < t.remaining
  unfolding lz77_round take_byte
  lz77_round-lt t h = lz77_bits-lt 7 (take_byte port t).1 (take_byte port t).0 h

  -- Whatever the bytes of the source, and even where writing the output overwrites them, both
  -- decompressors come to an end: from any state, the loop on as many rounds as there are bytes to
  -- write, or on more, writes them all, and more rounds change nothing.
  pub decompress-ends :
      (n : ℕ) (t : Stream S)
      → t.remaining ≤ n
      → HasEnded (rl_round port vram) n t × HasEnded (lz77_round port vram) n t
  decompress-ends n t h = (
    while_remaining-HasEnded (rl_round port vram) rl_round-lt n t h,
    while_remaining-HasEnded (lz77_round port vram) lz77_round-lt n t h,
  )
