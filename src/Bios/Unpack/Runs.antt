-- ===== src/Bios/Unpack/Runs.antt =====
-- A round of the run-length decompressor writes a run, and the loop writes them all.
use vibe_gba.Prelude.{
  ℕ, ◌+◌, ◌-◌, ◌%◌, ◌^◌, ◌≤◌, ◌≡◌, subst, sym, arith, true, false, List, ◌∷◌, ◌++◌, length,
  length-replicate, replicate,
}
use vibe_gba.Prelude.Bits.{bit_set}
use vibe_gba.Bus.Port.{Port}
use vibe_gba.Bus.Bytes.{IsBytes}
use vibe_gba.Bios.Decompress.{Stream, take_byte, emit_run, emit_literals, rl_round}
use vibe_gba.Bios.Ends.{at_false, at_true}
use vibe_gba.Bios.RunLength.{Run, repeat, literal, expand_run, encode_run, Fits, IsReady-after}
use vibe_gba.Bios.Unpack.{
  Ready, Written, take_byte-HasTaken, Written-after_taken, HasUnpacked, emit_run-HasWritten,
  emit_run-src, emit_literals-HasUnpacked,
}

module _ {S : Type 0} (port : Port S) (lo hi : ℕ) (byte : S → ℕ → ℕ)
    (m : IsBytes S port lo hi byte) where
  abbrev pub Unpacked : List ℕ → List ℕ → Stream S → Stream S → Type 0
  Unpacked = HasUnpacked port lo hi byte m

  -- After a flag that is set, and after one that is not.
  rl_round-repeat :
      (t : Stream S)
      → bit_set (take_byte port t).1 7 ≡ true
      → rl_round port false t
        ≡ emit_run port false
            ((take_byte port t).1 % 2 ^ 7 + 3)
            (take_byte port (take_byte port t).0).1
            (take_byte port (take_byte port t).0).0
  unfolding rl_round
  rl_round-repeat t e = at_true _ _ _ e

  rl_round-literal :
      (t : Stream S)
      → bit_set (take_byte port t).1 7 ≡ false
      → rl_round port false t
        ≡ emit_literals port false ((take_byte port t).1 % 2 ^ 7 + 1) (take_byte port t).0
  unfolding rl_round
  rl_round-literal t e = at_false _ _ _ e

  repeat_round :
      (n v : ℕ) (xs : List ℕ) (t : Stream S)
      → 3 ≤ n
      → n ≤ 130
      → Ready port lo hi byte m ((2 ^ 7 + (n - 3)) ∷ v ∷ xs) t
      → n ≤ t.remaining
      → Unpacked (replicate n v) xs t (rl_round port false t)
  repeat_round n v xs t p q r h =
      let o1 = take_byte port t in
      let k1 = take_byte-HasTaken port lo hi byte m (2 ^ 7 + (n - 3)) (v ∷ xs) t r in
      let o2 = take_byte port o1.0 in
      let k2 = take_byte-HasTaken port lo hi byte m v xs o1.0 k1.ready in
      let flag : bit_set o1.1 7 ≡ true = ground (arith, k1.value) in
      let count : o1.1 % 2 ^ 7 + 3 ≡ n = omega (arith, k1.value) in
      let room : n ≤ o2.0.remaining = omega (arith, k1.remaining, k2.remaining) in
      let w =
        emit_run-HasWritten port lo hi byte m n o2.1 o2.0 k2.ready.dst_lo k2.ready.dst_hi room in
      subst (λ (x : Stream S). Unpacked (replicate n v) xs t x) (sym (rl_round-repeat t flag))
        (subst (λ (c : ℕ). Unpacked (replicate n v) xs t (emit_run port false c o2.1 o2.0))
          (sym count)
          (record {
            written =
                Written-after_taken port lo hi byte m (2 ^ 7 + (n - 3)) (v ∷ xs) (replicate n v) t
                  o1 _ k1
                  (Written-after_taken port lo hi byte m v xs (replicate n v) o1.0 o2 _ k2 (
                    subst
                      (λ (x : ℕ).
                        Written port lo hi byte m (replicate n x) o2.0
                          (emit_run port false n o2.1 o2.0))
                      k2.value w));
            ready =
                IsReady-after port lo hi byte m xs (replicate n o2.1) o2.0 _ k2.ready
                  (emit_run-src port lo hi byte m n o2.1 o2.0 room) w;
          }))

  literal_round :
      (bs xs : List ℕ) (t : Stream S)
      → 1 ≤ length bs
      → length bs ≤ 128
      → Ready port lo hi byte m ((length bs - 1) ∷ bs ++ xs) t
      → length bs ≤ t.remaining
      → Unpacked bs xs t (rl_round port false t)
  literal_round bs xs t p q r h =
      let o = take_byte port t in
      let k = take_byte-HasTaken port lo hi byte m (length bs - 1) (bs ++ xs) t r in
      let flag : bit_set o.1 7 ≡ false = ground (arith, k.value) in
      let count : o.1 % 2 ^ 7 + 1 ≡ length bs = omega (arith, k.value) in
      let u =
        emit_literals-HasUnpacked port lo hi byte m bs xs o.0 k.ready
          (omega (arith, k.remaining)) in
      subst (λ (x : Stream S). Unpacked bs xs t x) (sym (rl_round-literal t flag))
        (subst (λ (c : ℕ). Unpacked bs xs t (emit_literals port false c o.0)) (sym count)
          (record {
            written =
                Written-after_taken port lo hi byte m (length bs - 1) (bs ++ xs) bs t o _ k
                  u.written;
            ready = u.ready;
          }))

  pub rl_round-HasUnpacked :
      (run : Run) (xs : List ℕ) (t : Stream S)
      → Fits run
      → Ready port lo hi byte m (encode_run run ++ xs) t
      → length (expand_run run) ≤ t.remaining
      → Unpacked (expand_run run) xs t (rl_round port false t)
  unfolding Fits encode_run expand_run
  rl_round-HasUnpacked (repeat n v) xs t f r h =
      repeat_round n v xs t f.0 f.1 r (omega (arith, h, length-replicate n v))
  rl_round-HasUnpacked (literal bs) xs t f r h = literal_round bs xs t f.0 f.1 r h
