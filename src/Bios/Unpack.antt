-- ===== src/Bios/Unpack.antt =====
-- The decompressor of run length gives back the bytes that the runs stand for.
pub mod Runs
pub mod Whole
use vibe_gba.Prelude.{
  ℕ, zero, suc, ◌+◌, ◌-◌, ◌*◌, ◌/◌, ◌%◌, ◌^◌, ◌≤◌, ◌<◌, ◌≡◌, ◌≢◌, ◌⊎◌, subst, refl, ap, sym, ◌∙◌,
  arith, Bool, true, false, not, ◌==◌, if◌then◌else◌, inl, inr, ne→not_==, eq→==, ==_self, List, [],
  ◌∷◌, ◌++◌, length-append, length, replicate,
}
use vibe_gba.Prelude.Bits.{bit_set}
use vibe_gba.Bus.Port.{Port}
use vibe_gba.Bus.Bytes.{IsBytes}
use vibe_gba.Arm7tdmi.Loops.{wrapping_add}
use vibe_gba.Bios.Decompress.{
  Stream, take_byte, emit, emit_run, emit_literals, rl_round, while_remaining,
}
use vibe_gba.Bios.Ends.{at_false}
use vibe_gba.Bios.RunLength.{
  Run, repeat, literal, expand_run, encode_run, expand, encode, Fits, AllFit, Holds, Holds-frame,
  Holds-prefix, Holds-suffix, IsReady, HasWritten, written_nothing, written_then, IsReady-after,
}

module _ {S : Type 0} (port : Port S) (lo hi : ℕ) (byte : S → ℕ → ℕ)
    (m : IsBytes S port lo hi byte) where
  abbrev pub Ready : List ℕ → Stream S → Type 0
  Ready = IsReady port lo hi byte m

  abbrev pub Written : List ℕ → Stream S → Stream S → Type 0
  Written = HasWritten port lo hi byte m

  -- A byte taken is the first of the source, and leaves the rest of it.
  pub record HasTaken (x : ℕ) (xs : List ℕ) (t : Stream S) (o : Stream S × ℕ) : Type 0 where
    pub value : o.1 ≡ x
    pub ready : Ready xs o.0
    pub dst : o.0.dst_pos ≡ t.dst_pos
    pub remaining : o.0.remaining ≡ t.remaining
    pub same : byte o.0.bus ≡ byte t.bus

  pub take_byte-HasTaken :
      (x : ℕ) (xs : List ℕ) (t : Stream S) → Ready (x ∷ xs) t → HasTaken x xs t (take_byte port t)
  unfolding take_byte Holds
  take_byte-HasTaken x xs t r =
      let k = m.keeps t.src_pos t.bus in
      let next : wrapping_add t.src_pos 1 ≡ t.src_pos + 1 = omega (arith, r.src_hi, m.bounded) in
      record {
        value = m.reads t.src_pos t.bus r.src_lo (omega (arith, r.src_hi)) ∙ r.source.0;
        ready = record {
          source =
              subst (λ (w : ℕ → ℕ). Holds w (wrapping_add t.src_pos 1) xs) (sym k)
                (subst (λ (a : ℕ). Holds (byte t.bus) a xs) (sym next) r.source.1);
          src_lo = omega (arith, next, r.src_lo);
          src_hi = omega (arith, next, r.src_hi);
          dst_lo = r.dst_lo;
          dst_hi = r.dst_hi;
          apart = elim r.apart [
            | inl a ↦ inl (omega (arith, next, a))
            | inr a ↦ inr (omega (arith, next, a))
          ];
        };
        dst = refl;
        remaining = refl;
        same = k;
      }

  -- A byte written, outside of VRAM mode.
  emit-HasWritten :
      (v : ℕ) (t : Stream S)
      → lo ≤ t.dst_pos
      → t.dst_pos + t.remaining < hi
      → t.remaining ≢ 0
      → Written (v ∷ []) t (emit port false v t)
  unfolding emit Holds
  emit-HasWritten v t p q n =
      let left : 0 < t.remaining = omega arith in
      let w =
        λ (b : ℕ) (l : lo ≤ b) (h : b < hi). m.writes t.dst_pos v b t.bus p (omega arith) l h in
      record {
        dst = omega (arith, m.bounded, q);
        remaining = omega arith;
        holds = (w t.dst_pos p (omega arith) ∙ rw (==_self t.dst_pos) refl, omega arith);
        below = λ b l k. w b l (omega arith) ∙ rw (ne→not_== t.dst_pos b (omega arith)) refl;
        above = λ b l k. w b (omega arith) k ∙ rw (ne→not_== t.dst_pos b (omega arith)) refl;
      }

  emit_run-go :
      (n v : ℕ) (t : Stream S)
      → t.remaining ≢ 0
      → emit_run port false (suc n) v t ≡ emit_run port false n v (emit port false v t)
  unfolding emit_run
  emit_run-go n v t h = at_false _ _ _ (ne→not_== t.remaining 0 h)

  pub emit_run-HasWritten :
      (n v : ℕ) (t : Stream S)
      → lo ≤ t.dst_pos
      → t.dst_pos + t.remaining < hi
      → n ≤ t.remaining
      → Written (replicate n v) t (emit_run port false n v t)
  emit_run-HasWritten zero v t p q h = unfold emit_run in written_nothing port lo hi byte m t
  emit_run-HasWritten (suc n) v t p q h =
      let ne : t.remaining ≢ 0 = omega arith in
      let one = emit-HasWritten v t p q ne in
      let t' = emit port false v t in
      subst (λ (x : Stream S). Written (replicate (suc n) v) t x) (sym (emit_run-go n v t ne))
        (written_then port lo hi byte m (v ∷ []) (replicate n v) t t' _ p q one (
          emit_run-HasWritten n v t' (omega (arith, one.dst))
            (omega (arith, one.dst, one.remaining)) (omega (arith, one.remaining))))

  -- A byte is taken before something is written.
  pub Written-after_taken :
      (x : ℕ) (xs out : List ℕ) (t : Stream S) (o : Stream S × ℕ) (t' : Stream S)
      → HasTaken x xs t o
      → Written out o.0 t'
      → Written out t t'
  Written-after_taken x xs out t o t' k w = record {
    dst = omega (arith, k.dst, w.dst);
    remaining = omega (arith, k.remaining, w.remaining);
    holds = subst (λ (a : ℕ). Holds (byte t'.bus) a out) k.dst w.holds;
    below = λ b l h. w.below b l (omega (arith, h, k.dst)) ∙ ap (λ (f : ℕ → ℕ). f b) k.same;
    above = λ b l h. w.above b (omega (arith, l, k.dst)) h ∙ ap (λ (f : ℕ → ℕ). f b) k.same;
  }

  -- The bytes `out` were written, and the bytes `xs` of the source are to go.
  pub record HasUnpacked (out xs : List ℕ) (t t' : Stream S) : Type 0 where
    pub written : Written out t t'
    pub ready : Ready xs t'

  emit-src : (v : ℕ) (t : Stream S) → (emit port false v t).src_pos ≡ t.src_pos
  unfolding emit
  emit-src v t = refl

  emit_literals-go :
      (n : ℕ) (t : Stream S)
      → t.remaining ≢ 0
      → emit_literals port false (suc n) t
        ≡ emit_literals port false n (emit port false (take_byte port t).1 (take_byte port t).0)
  unfolding emit_literals
  emit_literals-go n t h = at_false _ _ _ (ne→not_== t.remaining 0 h)

  pub emit_literals-HasUnpacked :
      (bs xs : List ℕ) (t : Stream S)
      → Ready (bs ++ xs) t
      → length bs ≤ t.remaining
      → HasUnpacked bs xs t (emit_literals port false (length bs) t)
  emit_literals-HasUnpacked [] xs t r h =
      unfold emit_literals in record { written = written_nothing port lo hi byte m t; ready = r }
  emit_literals-HasUnpacked (x ∷ bs) xs t r h =
      let ne : t.remaining ≢ 0 = omega arith in
      let o = take_byte port t in
      let k = take_byte-HasTaken x (bs ++ xs) t r in
      let t' = emit port false o.1 o.0 in
      let one =
        emit-HasWritten o.1 o.0 k.ready.dst_lo k.ready.dst_hi (λ e. ne (sym k.remaining ∙ e)) in
      let one' : Written (x ∷ []) t t' =
        subst (λ (v : ℕ). Written (v ∷ []) t t') k.value
          (Written-after_taken x (bs ++ xs) (o.1 ∷ []) t o t' k one) in
      let left =
        IsReady-after port lo hi byte m (bs ++ xs) (o.1 ∷ []) o.0 t' k.ready (emit-src o.1 o.0)
          one in
      let rest = emit_literals-HasUnpacked bs xs t' left (omega (arith, one'.remaining)) in
      subst (λ (y : Stream S). HasUnpacked (x ∷ bs) xs t y)
        (sym (emit_literals-go (length bs) t ne))
        (record {
          written =
              written_then port lo hi byte m (x ∷ []) bs t t' _ r.dst_lo r.dst_hi one' rest.written;
          ready = rest.ready;
        })

  pub emit_run-src :
      (n v : ℕ) (t : Stream S) → n ≤ t.remaining → (emit_run port false n v t).src_pos ≡ t.src_pos
  emit_run-src zero v t h = unfold emit_run in refl
  emit_run-src (suc n) v t h =
      ap (λ (x : Stream S). x.src_pos) (emit_run-go n v t (omega arith))
      ∙ emit_run-src n v (emit port false v t) (unfold emit in omega arith)
      ∙ emit-src v t
