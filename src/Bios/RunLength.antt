-- ===== src/Bios/RunLength.antt =====
-- Run length: the runs, how they are encoded, and the bytes that they stand for.
use vibe_gba.Prelude.{
  ℕ, ◌+◌, ◌-◌, ◌^◌, ◌≤◌, ◌<◌, ◌≡◌, ◌⊎◌, subst, refl, sym, ◌∙◌, arith, inl, inr, List, [], ◌∷◌, ◌++◌,
  length-append, length, replicate,
}
use vibe_gba.Bus.Port.{Port}
use vibe_gba.Bus.Bytes.{IsBytes}
use vibe_gba.Bios.Decompress.{Stream}

pub data Run : Type 0 where
  repeat : ℕ → ℕ → Run
  literal : List ℕ → Run

unfoldable pub expand_run : Run → List ℕ
expand_run (repeat n val) = replicate n val
expand_run (literal bytes) = bytes

unfoldable pub encode_run : Run → List ℕ
encode_run (repeat n val) = (2 ^ 7 + (n - 3)) ∷ val ∷ []
encode_run (literal bytes) = (length bytes - 1) ∷ bytes

unfoldable pub expand : List Run → List ℕ
unfolding expand_run
expand [] = []
expand (x ∷ xs) = expand_run x ++ expand xs

unfoldable pub encode : List Run → List ℕ
unfolding encode_run
encode [] = []
encode (x ∷ xs) = encode_run x ++ encode xs

-- The lengths that a flag byte can tell.
unfoldable pub Fits : Run → Type 0
Fits (repeat n val) = (3 ≤ n) × (n ≤ 130)
Fits (literal bytes) = (1 ≤ length bytes) × (length bytes ≤ 128)

unfoldable pub AllFit : List Run → Type 0
unfolding Fits
AllFit [] = 0 ≤ 0
AllFit (x ∷ xs) = Fits x × AllFit xs

-- The bytes from an address on.
unfoldable pub Holds : (ℕ → ℕ) → ℕ → List ℕ → Type 0
Holds byte a [] = 0 ≤ 0
Holds byte a (x ∷ xs) = (byte a ≡ x) × Holds byte (a + 1) xs

pub Holds-frame :
    (byte byte' : ℕ → ℕ) (a : ℕ) (xs : List ℕ)
    → ((b : ℕ) → a ≤ b → b < a + length xs → byte' b ≡ byte b)
    → Holds byte a xs
    → Holds byte' a xs
unfolding Holds
Holds-frame byte byte' a [] h s = s
Holds-frame byte byte' a (x ∷ xs) h s = (
  h a (omega arith) (omega arith) ∙ s.0,
  Holds-frame byte byte' (a + 1) xs (λ b l k. h b (omega arith) (omega arith)) s.1,
)

pub Holds-append :
    (byte : ℕ → ℕ) (a : ℕ) (xs ys : List ℕ)
    → Holds byte a xs
    → Holds byte (a + length xs) ys
    → Holds byte a (xs ++ ys)
unfolding Holds
Holds-append byte a [] ys h k = subst (λ (x : ℕ). Holds byte x ys) (omega arith) k
Holds-append byte a (x ∷ xs) ys h k =
    (h.0, Holds-append byte (a + 1) xs ys h.1 (subst (λ (t : ℕ). Holds byte t ys) (omega arith) k))

pub Holds-prefix :
    (byte : ℕ → ℕ) (a : ℕ) (xs ys : List ℕ) → Holds byte a (xs ++ ys) → Holds byte a xs
unfolding Holds
Holds-prefix byte a [] ys h = omega arith
Holds-prefix byte a (x ∷ xs) ys h = (h.0, Holds-prefix byte (a + 1) xs ys h.1)

pub Holds-suffix :
    (byte : ℕ → ℕ) (a : ℕ) (xs ys : List ℕ)
    → Holds byte a (xs ++ ys)
    → Holds byte (a + length xs) ys
unfolding Holds
Holds-suffix byte a [] ys h = subst (λ (x : ℕ). Holds byte x ys) (omega arith) h
Holds-suffix byte a (x ∷ xs) ys h =
    subst (λ (t : ℕ). Holds byte t ys) (omega arith) (Holds-suffix byte (a + 1) xs ys h.1)

module _ {S : Type 0} (port : Port S) (lo hi : ℕ) (byte : S → ℕ → ℕ)
    (m : IsBytes S port lo hi byte) where
  -- The source has the bytes `xs` to go, the output has its place, and the two do not meet.
  pub record IsReady (xs : List ℕ) (t : Stream S) : Type 0 where
    pub source : Holds (byte t.bus) t.src_pos xs
    pub src_lo : lo ≤ t.src_pos
    pub src_hi : t.src_pos + length xs < hi
    pub dst_lo : lo ≤ t.dst_pos
    pub dst_hi : t.dst_pos + t.remaining < hi
    pub apart : (t.src_pos + length xs ≤ t.dst_pos) ⊎ (t.dst_pos + t.remaining ≤ t.src_pos)

  -- From `t` to `t'` the bytes `out` were written, and nothing else.
  pub record HasWritten (out : List ℕ) (t t' : Stream S) : Type 0 where
    pub dst : t'.dst_pos ≡ t.dst_pos + length out
    pub remaining : t'.remaining + length out ≡ t.remaining
    pub holds : Holds (byte t'.bus) t.dst_pos out
    pub below : (b : ℕ) → lo ≤ b → b < t.dst_pos → byte t'.bus b ≡ byte t.bus b
    pub above : (b : ℕ) → t.dst_pos + length out ≤ b → b < hi → byte t'.bus b ≡ byte t.bus b

  pub written_nothing : (t : Stream S) → HasWritten [] t t
  written_nothing t =
      unfold Holds in
      record {
        dst = omega arith;
        remaining = omega arith;
        holds = omega arith;
        below = λ b l k. refl;
        above = λ b l k. refl;
      }

  -- What is written later stands above.
  pub written_then :
      (xs ys : List ℕ) (t t' t'' : Stream S)
      → lo ≤ t.dst_pos
      → t.dst_pos + t.remaining < hi
      → HasWritten xs t t'
      → HasWritten ys t' t''
      → HasWritten (xs ++ ys) t t''
  written_then xs ys t t' t'' p q h k =
      let l = length-append xs ys in
      record {
        dst = omega (arith, l, h.dst, k.dst);
        remaining = omega (arith, l, h.remaining, k.remaining);
        holds =
            Holds-append (byte t''.bus) t.dst_pos xs ys
              (Holds-frame (byte t'.bus) (byte t''.bus) t.dst_pos xs
                (λ b u v. k.below b (omega (arith, p, u)) (omega (arith, v, h.dst))) h.holds)
              (subst (λ (x : ℕ). Holds (byte t''.bus) x ys) h.dst k.holds);
        below = λ b u v. k.below b u (omega (arith, v, h.dst)) ∙ h.below b u v;
        above =
            λ b u v. k.above b (omega (arith, u, l, h.dst)) v ∙ h.above b (omega (arith, u, l)) v;
      }

  -- Where the bytes of a source are, they stay.
  pub IsReady-after :
      (xs ys : List ℕ) (t t' : Stream S)
      → IsReady xs t
      → t'.src_pos ≡ t.src_pos
      → HasWritten ys t t'
      → IsReady xs t'
  IsReady-after xs ys t t' r e w = record {
    source =
        subst (λ (x : ℕ). Holds (byte t'.bus) x xs) (sym e)
          (Holds-frame (byte t.bus) (byte t'.bus) t.src_pos xs
            (λ b u v. elim r.apart [
              | inl a ↦ w.below b (omega (arith, u, r.src_lo)) (omega (arith, v, a))
              | inr a ↦ w.above b (omega (arith, u, a, w.remaining)) (omega (arith, v, r.src_hi))
            ])
            r.source);
    src_lo = omega (arith, e, r.src_lo);
    src_hi = omega (arith, e, r.src_hi);
    dst_lo = omega (arith, w.dst, r.dst_lo);
    dst_hi = omega (arith, w.dst, w.remaining, r.dst_hi);
    apart = elim r.apart [
      | inl a ↦ inl (omega (arith, a, e, w.dst))
      | inr a ↦ inr (omega (arith, a, e, w.dst, w.remaining))
    ];
  }
