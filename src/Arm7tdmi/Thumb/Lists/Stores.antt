-- ===== src/Arm7tdmi/Thumb/Lists/Stores.antt =====
-- What the loop of the stores leaves in the memory.
use vibe_gba.Prelude.{
  ℕ, zero, suc, ◌+◌, ◌*◌, ◌%◌, ◌^◌, ◌≤◌, ◌<◌, ◌≡◌, refl, ◌∙◌, arith, true, false, Bool-cases, inl,
  inr, ne→not_==, ==_self,
}
use vibe_gba.Prelude.Bits.{bit_set}
use vibe_gba.Bus.Port.{Port}
use vibe_gba.Bus.Memory.{IsMemory}
use vibe_gba.Arm7tdmi.Loops.{for_each}
use vibe_gba.Arm7tdmi.Arm.Transfer.{Walk}
use vibe_gba.Arm7tdmi.Thumb.Transfer.{store_step}
use vibe_gba.Arm7tdmi.Thumb.Lists.{
  slots, Stored, slots_in, slots_out, next_addr, Fits, Fits-out, Fits-in,
}

module _ {S : Type 0} (port : Port S) (lo hi : ℕ) (word : S → ℕ → ℕ)
    (m : IsMemory S port lo hi word) (rlist : ℕ) where
  module _ (value : ℕ → ℕ) (words : (i : ℕ) → value i < 2 ^ 32) where
    pub record HasStored (first n : ℕ) (t t' : Walk S) : Type 0 where
      pub addr : t'.addr ≡ t.addr + 4 * slots rlist first n
      pub frame : (b : ℕ) → lo ≤ b → b < t.addr → b % 4 ≡ 0 → word t'.bus b ≡ word t.bus b
      pub stored : Stored rlist value (word t'.bus) t.addr first n

    store_in :
        (first : ℕ) (t : Walk S)
        → bit_set rlist first ≡ true
        → t.addr + 4 < 2 ^ 32
        → store_step port rlist value first t
          ≡ record t { addr = t.addr + 4; bus = port.write32 t.addr (value first) t.bus }
    unfolding store_step
    store_in first t e h = rw (e, next_addr t.addr h) refl

    store_out :
        (first : ℕ) (t : Walk S)
        → bit_set rlist first ≡ false
        → store_step port rlist value first t ≡ t
    unfolding store_step
    store_out first t e = rw e refl

    module _ (first n : ℕ) (t t' : Walk S) (f : Fits port lo hi word m rlist first (suc n) t) where
      abbrev pushed : Walk S
      pushed = record t { addr = t.addr + 4; bus = port.write32 t.addr (value first) t.bus }

      extend_in :
          bit_set rlist first ≡ true
          → HasStored (suc first) n pushed t'
          → HasStored first (suc n) t t'
      extend_in e h =
          let k = slots_in rlist first n e in
          let written = λ (b : ℕ) (p : lo ≤ b) (q : b ≤ t.addr) (l : b % 4 ≡ 0).
            m.writes t.addr (value first) b t.bus f.above (omega (arith, k, f.below)) f.aligned p
              (omega (arith, q, k, f.below)) l (words first) in
          record {
            addr = omega (arith, k, h.addr);
            frame = λ b p l a.
                h.frame b p (omega arith) a
                ∙ written b p (omega arith) a
                ∙ rw (ne→not_== t.addr b (omega arith)) refl;
            stored =
                unfold Stored in
                rw e (
                  h.frame t.addr f.above (omega arith) f.aligned
                      ∙ written t.addr f.above (omega arith) f.aligned
                      ∙ rw (==_self t.addr) refl,
                  h.stored,
                );
          }

      extend_out :
          bit_set rlist first ≡ false → HasStored (suc first) n t t' → HasStored first (suc n) t t'
      extend_out e h = record {
        addr = omega (arith, slots_out rlist first n e, h.addr);
        frame = h.frame;
        stored = unfold Stored in rw e h.stored;
      }

    pub for_each-HasStored :
        (n first : ℕ) (t : Walk S)
        → Fits port lo hi word m rlist first n t
        → HasStored first n t (for_each first n (store_step port rlist value) t)
    unfolding for_each
    for_each-HasStored zero first t f =
        unfold slots Stored in
        record { addr = omega arith; frame = λ b p l a. refl; stored = omega arith }
    for_each-HasStored (suc n) first t f = elim (Bool-cases (bit_set rlist first)) [
      | inl e ↦
          let t1 = pushed first n t t f in
          rw (store_in first t e (omega (arith, slots_in rlist first n e, f.no_wrap))) (
            extend_in first n t _ f e (
              for_each-HasStored n (suc first) t1
                (Fits-in port lo hi word m rlist first n t t1 e refl f)))
      | inr e ↦ rw (store_out first t e) (
          extend_out first n t _ f e
            (for_each-HasStored n (suc first) t (Fits-out port lo hi word m rlist first n t e f)))
    ]
