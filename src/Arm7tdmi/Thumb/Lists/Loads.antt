-- ===== src/Arm7tdmi/Thumb/Lists/Loads.antt =====
-- What the loop of the loads leaves in the registers.
use vibe_gba.Prelude.{
  ℕ, zero, suc, ◌+◌, ◌*◌, ◌^◌, ◌≤◌, ◌<◌, ◌≡◌, refl, sym, subst, ◌∙◌, arith, true, false, ◌&&◌, ◌==◌,
  if◌then◌else◌, Bool-cases, inl, inr, ltb, leb, length, get_or, length-set, ==→eq, lt→not_leb,
  le→leb, lt→ltb, get_or-set_self,
}
use vibe_gba.Prelude.Bits.{bit_set}
use vibe_gba.Prelude.Slices.{get_or-set}
use vibe_gba.Bus.Port.{Port}
use vibe_gba.Bus.Memory.{IsMemory}
use vibe_gba.Arm7tdmi.Loops.{for_each}
use vibe_gba.Arm7tdmi.Arm.Data.{put}
use vibe_gba.Arm7tdmi.Arm.Transfer.{Walk}
use vibe_gba.Arm7tdmi.Thumb.Transfer.{load_step}
use vibe_gba.Arm7tdmi.Thumb.Lists.{
  slots, Stored, slots_in, slots_out, Stored_in, Stored_out, next_addr, Fits, Fits-out, Fits-in,
}

module _ {S : Type 0} (port : Port S) (lo hi : ℕ) (word : S → ℕ → ℕ)
    (m : IsMemory S port lo hi word) (rlist : ℕ) where
  -- The loads put back what the words hold, and change no other register.
  module _ (value : ℕ → ℕ) where
    pub record HasLoaded (first n : ℕ) (t t' : Walk S) : Type 0 where
      pub addr : t'.addr ≡ t.addr + 4 * slots rlist first n
      pub kept : word t'.bus ≡ word t.bus
      pub size : length t'.cpu.regs ≡ 16
      pub regs :
          (r : ℕ)
          → get_or t'.cpu.regs r 0 ≡ (
              if leb first r && ltb r (first + n) && bit_set rlist r
              then value r
              else get_or t.cpu.regs r 0)

    load_in :
        (first : ℕ) (t : Walk S)
        → bit_set rlist first ≡ true
        → t.addr + 4 < 2 ^ 32
        → load_step port rlist first t ≡ record {
          addr = t.addr + 4;
          cpu = put first (port.read32 t.addr t.bus).1 t.cpu;
          bus = (port.read32 t.addr t.bus).0;
        }
    unfolding load_step
    load_in first t e h = rw (e, next_addr t.addr h) refl

    load_out :
        (first : ℕ) (t : Walk S) → bit_set rlist first ≡ false → load_step port rlist first t ≡ t
    unfolding load_step
    load_out first t e = rw e refl

    module _ (first n : ℕ) (t t' : Walk S) (f : Fits port lo hi word m rlist first (suc n) t)
        (s : Stored rlist value (word t.bus) t.addr first (suc n)) where
      abbrev pulled : Walk S
      pulled = record {
        addr = t.addr + 4;
        cpu = put first (port.read32 t.addr t.bus).1 t.cpu;
        bus = (port.read32 t.addr t.bus).0;
      }

      pulled_value : bit_set rlist first ≡ true → (port.read32 t.addr t.bus).1 ≡ value first
      pulled_value e =
          let k = slots_in rlist first n e in
          m.reads t.addr t.bus f.above (omega (arith, k, f.below)) f.aligned
          ∙ (Stored_in rlist value (word t.bus) t.addr first n e s).0

      module _ (l : first < 16) (z : length t.cpu.regs ≡ 16) (e : bit_set rlist first ≡ true)
          (h : HasLoaded (suc first) n pulled t') where
        grow_first : get_or t'.cpu.regs first 0 ≡ value first
        unfolding put
        grow_first =
            h.regs first
            ∙ rw (lt→not_leb (suc first) first (omega arith))
                (get_or-set_self t.cpu.regs first (port.read32 t.addr t.bus).1 0 (omega (arith, z)))
            ∙ pulled_value e

        grow_regs :
            (r : ℕ)
            → get_or t'.cpu.regs r 0 ≡ (
                if leb first r && ltb r (first + suc n) && bit_set rlist r
                then value r
                else get_or t.cpu.regs r 0)
        unfolding put
        grow_regs r = elim (Bool-cases (first == r)) [
          | inl q ↦
              subst
                (λ (x : ℕ). get_or t'.cpu.regs x 0 ≡ (
                  if leb first x && ltb x (first + suc n) && bit_set rlist x
                  then value x
                  else get_or t.cpu.regs x 0))
                (==→eq first r q)
                (rw
                  (le→leb first first (omega arith), lt→ltb first (first + suc n) (omega arith), e)
                  grow_first)
          | inr q ↦
              h.regs r
              ∙ ground (arith, get_or-set t.cpu.regs first r (port.read32 t.addr t.bus).1 0)
        ]

        grow_in : HasLoaded first (suc n) t t'
        grow_in = record {
          addr = omega (arith, slots_in rlist first n e, h.addr);
          kept = h.kept ∙ m.keeps t.addr t.bus;
          size = h.size;
          regs = grow_regs;
        }

      grow_out :
          bit_set rlist first ≡ false → HasLoaded (suc first) n t t' → HasLoaded first (suc n) t t'
      grow_out e h = record {
        addr = omega (arith, slots_out rlist first n e, h.addr);
        kept = h.kept;
        size = h.size;
        regs = λ r. elim (Bool-cases (first == r)) [
          | inl q ↦ h.regs r ∙ rw (← ==→eq first r q, e) (ground arith)
          | inr q ↦ h.regs r ∙ ground arith
        ];
      }

    pub for_each-HasLoaded :
        (n first : ℕ) (t : Walk S)
        → first + n ≤ 16
        → length t.cpu.regs ≡ 16
        → Fits port lo hi word m rlist first n t
        → Stored rlist value (word t.bus) t.addr first n
        → HasLoaded first n t (for_each first n (load_step port rlist) t)
    unfolding for_each
    for_each-HasLoaded zero first t l z f s =
        unfold slots in
        record { addr = omega arith; kept = refl; size = z; regs = λ r. ground arith }
    for_each-HasLoaded (suc n) first t l z f s = elim (Bool-cases (bit_set rlist first)) [
      | inl e ↦
          let t1 = pulled first n t t f s in
          rw (load_in first t e (omega (arith, slots_in rlist first n e, f.no_wrap))) (
            grow_in first n t _ f s (omega arith) z e (
              for_each-HasLoaded n (suc first) t1 (omega arith)
                (unfold put in length-set t.cpu.regs first _ ∙ z)
                (Fits-in port lo hi word m rlist first n t t1 e refl f)
                (subst (λ (w : ℕ → ℕ). Stored rlist value w (t.addr + 4) (suc first) n)
                  (sym (m.keeps t.addr t.bus))
                  (Stored_in rlist value (word t.bus) t.addr first n e s).1)))
      | inr e ↦ rw (load_out first t e) (
          grow_out first n t _ f s e (
            for_each-HasLoaded n (suc first) t (omega arith) z
              (Fits-out port lo hi word m rlist first n t e f)
              (Stored_out rlist value (word t.bus) t.addr first n e s)))
    ]
