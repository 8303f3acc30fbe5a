-- ===== src/Arm7tdmi/Thumb/Stack.antt =====
-- PUSH and the POP of the same list.
use vibe_gba.Prelude.{
  ℕ, ◌+◌, ◌-◌, ◌*◌, ◌%◌, ◌^◌, ◌≤◌, ◌<◌, ◌≡◌, refl, ap, ◌∙◌, arith, Bool, true, false, ◌==◌,
  if◌then◌else◌, Bool-cases, inl, inr, to_ℕ, length, get_or, set, length-set, get_or-set_self,
  get_or-set_ne, eq→==, ne→not_==,
}
use vibe_gba.Prelude.Bits.{bit_set}
use vibe_gba.Prelude.Slices.{get_or-set}
use vibe_gba.Bus.Port.{Port}
use vibe_gba.Bus.Memory.{IsMemory}
use vibe_gba.Arm7tdmi.Cpu.{Cpu, reg, even, branch, wrapping_sub}
use vibe_gba.Arm7tdmi.Loops.{for_each, count_ones}
use vibe_gba.Arm7tdmi.Arm.Data.{put}
use vibe_gba.Arm7tdmi.Arm.Transfer.{Walk}
use vibe_gba.Arm7tdmi.Thumb.Transfer.{store_step, load_step, thumb_push, thumb_pop}
use vibe_gba.Arm7tdmi.Thumb.Lists.{slots, Stored, Stored_frame, count_ones-slots, Fits}
use vibe_gba.Arm7tdmi.Thumb.Lists.Stores.{HasStored, for_each-HasStored}
use vibe_gba.Arm7tdmi.Thumb.Lists.Loads.{HasLoaded, for_each-HasLoaded}
use vibe_gba.Arm7tdmi.Thumb.Pops.{pop_without, pop_with}

-- What POP leaves in `e` from `d`, after PUSH in `c`.
pub record IsRestored (rlist : ℕ) (link : Bool) (c d e : Cpu) : Type 0 where
  pub low :
      (r : ℕ)
      → r < 8
      → get_or e.regs r 0 ≡ (if bit_set rlist r then get_or c.regs r 0 else get_or d.regs r 0)
  pub sp : get_or e.regs 13 0 ≡ get_or c.regs 13 0
  pub pc : link ≡ true → get_or e.regs 15 0 ≡ even (get_or c.regs 14 0)

module _ {S : Type 0} (port : Port S) (lo hi : ℕ) (word : S → ℕ → ℕ)
    (m : IsMemory S port lo hi word) (c : Cpu) (bus : S) where
  abbrev sp : ℕ
  sp = get_or c.regs 13 0

  -- The block of the stack that an opcode needs.
  abbrev need : ℕ → ℕ
  need opcode = 4 * (count_ones 8 (opcode % 2 ^ 8) + to_ℕ (bit_set opcode 8))

  pub record HasRoom (opcode : ℕ) : Type 0 where
    pub size : length c.regs ≡ 16
    pub words : (r : ℕ) → get_or c.regs r 0 < 2 ^ 32
    pub aligned : sp % 4 ≡ 0
    pub room : lo + need opcode ≤ sp
    pub top : sp ≤ hi
    pub no_wrap : sp < 2 ^ 32

  module _ (opcode : ℕ) (h : HasRoom opcode) where
    abbrev base : ℕ
    base = sp - need opcode

    abbrev rlist : ℕ
    rlist = opcode % 2 ^ 8

    abbrev c' : Cpu
    c' = put 13 base c

    abbrev start : Walk S
    start = record { addr = base; cpu = c'; bus = bus }

    abbrev walked : Walk S
    walked = for_each 0 8 (store_step port rlist (λ (i : ℕ). reg i c')) start

    base-eq : wrapping_sub sp ((count_ones 8 rlist + to_ℕ (bit_set opcode 8)) * 4) ≡ base
    base-eq = omega (arith, h.room, h.no_wrap)

    value-lt : (i : ℕ) → reg i c' < 2 ^ 32
    unfolding reg put
    value-lt i = ground (arith, get_or-set c.regs 13 (i % 16) base 0, h.words (i % 16), h.no_wrap)

    fits : Fits port lo hi word m rlist 0 8 start
    fits =
        let k = count_ones-slots 8 rlist in
        record {
          aligned = omega (arith, h.aligned, h.room);
          above = omega (arith, h.room);
          below = omega (arith, k, h.room, h.top);
          no_wrap = omega (arith, k, h.room, h.no_wrap);
        }

    done : HasStored port lo hi word m rlist (λ (i : ℕ). reg i c') value-lt 0 8 start walked
    done = for_each-HasStored port lo hi word m rlist (λ (i : ℕ). reg i c') value-lt 8 0 start fits

    abbrev final : S
    final = (thumb_push port opcode c bus).1

    final_without : bit_set opcode 8 ≡ false → final ≡ walked.bus
    unfolding thumb_push put
    final_without e = rw (base-eq, e) refl

    final_with :
        bit_set opcode 8 ≡ true → final ≡ port.write32 walked.addr (get_or c'.regs 14 0) walked.bus
    unfolding thumb_push put
    final_with e = rw (base-eq, e) refl

    -- The link register stands above the list.
    module _ (e : bit_set opcode 8 ≡ true) where
      walked-addr : walked.addr ≡ base + 4 * slots rlist 0 8
      walked-addr = done.addr

      link-need : need opcode ≡ 4 * slots rlist 0 8 + 4
      link-need = let k = count_ones-slots 8 rlist in ground arith

      link-reg : get_or c'.regs 14 0 ≡ get_or c.regs 14 0
      unfolding put
      link-reg = get_or-set_ne c.regs 13 14 base 0 (omega arith)

      link-word :
          (b : ℕ)
          → base ≤ b
          → b + 4 ≤ hi
          → b % 4 ≡ 0
          → word final b ≡ (if walked.addr == b then get_or c'.regs 14 0 else word walked.bus b)
      link-word b p t a =
          ap (λ (s : S). word s b) (final_with e)
          ∙ m.writes walked.addr (get_or c'.regs 14 0) b walked.bus
              (omega (arith, walked-addr, h.room))
              (omega (arith, walked-addr, link-need, h.room, h.top))
              (omega (arith, walked-addr, h.aligned, h.room, link-need)) (omega (arith, p, h.room))
              t a (omega (arith, link-reg, h.words 14))

      link-stored : word final (base + 4 * slots rlist 0 8) ≡ get_or c.regs 14 0
      link-stored =
          link-word (base + 4 * slots rlist 0 8) (omega arith)
            (omega (arith, link-need, h.room, h.top)) (omega (arith, h.aligned, h.room, link-need))
          ∙ rw (eq→== walked.addr (base + 4 * slots rlist 0 8) walked-addr) link-reg

    final-stored : Stored rlist (λ (i : ℕ). reg i c') (word final) base 0 8
    final-stored = elim (Bool-cases (bit_set opcode 8)) [
      | inl e ↦
          Stored_frame rlist (λ (i : ℕ). reg i c') (word walked.bus) (word final) 8 0 base
            (λ b l k q.
              link-word e b l (omega (arith, k, link-need e, q, h.aligned, h.room, h.top))
                (omega (arith, q, h.aligned, h.room))
              ∙ rw (ne→not_== walked.addr b (omega (arith, walked-addr e))) refl)
            done.stored
      | inr e ↦ rw (final_without e) done.stored
    ]

    pushed_cpu : (thumb_push port opcode c bus).0 ≡ c'
    unfolding thumb_push put
    pushed_cpu = rw base-eq refl

    pushed_sp : get_or (thumb_push port opcode c bus).0.regs 13 0 ≡ base
    unfolding put
    pushed_sp =
        ap (λ (x : Cpu). get_or x.regs 13 0) pushed_cpu
        ∙ get_or-set_self c.regs 13 base 0 (omega (arith, h.size))

    -- What runs in between leaves the block of the stack.
    module _ (next : ℕ) (same_list : next % 2 ^ 8 ≡ rlist)
        (same_link : bit_set next 8 ≡ bit_set opcode 8) (d : Cpu) (size : length d.regs ≡ 16)
        (at : get_or d.regs 13 0 ≡ base) (bus' : S)
        (kept : (b : ℕ) → base ≤ b → b < sp → word bus' b ≡ word final b) where
      abbrev origin : Walk S
      origin = record { addr = base; cpu = d; bus = bus' }

      abbrev popped : Walk S
      popped = for_each 0 8 (load_step port rlist) origin

      loads : HasLoaded port lo hi word m rlist (λ (i : ℕ). reg i c') 0 8 origin popped
      loads =
          let k = count_ones-slots 8 rlist in
          for_each-HasLoaded port lo hi word m rlist (λ (i : ℕ). reg i c') 8 0 origin (omega arith)
            size
            (record {
              aligned = fits.aligned;
              above = fits.above;
              below = fits.below;
              no_wrap = fits.no_wrap;
            })
            (Stored_frame rlist (λ (i : ℕ). reg i c') (word final) (word bus') 8 0 base
              (λ b l j q. kept b l (omega (arith, k, h.room))) final-stored)

      value-reg : (r : ℕ) → r < 8 → reg r c' ≡ get_or c.regs r 0
      unfolding reg put
      value-reg r l =
          get_or-set_ne c.regs 13 (r % 16) base 0 (omega arith)
          ∙ ap (λ (t : ℕ). get_or c.regs t 0) (omega arith)

      popped_sp : popped.addr ≡ base + 4 * slots rlist 0 8
      popped_sp = loads.addr

      low_regs :
          (r : ℕ)
          → r < 8
          → get_or popped.cpu.regs r 0
            ≡ (if bit_set rlist r then get_or c.regs r 0 else get_or d.regs r 0)
      low_regs r l = loads.regs r ∙ ground (arith, value-reg r l)

      top_of :
          (link : Bool) → bit_set opcode 8 ≡ link → base + 4 * slots rlist 0 8 + 4 * to_ℕ link ≡ sp
      top_of link e = let k = count_ones-slots 8 rlist in ground (arith, h.room)

      IsRestored-without :
          bit_set opcode 8 ≡ false → IsRestored rlist false c d (thumb_pop port next d bus').0
      IsRestored-without e =
          rw (pop_without port next rlist base d bus' (same_link ∙ e) same_list at) (
            unfold put in
            record {
              low = λ r l.
                  get_or-set_ne popped.cpu.regs 13 r popped.addr 0 (omega arith) ∙ low_regs r l;
              sp =
                  get_or-set_self popped.cpu.regs 13 popped.addr 0 (omega (arith, loads.size))
                  ∙ popped_sp
                  ∙ omega (arith, top_of false e);
              pc = λ p. cc;
            })

      -- The word that POP takes for the program counter.
      pulled_pc :
          bit_set opcode 8 ≡ true → (port.read32 popped.addr popped.bus).1 ≡ get_or c.regs 14 0
      pulled_pc e =
          let t = link-need e in
          m.reads popped.addr popped.bus (omega (arith, popped_sp, h.room))
            (omega (arith, popped_sp, t, h.room, h.top))
            (omega (arith, popped_sp, h.aligned, h.room, t))
          ∙ ap (λ (w : ℕ → ℕ). w popped.addr) loads.kept
          ∙ kept popped.addr (omega (arith, popped_sp)) (omega (arith, popped_sp, t, h.room))
          ∙ ap (word final) popped_sp
          ∙ link-stored e

      IsRestored-with :
          bit_set opcode 8 ≡ true → IsRestored rlist true c d (thumb_pop port next d bus').0
      IsRestored-with e =
          let v = (port.read32 popped.addr popped.bus).1 in
          let a = (popped.addr + 4) % 2 ^ 32 in
          let rs = set popped.cpu.regs 15 (even v) in
          rw (pop_with port next rlist base d bus' (same_link ∙ e) same_list at) (
            unfold put branch in
            record {
              low = λ r l.
                  get_or-set_ne rs 13 r a 0 (omega arith)
                  ∙ get_or-set_ne popped.cpu.regs 15 r (even v) 0 (omega arith)
                  ∙ low_regs r l;
              sp =
                  get_or-set_self rs 13 a 0
                    (omega (arith, length-set popped.cpu.regs 15 (even v), loads.size))
                  ∙ omega (arith, popped_sp, top_of true e, h.no_wrap);
              pc = λ p.
                  get_or-set_ne rs 13 15 a 0 (omega arith)
                  ∙ get_or-set_self popped.cpu.regs 15 (even v) 0 (omega (arith, loads.size))
                  ∙ ap even (pulled_pc e);
            })

      restored : IsRestored rlist (bit_set opcode 8) c d (thumb_pop port next d bus').0
      restored = elim (Bool-cases (bit_set opcode 8)) [
        | inl e ↦ rw e (IsRestored-with e)
        | inr e ↦ rw e (IsRestored-without e)
      ]

  -- Where the processor has room for the list below its stack pointer, in a memory, a PUSH and then,
  -- in any state whose stack pointer is the one that PUSH left and whose memory still holds that block
  -- of the stack, the POP of the same list gives back: the registers of the list, with all the other
  -- low registers left alone, the stack pointer of before the PUSH and, where the list had the link
  -- register, the program counter at that return address.
  pub thumb_pop-thumb_push :
      (opcode next : ℕ)
      → HasRoom opcode
      → next % 2 ^ 8 ≡ opcode % 2 ^ 8
      → bit_set next 8 ≡ bit_set opcode 8
      → (d : Cpu) → length d.regs ≡ 16
      → get_or d.regs 13 0 ≡ get_or (thumb_push port opcode c bus).0.regs 13 0
      → (bus' : S)
      → ((b : ℕ)
          → get_or d.regs 13 0 ≤ b
          → b < get_or c.regs 13 0
          → word bus' b ≡ word (thumb_push port opcode c bus).1 b)
      → IsRestored (opcode % 2 ^ 8) (bit_set opcode 8) c d (thumb_pop port next d bus').0
  thumb_pop-thumb_push opcode next h list link d size at bus' kept =
      let below = at ∙ pushed_sp opcode h in
      restored opcode h next list link d size below bus'
        (λ b l k. kept b (omega (arith, below, l)) k)
