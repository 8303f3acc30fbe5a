-- ===== src/Arm7tdmi/Cpu/Banking.antt =====
-- A switch of the mode shows every mode the registers it saw before.
use vibe_gba.Prelude.{
  ℕ, ◌+◌, ◌-◌, ◌≤◌, ◌<◌, ◌≡◌, ◌⊎◌, inl, inr, refl, sym, ap, ◌∙◌, arith, Bool, true, false,
  Bool-cases, if◌then◌else◌, get_or, lt→ltb, le→not_ltb, ne→not_==,
}
use vibe_gba.Prelude.Slices.{slice, get_or-slice, get_or-copy_into}
use vibe_gba.Arm7tdmi.Psr.{CpuMode, fiq, is_mode, mode_bits, bank_index}
use vibe_gba.Arm7tdmi.Psr.Bits.{mode-set_mode}
use vibe_gba.Arm7tdmi.Cpu.{Cpu, bank_out, swap_fiq, bank_in, current_mode, switch_mode}
use vibe_gba.Arm7tdmi.Cpu.Shape.{HasShape, bank_out-HasShape}
use vibe_gba.Arm7tdmi.Cpu.View.{
  view_in, view, moved, other, stack_pointer, link_register, is_mode-differ,
}

-- The exchange touches the registers 8 to 12 only.
swap_fiq-outside :
    (old new : CpuMode) (c : Cpu) (r : ℕ)
    → HasShape c
    → (r < 8) ⊎ (13 ≤ r)
    → get_or (swap_fiq old new c).regs r 0 ≡ get_or c.regs r 0
unfolding swap_fiq
swap_fiq-outside old new c r h q = ground (
  arith,
  h.usr,
  h.fiq,
  get_or-copy_into 8 c.banked.usr_r8_r12 c.regs r 0,
  get_or-copy_into 8 c.banked.fiq_r8_r12 c.regs r 0,
)

-- The registers 8 to 12 of a mode, by whether it is FIQ and whether FIQ is in use.
high : Bool → Bool → ℕ → Cpu → ℕ
high m_fiq now_fiq r c =
    if m_fiq
    then if now_fiq then get_or c.regs r 0 else get_or c.banked.fiq_r8_r12 (r - 8) 0
    else if now_fiq
    then get_or c.banked.usr_r8_r12 (r - 8) 0
    else get_or c.regs r 0

view_in-high :
    (now m : CpuMode) (r : ℕ) (c : Cpu)
    → 8 ≤ r
    → r < 13
    → view_in now m r c ≡ high (is_mode m fiq) (is_mode now fiq) r c
unfolding view_in high
view_in-high now m r c lo hi =
    rw (le→not_ltb r 8 lo, ne→not_== r 15 (omega arith), lt→ltb r 13 hi) refl

view_in-low :
    (now m : CpuMode) (r : ℕ) (c : Cpu) → (r < 8) ⊎ (r ≡ 15) → view_in now m r c ≡ get_or c.regs r 0
unfolding view_in
view_in-low now m r c q = ground arith

-- What the exchange does to them.
swap_fiq-high :
    (old new : CpuMode) (c : Cpu) (m_fiq : Bool) (r : ℕ)
    → HasShape c
    → is_mode old new ≡ false
    → 8 ≤ r
    → r < 13
    → high m_fiq (is_mode new fiq) r (swap_fiq old new c) ≡ high m_fiq (is_mode old fiq) r c
unfolding swap_fiq high
swap_fiq-high old new c m_fiq r h d lo hi =
    let taken : get_or (slice 8 5 c.regs) (r - 8) 0 ≡ get_or c.regs r 0 =
      get_or-slice 8 5 c.regs (r - 8) 0 (omega arith) (omega (arith, h.regs))
      ∙ ap (λ (t : ℕ). get_or c.regs t 0) (back r lo) in
    let d' = is_mode-differ old new d in
    ground (
      arith,
      taken,
      d',
      h.regs,
      h.usr,
      h.fiq,
      get_or-copy_into 8 c.banked.usr_r8_r12 c.regs r 0,
      get_or-copy_into 8 c.banked.fiq_r8_r12 c.regs r 0,
    )
  where
    back : (r : ℕ) → 8 ≤ r → 8 + (r - 8) ≡ r
    back r l = omega arith

Place : ℕ → Type 0
Place r = ((r < 8) ⊎ (r ≡ 15)) ⊎ ((8 ≤ r) × (r < 13)) ⊎ (r ≡ 13) ⊎ (r ≡ 14)

place : (r : ℕ) → r < 16 → Place r
unfolding Place
place r h = omega arith

moved-high :
    (old new m : CpuMode) (c : Cpu) (h : HasShape c) (a b : Bool) (r : ℕ)
    → r < 13
    → high a b r (moved old new m c h) ≡ high a b r (swap_fiq old new (bank_out (bank_index old) c))
unfolding high
moved-high old new m c h true true r l = other old new m c h r (omega arith) (omega arith)
moved-high old new m c h true false r l = unfold moved bank_in in refl
moved-high old new m c h false true r l = unfold moved bank_in in refl
moved-high old new m c h false false r l = other old new m c h r (omega arith) (omega arith)

moved-view :
    (old new m : CpuMode) (c : Cpu) (h : HasShape c) (r : ℕ)
    → is_mode old new ≡ false
    → Place r
    → view_in new m r (moved old new m c h) ≡ view_in old m r c
unfolding Place
moved-view old new m c h r d (inl q) =
    view_in-low new m r (moved old new m c h) q
    ∙ other old new m c h r (omega arith) (omega arith)
    ∙ swap_fiq-outside old new (bank_out (bank_index old) c) r
        (bank_out-HasShape (bank_index old) h) (omega arith)
    ∙ unfold bank_out in sym (view_in-low old m r c q)
moved-view old new m c h r d (inr (inl (lo, hi))) =
    view_in-high new m r (moved old new m c h) lo hi
    ∙ moved-high old new m c h (is_mode m fiq) (is_mode new fiq) r hi
    ∙ swap_fiq-high old new (bank_out (bank_index old) c) (is_mode m fiq) r
        (bank_out-HasShape (bank_index old) h) d lo hi
    ∙ unfold bank_out high in sym (view_in-high old m r c lo hi)
moved-view old new m c h r d (inr (inr (inl e))) = rw e (stack_pointer old new m c h)
moved-view old new m c h r d (inr (inr (inr e))) = rw e (link_register old new m c h)

is_mode-eq : (a b : CpuMode) → is_mode a b ≡ true → a ≡ b
unfolding is_mode mode_bits
is_mode-eq a b e = ground arith

-- After a switch the processor is in the mode asked for.
pub current_mode-switch_mode : (new : CpuMode) (c : Cpu) → current_mode (switch_mode new c) ≡ new
unfolding switch_mode
current_mode-switch_mode new c = elim (Bool-cases (is_mode (current_mode c) new)) [
  | inl e ↦ rw e (is_mode-eq (current_mode c) new e)
  | inr e ↦ rw e (mode-set_mode new _)
]

view-same :
    (m new : CpuMode) (r : ℕ) (c : Cpu) (h : HasShape c)
    → is_mode (current_mode c) new ≡ false
    → view m r (switch_mode new c) ≡ view_in new m r (moved (current_mode c) new m c h)
unfolding view switch_mode moved view_in
view-same m new r c h e = rw (e, mode-set_mode new _) refl

-- A switch of the mode leaves the register file as each mode sees it: what was in use is banked,
-- and what the new mode then uses is what it had.
pub view-switch_mode :
    (m new : CpuMode) (r : ℕ) (c : Cpu)
    → HasShape c
    → r < 16
    → view m r (switch_mode new c) ≡ view m r c
view-switch_mode m new r c h l = elim (Bool-cases (is_mode (current_mode c) new)) [
  | inl e ↦ unfold switch_mode in rw e refl
  | inr e ↦
      view-same m new r c h e
      ∙ moved-view (current_mode c) new m c h r e (place r l)
      ∙ unfold view in refl
]
