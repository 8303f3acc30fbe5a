-- ===== src/Arm7tdmi/Cpu/View.antt =====
-- The register file as each mode sees it, and that the steps of a switch leave every such view.
use vibe_gba.Prelude.{
  ℕ, ◌-◌, ◌<◌, ◌≡◌, ◌≢◌, sym, ◌∙◌, arith, true, false, ◌||◌, ltb, ◌==◌, if◌then◌else◌, length,
  get_or, set,
}
use vibe_gba.Prelude.Slices.{get_or-set}
use vibe_gba.Prelude.{List, length-set, get_or-set_ne}
use vibe_gba.Arm7tdmi.Psr.{CpuMode, fiq, is_mode, bank_index}
use vibe_gba.Arm7tdmi.Cpu.{Cpu, bank_out, swap_fiq, bank_in, current_mode}
use vibe_gba.Arm7tdmi.Cpu.Shape.{HasShape, bank_index-lt, bank_out-HasShape, swap_fiq-HasShape}

-- Register `r` of mode `m` while the processor is in mode `now`: the registers in use hold what
-- belongs to `now`, the banks what belongs to the other modes.
unfoldable pub view_in : CpuMode → CpuMode → ℕ → Cpu → ℕ
view_in now m r c =
    if ltb r 8 || r == 15
    then get_or c.regs r 0
    else if ltb r 13
    then if is_mode m fiq
      then if is_mode now fiq then get_or c.regs r 0 else get_or c.banked.fiq_r8_r12 (r - 8) 0
      else if is_mode now fiq
      then get_or c.banked.usr_r8_r12 (r - 8) 0
      else get_or c.regs r 0
    else if bank_index m == bank_index now
    then get_or c.regs r 0
    else get_or (if r == 13 then c.banked.sp else c.banked.lr) (bank_index m) 0

unfoldable pub view : CpuMode → ℕ → Cpu → ℕ
unfolding view_in
view m r c = view_in (current_mode c) m r c

-- The exchange of the registers 8 to 12 leaves the banks of the pointers.
swap_fiq-pointers :
    (old new : CpuMode) (c : Cpu)
    → ((swap_fiq old new c).banked.sp ≡ c.banked.sp)
      × ((swap_fiq old new c).banked.lr ≡ c.banked.lr)
unfolding swap_fiq
swap_fiq-pointers old new c = ground arith

-- Both modes cannot be FIQ when they differ.
pub is_mode-differ :
    (a b : CpuMode) → is_mode a b ≡ false → is_mode a fiq ≡ true → is_mode b fiq ≡ false
unfolding is_mode
is_mode-differ a b e f = ground arith

-- A pointer goes out to the bank `bo`, the one of the bank `bn` comes in: the bank `bm` is still seen.
module _ (regs bank : List ℕ) (bo bn bm x y : ℕ) (full : length regs ≡ 16)
    (banks : length bank ≡ 6) where
  pointer_13 :
      bo < 6
      → (if bm == bn
          then get_or (set (set regs 13 (get_or (set bank bo x) bn 0)) 14 y) 13 0
          else get_or (set bank bo x) bm 0)
        ≡ (if bm == bo then x else get_or bank bm 0)
  pointer_13 h =
      rw
        (
          get_or-set (set regs 13 (get_or (set bank bo x) bn 0)) 14 13 y 0,
          get_or-set regs 13 13 (get_or (set bank bo x) bn 0) 0,
          get_or-set bank bo bn x 0,
          get_or-set bank bo bm x 0,
          full,
          banks,
        )
        (ground arith)

  pointer_14 :
      bo < 6
      → (if bm == bn
          then get_or (set (set regs 13 y) 14 (get_or (set bank bo x) bn 0)) 14 0
          else get_or (set bank bo x) bm 0)
        ≡ (if bm == bo then x else get_or bank bm 0)
  pointer_14 h =
      rw
        (
          get_or-set (set regs 13 y) 14 14 (get_or (set bank bo x) bn 0) 0,
          length-set regs 13 y,
          get_or-set bank bo bn x 0,
          get_or-set bank bo bm x 0,
          full,
          banks,
        )
        (ground arith)

-- Where the registers are in place, a switch from `old` to `new` shows every mode what it saw.
module _ (old new m : CpuMode) (c : Cpu) (h : HasShape c) where
  unfoldable pub moved : Cpu
  moved = bank_in (bank_index new) (swap_fiq old new (bank_out (bank_index old) c))

  swapped-HasShape : HasShape (swap_fiq old new (bank_out (bank_index old) c))
  swapped-HasShape = swap_fiq-HasShape old new (bank_out-HasShape (bank_index old) h)

  pub stack_pointer : view_in new m 13 moved ≡ view_in old m 13 c
  unfolding view_in moved bank_in bank_out
  stack_pointer = rw ((swap_fiq-pointers old new (bank_out (bank_index old) c)).0) (
      pointer_13 (swap_fiq old new (bank_out (bank_index old) c)).regs c.banked.sp (bank_index old)
        (bank_index new) (bank_index m) (get_or c.regs 13 0) _ swapped-HasShape.regs h.sp
        (bank_index-lt old))

  pub link_register : view_in new m 14 moved ≡ view_in old m 14 c
  unfolding view_in moved bank_in bank_out
  link_register = rw ((swap_fiq-pointers old new (bank_out (bank_index old) c)).1) (
      pointer_14 (swap_fiq old new (bank_out (bank_index old) c)).regs c.banked.lr (bank_index old)
        (bank_index new) (bank_index m) (get_or c.regs 14 0) _ swapped-HasShape.regs h.lr
        (bank_index-lt old))

  -- The switch writes the registers 13 and 14 only, but for the exchange.
  pub other :
      (r : ℕ)
      → r ≢ 13
      → r ≢ 14
      → get_or moved.regs r 0 ≡ get_or (swap_fiq old new (bank_out (bank_index old) c)).regs r 0
  unfolding moved bank_in
  other r p q =
      get_or-set_ne (set _ 13 _) 14 r _ 0 (λ e. q (sym e))
      ∙ get_or-set_ne _ 13 r _ 0 (λ e. p (sym e))
