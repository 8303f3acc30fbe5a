-- ===== src/Arm7tdmi/Cpu/User.antt =====
-- The transfer of User registers from any mode, against the register file as User sees it.
use vibe_gba.Prelude.{
  ℕ, ◌-◌, ◌%◌, ◌<◌, ◌≡◌, arith, Bool, true, not, ◌&&◌, ◌||◌, ltb, ◌==◌, if◌then◌else◌,
}
use vibe_gba.Prelude.Slices.{get_or-set}
use vibe_gba.Arm7tdmi.Psr.{CpuMode, user, fiq, is_mode, mode_bits, bank_index}
use vibe_gba.Arm7tdmi.Cpu.{Cpu, read_user_reg, write_user_reg}
use vibe_gba.Arm7tdmi.Cpu.Shape.{HasShape}
use vibe_gba.Arm7tdmi.Cpu.View.{view_in, view}

-- A read returns what User sees, whatever the mode.
pub read_user_reg-view : (n : ℕ) (c : Cpu) → read_user_reg n c ≡ view user (n % 16) c
unfolding read_user_reg view view_in is_mode mode_bits bank_index
read_user_reg-view n c = ground arith

-- Whether a mode uses User's register `r`: all do but FIQ for 8 to 12, and those with a bank of
-- their own for 13 and 14.
pub shares : CpuMode → ℕ → Bool
shares m r =
    if ltb r 8 || r == 15 then true else if ltb r 13 then not (is_mode m fiq) else bank_index m == 0

fiq-not_shared : (m : CpuMode) → is_mode m fiq ≡ true → bank_index m ≡ 1
unfolding is_mode mode_bits bank_index
fiq-not_shared m e = ground arith

-- A write changes the one register, in every mode that uses User's, and no other register of any
-- mode.
pub view-write_user_reg :
    (m : CpuMode) (n r val : ℕ) (c : Cpu)
    → HasShape c
    → r < 16
    → view m r (write_user_reg n val c) ≡ (if r == n % 16 && shares m r then val else view m r c)
unfolding write_user_reg view view_in shares
view-write_user_reg m n r val c h l = ground (
  arith,
  h.regs,
  h.usr,
  h.sp,
  h.lr,
  fiq-not_shared m,
  get_or-set c.regs (n % 16) r val 0,
  get_or-set c.banked.usr_r8_r12 (n % 16 - 8) (r - 8) val 0,
  get_or-set c.banked.sp 0 (bank_index m) val 0,
  get_or-set c.banked.lr 0 (bank_index m) val 0,
)
