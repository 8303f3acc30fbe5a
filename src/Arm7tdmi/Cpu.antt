-- ===== src/Arm7tdmi/Cpu.antt =====
-- gba-core/src/arm7tdmi/mod.rs: the registers of the processor, their banks, and the entry to and
-- the return from an exception. Fetching and decoding are not here; the tracing is left out.
pub mod Shape
pub mod View
pub mod Banking
pub mod User
pub mod Exception
pub mod Return
mod Examples
use vibe_gba.Prelude.{
  ℕ, ◌+◌, ◌-◌, ◌*◌, ◌/◌, ◌%◌, ◌^◌, bit_and, Bool, true, false, ◌&&◌, ◌||◌, Option, none, List, [],
  ◌∷◌, ltb, ◌==◌, if◌then◌else◌, get_or, set, replicate,
}
use vibe_gba.Prelude.Bits.{not32}
use vibe_gba.Prelude.Slices.{slice, copy_into}
use vibe_gba.Arm7tdmi.Psr
use vibe_gba.Arm7tdmi.Psr.{
  CpuMode, user, fiq, irq, supervisor, abort, undefined, system, bank_index, has_spsr, is_mode, Psr,
  mode, thumb, set_thumb, set_mode, disable_irq, set_bit,
}

pub record BankedRegisters : Type 0 where
  pub sp : List ℕ
  pub lr : List ℕ
  pub fiq_r8_r12 : List ℕ
  pub usr_r8_r12 : List ℕ
  pub spsr : List Psr

abbrev pub no_psr : Psr
no_psr = record { bits = 0 }

unfoldable pub new_banked : BankedRegisters
new_banked = record {
  sp = replicate 6 0;
  lr = replicate 6 0;
  fiq_r8_r12 = replicate 5 0;
  usr_r8_r12 = replicate 5 0;
  spsr = replicate 5 no_psr;
}

pub record Cpu : Type 0 where
  pub regs : List ℕ
  pub cpsr : Psr
  pub banked : BankedRegisters
  pub pipeline : List ℕ
  pub pipeline_flushed : Bool
  pub irq_entries : ℕ
  pub halted : Bool
  pub intrwait_mask : ℕ
  pub pending_swi : Option ℕ

unfoldable pub new : Cpu
unfolding new_banked
new = record {
  regs = replicate 16 0;
  cpsr = Psr.new supervisor;
  banked = new_banked;
  pipeline = replicate 2 0;
  pipeline_flushed = true;
  irq_entries = 0;
  halted = false;
  intrwait_mask = 0;
  pending_swi = none;
}

-- `sp[Irq] = ...`, `sp[Supervisor] = ...`, and both interrupts enabled.
unfoldable pub new_skip_bios : Cpu
unfolding new new_banked
new_skip_bios = record new {
  cpsr = record { bits = bit_and (bit_and (Psr.new system).bits (not32 (2 ^ 7))) (not32 (2 ^ 6)) };
  regs = set (set new.regs 13 0x03007f00) 15 0x08000000;
  banked = record new_banked {
    sp = set (set new_banked.sp (bank_index irq) 0x03007fa0) (bank_index supervisor) 0x03007fe0;
  };
  pipeline_flushed = true;
}

abbrev pub current_mode : Cpu → CpuMode
current_mode c = mode c.cpsr

-- The stack pointer and the link register go to the bank of the old mode.
unfoldable pub bank_out : ℕ → Cpu → Cpu
bank_out old_bank c = record c {
  banked = record c.banked {
    sp = set c.banked.sp old_bank (get_or c.regs 13 0);
    lr = set c.banked.lr old_bank (get_or c.regs 14 0);
  };
}

-- The registers 8 to 12 are exchanged on the way out of and into the mode FIQ.
unfoldable pub swap_fiq : CpuMode → CpuMode → Cpu → Cpu
swap_fiq old_mode new_mode c =
    if is_mode old_mode fiq
    then record c {
      banked = record c.banked { fiq_r8_r12 = slice 8 5 c.regs };
      regs = copy_into 8 c.banked.usr_r8_r12 c.regs;
    }
    else if is_mode new_mode fiq
    then record c {
      banked = record c.banked { usr_r8_r12 = slice 8 5 c.regs };
      regs = copy_into 8 c.banked.fiq_r8_r12 c.regs;
    }
    else c

unfoldable pub bank_in : ℕ → Cpu → Cpu
bank_in new_bank c = record c {
  regs = set (set c.regs 13 (get_or c.banked.sp new_bank 0)) 14 (get_or c.banked.lr new_bank 0);
}

unfoldable pub switch_mode : CpuMode → Cpu → Cpu
unfolding bank_out swap_fiq bank_in
switch_mode new_mode c =
    let old_mode = current_mode c in
    if is_mode old_mode new_mode
    then c
    else (let c' =
          bank_in (bank_index new_mode)
            (swap_fiq old_mode new_mode (bank_out (bank_index old_mode) c)) in
        record c' { cpsr = set_mode new_mode c'.cpsr })

-- The place of a mode's SPSR. User and System have none and are not asked for it.
unfoldable pub spsr_index : CpuMode → ℕ
spsr_index fiq = 0
spsr_index irq = 1
spsr_index supervisor = 2
spsr_index abort = 3
spsr_index undefined = 4
spsr_index _ = 0

unfoldable pub spsr : Cpu → Psr
unfolding spsr_index
spsr c =
    if has_spsr (current_mode c)
    then get_or c.banked.spsr (spsr_index (current_mode c)) no_psr
    else c.cpsr

unfoldable pub set_spsr : Psr → Cpu → Cpu
unfolding spsr_index
set_spsr psr c =
    if has_spsr (current_mode c)
    then record c {
      banked = record c.banked { spsr = set c.banked.spsr (spsr_index (current_mode c)) psr };
    }
    else c

abbrev pub wrapping_sub : ℕ → ℕ → ℕ
wrapping_sub a b = (a + (2 ^ 32 - b)) % 2 ^ 32

-- The entry to an exception from its return address on.
unfoldable pub enter : CpuMode → ℕ → ℕ → Cpu → Cpu
unfolding switch_mode set_spsr
enter new_mode return_addr vector c =
    let c' = set_spsr c.cpsr (switch_mode new_mode c) in
    record c' {
      regs = set (set c'.regs 14 return_addr) 15 vector;
      cpsr = disable_irq (set_thumb false c'.cpsr);
      pipeline_flushed = true;
    }

-- The processor, and the word that the bus then keeps as its BIOS latch.
unfoldable pub handle_interrupt : Cpu → Cpu × ℕ
unfolding enter
handle_interrupt c =
    let pc = get_or c.regs 15 0 in
    (enter irq (if thumb c.cpsr then pc else wrapping_sub pc 4) 0x18 c, 0xe25ef004)

unfoldable pub software_interrupt : Cpu → Cpu
unfolding enter
software_interrupt c =
    let pc = get_or c.regs 15 0 in
    enter supervisor (if thumb c.cpsr then wrapping_sub pc 2 else wrapping_sub pc 4) 0x08 c

unfoldable pub branch : ℕ → Cpu → Cpu
branch addr c = record c { regs = set c.regs 15 addr; pipeline_flushed = true }

-- `addr & !1` of a word.
abbrev pub even : ℕ → ℕ
even addr = addr / 2 * 2

unfoldable pub branch_exchange : ℕ → Cpu → Cpu
branch_exchange addr c = record c {
  cpsr = set_thumb (addr % 2 == 1) c.cpsr;
  regs = set c.regs 15 (even addr);
  pipeline_flushed = true;
}

unfoldable pub reg : ℕ → Cpu → ℕ
reg r c = get_or c.regs (r % 16) 0

unfoldable pub set_reg : ℕ → ℕ → Cpu → Cpu
unfolding branch
set_reg r val c =
    if r % 16 == 15 then branch (even val) c else record c { regs = set c.regs (r % 16) val }

unfoldable pub read_user_reg : ℕ → Cpu → ℕ
read_user_reg n c =
    let r = n % 16 in
    let m = current_mode c in
    if ltb r 8 || r == 15
    then get_or c.regs r 0
    else if ltb r 13
    then if is_mode m fiq then get_or c.banked.usr_r8_r12 (r - 8) 0 else get_or c.regs r 0
    else if r == 13
    then if bank_index m == 0 then get_or c.regs 13 0 else get_or c.banked.sp 0 0
    else if bank_index m == 0
    then get_or c.regs 14 0
    else get_or c.banked.lr 0 0

unfoldable pub write_user_reg : ℕ → ℕ → Cpu → Cpu
write_user_reg n val c =
    let r = n % 16 in
    let m = current_mode c in
    let here = record c { regs = set c.regs r val } in
    if ltb r 8 || r == 15
    then here
    else if ltb r 13
    then if is_mode m fiq
      then record c {
        banked = record c.banked { usr_r8_r12 = set c.banked.usr_r8_r12 (r - 8) val };
      }
      else here
    else if r == 13
    then if bank_index m == 0
      then here
      else record c { banked = record c.banked { sp = set c.banked.sp 0 val } }
    else if bank_index m == 0
    then here
    else record c { banked = record c.banked { lr = set c.banked.lr 0 val } }

unfoldable pub set_reg_with_flags : ℕ → ℕ → Bool → Cpu → Cpu
unfolding spsr switch_mode branch
set_reg_with_flags r val s c =
    if r % 16 == 15
    then (let saved = spsr c in
        let c' = if s then record (switch_mode (mode saved) c) { cpsr = saved } else c in
        branch (even val) c')
    else record c { regs = set c.regs (r % 16) val }
