-- ===== src/Arm7tdmi/Arm/Transfer.antt =====
-- gba-core/src/arm7tdmi/arm.rs: the instructions that use the bus. Each gives the processor, the bus
-- and its cycles.
use vibe_gba.Prelude.{ℕ, ◌+◌, ◌*◌, ◌%◌, ◌^◌, Bool, true, not, ◌&&◌, ◌||◌, ◌==◌, if◌then◌else◌}
use vibe_gba.Prelude.Bits.{bit_set}
use vibe_gba.Prelude.Words.{rotate_right}
use vibe_gba.Prelude.Int.{as_i8, as_i16, as_u32}
use vibe_gba.Bus.Port.{Port}
use vibe_gba.Arm7tdmi.Alu.{barrel_shift, shift_type_from_u8}
use vibe_gba.Arm7tdmi.Psr
use vibe_gba.Arm7tdmi.Cpu.{
  Cpu, reg, set_reg, branch, even, read_user_reg, write_user_reg, wrapping_sub,
}
use vibe_gba.Arm7tdmi.Loops.{for_each, count_ones, trailing_zeros, wrapping_add, word_aligned}
use vibe_gba.Arm7tdmi.Arm.Data.{field, put, restore_cpsr}

unfoldable pub offset_by : Bool → ℕ → ℕ → ℕ
offset_by up base offset = if up then wrapping_add base offset else wrapping_sub base offset

-- The writes to the base register of a single transfer: a loaded value wins over them.
unfoldable pub write_back : ℕ → ℕ → Cpu → Cpu
unfolding put
write_back opcode offset_addr c =
    let rn = field 16 4 opcode in
    if (not (bit_set opcode 24) || bit_set opcode 21)
      && not (bit_set opcode 20 && rn == field 12 4 opcode)
    then if not (rn == 15) then put rn offset_addr c else c
    else c

unfoldable pub single_offset : ℕ → Cpu → ℕ
single_offset opcode c =
    if not (bit_set opcode 25)
    then opcode % 2 ^ 12
    else (barrel_shift (reg (opcode % 2 ^ 4) c) (shift_type_from_u8 (field 5 2 opcode))
        (field 7 5 opcode) (Psr.c c.cpsr) true).0

unfoldable pub half_offset : ℕ → Cpu → ℕ
half_offset opcode c =
    if bit_set opcode 22 then field 8 4 opcode * 2 ^ 4 + opcode % 2 ^ 4 else reg (opcode % 2 ^ 4) c

-- What a block transfer reads from its opcode once.
pub record Block : Type 0 where
  pub load : Bool
  pub write_back : Bool
  pub restore : Bool
  pub user_bank : Bool
  pub rn : ℕ
  pub rlist : ℕ
  pub final_addr : ℕ

unfoldable pub block_of : ℕ → ℕ → Block
unfolding offset_by
block_of opcode base =
    let l = bit_set opcode 20 in
    let s = bit_set opcode 22 in
    let r15_in_list = bit_set opcode 15 in
    record {
      load = l;
      write_back = bit_set opcode 21;
      restore = s && r15_in_list;
      user_bank = s && not (l && r15_in_list);
      rn = field 16 4 opcode;
      rlist = opcode % 2 ^ 16;
      final_addr = offset_by (bit_set opcode 23) base (count_ones 16 (opcode % 2 ^ 16) * 4);
    }

unfoldable pub block_start : ℕ → ℕ → ℕ
block_start opcode base =
    let total = count_ones 16 (opcode % 2 ^ 16) * 4 in
    if bit_set opcode 23
    then if bit_set opcode 24 then wrapping_add base 4 else base
    else if bit_set opcode 24
    then wrapping_sub base total
    else wrapping_add (wrapping_sub base total) 4

-- The address of the only transfer of an empty list.
unfoldable pub empty_addr : ℕ → ℕ → ℕ
empty_addr opcode base =
    if bit_set opcode 23
    then if bit_set opcode 24 then wrapping_add base 4 else base
    else if bit_set opcode 24
    then wrapping_sub base 0x40
    else wrapping_sub base 0x3c

unfoldable pub load_into : Block → ℕ → ℕ → Cpu → Cpu
unfolding put restore_cpsr
load_into b i val c =
    if b.restore
    then if i == 15 then branch (even val) (restore_cpsr c) else put i val c
    else if i == 15
    then branch (even val) c
    else if b.user_bank
    then write_user_reg i val c
    else put i val c

-- A base register that is in the list and not the lowest there is stored as it will be.
unfoldable pub stored : Block → ℕ → Cpu → ℕ
stored b i c =
    if i == 15
    then wrapping_add (reg 15 c) 4
    else if i == b.rn
        && bit_set b.rlist b.rn
        && not (trailing_zeros 16 b.rlist == b.rn)
        && b.write_back
    then b.final_addr
    else if b.user_bank
    then read_user_reg i c
    else reg i c

pub record Walk (S : Type 0) : Type 0 where
  pub addr : ℕ
  pub cpu : Cpu
  pub bus : S

module _ {S : Type 0} (port : Port S) where
  open port use {read8, read16, read32, write8, write16, write32}

  -- A word at an unaligned address is the aligned one rotated.
  unfoldable pub load_word : ℕ → S → S × ℕ
  load_word addr bus =
      let (bus', val) = read32 (word_aligned addr) bus in (bus', rotate_right val (addr % 4 * 8))

  unfoldable pub arm_single_transfer : ℕ → Cpu → S → Cpu × S × ℕ
  unfolding single_offset offset_by write_back load_word
  arm_single_transfer opcode c bus =
      let b = bit_set opcode 22 in
      let rd = field 12 4 opcode in
      let base = reg (field 16 4 opcode) c in
      let offset_addr = offset_by (bit_set opcode 23) base (single_offset opcode c) in
      let addr = if bit_set opcode 24 then offset_addr else base in
      if bit_set opcode 20
      then (let (bus', val) = if b then read8 addr bus else load_word addr bus in
          (write_back opcode offset_addr (set_reg rd val c), bus', 2))
      else (let val = if rd == 15 then wrapping_add (reg 15 c) 4 else reg rd c in
          let bus' =
            if b then write8 addr (val % 2 ^ 8) bus else write32 (word_aligned addr) val bus in
          (write_back opcode offset_addr c, bus', 1))

  unfoldable pub load_signed_byte : ℕ → S → S × ℕ
  load_signed_byte addr bus = let (bus', val) = read8 addr bus in (bus', as_u32 (as_i8 val))

  -- LDRH: a halfword at an odd address is the aligned one rotated by 8.
  unfoldable pub load_half : ℕ → S → S × ℕ
  load_half addr bus =
      let (bus', val) = read16 (even addr) bus in
      (bus', if addr % 2 == 1 then rotate_right val 8 else val)

  -- LDRSH: at an odd address it is LDRSB.
  unfoldable pub load_signed_half : ℕ → S → S × ℕ
  unfolding load_signed_byte
  load_signed_half addr bus =
      if addr % 2 == 1
      then load_signed_byte addr bus
      else (let (bus', val) = read16 addr bus in (bus', as_u32 (as_i16 val)))

  unfoldable pub load_by_sh : ℕ → ℕ → S → S × ℕ
  unfolding load_half load_signed_byte load_signed_half
  load_by_sh sh addr bus =
      if sh == 1
      then load_half addr bus
      else if sh == 2
      then load_signed_byte addr bus
      else if sh == 3
      then load_signed_half addr bus
      else (bus, 0)

  unfoldable pub arm_halfword_transfer : ℕ → Cpu → S → Cpu × S × ℕ
  unfolding half_offset offset_by write_back load_by_sh
  arm_halfword_transfer opcode c bus =
      let rd = field 12 4 opcode in
      let base = reg (field 16 4 opcode) c in
      let offset_addr = offset_by (bit_set opcode 23) base (half_offset opcode c) in
      let addr = if bit_set opcode 24 then offset_addr else base in
      if bit_set opcode 20
      then (let (bus', val) = load_by_sh (field 5 2 opcode) addr bus in
          (write_back opcode offset_addr (set_reg rd val c), bus', 3))
      else (write_back opcode offset_addr c, write16 (even addr) (reg rd c % 2 ^ 16) bus, 2)

  -- The transfer of the register `i`, if it is in the list.
  unfoldable pub block_step : Block → ℕ → Walk S → Walk S
  unfolding load_into stored
  block_step b i t =
      if not (bit_set b.rlist i)
      then t
      else if b.load
      then (let (bus', val) = read32 (word_aligned t.addr) t.bus in
          record { addr = wrapping_add t.addr 4; cpu = load_into b i val t.cpu; bus = bus' })
      else record {
        addr = wrapping_add t.addr 4;
        cpu = t.cpu;
        bus = write32 (word_aligned t.addr) (stored b i t.cpu) t.bus;
      }

  -- `rlist == 0`: R15 is transferred, and the base moves by 16 words.
  unfoldable pub empty_block : ℕ → Cpu → S → Cpu × S × ℕ
  unfolding empty_addr offset_by put
  empty_block opcode c bus =
      let rn = field 16 4 opcode in
      let base = reg rn c in
      let addr = empty_addr opcode base in
      let moved = λ (c' : Cpu).
        if bit_set opcode 21 then put rn (offset_by (bit_set opcode 23) base 0x40) c' else c' in
      if bit_set opcode 20
      then (let (bus', val) = read32 addr bus in (moved (branch (even val) c), bus', 3))
      else (moved c, write32 addr (wrapping_add (reg 15 c) 4) bus, 3)

  unfoldable pub arm_block_transfer : ℕ → Cpu → S → Cpu × S × ℕ
  unfolding block_of block_start block_step empty_block put
  arm_block_transfer opcode c bus =
      let base = reg (field 16 4 opcode) c in
      let b = block_of opcode base in
      let start : Walk S = record { addr = block_start opcode base; cpu = c; bus = bus } in
      let t = for_each 0 16 (block_step b) start in
      if opcode % 2 ^ 16 == 0 then empty_block opcode c bus else (
        if b.write_back && not (b.load && bit_set b.rlist b.rn)
            then put b.rn b.final_addr t.cpu
            else t.cpu,
        t.bus,
        count_ones 16 b.rlist + (if b.load then 2 else 1),
      )

  unfoldable pub arm_swap : ℕ → Cpu → S → Cpu × S × ℕ
  unfolding load_word put
  arm_swap opcode c bus =
      let addr = reg (field 16 4 opcode) c in
      let rd = field 12 4 opcode in
      let new = reg (opcode % 2 ^ 4) c in
      if bit_set opcode 22
      then (let (bus', old) = read8 addr bus in (put rd old c, write8 addr (new % 2 ^ 8) bus', 4))
      else (let (bus', old) = load_word addr bus in
          (put rd old c, write32 (word_aligned addr) new bus', 4))
