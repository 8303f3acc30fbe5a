-- ===== src/Arm7tdmi/Thumb/Transfer.antt =====
-- gba-core/src/arm7tdmi/thumb.rs: the instructions that use the bus. Each gives the processor, the
-- bus and its cycles.
use vibe_gba.Prelude.{ℕ, ◌+◌, ◌*◌, ◌%◌, ◌^◌, ◌&&◌, not, ◌==◌, if◌then◌else◌, get_or, to_ℕ}
use vibe_gba.Prelude.Bits.{bit_set}
use vibe_gba.Bus.Port.{Port}
use vibe_gba.Arm7tdmi.Cpu.{Cpu, reg, branch, even, wrapping_sub}
use vibe_gba.Arm7tdmi.Loops.{for_each, count_ones, wrapping_add, word_aligned}
use vibe_gba.Arm7tdmi.Arm.Data.{field, put}
use vibe_gba.Arm7tdmi.Arm.Transfer.{Walk, load_word, load_signed_byte, load_half, load_signed_half}

module _ {S : Type 0} (port : Port S) where
  open port use {read8, read16, read32, write8, write16, write32}

  -- `self.regs[rd] = ` what a load gives, in two cycles.
  unfoldable pub into : ℕ → S × ℕ → Cpu → Cpu × S × ℕ
  unfolding put
  into rd (bus, val) c = (put rd val c, bus, 2)

  unfoldable pub thumb_ldr_pc : ℕ → Cpu → S → Cpu × S × ℕ
  unfolding put
  thumb_ldr_pc opcode c bus =
      let addr = wrapping_add (word_aligned (get_or c.regs 15 0)) (opcode % 2 ^ 8 * 4) in
      let (bus', val) = read32 (word_aligned addr) bus in (put (field 8 3 opcode) val c, bus', 3)

  unfoldable pub thumb_load_store_reg : ℕ → Cpu → S → Cpu × S × ℕ
  unfolding into load_word load_signed_byte load_half load_signed_half
  thumb_load_store_reg opcode c bus =
      let rd = field 0 3 opcode in
      let addr = wrapping_add (reg (field 3 3 opcode) c) (reg (field 6 3 opcode) c) in
      let kind = field 9 3 opcode in
      if kind == 0
      then (c, write32 (word_aligned addr) (reg rd c) bus, 2)
      else if kind == 1
      then (c, write16 (even addr) (reg rd c % 2 ^ 16) bus, 2)
      else if kind == 2
      then (c, write8 addr (reg rd c % 2 ^ 8) bus, 2)
      else if kind == 3
      then into rd (load_signed_byte port addr bus) c
      else if kind == 4
      then into rd (load_word port addr bus) c
      else if kind == 5
      then into rd (load_half port addr bus) c
      else if kind == 6
      then into rd (read8 addr bus) c
      else into rd (load_signed_half port addr bus) c

  unfoldable pub thumb_load_store_imm : ℕ → Cpu → S → Cpu × S × ℕ
  unfolding into load_word
  thumb_load_store_imm opcode c bus =
      let b = bit_set opcode 12 in
      let offset = field 6 5 opcode in
      let rd = field 0 3 opcode in
      let addr = wrapping_add (reg (field 3 3 opcode) c) (if b then offset else offset * 4) in
      if bit_set opcode 11
      then into rd (if b then read8 addr bus else load_word port addr bus) c
      else (
        c,
        if b
            then write8 addr (reg rd c % 2 ^ 8) bus
            else write32 (word_aligned addr) (reg rd c) bus,
        2,
      )

  unfoldable pub thumb_load_store_half : ℕ → Cpu → S → Cpu × S × ℕ
  unfolding into load_half
  thumb_load_store_half opcode c bus =
      let rd = field 0 3 opcode in
      let addr = wrapping_add (reg (field 3 3 opcode) c) (field 6 5 opcode * 2) in
      if bit_set opcode 11
      then into rd (load_half port addr bus) c
      else (c, write16 (even addr) (reg rd c % 2 ^ 16) bus, 2)

  unfoldable pub thumb_load_store_sp : ℕ → Cpu → S → Cpu × S × ℕ
  unfolding into load_word
  thumb_load_store_sp opcode c bus =
      let rd = field 8 3 opcode in
      let addr = wrapping_add (get_or c.regs 13 0) (opcode % 2 ^ 8 * 4) in
      if bit_set opcode 11
      then into rd (load_word port addr bus) c
      else (c, write32 (word_aligned addr) (reg rd c) bus, 2)

  -- A round of the loops that store and load a list of registers.
  unfoldable pub store_step : ℕ → (ℕ → ℕ) → ℕ → Walk S → Walk S
  store_step rlist value i t =
      if bit_set rlist i
      then record t { addr = wrapping_add t.addr 4; bus = write32 t.addr (value i) t.bus }
      else t

  unfoldable pub load_step : ℕ → ℕ → Walk S → Walk S
  unfolding put
  load_step rlist i t =
      if bit_set rlist i
      then (let (bus', val) = read32 t.addr t.bus in
          record { addr = wrapping_add t.addr 4; cpu = put i val t.cpu; bus = bus' })
      else t

  -- The registers are not changed while they are stored, and read from `c`, where SP is set.
  unfoldable pub thumb_push : ℕ → Cpu → S → Cpu × S × ℕ
  unfolding store_step put
  thumb_push opcode c bus =
      let lr = bit_set opcode 8 in
      let rlist = opcode % 2 ^ 8 in
      let reg_count = count_ones 8 rlist + to_ℕ lr in
      let addr = wrapping_sub (get_or c.regs 13 0) (reg_count * 4) in
      let c' = put 13 addr c in
      let start : Walk S = record { addr = addr; cpu = c'; bus = bus } in
      let t = for_each 0 8 (store_step rlist (λ (i : ℕ). reg i c')) start in
      (c', if lr then write32 t.addr (get_or c'.regs 14 0) t.bus else t.bus, reg_count + 1)

  unfoldable pub thumb_pop : ℕ → Cpu → S → Cpu × S × ℕ
  unfolding load_step put
  thumb_pop opcode c bus =
      let rlist = opcode % 2 ^ 8 in
      let start : Walk S = record { addr = get_or c.regs 13 0; cpu = c; bus = bus } in
      let t = for_each 0 8 (load_step rlist) start in
      if bit_set opcode 8
      then (let (bus', val) = read32 t.addr t.bus in
          (
            put 13 (wrapping_add t.addr 4) (branch (even val) t.cpu),
            bus',
            count_ones 8 rlist + 1 + 2,
          ))
      else (put 13 t.addr t.cpu, t.bus, count_ones 8 rlist + 0 + 2)

  -- What STMIA stores: a base register that is in the list and not the lowest there as it will be.
  unfoldable pub stmia_value : ℕ → ℕ → ℕ → Cpu → ℕ → ℕ
  stmia_value rb rlist final_addr c i =
      if i == rb && bit_set rlist rb && not (rlist % 2 ^ rb == 0) then final_addr else reg i c

  unfoldable pub thumb_stmia : ℕ → Cpu → S → Cpu × S × ℕ
  unfolding store_step stmia_value put
  thumb_stmia opcode c bus =
      let rb = field 8 3 opcode in
      let rlist = opcode % 2 ^ 8 in
      let base = reg rb c in
      let final_addr = wrapping_add base (count_ones 8 rlist * 4) in
      let start : Walk S = record { addr = base; cpu = c; bus = bus } in
      let t = for_each 0 8 (store_step rlist (stmia_value rb rlist final_addr c)) start in
      if rlist == 0
      then (put rb (wrapping_add base 0x40) c, write32 base (wrapping_add (reg 15 c) 2) bus, 2)
      else (put rb t.addr c, t.bus, count_ones 8 rlist + 1)

  unfoldable pub thumb_ldmia : ℕ → Cpu → S → Cpu × S × ℕ
  unfolding load_step put
  thumb_ldmia opcode c bus =
      let rb = field 8 3 opcode in
      let rlist = opcode % 2 ^ 8 in
      let base = reg rb c in
      let start : Walk S = record { addr = base; cpu = c; bus = bus } in
      let t = for_each 0 8 (load_step rlist) start in
      if rlist == 0
      then (let (bus', val) = read32 base bus in
          (branch (even val) (put rb (wrapping_add base 0x40) c), bus', 5))
      else (
        if not (bit_set rlist rb) then put rb t.addr t.cpu else t.cpu,
        t.bus,
        count_ones 8 rlist + 2,
      )
