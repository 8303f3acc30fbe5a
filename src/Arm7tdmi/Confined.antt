-- ===== src/Arm7tdmi/Confined.antt =====
-- What an instruction in User mode may not change: the bits of the status word but its flags and the
-- state bit, and the banks of the other modes.
pub mod Arm
pub mod Thumb
pub mod Decode
use vibe_gba.Prelude.{
  ℕ, zero, suc, ◌+◌, ◌≤◌, ◌<◌, ◌≡◌, ◌≢◌, ◌/◌, ◌%◌, ◌^◌, ◌==◌, refl, ap, ◌∙◌, arith, Bool, true,
  false, not, if◌then◌else◌,
}
use vibe_gba.Prelude.Bits.{bit_set}
use vibe_gba.Arm7tdmi.Psr.{
  CpuMode, user, Psr, mode, set_bit, set_n, set_z, set_c, set_v, set_nz, set_thumb, has_spsr,
  is_mode, mode_bits, bank_index,
}
use vibe_gba.Arm7tdmi.Psr.Bits.{set_bit-bit, mode-low}
use vibe_gba.Arm7tdmi.Cpu.{
  Cpu, current_mode, branch, branch_exchange, set_reg, spsr, set_spsr, switch_mode,
  set_reg_with_flags, write_user_reg,
}
use vibe_gba.Arm7tdmi.Loops.{for_each}
use vibe_gba.Arm7tdmi.Arm.Data.{put, restore_cpsr}

-- Two status words agree but for the flags and the state bit.
abbrev pub IsSameControl : Psr → Psr → Type 0
IsSameControl p q = (k : ℕ) → k < 24 → k ≢ 5 → bit_set q.bits k ≡ bit_set p.bits k

pub record IsConfined (c c' : Cpu) : Type 0 where
  pub control : IsSameControl c.cpsr c'.cpsr
  pub banked : c'.banked ≡ c.banked

pub still : (c : Cpu) → IsConfined c c
still c = record { control = λ k l n. refl; banked = refl }

pub of_same : {c c' : Cpu} → c'.cpsr ≡ c.cpsr → c'.banked ≡ c.banked → IsConfined c c'
of_same p q = record { control = λ k l n. ap (λ (t : Psr). bit_set t.bits k) p; banked = q }

pub then_ : {a b c : Cpu} → IsConfined a b → IsConfined b c → IsConfined a c
then_ p q = record {
  control = λ k l n. q.control k l n ∙ p.control k l n;
  banked = q.banked ∙ p.banked;
}

pub current_mode-IsConfined : {c c' : Cpu} → IsConfined c c' → current_mode c' ≡ current_mode c
current_mode-IsConfined {c} {c'} h =
    mode-low c'.cpsr c.cpsr (λ k l. h.control k (omega arith) (omega arith))

pub put-IsConfined : (r v : ℕ) (c : Cpu) → IsConfined c (put r v c)
unfolding put
put-IsConfined r v c = record { control = λ k l n. refl; banked = refl }

pub branch-IsConfined : (addr : ℕ) (c : Cpu) → IsConfined c (branch addr c)
unfolding branch
branch-IsConfined addr c = record { control = λ k l n. refl; banked = refl }

pub if-IsConfined :
    {c : Cpu} (b : Bool) (x y : Cpu)
    → IsConfined c x
    → IsConfined c y
    → IsConfined c (if b then x else y)
if-IsConfined true x y p q = p
if-IsConfined false x y p q = q

pub set_reg-IsConfined : (r v : ℕ) (c : Cpu) → IsConfined c (set_reg r v c)
unfolding set_reg
set_reg-IsConfined r v c = unfold branch in of_same (ground arith) (ground arith)

pub set_bit-IsSameControl :
    (k : ℕ) (value : Bool) (p : Psr) → 28 ≤ k → k < 32 → IsSameControl p (set_bit k value p)
set_bit-IsSameControl k value p h l j m n = set_bit-bit k j value p l (omega arith) ∙ ground arith

pub set_nz-IsSameControl : (result : ℕ) (p : Psr) → IsSameControl p (set_nz result p)
unfolding set_nz set_n set_z
set_nz-IsSameControl result p j m n =
    let negative = not (result / 2 ^ 31 == 0) in
    set_bit-IsSameControl 30 (result == 0) (set_bit 31 negative p) (omega arith) (omega arith) j m n
    ∙ set_bit-IsSameControl 31 negative p (omega arith) (omega arith) j m n

pub set_c-IsSameControl : (value : Bool) (p : Psr) → IsSameControl p (set_c value p)
unfolding set_c
set_c-IsSameControl value p = set_bit-IsSameControl 29 value p (omega arith) (omega arith)

pub set_v-IsSameControl : (value : Bool) (p : Psr) → IsSameControl p (set_v value p)
unfolding set_v
set_v-IsSameControl value p = set_bit-IsSameControl 28 value p (omega arith) (omega arith)

pub trans_control : (p q r : Psr) → IsSameControl p q → IsSameControl q r → IsSameControl p r
trans_control p q r h k j m n = k j m n ∙ h j m n

-- A new status word, once it has the control bits of the old one.
pub with_cpsr :
    {c d : Cpu} (p : Psr)
    → IsConfined c d
    → IsSameControl d.cpsr p
    → IsConfined c (record d { cpsr = p })
with_cpsr {c} {d} p h s = record {
  control = trans_control c.cpsr d.cpsr p h.control s;
  banked = h.banked;
}

pub branch_exchange-IsConfined : (addr : ℕ) (c : Cpu) → IsConfined c (branch_exchange addr c)
unfolding branch_exchange set_thumb
branch_exchange-IsConfined addr c = record {
  control =
      λ k l n. set_bit-bit 5 k (addr % 2 == 1) c.cpsr (omega arith) (omega arith) ∙ ground arith;
  banked = refl;
}

pub for_each-IsConfined {ℓ} :
    {T : Type ℓ} (cpu : T → Cpu) (c : Cpu) (body : ℕ → T → T)
    → ((i : ℕ) (t : T) → IsConfined c (cpu t) → IsConfined c (cpu (body i t)))
    → (first n : ℕ) (t : T) → IsConfined c (cpu t)
    → IsConfined c (cpu (for_each first n body t))
unfolding for_each
for_each-IsConfined cpu c body keep first zero t h = h
for_each-IsConfined cpu c body keep first (suc n) t h =
    for_each-IsConfined cpu c body keep (suc first) n (body first t) (keep first t h)

module _ (c : Cpu) (u : current_mode c ≡ user) where
  pub spsr_user : spsr c ≡ c.cpsr
  unfolding spsr has_spsr
  spsr_user = rw u refl

  pub switch_mode_user : switch_mode user c ≡ c
  unfolding switch_mode is_mode mode_bits
  switch_mode_user = rw u refl

  pub restore_cpsr_user : restore_cpsr c ≡ c
  unfolding restore_cpsr
  restore_cpsr_user = rw (spsr_user, u, switch_mode_user) refl

  pub set_reg_with_flags-IsConfined : (r v : ℕ) → IsConfined c (set_reg_with_flags r v true c)
  unfolding set_reg_with_flags branch
  set_reg_with_flags-IsConfined r v =
      of_same (ground (arith, spsr_user, switch_mode_user, u))
        (ground (arith, spsr_user, switch_mode_user, u))

  pub set_spsr-IsConfined : (p : Psr) → IsConfined c (set_spsr p c)
  unfolding set_spsr has_spsr
  set_spsr-IsConfined p = rw u (still c)

  pub write_user_reg-IsConfined : (r v : ℕ) → IsConfined c (write_user_reg r v c)
  unfolding write_user_reg bank_index is_mode mode_bits
  write_user_reg-IsConfined r v = rw u (of_same (ground arith) (ground arith))

  pub restore_cpsr-IsConfined : IsConfined c (restore_cpsr c)
  restore_cpsr-IsConfined = rw restore_cpsr_user (still c)
