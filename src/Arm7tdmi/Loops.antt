-- ===== src/Arm7tdmi/Loops.antt =====
-- What the block transfers of both instruction sets share: the loop over the registers, the number
-- of registers in a list, and addresses.
use vibe_gba.Prelude.{ℕ, zero, suc, ◌+◌, ◌*◌, ◌/◌, ◌%◌, ◌^◌, ◌==◌, if◌then◌else◌}

-- `for i in first..first + n`.
unfoldable pub for_each {ℓ} : {T : Type ℓ} → ℕ → ℕ → (ℕ → T → T) → T → T
for_each first zero body t = t
for_each first (suc n) body t = for_each (suc first) n body (body first t)

-- `count_ones` of `w` bits.
unfoldable pub count_ones : ℕ → ℕ → ℕ
count_ones zero x = 0
count_ones (suc w) x = x % 2 + count_ones w (x / 2)

-- `trailing_zeros` of `w` bits.
unfoldable pub trailing_zeros : ℕ → ℕ → ℕ
trailing_zeros zero x = 0
trailing_zeros (suc w) x = let rest = trailing_zeros w (x / 2) in if x % 2 == 1 then 0 else 1 + rest

abbrev pub wrapping_add : ℕ → ℕ → ℕ
wrapping_add a b = (a + b) % 2 ^ 32

-- `addr & !3`.
abbrev pub word_aligned : ℕ → ℕ
word_aligned addr = addr / 4 * 4
