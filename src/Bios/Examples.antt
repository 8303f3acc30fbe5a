-- ===== src/Bios/Examples.antt =====
-- Calls of the BIOS at concrete values, among them the tests of gba-core/src/bios.rs, on a memory of
-- bytes.
use vibe_gba.Prelude.{
  ℕ, ◌+◌, ◌-◌, ◌*◌, ◌^◌, ◌≡◌, ◌≢◌, refl, arith, false, ◌==◌, if◌then◌else◌, List, [], ◌∷◌, get_or,
  replicate, some, none,
}
use vibe_gba.Bus.Port.{Port}
use vibe_gba.Arm7tdmi.Cpu.{Cpu, new}
use vibe_gba.Arm7tdmi.Arm.Data.{put}
use vibe_gba.Bios.{r, swi_div, quotient, remainder, magnitude, is_negative, signed}
use vibe_gba.Bios.Division.{IsDivided, Gives, swi_div-IsDivided}
use vibe_gba.Bios.Decompress.{open_stream, rl_round, lz77_round}
use vibe_gba.Bios.Ends.{HasEnded, decompress-ends}
use vibe_gba.Bios.RunLength.{Run, repeat, literal}

-- A memory of bytes, with words of four of them, and halfwords that read 0.
abbrev bytes : Port (ℕ → ℕ)
bytes = record {
  read8 = λ a s. (s, s a);
  read16 = λ a s. (s, 0);
  read32 = λ a s. (s, s a + s (a + 1) * 2 ^ 8 + s (a + 2) * 2 ^ 16 + s (a + 3) * 2 ^ 24);
  write8 = λ a v s b. if a == b then v else s b;
  write16 = λ a v s. s;
  write32 = λ a v s. s;
  fetch16 = λ a q s. (s, 0);
  fetch32 = λ a q s. (s, 0);
  break_sequential = λ s. s;
  set_last_pc = λ a s. s;
  set_bios_latch = λ a s. s;
  take_mem_cycles = λ s. (s, 0);
  prefetch_advance = λ n s. s;
  tick_backup = λ n s. s;
  has_pending = λ s. false;
}

abbrev numbers : Cpu
numbers = record new { regs = (2 ^ 32 - 100) ∷ 7 ∷ replicate 14 0 }

-- -100 by 7 is -14, and -2 is left.
test_swi_div : swi_div numbers ≡ some (put 3 14 (put 1 (2 ^ 32 - 2) (put 0 (2 ^ 32 - 14) numbers)))
unfolding swi_div quotient remainder magnitude is_negative signed
test_swi_div = refl

swi_div-IsDivided_example :
    (r 1 numbers ≡ 0 → swi_div numbers ≡ some numbers)
    × (r 0 numbers ≡ 2 ^ 31 → r 1 numbers ≡ 2 ^ 32 - 1 → swi_div numbers ≡ none)
    × (r 1 numbers ≢ 0
        → ¬ ((r 0 numbers ≡ 2 ^ 31) × (r 1 numbers ≡ 2 ^ 32 - 1))
        → Gives (swi_div numbers) (IsDivided numbers))
swi_div-IsDivided_example = swi_div-IsDivided numbers refl (omega arith) (omega arith)

-- The stream of the source's test: five times 0xAB, then five bytes.
abbrev runs : List Run
runs = repeat 5 0xab ∷ literal (0x10 ∷ 0x11 ∷ 0x12 ∷ 0x13 ∷ 0x14 ∷ []) ∷ []

abbrev stream : ℕ → ℕ
stream a =
    get_or (0x30 ∷ 10 ∷ 0 ∷ 0 ∷ 0x82 ∷ 0xab ∷ 4 ∷ 0x10 ∷ 0x11 ∷ 0x12 ∷ 0x13 ∷ 0x14 ∷ []) (a - 0x200)
      0

decompress-ends_example :
    HasEnded (rl_round bytes false) 10 (open_stream bytes false 0x200 0x1000 stream)
    × HasEnded (lz77_round bytes false) 10 (open_stream bytes false 0x200 0x1000 stream)
unfolding open_stream
decompress-ends_example =
    decompress-ends bytes false 10 (open_stream bytes false 0x200 0x1000 stream) (omega arith)
