-- ===== src/Ppu/Window/Examples.antt =====
-- The window line of the source's own test.
use vibe_gba.Prelude.{arith, false, [], ◌∷◌, replicate}
use vibe_gba.Bus.IoRegs.{IoRegisters, new}
use vibe_gba.Ppu.Window.{compute_window_line}
use vibe_gba.Ppu.Window.Region.{IsLine, AreWords, compute_window_line-IsLine}

abbrev registers : IoRegisters
registers = record new {
  dispcnt = 0x2000;
  winh = 0xa32 ∷ 0 ∷ [];
  winv = 100 ∷ 0 ∷ [];
  winin = 0x3f;
}

registers-AreWords : AreWords registers
registers-AreWords = record {
  v0 = omega arith;
  v1 = omega arith;
  h0 = omega arith;
  h1 = omega arith;
}

compute_window_line-IsLine_example :
    IsLine 5 registers (replicate 240 false) (compute_window_line 5 registers (replicate 240 false))
compute_window_line-IsLine_example =
    compute_window_line-IsLine 5 registers (replicate 240 false) registers-AreWords (omega arith)
