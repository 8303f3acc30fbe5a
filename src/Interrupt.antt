-- ===== src/Interrupt.antt =====
-- gba-core/src/interrupt.rs: the interrupt controller. The tracing is left out.
pub mod Flags
mod Examples
use vibe_gba.Prelude.{ℕ, ◌%◌, ◌^◌, bit_and, bit_or, Bool, true, false, not, ◌&&◌, ◌==◌, to_ℕ}
use vibe_gba.Prelude.Bits.{not16, bit_set}

pub data Irq : Type 0 where
  v_blank h_blank v_count_match timer0 timer1 timer2 timer3 serial : Irq
  dma0 dma1 dma2 dma3 keypad game_pak : Irq

-- `irq as u16`.
unfoldable pub number : Irq → ℕ
number v_blank = 0
number h_blank = 1
number v_count_match = 2
number timer0 = 3
number timer1 = 4
number timer2 = 5
number timer3 = 6
number serial = 7
number dma0 = 8
number dma1 = 9
number dma2 = 10
number dma3 = 11
number keypad = 12
number game_pak = 13

pub record InterruptController : Type 0 where
  pub ie : ℕ
  pub ir : ℕ
  pub ime : Bool

pub new : InterruptController
new = record { ie = 0; ir = 0; ime = false }

unfoldable pub request_irq : Irq → InterruptController → InterruptController
unfolding number
request_irq irq c = record c { ir = bit_or c.ir (2 ^ number irq) }

pub acknowledge : ℕ → InterruptController → InterruptController
acknowledge value c = record c { ir = bit_and c.ir (not16 value) }

pub has_pending : InterruptController → Bool
has_pending c = c.ime && not (bit_and c.ie c.ir == 0)

abbrev pub read_ie : InterruptController → ℕ
read_ie c = c.ie

pub write_ie : ℕ → InterruptController → InterruptController
write_ie value c = record c { ie = value }

abbrev pub read_if : InterruptController → ℕ
read_if c = c.ir

pub write_if : ℕ → InterruptController → InterruptController
unfolding acknowledge
write_if value c = acknowledge value c

abbrev pub read_ime : InterruptController → ℕ
read_ime c = to_ℕ c.ime

pub write_ime : ℕ → InterruptController → InterruptController
write_ime value c = record c { ime = value % 2 == 1 }
