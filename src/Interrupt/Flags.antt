-- ===== src/Interrupt/Flags.antt =====
-- The request flags as fourteen lines that are raised and acknowledged one by one.
use vibe_gba.Prelude.{
  ℕ, ◌^◌, ◌≤◌, ◌<◌, bit_and, ◌≡◌, refl, sym, ap, ◌∙◌, arith, Bool, true, false, ◌&&◌, List, [], ◌∷◌,
  ◌==◌, if◌then◌else◌,
}
use vibe_gba.Prelude.Bits.{bit_set, bit_set-and, bit_set-or, bit_set-not, bit_set-pow, not16}
use vibe_gba.Prelude.Words.{bit_and-lt}
use vibe_gba.Prelude.Lines.{any_below, any_below_cong, any_bit}
use vibe_gba.Interrupt.{
  Irq, number, InterruptController, request_irq, acknowledge, write_if, has_pending,
}

-- A device requests, or the program writes IF.
pub data Event : Type 0 where
  request : Irq → Event
  write_flags : ℕ → Event

unfoldable pub handle : Event → InterruptController → InterruptController
handle (request irq) c = request_irq irq c
handle (write_flags value) c = write_if value c

unfoldable pub run : List Event → InterruptController → InterruptController
unfolding handle
run [] c = c
run (e ∷ es) c = run es (handle e c)

-- Line `k` by itself: the last event that touches it decides.
pub after : ℕ → Event → Bool → Bool
after k (request irq) up = if number irq == k then true else up
after k (write_flags value) up = if bit_set value k then false else up

pub line : ℕ → List Event → Bool → Bool
unfolding after
line k [] up = up
line k (e ∷ es) up = line k es (after k e up)

unfoldable pub AllWords : List Event → Type 0
AllWords [] = 0 ≤ 0
AllWords (request irq ∷ es) = AllWords es
AllWords (write_flags value ∷ es) = (value < 2 ^ 16) × AllWords es

request-bit :
    (k : ℕ) (irq : Irq) (c : InterruptController)
    → bit_set (request_irq irq c).ir k ≡ after k (request irq) (bit_set c.ir k)
unfolding request_irq after
request-bit k irq c = ground (arith, bit_set-or k c.ir (2 ^ number irq), bit_set-pow (number irq) k)

write-bit :
    (k value : ℕ) (c : InterruptController)
    → k < 16
    → value < 2 ^ 16
    → bit_set (write_if value c).ir k ≡ after k (write_flags value) (bit_set c.ir k)
unfolding write_if acknowledge after
write-bit k value c h l =
    ground (arith, bit_set-and k c.ir (not16 value), bit_set-not 16 k value l h)

-- Each request flag is what the last request or acknowledgement of it left.
run-line :
    (k : ℕ) (es : List Event) (c : InterruptController)
    → k < 16
    → AllWords es
    → bit_set (run es c).ir k ≡ line k es (bit_set c.ir k)
unfolding run line handle AllWords
run-line k [] c h w = refl
run-line k (request irq ∷ es) c h w =
    run-line k es (request_irq irq c) h w ∙ ap (line k es) (request-bit k irq c)
run-line k (write_flags value ∷ es) c h (v, w) =
    run-line k es (write_if value c) h w ∙ ap (line k es) (write-bit k value c h v)

event-enables :
    (e : Event) (c : InterruptController) → ((handle e c).ie ≡ c.ie) × ((handle e c).ime ≡ c.ime)
unfolding handle request_irq write_if acknowledge
event-enables (request irq) c = (refl, refl)
event-enables (write_flags value) c = (refl, refl)

run-enables :
    (es : List Event) (c : InterruptController) → ((run es c).ie ≡ c.ie) × ((run es c).ime ≡ c.ime)
unfolding run
run-enables [] c = (refl, refl)
run-enables (e ∷ es) c = (
  (run-enables es (handle e c)).0 ∙ (event-enables e c).0,
  (run-enables es (handle e c)).1 ∙ (event-enables e c).1,
)

-- After any requests and acknowledgements by 16-bit words, an interrupt is pending exactly when the
-- master enable is set and some line that is enabled was last requested, not acknowledged.
pub has_pending-lines :
    (es : List Event) (c : InterruptController)
    → c.ie < 2 ^ 16
    → AllWords es
    → has_pending (run es c)
      ≡ (c.ime && any_below 16 (λ k. bit_set c.ie k && line k es (bit_set c.ir k)))
unfolding has_pending
has_pending-lines es c h w =
    rw ((run-enables es c).0, (run-enables es c).1)
      (ap (λ (t : Bool). c.ime && t)
        (sym (any_bit 16 (bit_and c.ie (run es c).ir) (bit_and-lt 16 c.ie (run es c).ir h))
          ∙ any_below_cong 16 (bit_set (bit_and c.ie (run es c).ir))
              (λ k. bit_set c.ie k && line k es (bit_set c.ir k))
              (λ k l.
                bit_set-and k c.ie (run es c).ir
                ∙ ap (λ (t : Bool). bit_set c.ie k && t) (run-line k es c l w))))
