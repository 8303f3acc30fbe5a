-- ===== src/Rtc/Transfer.antt =====
-- Whole transfers over the serial pins.
use vibe_gba.Prelude.{
  ℕ, zero, suc, ◌+◌, ◌*◌, ◌/◌, ◌%◌, ◌≡◌, refl, arith, Bool, true, false, Bool-cases, inl, inr, ap,
  ap₂, ◌∙◌, List, [], ◌∷◌, ◌==◌, ◌-◌, if◌then◌else◌, bit_or,
}
use vibe_gba.Rtc.{
  Rtc, TransferState, idle, sending_data, read_data, write_reg, read_reg, pin_update, cs_edge,
  clocked, clock_edge, receive_command_bit, send_data_bit, execute_command, send_status, drive_bit,
  as_u8,
}
use vibe_gba.Prelude.Bits.{bit_set}

-- The value of DATA with the chip selected, by SCK and SIO.
pins : ℕ → ℕ → ℕ
pins sck sio = 4 + 2 * sio + sck

-- One bit to the chip: SIO is set up, and SCK rises.
pub send_bit : ℕ → ℕ → Rtc → Rtc
unfolding pins
send_bit now b r = write_reg now 0 (pins 1 b) (write_reg now 0 (pins 0 b) r)

pub send_bits : ℕ → List ℕ → Rtc → Rtc
unfolding send_bit
send_bits now [] r = r
send_bits now (b ∷ bs) r = send_bits now bs (send_bit now b r)

-- One bit from the chip: SCK falls, SIO is read and SCK rises.
pub take_bits : ℕ → ℕ → Rtc → List ℕ
unfolding pins
take_bits now zero r = []
take_bits now (suc n) r =
    let low = write_reg now 0 (pins 0 0) r in
    let rest = take_bits now n (write_reg now 0 (pins 1 0) low) in read_reg 0 low / 2 % 2 ∷ rest

-- The `n` lowest bits, the lowest first.
pub low_bits : ℕ → ℕ → List ℕ
low_bits zero x = []
low_bits (suc n) x = x % 2 ∷ low_bits n (x / 2)

-- What a cartridge driver does: select the chip, send the command and, with SIO as an input and
-- the pins readable, take a byte.
pub read_status : ℕ → Rtc → List ℕ
unfolding pins
read_status now r = take_bits now 8 (
    write_reg now 4 1 (
      write_reg now 2 5
        (send_bits now (0 ∷ 1 ∷ 1 ∷ 0 ∷ 0 ∷ 0 ∷ 1 ∷ 1 ∷ []) (write_reg now 0 (pins 0 0) r))))

driven : (x : ℕ) → bit_or 4 (if bit_set x 0 then 2 else 0) / 2 % 2 ≡ x % 2
driven x = elim (Bool-cases (bit_set x 0)) [
  | inl b ↦ rw b (ground arith)
  | inr b ↦ rw b (ground arith)
]

-- A chip that has `n` bits of its last byte left to send.
abbrev sending : ℕ → ℕ → Rtc → Rtc
sending x n r = record r {
  cs = true;
  data_out = 5;
  direction = 5;
  control = 1;
  last_sck = true;
  state = sending_data;
  out_bits = x;
  out_bit_count = n;
  data_idx = 1;
  data_len = 1;
}

abbrev lowered : ℕ → ℕ → Rtc → Rtc
lowered x n r = record (sending (x / 2) n r) {
  data_out = 4;
  last_sck = false;
  sio_out = bit_set x 0;
}

still_bits : (k : ℕ) → (suc k == 0) ≡ false
still_bits k = ground arith

one_less : (k : ℕ) → suc (suc k) - 1 ≡ suc k
one_less k = omega arith

fall : (k now x : ℕ) (r : Rtc) → write_reg now 0 4 (sending x (suc (suc k)) r) ≡ lowered x (suc k) r
unfolding write_reg pin_update cs_edge clocked clock_edge send_data_bit drive_bit
fall k now x r = rw (still_bits (suc k), one_less k, still_bits k) refl

rise :
    (n now x : ℕ) (r : Rtc)
    → write_reg now 0 5 (lowered x n r)
      ≡ record (sending (x / 2) n r) { data_out = 5; sio_out = bit_set x 0 }
unfolding write_reg pin_update cs_edge clocked clock_edge
rise n now x r = refl

last_fall :
    (now x : ℕ) (r : Rtc)
    → write_reg now 0 4 (sending x 1 r) ≡ record (lowered x 0 r) { state = idle }
unfolding write_reg pin_update cs_edge clocked clock_edge send_data_bit drive_bit
last_fall now x r = refl

take_bits-suc :
    (now n : ℕ) (r : Rtc)
    → take_bits now (suc n) r
      ≡ read_reg 0 (write_reg now 0 4 r) / 2 % 2
        ∷ take_bits now n (write_reg now 0 5 (write_reg now 0 4 r))
unfolding take_bits pins
take_bits-suc now n r = refl

seen :
    (x n : ℕ) (state : TransferState) (r : Rtc)
    → read_reg 0 (record (lowered x n r) { state = state }) / 2 % 2 ≡ x % 2
unfolding read_reg read_data
seen x n state r = driven x

-- From a falling edge on.
take_bits-lowered :
    (n now x : ℕ) (r : Rtc) (rest : List ℕ)
    → take_bits now n (sending (x / 2) n (record r { sio_out = bit_set x 0 })) ≡ rest
    → read_reg 0 (lowered x n r) / 2 % 2 ∷ take_bits now n (write_reg now 0 5 (lowered x n r))
      ≡ x % 2 ∷ rest
take_bits-lowered n now x r rest h =
    rw (rise n now x r) (ap₂ (λ (t : ℕ) (ts : List ℕ). t ∷ ts) (seen x n sending_data r) h)

take_bits-sending :
    (k now x : ℕ) (r : Rtc) → take_bits now (suc k) (sending x (suc k) r) ≡ low_bits (suc k) x
unfolding low_bits
take_bits-sending zero now x r =
    take_bits-suc now 0 (sending x 1 r)
    ∙ rw (last_fall now x r) (unfold take_bits in ap (λ (t : ℕ). t ∷ []) (seen x 0 idle r))
take_bits-sending (suc k) now x r =
    take_bits-suc now (suc k) (sending x (suc (suc k)) r)
    ∙ rw (fall k now x r) (
        take_bits-lowered (suc k) now x r (low_bits (suc k) (x / 2))
          (take_bits-sending k now (x / 2) (record r { sio_out = bit_set x 0 })))

-- The chip once the command is in and the pins are set up for reading.
sent : ℕ → Rtc → Rtc
unfolding pins
sent now r = write_reg now 4 1 (
    write_reg now 2 5
      (send_bits now (0 ∷ 1 ∷ 1 ∷ 0 ∷ 0 ∷ 0 ∷ 1 ∷ 1 ∷ []) (write_reg now 0 (pins 0 0) r)))

first_fall :
    (now b : ℕ) (buf : List ℕ) (r : Rtc)
    → write_reg now 0 4 (sent now (record r { cs = false; data_buf = b ∷ buf }))
      ≡ lowered r.status 7
          (record r { data_buf = r.status ∷ buf; in_bits = 0; in_bit_count = 0; command = 0x63 })
unfolding sent send_bits send_bit write_reg pins pin_update cs_edge clocked clock_edge
    receive_command_bit execute_command send_status as_u8 send_data_bit drive_bit
first_fall now b buf r = refl

read_status-sent : (now : ℕ) (r : Rtc) → read_status now r ≡ take_bits now 8 (sent now r)
unfolding read_status sent
read_status-sent now r = refl

deselected :
    (b : ℕ) (buf : List ℕ) (r : Rtc)
    → r.cs ≡ false
    → r.data_buf ≡ b ∷ buf
    → r ≡ record r { cs = false; data_buf = b ∷ buf }
deselected b buf r h e = ap₂ (λ (c : Bool) (d : List ℕ). record r { cs = c; data_buf = d }) h e

-- Selected by the driver and sent the command 0x63, a chip that was not selected, and whose buffer is
-- not empty, sends its status, the lowest bit first, and the driver reads it from the pin SIO.
pub read_status-low_bits :
    (now b : ℕ) (buf : List ℕ) (r : Rtc)
    → r.cs ≡ false
    → r.data_buf ≡ b ∷ buf
    → read_status now r ≡ low_bits 8 r.status
read_status-low_bits now b buf r h e =
    let chip = record r { cs = false; data_buf = b ∷ buf } in
    let told = record r {
      data_buf = r.status ∷ buf;
      in_bits = 0;
      in_bit_count = 0;
      command = 0x63;
    } in
    ap (read_status now) (deselected b buf r h e)
    ∙ read_status-sent now chip
    ∙ take_bits-suc now 7 (sent now chip)
    ∙ rw (first_fall now b buf r) (
        unfold low_bits in
        take_bits-lowered 7 now r.status told (low_bits 7 (r.status / 2))
          (take_bits-sending 6 now (r.status / 2) (record told { sio_out = bit_set r.status 0 })))
