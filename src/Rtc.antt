-- ===== src/Rtc.antt =====
-- gba-core/src/rtc.rs: the real-time clock chip behind the GPIO pins of a cartridge. The wall clock
-- of the host is an argument, the seconds since the epoch, of the operations that may read it.
pub mod Calendar
pub mod Transfer
mod Examples
use vibe_gba.Prelude.{
  ℕ, ◌+◌, ◌-◌, ◌*◌, ◌/◌, ◌%◌, ◌^◌, Bool, true, false, not, ◌&&◌, bit_and, bit_or, List, [], ◌∷◌,
  ltb, leb, ◌==◌, if◌then◌else◌, get_or, set, replicate,
}
use vibe_gba.Prelude.Bits.{bit_set}
use vibe_gba.Backup.Media.{contains}
use vibe_gba.Rtc.Calendar.{current_datetime, DateTime}

pub data TransferState : Type 0 where
  idle receiving_command receiving_data sending_data : TransferState

-- Every number is a `u8`, but the two `usize` of the buffer.
pub record Rtc : Type 0 where
  pub enabled : Bool
  pub data_out : ℕ
  pub direction : ℕ
  pub control : ℕ
  pub state : TransferState
  pub last_sck : Bool
  pub cs : Bool
  pub in_bits : ℕ
  pub in_bit_count : ℕ
  pub out_bits : ℕ
  pub out_bit_count : ℕ
  pub sio_out : Bool
  pub command : ℕ
  pub data_buf : List ℕ
  pub data_idx : ℕ
  pub data_len : ℕ
  pub status : ℕ

pub new : Rtc
new = record {
  enabled = false;
  data_out = 0;
  direction = 0;
  control = 0;
  state = idle;
  last_sck = false;
  cs = false;
  in_bits = 0;
  in_bit_count = 0;
  out_bits = 0;
  out_bit_count = 0;
  sio_out = false;
  command = 0;
  data_buf = replicate 8 0;
  data_idx = 0;
  data_len = 0;
  status = 0x40;
}

-- `SIIRTC_V` in ASCII.
abbrev siirtc_v : List ℕ
siirtc_v = 83 ∷ 73 ∷ 73 ∷ 82 ∷ 84 ∷ 67 ∷ 95 ∷ 86 ∷ []

pub detect : List ℕ → Bool
detect rom = contains siirtc_v rom

-- The pins SCK, SIO and CS are the bits 0, 1 and 2.
pub read_data : Rtc → ℕ
read_data r =
    bit_or (bit_and r.data_out 5)
      (if bit_set r.direction 1 then bit_and r.data_out 2 else if r.sio_out then 2 else 0)

pub read_reg : ℕ → Rtc → ℕ
unfolding read_data
read_reg offset r =
    if not (bit_set r.control 0)
    then 0
    else if offset == 0
    then read_data r
    else if offset == 2
    then r.direction
    else if offset == 4
    then r.control
    else 0

-- The closure `bcd` of `fill_datetime`.
pub bcd : ℕ → ℕ
bcd n = bit_or (n / 10 * 16 % 256) (n % 10)

-- The writes to the buffer, by `count`.
pub put_datetime : ℕ → DateTime → List ℕ → List ℕ
unfolding bcd
put_datetime count t buf =
    if count == 7
    then set
        (set
          (set
            (set (set (set (set buf 0 (bcd (t.year % 100))) 1 (bcd t.month)) 2 (bcd t.day)) 3
              (bcd t.dow))
            4 (bcd t.hour))
          5 (bcd t.minute))
        6 (bcd t.second)
    else set (set (set buf 0 (bcd t.hour)) 1 (bcd t.minute)) 2 (bcd t.second)

pub fill_datetime : ℕ → ℕ → Rtc → Rtc
unfolding put_datetime
fill_datetime now count r = record r {
  data_buf = put_datetime count (current_datetime now) r.data_buf;
  data_len = count;
  data_idx = 0;
  out_bit_count = 0;
}

-- The three commands that wait for data set the same fields.
pub await_data : ℕ → Rtc → Rtc
await_data count r = record r {
  data_len = count;
  data_idx = 0;
  in_bits = 0;
  in_bit_count = 0;
  state = receiving_data;
}

pub send_status : Rtc → Rtc
send_status r = record r {
  data_buf = set r.data_buf 0 r.status;
  data_len = 1;
  data_idx = 0;
  out_bit_count = 0;
  state = sending_data;
}

pub execute_command : ℕ → Rtc → Rtc
unfolding fill_datetime await_data send_status
execute_command now r =
    if r.command == 0x60
    then record r { status = 0x40; state = idle }
    else if r.command == 0x62
    then await_data 1 r
    else if r.command == 0x63
    then send_status r
    else if r.command == 0x64
    then await_data 7 r
    else if r.command == 0x65
    then record (fill_datetime now 7 r) { state = sending_data }
    else if r.command == 0x66
    then await_data 3 r
    else if r.command == 0x67
    then record (fill_datetime now 3 r) { state = sending_data }
    else record r { state = idle }

pub finish_write : Rtc → Rtc
finish_write r = if r.command == 0x62 then record r { status = get_or r.data_buf 0 0 } else r

-- `sio as u8`.
pub as_u8 : Bool → ℕ
as_u8 b = if b then 1 else 0

-- A rising edge while a command arrives, the highest bit first.
pub receive_command_bit : ℕ → Bool → Rtc → Rtc
unfolding execute_command as_u8
receive_command_bit now sio r =
    let bits = bit_or (r.in_bits * 2 % 256) (as_u8 sio) in
    if r.in_bit_count + 1 == 8
    then record (execute_command now
        (record r { in_bits = bits; in_bit_count = 8; command = bits })) {
          in_bit_count = 0;
          in_bits = 0;
        }
    else record r { in_bits = bits; in_bit_count = r.in_bit_count + 1 }

-- The end of a falling edge while data leaves, once `out_bits` holds a bit to drive.
pub drive_bit : Rtc → Rtc
drive_bit r = record r {
  sio_out = bit_set r.out_bits 0;
  out_bits = r.out_bits / 2;
  out_bit_count = r.out_bit_count - 1;
  state = if r.out_bit_count - 1 == 0 && leb r.data_len r.data_idx then idle else r.state;
}

-- A falling edge while data leaves, the lowest bit first.
pub send_data_bit : Rtc → Rtc
unfolding drive_bit
send_data_bit r =
    if r.out_bit_count == 0
    then if ltb r.data_idx r.data_len
      then drive_bit (record r {
        out_bits = get_or r.data_buf r.data_idx 0;
        data_idx = r.data_idx + 1;
        out_bit_count = 8;
      })
      else record r { sio_out = false }
    else drive_bit r

-- The byte that a last data bit completes.
pub store_byte : ℕ → Rtc → Rtc
store_byte bits r =
    if ltb r.data_idx 8
    then record r {
      data_buf = set r.data_buf r.data_idx bits;
      data_idx = r.data_idx + 1;
      in_bits = 0;
      in_bit_count = 0;
    }
    else record r { in_bits = 0; in_bit_count = 0 }

pub end_when_full : Rtc → Rtc
unfolding finish_write
end_when_full r = if leb r.data_len r.data_idx then record (finish_write r) { state = idle } else r

-- A rising edge while data arrives, the lowest bit first.
pub receive_data_bit : Bool → Rtc → Rtc
unfolding store_byte end_when_full as_u8
receive_data_bit sio r =
    let bits = bit_or r.in_bits (as_u8 sio * 2 ^ r.in_bit_count % 256) in
    if r.in_bit_count + 1 == 8
    then end_when_full (store_byte bits r)
    else record r { in_bits = bits; in_bit_count = r.in_bit_count + 1 }

-- The match of `pin_update`.
pub clock_edge : TransferState → ℕ → Bool → Bool → Bool → Rtc → Rtc
unfolding receive_command_bit send_data_bit receive_data_bit
clock_edge receiving_command now sio rising falling r =
    if rising then receive_command_bit now sio r else r
clock_edge sending_data now sio rising falling r = if falling then send_data_bit r else r
clock_edge receiving_data now sio rising falling r = if rising then receive_data_bit sio r else r
clock_edge idle now sio rising falling r = r

pub cs_edge : Bool → Rtc → Rtc
cs_edge new_cs r =
    if new_cs && not r.cs
    then record r {
      state = receiving_command;
      in_bits = 0;
      in_bit_count = 0;
      out_bit_count = 0;
      data_idx = 0;
      cs = new_cs;
    }
    else if not new_cs && r.cs
    then record r { state = idle; cs = new_cs }
    else record r { cs = new_cs }

pub clocked : ℕ → Bool → Bool → Rtc → Rtc
unfolding clock_edge
clocked now sck sio r =
    if not r.cs
    then record r { last_sck = sck }
    else clock_edge r.state now sio (sck && not r.last_sck) (not sck && r.last_sck)
        (record r { last_sck = sck })

pub pin_update : ℕ → Rtc → Rtc
unfolding cs_edge clocked
pin_update now r =
    clocked now (bit_set r.data_out 0) (bit_set r.data_out 1) (cs_edge (bit_set r.data_out 2) r)

pub write_reg : ℕ → ℕ → ℕ → Rtc → Rtc
unfolding pin_update
write_reg now offset value r =
    if offset == 0
    then pin_update now (record r { data_out = value % 16 })
    else if offset == 2
    then record r { direction = value % 16 }
    else if offset == 4
    then record r { control = value % 2 }
    else r
