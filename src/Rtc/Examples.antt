-- ===== src/Rtc/Examples.antt =====
-- Dates, and the status of a fresh chip.
use vibe_gba.Prelude.{◌≡◌, refl, replicate}
use vibe_gba.Rtc.{new, bcd}
use vibe_gba.Rtc.Calendar.{days_to_ymd, month_day}
use vibe_gba.Rtc.Transfer.{read_status, low_bits, read_status-low_bits}

test_epoch : days_to_ymd 0 ≡ record { year = 1970; month = 1; day = 1 }
unfolding days_to_ymd month_day
test_epoch = refl

test_2000 : days_to_ymd 10957 ≡ record { year = 2000; month = 1; day = 1 }
unfolding days_to_ymd month_day
test_2000 = refl

test_bcd : bcd 59 ≡ 0x59
unfolding bcd
test_bcd = refl

read_status-low_bits_example : read_status 0 new ≡ low_bits 8 new.status
read_status-low_bits_example =
    read_status-low_bits 0 0 (replicate 7 0) new (unfold new in refl) (unfold new in refl)
