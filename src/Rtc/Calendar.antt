-- ===== src/Rtc/Calendar.antt =====
-- gba-core/src/rtc.rs: the date of a number of days, and the time of a number of seconds.
use vibe_gba.Prelude.{ℕ, ◌+◌, ◌-◌, ◌*◌, ◌/◌, ◌%◌, ◌^◌, ltb, leb, if◌then◌else◌}

pub record Date : Type 0 where
  pub year : ℕ
  pub month : ℕ
  pub day : ℕ

-- The tuple that `current_datetime` returns.
pub record DateTime : Type 0 where
  pub year : ℕ
  pub month : ℕ
  pub day : ℕ
  pub dow : ℕ
  pub hour : ℕ
  pub minute : ℕ
  pub second : ℕ

-- The month and the day within a year that begins in March.
unfoldable pub month_day : ℕ → ℕ → Date
month_day y doy =
    let mp = (5 * doy + 2) / 153 in
    let d = doy - (153 * mp + 2) / 5 + 1 in
    let m = if ltb mp 10 then mp + 3 else mp - 9 in
    record { year = if leb m 2 then y + 1 else y; month = m; day = d }

-- The days come from a `u32`, so that they are never negative and neither is the era.
unfoldable pub days_to_ymd : ℕ → Date
unfolding month_day
days_to_ymd since_epoch =
    let days = since_epoch + 719468 in
    let era = days / 146097 in
    let doe = days - era * 146097 in
    let yoe = (doe - doe / 1460 + doe / 36524 - doe / 146096) / 365 in
    let y = yoe + era * 400 in month_day y (doe - (365 * yoe + yoe / 4 - yoe / 100))

pub current_datetime : ℕ → DateTime
unfolding days_to_ymd
current_datetime secs =
    let days = secs / 86400 % 2 ^ 32 in
    let date = days_to_ymd days in
    record {
      year = date.year;
      month = date.month;
      day = date.day;
      dow = (days + 4) % 7;
      hour = secs / 3600 % 24;
      minute = secs / 60 % 60;
      second = secs % 60;
    }
