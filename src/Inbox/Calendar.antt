-- ===== src/Inbox/Calendar.antt =====
-- The times of src/inbox.rs: `unix_seconds`, `utc_parts` and `civil_from_days`.
pub mod Rules
pub mod Days
use engram_mcp.Common.{
  ℕ, suc, ◌+◌, ◌-◌, ◌*◌, ◌/◌, ◌%◌, min, Bool, true, false, if◌then◌else◌, leb, ltb,
}
use engram_mcp.Common.Int.{ℤ, pos, negsuc, add_ℕ, mul_ℕ, sub_ℕ, div_euclid, rem_euclid}

-- A `SystemTime` against the epoch: the seconds since it, or those of the error before it, with the
-- nanoseconds dropped.
pub data SystemTime : Type 0 where
  since before : ℕ → SystemTime

abbrev pub i64_max : ℕ
i64_max = 9_223_372_036_854_775_807

unfoldable pub unix_seconds : SystemTime → ℤ
unix_seconds (since seconds) = pos (min seconds i64_max)
unix_seconds (before seconds) = sub_ℕ 0 (min seconds i64_max)

pub record Civil : Type 0 where
  pub year : ℤ
  pub month : ℕ
  pub day : ℕ

-- `shifted / 146_097`, rounded down by the correction of a negative `shifted`; division in the
-- source truncates.
unfoldable pub era_of : (shifted : ℤ) → ℤ
era_of (pos n) = pos (n / 146_097)
era_of (negsuc n) = sub_ℕ 0 ((n + 1 + 146_096) / 146_097)

unfoldable pub day_of_era_of : (shifted : ℤ) → ℕ
day_of_era_of (pos n) = n - n / 146_097 * 146_097
day_of_era_of (negsuc n) = (n + 1 + 146_096) / 146_097 * 146_097 - (n + 1)

unfoldable pub year_of_era_of : (day_of_era : ℕ) → ℕ
year_of_era_of day_of_era =
    (day_of_era - day_of_era / 1_460 + day_of_era / 36_524 - day_of_era / 146_096) / 365

unfoldable pub day_of_year_of : (day_of_era year_of_era : ℕ) → ℕ
day_of_year_of day_of_era year_of_era =
    day_of_era - (365 * year_of_era + year_of_era / 4 - year_of_era / 100)

unfoldable pub shifted_month_of : (day_of_year : ℕ) → ℕ
shifted_month_of day_of_year = (5 * day_of_year + 2) / 153

unfoldable pub month_of : (shifted_month : ℕ) → ℕ
month_of shifted_month = if ltb shifted_month 10 then shifted_month + 3 else shifted_month - 9

unfoldable pub day_of : (day_of_year shifted_month : ℕ) → ℕ
day_of day_of_year shifted_month = day_of_year - (153 * shifted_month + 2) / 5 + 1

-- The year within its era, where January and February count to the next one, the month and the day.
unfoldable pub civil_of_era : (day_of_era : ℕ) → ℕ × ℕ × ℕ
unfolding year_of_era_of day_of_year_of shifted_month_of month_of day_of
civil_of_era day_of_era =
    let year_of_era = year_of_era_of day_of_era in
    let day_of_year = day_of_year_of day_of_era year_of_era in
    let shifted_month = shifted_month_of day_of_year in
    let month = month_of shifted_month in
    (if leb month 2 then year_of_era + 1 else year_of_era, month, day_of day_of_year shifted_month)

unfoldable pub civil_from_days : ℤ → Civil
civil_from_days days =
    let shifted = add_ℕ days 719_468 in
    let (year, month, day) = civil_of_era (day_of_era_of shifted) in
    record { year = add_ℕ (mul_ℕ (era_of shifted) 400) year; month = month; day = day }

pub record UtcParts : Type 0 where
  pub date : Civil
  pub hour : ℕ
  pub minute : ℕ
  pub second : ℕ

unfoldable pub utc_parts : (seconds : ℤ) → UtcParts
utc_parts seconds =
    let time_of_day = rem_euclid seconds 86_400 in
    record {
      date = civil_from_days (div_euclid seconds 86_400);
      hour = time_of_day / 3_600;
      minute = time_of_day / 60 % 60;
      second = time_of_day % 60;
    }
