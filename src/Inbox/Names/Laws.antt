-- ===== src/Inbox/Names/Laws.antt =====
-- The names that are generated for notes are safe file names.
use engram_mcp.Common.{ℕ, ◌+◌, ◌*◌, ◌^◌, ◌≤◌, ◌<◌, ◌≡◌, true, Text, arith}
use engram_mcp.Common.Int.{ℤ, pos, negsuc, add_ℕ, mul_ℕ, div_euclid, rem_euclid, magnitude}
use engram_mcp.Inbox.Slug.{IsSlug}
use engram_mcp.Inbox.Checks.{is_safe_file_name}
use engram_mcp.Inbox.Calendar.{
  utc_parts, civil_from_days, civil_of_era, era_of, day_of_era_of, SystemTime, since, before,
  unix_seconds, i64_max,
}
use engram_mcp.Inbox.Calendar.Days.{civil_of_era_bounds}
use engram_mcp.Inbox.Names.{name_of_parts, note_file_name}
use engram_mcp.Inbox.Names.Parts.{
  IsPrinted, byte_len-name_bytes, name_of_parts-IsPart, name_of_parts-ends_with,
  name_of_parts-starts,
}

magnitude-add_ℕ : (z : ℤ) (k : ℕ) → magnitude (add_ℕ z k) ≤ magnitude z + k
magnitude-add_ℕ (pos n) k = omega arith
magnitude-add_ℕ (negsuc n) k = ground arith

magnitude-mul_ℕ : (z : ℤ) → magnitude (mul_ℕ z 400) ≤ magnitude z * 400
magnitude-mul_ℕ (pos n) = omega arith
magnitude-mul_ℕ (negsuc n) = ground arith

era_bounds :
    (z : ℤ)
    → magnitude z < 3 * 10 ^ 14
    → (day_of_era_of z < 146_097) × (magnitude (era_of z) < 2_100_000_000)
unfolding era_of day_of_era_of
era_bounds (pos n) h = omega arith
era_bounds (negsuc n) h = ground arith

date_bounds :
    (days : ℤ)
    → magnitude days < 2 * 10 ^ 14
    → (magnitude (civil_from_days days).year < 10 ^ 13)
      × ((civil_from_days days).month < 100)
      × ((civil_from_days days).day < 100)
unfolding civil_from_days
date_bounds days h =
    let shifted = add_ℕ days 719_468 in
    let (within, small) = era_bounds shifted (omega (arith, magnitude-add_ℕ days 719_468, h)) in
    let ranges = civil_of_era_bounds (day_of_era_of shifted) within in
    let far =
      magnitude-add_ℕ (mul_ℕ (era_of shifted) 400) (civil_of_era (day_of_era_of shifted)).0 in
    (
      omega (arith, far, magnitude-mul_ℕ (era_of shifted), ranges, small),
      omega (arith, ranges),
      omega (arith, ranges),
    )

div_euclid-bound : (z : ℤ) → magnitude z ≤ i64_max → magnitude (div_euclid z 86_400) < 2 * 10 ^ 14
div_euclid-bound (pos n) h = omega arith
div_euclid-bound (negsuc n) h = omega arith

rem_euclid-bound : (z : ℤ) → rem_euclid z 86_400 < 86_400
rem_euclid-bound (pos n) = omega arith
rem_euclid-bound (negsuc n) = omega arith

unix_seconds-bound : (now : SystemTime) → magnitude (unix_seconds now) ≤ i64_max
unfolding unix_seconds
unix_seconds-bound (since n) = ground arith
unix_seconds-bound (before n) = ground arith

utc_parts-IsPrinted : (now : SystemTime) → IsPrinted (utc_parts (unix_seconds now))
unfolding utc_parts
utc_parts-IsPrinted now =
    let seconds = unix_seconds now in
    let date =
      date_bounds (div_euclid seconds 86_400) (div_euclid-bound seconds (unix_seconds-bound now)) in
    let within = rem_euclid-bound seconds in
    record {
      year = date.0;
      month = date.1;
      day = date.2;
      hour = omega (arith, within);
      minute = omega (arith, within);
      second = omega (arith, within);
    }

-- At every time, before the epoch and at the largest number of seconds too, the name of a note
-- made from a slug and one of the 64 attempts is a safe file name.
pub note_file_name-is_safe_file_name :
    (now : SystemTime) (slug : Text) (attempt : ℕ)
    → IsSlug slug
    → attempt < 64
    → is_safe_file_name (note_file_name (unix_seconds now) slug attempt) ≡ true
unfolding is_safe_file_name note_file_name
note_file_name-is_safe_file_name now slug attempt s h =
    let p = utc_parts (unix_seconds now) in
    let part = name_of_parts-IsPart p slug attempt (utc_parts-IsPrinted now) s h in
    ground (
      arith,
      part.letters,
      part.short,
      byte_len-name_bytes (name_of_parts p slug attempt),
      name_of_parts-ends_with p slug attempt,
      name_of_parts-starts p slug attempt,
    )
