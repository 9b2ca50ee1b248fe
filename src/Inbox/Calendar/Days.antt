-- ===== src/Inbox/Calendar/Days.antt =====
-- The dates of `civil_from_days` follow one another by the rules of the calendar.
use engram_mcp.Common.{
  ℕ, zero, suc, ◌+◌, ◌-◌, ◌*◌, ◌/◌, ◌%◌, ◌<◌, ◌≤◌, ◌≡◌, refl, ap, sym, ltb→lt, ◌∙◌, Bool, true,
  false, inl, inr, Bool-cases, not, ◌&&◌, if◌then◌else◌, leb, ltb, ◌==◌, arith,
}
use engram_mcp.Common.Int.{pos}
use engram_mcp.Inbox.Calendar.{
  year_of_era_of, day_of_year_of, shifted_month_of, day_of, month_of, Civil, civil_of_era,
  civil_from_days, era_of, day_of_era_of,
}
use engram_mcp.Inbox.Calendar.Rules.{
  is_leap, month_days, days_in_month, next_after, next_day, holds_below, holds_below-at,
}

-- Years of an era begin in March: the days before the year `y`, and its days, of which the last is
-- in the next year's February.
abbrev start : ℕ → ℕ
start y = 365 * y + y / 4 - y / 100

abbrev year_days : ℕ → ℕ
year_days y = if is_leap (y + 1) then 366 else 365

abbrev in_civil_year : (y month : ℕ) → ℕ
in_civil_year y month = if leb month 2 then y + 1 else y

abbrev date : (year day_of_year : ℕ) → ℕ × ℕ × ℕ
date y doy =
    let m = month_of (shifted_month_of doy) in
    (in_civil_year y m, m, day_of doy (shifted_month_of doy))

year_of_era_lem : (y doy : ℕ) → y < 400 → doy < year_days y → year_of_era_of (start y + doy) ≡ y
unfolding year_of_era_of
year_of_era_lem y doy h k = ground arith

year_found :
    (d : ℕ)
    → d < 146_097
    → (year_of_era_of d < 400)
      × (start (year_of_era_of d) ≤ d)
      × (d - start (year_of_era_of d) < year_days (year_of_era_of d))
unfolding year_of_era_of
year_found d h = ground arith

-- Within such a year, the month and the day of the next day.
abbrev follows : (days m d m' d' : ℕ) → Bool
follows days m d m' d' =
    if ltb d days
    then m' == m && d' == d + 1
    else if ltb m 12
    then m' == m + 1 && d' == 1 && not (m == 2)
    else m' == 1 && d' == 1

next_after-follows :
    (days y m d m' d' : ℕ)
    → follows days m d m' d' ≡ true
    → Path (ℕ × ℕ × ℕ) (in_civil_year y m', m', d') (next_after days (in_civil_year y m, m, d))
next_after-follows days y m d m' d' h = ground arith

month_days-eq : (y m : ℕ) → days_in_month (in_civil_year y m) m ≡ month_days (is_leap (y + 1)) m
month_days-eq y m = elim (Bool-cases (leb m 2)) [
  | inl early ↦ rw early refl
  | inr late ↦ other (is_leap (in_civil_year y m)) (is_leap (y + 1)) late
]
  where
    other : (b c : Bool) → leb m 2 ≡ false → month_days b m ≡ month_days c m
    other b c h = ground arith

next_day-follows :
    (y m d m' d' : ℕ)
    → follows (month_days (is_leap (y + 1)) m) m d m' d' ≡ true
    → Path (ℕ × ℕ × ℕ) (in_civil_year y m', m', d') (next_day (in_civil_year y m, m, d))
next_day-follows y m d m' d' h =
    next_after-follows (days_in_month (in_civil_year y m) m) y m d m' d' (rw (month_days-eq y m) h)

abbrev month_follows : (leap : Bool) (doy : ℕ) → Bool
month_follows leap doy =
    follows (month_days leap (month_of (shifted_month_of doy))) (month_of (shifted_month_of doy))
      (day_of doy (shifted_month_of doy)) (month_of (shifted_month_of (suc doy)))
      (day_of (suc doy) (shifted_month_of (suc doy)))

leap_months : holds_below (month_follows true) 365 ≡ true
unfolding holds_below month_of shifted_month_of day_of
leap_months = refl

common_months : holds_below (month_follows false) 364 ≡ true
unfolding holds_below month_of shifted_month_of day_of
common_months = refl

months_follow :
    (leap : Bool) (doy : ℕ) → suc doy < (if leap then 366 else 365) → month_follows leap doy ≡ true
months_follow true doy h = holds_below-at (month_follows true) 365 doy (omega arith) leap_months
months_follow false doy h = holds_below-at (month_follows false) 364 doy (omega arith) common_months

in_year : (y doy : ℕ) → suc doy < year_days y → date y (suc doy) ≡ next_day (date y doy)
in_year y doy k =
    next_day-follows y (month_of (shifted_month_of doy)) (day_of doy (shifted_month_of doy))
      (month_of (shifted_month_of (suc doy))) (day_of (suc doy) (shifted_month_of (suc doy)))
      (months_follow (is_leap (y + 1)) doy k)

year_end : (y doy : ℕ) → suc doy ≡ year_days y → date (y + 1) 0 ≡ next_day (date y doy)
unfolding month_of shifted_month_of day_of
year_end y doy k = ground arith

civil_of_era_lem :
    (y doy : ℕ) → y < 400 → doy < year_days y → civil_of_era (start y + doy) ≡ date y doy
unfolding civil_of_era day_of_year_of
civil_of_era_lem y doy h k =
    let e = year_of_era_lem y doy h k in
    let rest : start y + doy - start y ≡ doy = omega arith in rw (e, civil_of_era) (rw rest refl)

civil_at :
    (y doy d : ℕ) → y < 400 → start y + doy ≡ d → doy < year_days y → civil_of_era d ≡ date y doy
civil_at y doy d small e within = ap civil_of_era (sym e) ∙ civil_of_era_lem y doy small within

next_year :
    (y doy d : ℕ)
    → y < 400
    → start y + doy ≡ d
    → suc doy ≡ year_days y
    → suc d < 146_097
    → (y + 1 < 400) × (start (y + 1) + 0 ≡ suc d)
next_year y doy d small e last h = ground arith

-- Within an era the next day's date is the day after.
pub civil_of_era-suc : (d : ℕ) → suc d < 146_097 → civil_of_era (suc d) ≡ next_day (civil_of_era d)
civil_of_era-suc d h =
    let (small, from, within) = year_found d (omega arith) in
    step (year_of_era_of d) (d - start (year_of_era_of d)) small (omega (arith, from)) within
  where
    step :
        (y doy : ℕ)
        → y < 400
        → start y + doy ≡ d
        → doy < year_days y
        → civil_of_era (suc d) ≡ next_day (civil_of_era d)
    step y doy small e within = elim (Bool-cases (ltb (suc doy) (year_days y))) [
      | inl inside ↦
          civil_at y (suc doy) (suc d) small (omega (arith, e)) (ltb→lt _ _ inside)
          ∙ in_year y doy (ltb→lt _ _ inside)
          ∙ ap next_day (sym (civil_at y doy d small e within))
      | inr last ↦
          let full : suc doy ≡ year_days y = ground (arith, last, within) in
          let (small', e') = next_year y doy d small e full h in
          civil_at (y + 1) 0 (suc d) small' e' (ground arith)
          ∙ year_end y doy full
          ∙ ap next_day (sym (civil_at y doy d small e within))
    ]

-- The last day of an era is the 29th of February of its year 400, and the next era begins in March.
pub civil_of_era_ends :
    (Path (ℕ × ℕ × ℕ) (civil_of_era 146_096) (400, 2, 29))
    × (Path (ℕ × ℕ × ℕ) (civil_of_era 0) (0, 3, 1))
unfolding civil_of_era
civil_of_era_ends = (refl, refl)

-- A date that is some eras later.
abbrev shift : ℕ → ℕ × ℕ × ℕ → ℕ × ℕ × ℕ
shift k (year, month, day) = (k * 400 + year, month, day)

is_leap-add : (k y : ℕ) → is_leap (k * 400 + y) ≡ is_leap y
is_leap-add k y =
    let four : (k * 400 + y) % 4 ≡ y % 4 = omega arith in
    let hundred : (k * 400 + y) % 100 ≡ y % 100 = omega arith in
    let four_hundred : (k * 400 + y) % 400 ≡ y % 400 = omega arith in
    rw (four, hundred, four_hundred) refl

next_after-shift : (n k : ℕ) (t : ℕ × ℕ × ℕ) → next_after n (shift k t) ≡ shift k (next_after n t)
next_after-shift n k (y, m, d) = ground arith

next_day-shift : (k : ℕ) (t : ℕ × ℕ × ℕ) → next_day (shift k t) ≡ shift k (next_day t)
next_day-shift k (y, m, d) =
    ap (λ b. next_after (month_days b m) (shift k (y, m, d))) (is_leap-add k y)
    ∙ next_after-shift (days_in_month y m) k (y, m, d)

-- The date of a day since the March of year 0, in plain numbers.
abbrev pub date_of : ℕ → ℕ × ℕ × ℕ
date_of shifted = shift (shifted / 146_097) (civil_of_era (shifted % 146_097))

date_of-suc : (n : ℕ) → date_of (suc n) ≡ next_day (date_of n)
date_of-suc n = elim (Bool-cases (ltb (suc (n % 146_097)) 146_097)) [
  | inl inside ↦
      let same : suc n / 146_097 ≡ n / 146_097 = ground (arith, inside) in
      let next : suc n % 146_097 ≡ suc (n % 146_097) = ground (arith, inside) in
      rw (same, next)
        (ap (shift (n / 146_097)) (civil_of_era-suc (n % 146_097) (ltb→lt _ _ inside))
          ∙ sym (next_day-shift (n / 146_097) (civil_of_era (n % 146_097))))
  | inr last ↦
      let this : n % 146_097 ≡ 146_096 = ground (arith, last) in
      let later : suc n / 146_097 ≡ n / 146_097 + 1 = omega (arith, this) in
      let first : suc n % 146_097 ≡ 0 = omega (arith, this) in
      rw (this, later, first, civil_of_era_ends.0, civil_of_era_ends.1)
        (sym (next_day-shift (n / 146_097) (400, 2, 29) ∙ ground arith))
]

abbrev pub as_civil : ℕ × ℕ × ℕ → Civil
as_civil (year, month, day) = record { year = pos year; month = month; day = day }

civil_from_days-date_of :
    (days : ℕ) → civil_from_days (pos days) ≡ as_civil (date_of (days + 719_468))
unfolding civil_from_days era_of day_of_era_of
civil_from_days-date_of days =
    let rest : days + 719_468 - (days + 719_468) / 146_097 * 146_097 ≡ (days + 719_468) % 146_097 =
      omega arith in
    rw rest refl

-- The calendar: day by day from 1970-01-01.
pub calendar : ℕ → ℕ × ℕ × ℕ
calendar zero = (1970, 1, 1)
calendar (suc days) = next_day (calendar days)

epoch : Path (ℕ × ℕ × ℕ) (date_of 719_468) (1970, 1, 1)
unfolding civil_of_era
epoch = refl

date_of-calendar : (days : ℕ) → date_of (days + 719_468) ≡ calendar days
unfolding calendar
date_of-calendar zero = epoch
date_of-calendar (suc days) =
    let e : suc days + 719_468 ≡ suc (days + 719_468) = omega arith in
    rw e (date_of-suc (days + 719_468) ∙ ap next_day (date_of-calendar days))

-- The formula for the date of a day since 1970-01-01 gives the date that a calendar reaches which
-- goes from that date day by day, with the months and leap years of the Gregorian calendar.
pub civil_from_days-calendar : (days : ℕ) → civil_from_days (pos days) ≡ as_civil (calendar days)
civil_from_days-calendar days = civil_from_days-date_of days ∙ ap as_civil (date_of-calendar days)

date_bounds :
    (y doy : ℕ)
    → y < 400
    → doy < 366
    → ((date y doy).0 ≤ 400)
      × (1 ≤ (date y doy).1)
      × ((date y doy).1 ≤ 12)
      × (1 ≤ (date y doy).2)
      × ((date y doy).2 ≤ 31)
unfolding month_of shifted_month_of day_of
date_bounds y doy small within = ground arith

-- The ranges of a year of an era, a month and a day.
pub civil_of_era_bounds :
    (d : ℕ)
    → d < 146_097
    → ((civil_of_era d).0 ≤ 400)
      × (1 ≤ (civil_of_era d).1)
      × ((civil_of_era d).1 ≤ 12)
      × (1 ≤ (civil_of_era d).2)
      × ((civil_of_era d).2 ≤ 31)
civil_of_era_bounds d h =
    let (small, from, within) = year_found d h in
    let y = year_of_era_of d in
    rw (civil_at y (d - start y) d small (omega (arith, from)) within)
      (date_bounds y (d - start y) small (ground (arith, within)))
