-- ===== src/Inbox/Calendar/Rules.antt =====
-- The rules of the Gregorian calendar, that `civil_from_days` of src/inbox.rs is compared with.
use engram_mcp.Common.{
  ℕ, zero, suc, ◌+◌, ◌%◌, ◌<◌, ◌≡◌, Bool, true, inl, inr, Bool-cases, not, ◌&&◌, ◌||◌,
  if◌then◌else◌, ltb, ◌==◌, ==_iff, arith,
}

-- The Gregorian rule.
abbrev pub is_leap : ℕ → Bool
is_leap year = year % 4 == 0 && (not (year % 100 == 0) || year % 400 == 0)

abbrev pub month_days : (leap : Bool) (month : ℕ) → ℕ
month_days leap month =
    if month == 2
    then (if leap then 29 else 28)
    else if month == 4 || month == 6 || month == 9 || month == 11
    then 30
    else 31

abbrev pub days_in_month : (year month : ℕ) → ℕ
days_in_month year month = month_days (is_leap year) month

-- The day after a date, in a month of so many days.
abbrev pub next_after : (days : ℕ) → ℕ × ℕ × ℕ → ℕ × ℕ × ℕ
next_after days (year, month, day) =
    if ltb day days
    then (year, month, day + 1)
    else if ltb month 12
    then (year, month + 1, 1)
    else (year + 1, 1, 1)

abbrev pub next_day : ℕ × ℕ × ℕ → ℕ × ℕ × ℕ
next_day (year, month, day) = next_after (days_in_month year month) (year, month, day)

-- A test of all numbers below a bound, which is run.
unfoldable pub holds_below : (ℕ → Bool) → (bound : ℕ) → Bool
holds_below p zero = true
holds_below p (suc bound) = let before = holds_below p bound in before && p bound

pub holds_below-at :
    (p : ℕ → Bool) (bound i : ℕ) → i < bound → holds_below p bound ≡ true → p i ≡ true
unfolding holds_below
holds_below-at p zero i below h = absurd (omega (arith, below))
holds_below-at p (suc bound) i below h = elim (Bool-cases (i == bound)) [
  | inl last ↦ ground (arith, (==_iff i bound).0 last, h)
  | inr earlier ↦ holds_below-at p bound i (ground (arith, earlier, below)) (ground (arith, h))
]
