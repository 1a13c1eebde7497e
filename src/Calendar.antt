-- ===== src/Calendar.antt =====
-- The UTC day and month of a time in milliseconds, for `toISOString().slice(0, 10)` and `slice(0, 7)`.
-- The source only compares these texts for equality, so a day is the number of days since
-- 1970-01-01 and a month is the number of months since the year 0.
use paygate_mcp.Base.{ℕ, ◌+◌, ◌-◌, ◌*◌, ◌/◌, ◌%◌, ◌≡◌, ap, refl}

abbrev day_ms : ℕ
day_ms = 86400000

unfoldable pub day_of : ℕ → ℕ
day_of now = now / day_ms

-- The proleptic Gregorian calendar in eras of 400 years that begin on 1 March.
abbrev month_of_era_day : ℕ → ℕ → ℕ
month_of_era_day era doe =
    let yoe = (doe - doe / 1460 + doe / 36524 - doe / 146096) / 365 in
    let doy = doe - (365 * yoe + yoe / 4 - yoe / 100) in
    let mp = (5 * doy + 2) / 153 in (yoe + era * 400) * 12 + mp + 2

-- Months since the year 0: 12 * year + (month - 1).
unfoldable pub month_of_day : ℕ → ℕ
month_of_day day = let z = day + 719468 in month_of_era_day (z / 146097) (z % 146097)

unfoldable pub month_of : ℕ → ℕ
month_of now = month_of_day (day_of now)

leap_day : month_of_day 19782 ≡ 2024 * 12 + 1
unfolding month_of_day
leap_day = refl

after_leap_day : month_of_day 19783 ≡ 2024 * 12 + 2
unfolding month_of_day
after_leap_day = refl

year_end : month_of_day 20453 ≡ 2025 * 12 + 11
unfolding month_of_day
year_end = refl

year_start : month_of_day 20454 ≡ 2026 * 12
unfolding month_of_day
year_start = refl

pub same_day-same_month : (a b : ℕ) → day_of a ≡ day_of b → month_of a ≡ month_of b
unfolding month_of
same_day-same_month a b h = ap month_of_day h
