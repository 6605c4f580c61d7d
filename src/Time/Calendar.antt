-- ===== src/Time/Calendar.antt =====
-- The Gregorian calendar, year by year and month by month, and what src/timestamp.rs counts from March.
use fura.Base.{
  ℕ, zero, suc, ◌+◌, ◌-◌, ◌*◌, ◌/◌, ◌%◌, ◌≤◌, ◌≡◌, refl, not, ◌&&◌, ◌||◌, arith, if◌then◌else◌,
  ◌==◌,
}
use native.Mathlib.Numerals.{unary_clauses}
use fura.Time.Civil.{day_of_year}

unfoldable pub leap : ℕ → ℕ
leap y = if y % 4 == 0 && (not (y % 100 == 0) || y % 400 == 0) then 1 else 0

-- The days of the years before a year, from the year 0 on.
unfoldable pub before_year : ℕ → ℕ
before_year zero = 0
before_year (suc y) = before_year y + 365 + leap y

-- The days of a year before a month.
unfoldable pub before_month : ℕ → ℕ → ℕ
before_month y m =
    if m == 1
    then 0
    else if m == 2
    then 31
    else leap y
      + (if m == 3
          then 59
          else if m == 4
          then 90
          else if m == 5
          then 120
          else if m == 6
          then 151
          else if m == 7
          then 181
          else if m == 8
          then 212
          else if m == 9
          then 243
          else if m == 10
          then 273
          else if m == 11
          then 304
          else 334)

unfoldable pub march_days : ℕ → ℕ
march_days y = 365 * y + y / 4 - y / 100 + y / 400

pub march_days_plus : (y : ℕ) → march_days (y + 1) ≡ march_days y + 365 + leap (y + 1)
unfolding march_days leap
march_days_plus y = ground arith

pub march_days-suc : (y : ℕ) → march_days (suc y) ≡ march_days y + 365 + leap (suc y)
march_days-suc y = simp unary_clauses at march_days_plus y

pub before_year-suc : (y : ℕ) → before_year (suc y) ≡ march_days y + 366
unfolding before_year march_days leap
before_year-suc zero = refl
before_year-suc (suc y) = omega (arith, before_year-suc y, march_days-suc y)

pub march_low : (y : ℕ) → 1969 ≤ y → 719162 ≤ march_days y
unfolding march_days
march_low y h = omega (arith, h)

pub march_1970 : (y : ℕ) → 1970 ≤ y → 719527 ≤ march_days y
unfolding march_days
march_1970 y h = omega (arith, h)

pub day_of_year_early :
    (y m d : ℕ) → 1 ≤ m → m ≤ 2 → 1 ≤ d → day_of_year m d ≡ 305 + before_month y m + d
unfolding day_of_year before_month
day_of_year_early y m d a b c = ground arith

pub day_of_year_late :
    (y m d : ℕ) → 3 ≤ m → m ≤ 12 → 1 ≤ d → day_of_year m d + 60 + leap y ≡ before_month y m + d
unfolding day_of_year before_month
day_of_year_late y m d a b c = ground arith

pub day_of_year_bound : (m d : ℕ) → 1 ≤ m → m ≤ 12 → 1 ≤ d → d ≤ 31 → day_of_year m d ≤ 367
unfolding day_of_year
day_of_year_bound m d a b c e = ground arith
