-- ===== src/Time/Civil.antt =====
-- src/timestamp.rs: `days_from_civil`. A parsed year has no sign. The numbers of the source are `i32`:
-- the year is raised by 400, so that January of the year 0 stays in ℕ, and the wrap-around of a
-- release build is written out.
use fura.Base.{
  ℕ, ◌+◌, ◌-◌, ◌*◌, ◌/◌, ◌%◌, ◌^◌, Bool, not, ◌&&◌, Option, none, some, if◌then◌else◌, ltb, leb,
}

-- `(1..=12).contains(&month)` and `(1..=31).contains(&day)`
unfoldable pub in_range : ℕ → ℕ → Bool
in_range month day = leb 1 month && leb month 12 && leb 1 day && leb day 31

-- The day of the year that starts in March, from 0.
unfoldable pub day_of_year : ℕ → ℕ → ℕ
day_of_year month day = (153 * (if ltb 2 month then month - 3 else month + 9) + 2) / 5 + day - 1

unfoldable pub day_of_era : ℕ → ℕ → ℕ
day_of_era yoe doy = yoe * 365 + yoe / 4 - yoe / 100 + doy

-- `era * 146_097 + doe - 719_468`, where `era` counts the raised year; a negative number has the
-- highest bit.
unfoldable pub days_of : ℕ → ℕ → Option ℕ
days_of era doe =
    let days = (era * 146097 + doe + (2 ^ 32 - 865565)) % 2 ^ 32 in
    if ltb days (2 ^ 31) then some days else none

-- The lines from `let era` on, for the raised year.
unfoldable pub from_march : ℕ → ℕ → ℕ → Option ℕ
from_march raised month day =
    days_of (raised / 400) (day_of_era (raised % 400) (day_of_year month day))

unfoldable pub days_from_civil : ℕ → ℕ → ℕ → Option ℕ
unfolding in_range from_march
days_from_civil year month day =
    if not (in_range month day)
    then none
    else from_march (year + 400 - (if leb month 2 then 1 else 0)) month day
