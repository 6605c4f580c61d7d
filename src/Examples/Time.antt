-- ===== src/Examples/Time.antt =====
-- src/timestamp.rs: some dates and times.
use fura.Base.{◌+◌, ◌-◌, ◌*◌, ◌^◌, ◌≡◌, refl, if◌then◌else◌, ◌&&◌, leb, some, none, arith}
use fura.Time.Civil.{in_range, day_of_year, day_of_era, days_of, days_from_civil}
use fura.Time.Calendar.{before_year, before_month}
use fura.Time.Text.{codes}
use fura.Time.Rfc3339.{parse_offset_seconds, parse_rfc3339_utc_millis}
use fura.Time.Print.{ahead}
use fura.Time.Parsed.{write}
use fura.Time.RoundTrip.{shifted, local_seconds, days_to, parse_rfc3339_utc_millis-write}
use fura.Time.Days.{days_from_civil_lem}

days_from_civil_lem_example : days_from_civil 2024 2 29 ≡ (
    if in_range 2 29 && leb 1970 2024
    then some (before_year 2024 + before_month 2024 2 + 29 - 1 - before_year 1970)
    else none)
days_from_civil_lem_example = days_from_civil_lem 2024 2 29 (omega arith)

leap_day : days_from_civil 2024 2 29 ≡ some 19782
unfolding days_from_civil days_of day_of_era day_of_year
leap_day = refl

epoch : days_from_civil 1970 1 1 ≡ some 0
unfolding days_from_civil days_of day_of_era day_of_year
epoch = refl

past_its_month : days_from_civil 2023 2 31 ≡ days_from_civil 2023 3 3
unfolding days_from_civil day_of_era day_of_year
past_its_month = refl

parsed : parse_rfc3339_utc_millis (codes "2026-04-30T12:34:56.789Z") ≡ some 1777552496789
unfolding parse_rfc3339_utc_millis days_from_civil days_of day_of_era day_of_year
parsed = refl

-- A second sign is accepted: nine and a half hours behind.
signed_hours : parse_offset_seconds (codes "+-10:30") ≡ some (2 ^ 32 - 34200)
unfolding parse_offset_seconds
signed_hours = refl

parse_rfc3339_utc_millis-write_example :
    parse_rfc3339_utc_millis (write 2026 4 30 14 34 56 1 (ahead 2 0))
    ≡ some (shifted (ahead 2 0) (local_seconds (days_to 2026 4 30) 14 34 56) * 1000 + 1)
unfolding in_range
parse_rfc3339_utc_millis-write_example =
    parse_rfc3339_utc_millis-write 2026 4 30 14 34 56 1 (ahead 2 0) (omega arith) refl (omega arith)
      (omega arith) (omega arith)
