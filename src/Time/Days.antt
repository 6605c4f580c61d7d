-- ===== src/Time/Days.antt =====
-- src/timestamp.rs: `days_from_civil` gives the days of the calendar.
use fura.Base.{
  ℕ, zero, suc, ◌⊎◌, ◌+◌, ◌-◌, ◌/◌, ◌%◌, ◌≤◌, ◌<◌, ◌≡◌, refl, ap, ◌∙◌, true, false, ◌&&◌, none,
  some, arith, if◌then◌else◌, leb, Bool-cases, inl, inr, leb→le,
}
use fura.Time.Civil.{in_range, day_of_year, day_of_era, days_of, from_march, days_from_civil}
use fura.Time.Calendar.{
  before_year, before_month, march_days, march_days-suc, before_year-suc, march_low, march_1970,
  day_of_year_early, day_of_year_late, day_of_year_bound,
}

le→leb : (a b : ℕ) → a ≤ b → leb a b ≡ true
le→leb a b h = ground arith

lt→leb : (a b : ℕ) → b < a → leb a b ≡ false
lt→leb a b h = ground arith

not_leb : (a b : ℕ) → leb a b ≡ false → b < a
not_leb a b h = ground arith

days_of_lem :
    (y doy : ℕ)
    → 1969 ≤ y
    → y ≤ 5000000
    → doy ≤ 367
    → (719468 ≤ march_days y + doy)
    → days_of ((y + 400) / 400) (day_of_era ((y + 400) % 400) doy)
      ≡ some (march_days y + doy - 719468)
unfolding days_of day_of_era march_days
days_of_lem y doy a b c d = ground arith

in_range_lem : (m d : ℕ) → 1 ≤ m → m ≤ 12 → 1 ≤ d → d ≤ 31 → in_range m d ≡ true
unfolding in_range
in_range_lem m d a b c e = ground arith

civil_early :
    (y m d : ℕ)
    → 1 ≤ m
    → m ≤ 2
    → 1 ≤ d
    → d ≤ 31
    → days_from_civil (suc y) m d ≡ from_march (y + 400) m d
unfolding days_from_civil
civil_early y m d a b c e =
    rw (in_range_lem m d a (omega (arith, b)) c e, le→leb m 2 b)
      (ap (λ r. from_march r m d) (omega arith))

civil_late :
    (y m d : ℕ) → 3 ≤ m → m ≤ 12 → 1 ≤ d → d ≤ 31 → days_from_civil y m d ≡ from_march (y + 400) m d
unfolding days_from_civil
civil_late y m d a b c e =
    rw (in_range_lem m d (omega (arith, a)) b c e, lt→leb m 2 a)
      (ap (λ r. from_march r m d) (omega arith))

days_from_1970 :
    (y m d : ℕ)
    → 1970 ≤ y
    → y ≤ 5000000
    → 1 ≤ m
    → m ≤ 12
    → 1 ≤ d
    → d ≤ 31
    → days_from_civil y m d ≡ some (before_year y + before_month y m + d - 1 - 719528)
unfolding from_march
days_from_1970 zero m d h k a b c e = ground arith
days_from_1970 (suc y) m d h k a b c e = elim (Bool-cases (leb m 2)) [
  | inl s ↦
      civil_early y m d a (leb→le m 2 s) c e
      ∙ days_of_lem y (day_of_year m d) (omega (arith, h)) (omega (arith, k))
          (day_of_year_bound m d a b c e)
          (omega (
            arith,
            march_low y (omega (arith, h)),
            day_of_year_early (suc y) m d a (leb→le m 2 s) c,
          ))
      ∙ ap some (omega (arith, before_year-suc y, day_of_year_early (suc y) m d a (leb→le m 2 s) c))
  | inr s ↦
      civil_late (suc y) m d (not_leb m 2 s) b c e
      ∙ days_of_lem (suc y) (day_of_year m d) (omega (arith, h)) k (day_of_year_bound m d a b c e)
          (omega (arith, march_1970 (suc y) h))
      ∙ ap some (
          omega (
            arith,
            before_year-suc y,
            march_days-suc y,
            day_of_year_late (suc y) m d (not_leb m 2 s) b c,
          ))
]

pub in_range_bounds : (m d : ℕ) → in_range m d ≡ true → (1 ≤ m × m ≤ 12) × (1 ≤ d × d ≤ 31)
unfolding in_range
in_range_bounds m d h = ground arith

in_range_days :
    (y m d : ℕ)
    → (1 ≤ m × m ≤ 12) × (1 ≤ d × d ≤ 31)
    → 1970 ≤ y
    → y ≤ 5000000
    → days_from_civil y m d ≡ some (before_year y + before_month y m + d - 1 - 719528)
in_range_days y m d ((a, b), (c, e)) h k = days_from_1970 y m d h k a b c e

before_1970 : before_year 1970 ≡ 719528
unfolding march_days
before_1970 = before_year-suc 1969

day_of_year_low : (m d : ℕ) → 3 ≤ m → m ≤ 12 → 1 ≤ d → d ≤ 31 → day_of_year m d ≤ 305
unfolding day_of_year
day_of_year_low m d a b c e = ground arith

days_of_old :
    (r doy : ℕ)
    → (r < 2369 × doy ≤ 367) ⊎ (r ≡ 2369 × doy ≤ 305)
    → days_of (r / 400) (day_of_era (r % 400) doy) ≡ none
unfolding days_of day_of_era
days_of_old r doy h = ground arith

-- What `from_march` gets.
raised_lem :
    (y m d : ℕ)
    → in_range m d ≡ true
    → days_from_civil y m d ≡ from_march (y + 400 - (if leb m 2 then 1 else 0)) m d
unfolding days_from_civil
raised_lem y m d e = rw e refl

old_bound :
    (y m d : ℕ)
    → y < 1970
    → in_range m d ≡ true
    → (y + 400 - (if leb m 2 then 1 else 0) < 2369 × day_of_year m d ≤ 367)
      ⊎ (y + 400 - (if leb m 2 then 1 else 0) ≡ 2369 × day_of_year m d ≤ 305)
unfolding in_range day_of_year
old_bound y m d h e = ground arith

days_before_1970 : (y m d : ℕ) → y < 1970 → in_range m d ≡ true → days_from_civil y m d ≡ none
unfolding from_march
days_before_1970 y m d h e = raised_lem y m d e ∙ days_of_old _ _ (old_bound y m d h e)

out_of_range : (y m d : ℕ) → in_range m d ≡ false → days_from_civil y m d ≡ none
unfolding days_from_civil
out_of_range y m d e = rw e refl

-- For a year up to 5,000,000, whose days fit an `i32`, `days_from_civil` returns the number of days from
-- the first of January 1970 to the date, counted by the calendar, when the month is 1 to 12, the day 1
-- to 31 and the year not before 1970: a day past the end of its month runs on into the next one. Any
-- other date has no result.
pub days_from_civil_lem :
    (y m d : ℕ)
    → y ≤ 5000000
    → days_from_civil y m d ≡ (
        if in_range m d && leb 1970 y
        then some (before_year y + before_month y m + d - 1 - before_year 1970)
        else none)
days_from_civil_lem y m d k = elim (Bool-cases (in_range m d)) [
  | inl e ↦ elim (Bool-cases (leb 1970 y)) [
    | inl f ↦ rw (e, f, before_1970) (in_range_days y m d (in_range_bounds m d e) (leb→le _ _ f) k)
    | inr f ↦ rw (e, f) (days_before_1970 y m d (not_leb _ _ f) e)
  ]
  | inr e ↦ rw e (out_of_range y m d e)
]
