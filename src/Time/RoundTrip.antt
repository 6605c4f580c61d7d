-- ===== src/Time/RoundTrip.antt =====
-- src/timestamp.rs: a written RFC 3339 text is read as the milliseconds of its instant.
use fura.Base.{
  ℕ, ◌+◌, ◌-◌, ◌*◌, ◌^◌, ◌≤◌, ◌<◌, ◌≡◌, refl, ◌∙◌, min, true, false, ◌||◌, some, arith, ltb, leb,
}
use fura.Time.Civil.{in_range, days_of, from_march, days_from_civil}
use fura.Time.Calendar.{before_year, before_month}
use fura.Time.Days.{in_range_bounds, days_from_civil_lem}
use fura.Time.Rfc3339.{utc_seconds, instant, checked_u64, parse_rfc3339_utc_millis}
use fura.Time.Print.{
  three, Offset, zulu, ahead, behind, IsOffset, word_of, parse_fraction_millis-three,
}
use fura.Time.Parsed.{write, parse_write}

-- The days from the first of January 1970 to a date.
abbrev pub days_to : ℕ → ℕ → ℕ → ℕ
days_to y m d = before_year y + before_month y m + d - 1 - before_year 1970

-- A leap second counts as the one before.
abbrev pub local_seconds : ℕ → ℕ → ℕ → ℕ → ℕ
local_seconds days h mi s = days * 86400 + (h * 3600 + mi * 60 + min s 59)

abbrev pub shifted : Offset → ℕ → ℕ
shifted zulu local = local
shifted (ahead h m) local = local - (h * 3600 + m * 60)
shifted (behind h m) local = local + (h * 3600 + m * 60)

-- The instant is not before 1970.
abbrev pub Reaches : Offset → ℕ → Type 0
Reaches (ahead h m) local = h * 3600 + m * 60 ≤ local
Reaches _ local = Unit

days_from_civil_bound : (y m d n : ℕ) → days_from_civil y m d ≡ some n → n < 2 ^ 31
unfolding days_from_civil from_march days_of
days_from_civil_bound y m d n h = ground (arith, h)

utc_seconds_lem :
    (e c : ℕ) (o : Offset)
    → IsOffset o
    → e < 2 ^ 60
    → c < 2 ^ 60
    → Reaches o (e + c)
    → utc_seconds e c (word_of o) ≡ some (shifted o (e + c))
unfolding utc_seconds
utc_seconds_lem e c zulu i a b r = ground arith
utc_seconds_lem e c (ahead h m) (j, k) a b r = ground arith
utc_seconds_lem e c (behind h m) (j, k) a b r = ground arith

checked_lem : (n : ℕ) → n < 2 ^ 64 → checked_u64 n ≡ some n
checked_lem n h = ground arith

late : (y : ℕ) → 1970 ≤ y → leb 1970 y ≡ true
late y h = ground arith

days_lem :
    (y m d : ℕ)
    → 1970 ≤ y
    → y ≤ 9999
    → in_range m d ≡ true
    → days_from_civil y m d ≡ some (days_to y m d)
days_lem y m d a b r = days_from_civil_lem y m d (omega arith) ∙ rw (r, late y a) refl

clock_lem : (h mi s : ℕ) → h ≤ 23 → mi ≤ 59 → s ≤ 60 → (ltb 23 h || ltb 59 mi || ltb 60 s) ≡ false
clock_lem h mi s a b c = ground arith

shifted_bound : (o : Offset) (l : ℕ) → IsOffset o → l < 2 ^ 50 → shifted o l < 2 ^ 51
shifted_bound zulu l i h = omega (arith, h)
shifted_bound (ahead oh om) l (a, b) h = omega (arith, h)
shifted_bound (behind oh om) l (a, b) h = omega (arith, h, a, b)

instant_lem :
    (y mo d h mi s ms : ℕ) (o : Offset)
    → (1970 ≤ y) × (y ≤ 9999)
    → in_range mo d ≡ true
    → (h ≤ 23) × (mi ≤ 59) × (s ≤ 60) × (ms ≤ 999)
    → IsOffset o
    → Reaches o (local_seconds (days_to y mo d) h mi s)
    → instant y mo d h mi s (three ms) (word_of o)
      ≡ some (shifted o (local_seconds (days_to y mo d) h mi s) * 1000 + ms)
unfolding instant
instant_lem y mo d h mi s ms o (y₁, y₂) r (hh, hm, hs, hf) i reach =
    let dated = days_lem y mo d y₁ y₂ r in
    let few = days_from_civil_bound y mo d (days_to y mo d) dated in
    let e = days_to y mo d * 86400 in
    let c = h * 3600 + mi * 60 + min s 59 in
    let bound = shifted_bound o (e + c) i (omega (arith, few)) in
    rw
      (
        clock_lem h mi s hh hm hs,
        parse_fraction_millis-three ms hf,
        dated,
        checked_lem e (omega (arith, few)),
        utc_seconds_lem e c o i (omega (arith, few)) (omega arith) reach,
        checked_lem (shifted o (e + c) * 1000) (omega (arith, bound)),
        checked_lem (shifted o (e + c) * 1000 + ms) (omega (arith, bound)),
      )
      refl

-- A date-time of the years 1970 to 9999 in the format of RFC 3339, with a month of 1 to 12, a day of 1 to
-- 31, a time of day up to 23:59:60, milliseconds, and an offset up to 23:59 or a `Z`, is parsed as the
-- milliseconds of its instant, counted by the calendar, if that is not before 1970.
pub parse_rfc3339_utc_millis-write :
    (y mo d h mi s ms : ℕ) (o : Offset)
    → (1970 ≤ y) × (y ≤ 9999)
    → in_range mo d ≡ true
    → (h ≤ 23) × (mi ≤ 59) × (s ≤ 60) × (ms ≤ 999)
    → IsOffset o
    → Reaches o (local_seconds (days_to y mo d) h mi s)
    → parse_rfc3339_utc_millis (write y mo d h mi s ms o)
      ≡ some (shifted o (local_seconds (days_to y mo d) h mi s) * 1000 + ms)
unfolding instant
parse_rfc3339_utc_millis-write y mo d h mi s ms o (y₁, y₂) r (hh, hm, hs, hf) i reach =
    let ((m₁, m₂), (d₁, d₂)) = in_range_bounds mo d r in
    parse_write y mo d h mi s ms o y₂ (omega arith) (omega arith) (omega arith) (omega arith)
      (omega arith) hf i
    ∙ instant_lem y mo d h mi s ms o (y₁, y₂) r (hh, hm, hs, hf) i reach
