-- ===== src/Time/Rfc3339.antt =====
-- src/timestamp.rs: `parse_rfc3339_utc_millis`. Sums of `i32` go round, as in a release build.
use fura.Base.{
  ℕ, ◌+◌, ◌-◌, ◌*◌, ◌/◌, ◌%◌, ◌^◌, min, Bool, true, false, not, ◌&&◌, ◌||◌, Option, none, some,
  List, [], ◌∷◌, ltb, ◌==◌, if◌then◌else◌,
}
use fura.Base.Options.{◌>>=◌}
use fura.Time.Civil.{days_from_civil}
use fura.Time.Text.{Text, split_once, split, strip_suffix, is_ascii_digit, parse_u32, parse_i32}

-- The first `+` or `-`: what stands before it, and it with what follows.
unfoldable pub at_sign : Text → Option (Text × Text)
at_sign [] = none
at_sign (x ∷ s) =
    let rest = at_sign s in
    if x == b'+' || x == b'-'
    then some ([], x ∷ s)
    else elim rest [ none ↦ none | some (p, q) ↦ some (x ∷ p, q) ]

-- The first character, whatever it is, stays with the time.
unfoldable pub after_first : Text → Option (Text × Text)
unfolding at_sign
after_first [] = none
after_first (x ∷ s) = elim (at_sign s) [ none ↦ none | some (p, q) ↦ some (x ∷ p, q) ]

unfoldable pub split_time_offset : Text → Option (Text × Text)
unfolding strip_suffix after_first
split_time_offset rest = elim (strip_suffix b'Z' rest) [
  | some time ↦ some (time, b'Z' ∷ [])
  | none ↦ after_first rest
]

-- A word of 32 bits against a small number.
abbrev pub above_i32 : ℕ → ℕ → Bool
above_i32 w n = ltb w (2 ^ 31) && ltb n w

abbrev pub two_parts : List Text → Option (Text × Text)
two_parts (p ∷ q ∷ []) = some (p, q)
two_parts _ = none

abbrev pub three_parts : List Text → Option (Text × Text × Text)
three_parts (p ∷ q ∷ r ∷ []) = some (p, q, r)
three_parts _ = none

-- With the sign as a word.
unfoldable pub offset_of : ℕ → Text → Option ℕ
unfolding parse_i32 split
offset_of sign s = do
  (h, m) ← two_parts (split b':' s)
  hours ← parse_i32 h
  minutes ← parse_i32 m
  if above_i32 hours 23 || above_i32 minutes 59
      then none
      else some ((sign * (hours * 3600 + minutes * 60)) % 2 ^ 32)

abbrev pub is_empty : Text → Bool
is_empty [] = true
is_empty (x ∷ s) = false

unfoldable pub parse_offset_seconds : Text → Option ℕ
unfolding offset_of
parse_offset_seconds [] = none
parse_offset_seconds (x ∷ s) =
    if x == b'Z' && is_empty s
    then some 0
    else if x == b'+'
    then offset_of 1 s
    else if x == b'-'
    then offset_of (2 ^ 32 - 1) s
    else none

unfoldable pub fraction_digits : ℕ → ℕ → Text → ℕ
fraction_digits place millis [] = millis
fraction_digits place millis (x ∷ s) =
    let rest = fraction_digits (place / 10) (millis + (x - b'0') * place) s in
    if place == 0 then millis else rest

abbrev pub all_digits : Text → Bool
all_digits [] = true
all_digits (x ∷ s) = is_ascii_digit x && all_digits s

-- Three digits count, from the hundreds on.
unfoldable pub parse_fraction_millis : Text → Option ℕ
unfolding fraction_digits
parse_fraction_millis [] = some 0
parse_fraction_millis (x ∷ s) =
    if not (all_digits (x ∷ s)) then none else some (fraction_digits 100 0 (x ∷ s))

abbrev pub checked_u64 : ℕ → Option ℕ
checked_u64 n = if ltb n (2 ^ 64) then some n else none

-- `utc_seconds`, as a `u64`; the offset is a word.
unfoldable pub utc_seconds : ℕ → ℕ → ℕ → Option ℕ
utc_seconds epoch_seconds day_seconds offset =
    if ltb offset (2 ^ 31)
    then (if ltb (epoch_seconds + day_seconds) offset
        then none
        else checked_u64 (epoch_seconds + day_seconds - offset))
    else checked_u64 (epoch_seconds + day_seconds + (2 ^ 32 - offset))

-- The lines from the check of the clock on.
unfoldable pub instant : ℕ → ℕ → ℕ → ℕ → ℕ → ℕ → Text → ℕ → Option ℕ
unfolding days_from_civil parse_fraction_millis utc_seconds
instant year month day hour minute second fraction offset =
    if ltb 23 hour || ltb 59 minute || ltb 60 second then none else do
      millis ← parse_fraction_millis fraction
      days ← days_from_civil year month day
      epoch_seconds ← checked_u64 (days * 86400)
      seconds ← utc_seconds epoch_seconds (hour * 3600 + minute * 60 + min second 59) offset
      whole ← checked_u64 (seconds * 1000)
      checked_u64 (whole + millis)

-- The seconds and the fraction, which may be missing.
unfoldable pub split_fraction : Text → Text × Text
unfolding split_once
split_fraction s = elim (split_once b'.' s) [ none ↦ (s, []) | some (p, q) ↦ (p, q) ]

-- The parts of the date, which stand between `-`, have no minus, and so no negative year.
unfoldable pub parse_rfc3339_utc_millis : Text → Option ℕ
unfolding split_once split split_time_offset parse_offset_seconds parse_i32 parse_u32 split_fraction
    instant
parse_rfc3339_utc_millis value = do
  (date, rest) ← split_once b'T' value
  (time, offset_text) ← split_time_offset rest
  offset ← parse_offset_seconds offset_text
  (y, mo, d) ← three_parts (split b'-' date)
  year ← parse_i32 y
  month ← parse_u32 mo
  day ← parse_u32 d
  (h, mi, s) ← three_parts (split b':' time)
  hour ← parse_u32 h
  minute ← parse_u32 mi
  let (second_text, fraction) = split_fraction s in
      parse_u32 second_text >>= λ second. instant year month day hour minute second fraction offset
