-- ===== src/Time/Print.antt =====
-- RFC 3339 texts, written, for src/timestamp.rs to read back.
use fura.Base.{
  ℕ, ◌+◌, ◌-◌, ◌*◌, ◌/◌, ◌%◌, ◌^◌, ◌≤◌, ◌≡◌, refl, ap, ◌∙◌, true, false, some, [], ◌∷◌, ◌++◌, arith,
  ltb,
}
use fura.Time.Text.{Text, digits, some_digits, parse_u32, parse_i32, is_ascii_digit, ==_ne}
use fura.Time.Rfc3339.{parse_fraction_millis, fraction_digits}

abbrev pub two : ℕ → Text
two n = (b'0' + n / 10) ∷ (b'0' + n % 10) ∷ []

abbrev pub three : ℕ → Text
three n = (b'0' + n / 100) ∷ two (n % 100)

abbrev pub four : ℕ → Text
four n = (b'0' + n / 1000) ∷ three (n % 1000)

-- What stands for the offset from UTC, and the seconds that the clock is ahead or behind.
pub data Offset : Type 0 where
  zulu : Offset
  ahead behind : ℕ → ℕ → Offset

abbrev pub write_offset : Offset → Text
write_offset zulu = b'Z' ∷ []
write_offset (ahead h m) = b'+' ∷ (two h ++ b':' ∷ two m)
write_offset (behind h m) = b'-' ∷ (two h ++ b':' ∷ two m)

abbrev pub IsOffset : Offset → Type 0
IsOffset zulu = Unit
IsOffset (ahead h m) = (h ≤ 23) × (m ≤ 59)
IsOffset (behind h m) = (h ≤ 23) × (m ≤ 59)

abbrev pub word_of : Offset → ℕ
word_of zulu = 0
word_of (ahead h m) = h * 3600 + m * 60
word_of (behind h m) = (2 ^ 32 - (h * 3600 + m * 60)) % 2 ^ 32

pub parse_u32-two : (n : ℕ) → n ≤ 99 → parse_u32 (two n) ≡ some n
unfolding parse_u32 some_digits digits
parse_u32-two n h = ground arith

pub parse_i32-two : (n : ℕ) → n ≤ 99 → parse_i32 (two n) ≡ some n
unfolding parse_i32 some_digits digits
parse_i32-two n h = ground arith

digit_lem : (d : ℕ) → d ≤ 9 → is_ascii_digit (b'0' + d) ≡ true
digit_lem d h = ground arith

-- One digit more.
digit_step :
    (limit n d : ℕ) (s : Text)
    → d ≤ 9
    → n * 10 + d ≤ limit
    → digits limit n ((b'0' + d) ∷ s) ≡ digits limit (n * 10 + d) s
unfolding digits
digit_step limit n d s h k =
    let e : n * 10 + (b'0' + d - b'0') ≡ n * 10 + d = omega arith in
    let small : ltb limit (n * 10 + d) ≡ false = ground arith in rw (e, digit_lem d h, small) refl

unsigned_start :
    (d : ℕ) (s : Text) → d ≤ 9 → parse_i32 ((b'0' + d) ∷ s) ≡ digits (2 ^ 31 - 1) 0 ((b'0' + d) ∷ s)
unfolding parse_i32 some_digits
unsigned_start d s h =
    rw (==_ne (b'0' + d) b'+' (omega arith), ==_ne (b'0' + d) b'-' (omega arith)) refl

pub parse_i32-four : (n : ℕ) → n ≤ 9999 → parse_i32 (four n) ≡ some n
unfolding digits
parse_i32-four n h =
    let (a, b, c, d) : ℕ × ℕ × ℕ × ℕ =
      (n / 1000, n % 1000 / 100, n % 1000 % 100 / 10, n % 1000 % 100 % 10) in
    unsigned_start a (three (n % 1000)) (omega arith)
    ∙ digit_step (2 ^ 31 - 1) 0 a (three (n % 1000)) (omega arith) (omega arith)
    ∙ digit_step (2 ^ 31 - 1) (0 * 10 + a) b (two (n % 1000 % 100)) (omega arith) (omega arith)
    ∙ digit_step (2 ^ 31 - 1) ((0 * 10 + a) * 10 + b) c ((b'0' + d) ∷ []) (omega arith)
        (omega arith)
    ∙ digit_step (2 ^ 31 - 1) (((0 * 10 + a) * 10 + b) * 10 + c) d [] (omega arith) (omega arith)
    ∙ ap some (omega arith)

pub parse_fraction_millis-three : (n : ℕ) → n ≤ 999 → parse_fraction_millis (three n) ≡ some n
unfolding parse_fraction_millis fraction_digits
parse_fraction_millis-three n h =
    rw
      (
        digit_lem (n / 100) (omega arith),
        digit_lem (n % 100 / 10) (omega arith),
        digit_lem (n % 100 % 10) (omega arith),
      )
      (ap some (omega arith))
