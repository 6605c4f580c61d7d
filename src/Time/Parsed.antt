-- ===== src/Time/Parsed.antt =====
-- src/timestamp.rs: what `parse_rfc3339_utc_millis` takes from a written RFC 3339 text.
use fura.Base.{
  ℕ, ◌+◌, ◌-◌, ◌*◌, ◌%◌, ◌^◌, ◌≤◌, ◌≡◌, ◌≢◌, refl, ap, ◌∙◌, true, false, ◌||◌, none, some, [], ◌∷◌,
  ◌++◌, arith, ◌==◌, ==_refl, All,
}
use fura.Time.Text.{
  Text, Lacks, split, strip_suffix, split_once-append, split-append, split-Lacks, ==_ne,
}
use fura.Time.Rfc3339.{
  at_sign, after_first, split_time_offset, parse_offset_seconds, offset_of, above_i32,
  split_fraction, instant, parse_rfc3339_utc_millis,
}
use fura.Time.Print.{
  two, three, four, Offset, zulu, ahead, behind, write_offset, IsOffset, word_of, parse_u32-two,
  parse_i32-two, parse_i32-four,
}

abbrev pub write_date : ℕ → ℕ → ℕ → Text
write_date y mo d = four y ++ b'-' ∷ (two mo ++ b'-' ∷ two d)

abbrev pub write_time : ℕ → ℕ → ℕ → ℕ → Text
write_time h mi s ms = two h ++ b':' ∷ (two mi ++ b':' ∷ (two s ++ b'.' ∷ three ms))

abbrev pub write : ℕ → ℕ → ℕ → ℕ → ℕ → ℕ → ℕ → Offset → Text
write y mo d h mi s ms o = write_date y mo d ++ b'T' ∷ (write_time h mi s ms ++ write_offset o)

strip_suffix-append : (c : ℕ) (p : Text) → strip_suffix c (p ++ c ∷ []) ≡ some p
unfolding strip_suffix
strip_suffix-append c [] = ground (arith, ==_refl c)
strip_suffix-append c (x ∷ []) = ground (arith, ==_refl c)
strip_suffix-append c (x ∷ y ∷ p) = rw (strip_suffix-append c (y ∷ p)) refl

strip_suffix-Lacks : (c : ℕ) (s : Text) → Lacks c s → strip_suffix c s ≡ none
unfolding strip_suffix
strip_suffix-Lacks c [] h = refl
strip_suffix-Lacks c (x ∷ []) (h, hs) = rw (==_ne x c h) refl
strip_suffix-Lacks c (x ∷ y ∷ s) (h, hs) = rw (strip_suffix-Lacks c (y ∷ s) hs) refl

at_sign-append :
    (p s : Text) (x : ℕ)
    → All (λ y. (y ≢ b'+') × (y ≢ b'-')) p
    → (x == b'+' || x == b'-') ≡ true
    → at_sign (p ++ x ∷ s) ≡ some (p, x ∷ s)
unfolding at_sign
at_sign-append [] s x h k = rw k refl
at_sign-append (y ∷ p) s x ((a, b), hs) k =
    rw (==_ne y b'+' a, ==_ne y b'-' b, at_sign-append p s x hs k) refl

split_time_utc : (t : Text) → split_time_offset (t ++ b'Z' ∷ []) ≡ some (t, b'Z' ∷ [])
unfolding split_time_offset
split_time_utc t = rw (strip_suffix-append b'Z' t, split_time_offset) refl

module _ (h mi s ms : ℕ) (hh : h ≤ 99) (hm : mi ≤ 99) (hs : s ≤ 99) (hf : ms ≤ 999) where
  split_time_signed :
      (x : ℕ) (rest : Text)
      → (x == b'+' || x == b'-') ≡ true
      → Lacks b'Z' (write_time h mi s ms ++ x ∷ rest)
      → split_time_offset (write_time h mi s ms ++ x ∷ rest) ≡ some (write_time h mi s ms, x ∷ rest)
  unfolding split_time_offset after_first
  split_time_signed x rest k l =
      let later : Text = (b'0' + h % 10) ∷ b':' ∷ (two mi ++ b':' ∷ (two s ++ b'.' ∷ three ms)) in
      rw
        (
          strip_suffix-Lacks b'Z' (write_time h mi s ms ++ x ∷ rest) l,
          split_time_offset,
          at_sign-append later rest x (omega arith) k,
          after_first,
        )
        refl

  split_time-write :
      (o : Offset)
      → IsOffset o
      → split_time_offset (write_time h mi s ms ++ write_offset o)
        ≡ some (write_time h mi s ms, write_offset o)
  unfolding split_time_offset
  split_time-write zulu i = split_time_utc (write_time h mi s ms)
  split_time-write (ahead oh om) (a, b) =
      split_time_signed b'+' (two oh ++ b':' ∷ two om) refl (omega arith)
  split_time-write (behind oh om) (a, b) =
      split_time_signed b'-' (two oh ++ b':' ∷ two om) refl (omega arith)

  split-write_time :
      split b':' (write_time h mi s ms) ≡ two h ∷ two mi ∷ (two s ++ b'.' ∷ three ms) ∷ []
  split-write_time =
      split-append b':' (two h) _ (omega arith)
      ∙ ap (λ ps. two h ∷ ps)
          (split-append b':' (two mi) _ (omega arith)
            ∙ ap (λ ps. two mi ∷ ps) (split-Lacks b':' (two s ++ b'.' ∷ three ms) (omega arith)))

  split_fraction-write : split_fraction (two s ++ b'.' ∷ three ms) ≡ (two s, three ms)
  unfolding split_fraction
  split_fraction-write =
      rw (split_once-append b'.' (two s) (three ms) (omega arith), split_fraction) refl

in_time : (oh om : ℕ) → oh ≤ 23 → om ≤ 59 → (above_i32 oh 23 || above_i32 om 59) ≡ false
in_time oh om a b = ground arith

offset_of-write :
    (sign oh om : ℕ)
    → oh ≤ 23
    → om ≤ 59
    → offset_of sign (two oh ++ b':' ∷ two om) ≡ some ((sign * (oh * 3600 + om * 60)) % 2 ^ 32)
unfolding offset_of
offset_of-write sign oh om a b =
    let parts : split b':' (two oh ++ b':' ∷ two om) ≡ two oh ∷ two om ∷ [] =
      split-append b':' (two oh) (two om) (omega arith)
      ∙ ap (λ ps. two oh ∷ ps) (split-Lacks b':' (two om) (omega arith)) in
    rw (parts, parse_i32-two oh (omega arith), parse_i32-two om (omega arith))
      (rw (in_time oh om a b) refl)

parse_offset-write :
    (o : Offset) → IsOffset o → parse_offset_seconds (write_offset o) ≡ some (word_of o)
unfolding parse_offset_seconds
parse_offset-write zulu i = refl
parse_offset-write (ahead oh om) (a, b) = offset_of-write 1 oh om a b ∙ ap some (omega arith)
parse_offset-write (behind oh om) (a, b) =
    offset_of-write (2 ^ 32 - 1) oh om a b ∙ ap some (omega arith)

-- The parser finds the fields that were written.
pub parse_write :
    (y mo d h mi s ms : ℕ) (o : Offset)
    → y ≤ 9999
    → mo ≤ 99
    → d ≤ 99
    → h ≤ 99
    → mi ≤ 99
    → s ≤ 99
    → ms ≤ 999
    → IsOffset o
    → parse_rfc3339_utc_millis (write y mo d h mi s ms o)
      ≡ instant y mo d h mi s (three ms) (word_of o)
unfolding parse_rfc3339_utc_millis
parse_write y mo d h mi s ms o hy hmo hd hh hmi hs hms i =
    let dated : split b'-' (write_date y mo d) ≡ four y ∷ two mo ∷ two d ∷ [] =
      split-append b'-' (four y) (two mo ++ b'-' ∷ two d) (omega arith)
      ∙ ap (λ ps. four y ∷ ps)
          (split-append b'-' (two mo) (two d) (omega arith)
            ∙ ap (λ ps. two mo ∷ ps) (split-Lacks b'-' (two d) (omega arith))) in
    rw
      (
        split_once-append b'T' (write_date y mo d) (write_time h mi s ms ++ write_offset o)
            (omega arith),
        split_time-write h mi s ms hh hmi hs hms o i,
        parse_offset-write o i,
        dated,
        parse_i32-four y hy,
        parse_u32-two mo hmo,
        parse_u32-two d hd,
        split-write_time h mi s ms hh hmi hs hms,
        parse_u32-two h hh,
        parse_u32-two mi hmi,
        split_fraction-write h mi s ms hh hmi hs hms,
        parse_u32-two s hs,
      )
      refl
