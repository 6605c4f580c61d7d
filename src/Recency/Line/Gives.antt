-- ===== src/Recency/Line/Gives.antt =====
-- One read of src/session_recency.rs's `JsonLine`.
use mathlib.Core.Path.{subst}
use mathlib.Core.List.{append-nil, append_assoc}
use fura.Base.{
  ℕ, zero, suc, ◌+◌, ◌-◌, ◌<◌, min, ◌≡◌, refl, sym, ap, ◌∙◌, ◌⊎◌, Bool, true, false, ◌||◌, List, [],
  ◌∷◌, ◌++◌, arith, ◌==◌, if◌then◌else◌, length, take, drop, length-append, length-drop,
  length-take, take-append-drop, Bool-cases, inl, inr,
}
use fura.Recency.Line.Defs.{
  newline_position, newline_at, JsonLine, give, read_some, read, first_line, after_line, left,
  behind,
}
use fura.Recency.Line.Cut.{
  cut, cut_bounds, cut_positive, Cut, cut-Cut, newline_at-append, take-append,
}

-- What a read gives, and what it leaves: nothing is lost, and it gives nothing only at the end.
pub record Gives (l : JsonLine) (r : JsonLine × List ℕ) : Type 0 where
  pub given : r.1 ++ left r.0 ≡ left l
  pub beyond : behind r.0 ≡ behind l
  pub counted : r.0.consumed ≡ l.consumed + length r.1
  pub stops : r.1 ≡ [] → r.0.ended ≡ true
  pub shrinks : (length r.0.rest < length l.rest) ⊎ ((r.1 ≡ []) × (r.0.rest ≡ l.rest))

Gives-zero :
    (available : List ℕ) (l : JsonLine)
    → l.rest ≡ []
    → l.ended ≡ false
    → Gives l (give 0 available l)
unfolding give first_line after_line
Gives-zero available l none_left open_line = record {
  given = rw open_line (rw none_left refl);
  beyond = rw open_line (rw none_left refl);
  counted = omega arith;
  stops = λ h. refl;
  shrinks = inr (refl, refl);
}

Gives-Cut :
    (i : ℕ) (available q : List ℕ) (l : JsonLine)
    → i < length available
    → l.rest ≡ available ++ q
    → l.ended ≡ false
    → Cut i l.rest
    → Gives l (give (suc i) available l)
unfolding give
Gives-Cut i available q l inside whole open_line k =
    let index : suc i - 1 ≡ i = omega arith in
    let nonzero : (suc i == 0) ≡ false = ground arith in
    let same : newline_at i available ≡ newline_at i l.rest =
      sym (newline_at-append i available q inside) ∙ ap (newline_at i) (sym whole) in
    let taken : take (suc i) available ≡ take (suc i) l.rest =
      sym (take-append (suc i) available q (omega arith)) ∙ ap (take (suc i)) (sym whole) in
    let long : i < length l.rest =
      omega (arith, inside, ap length whole, length-append available q) in
    let size : length (take (suc i) l.rest) ≡ suc i =
      omega (arith, long, length-take (suc i) l.rest) in
    let shorter : length (drop (suc i) l.rest) < length l.rest =
      omega (arith, long, length-drop (suc i) l.rest) in
    elim (Bool-cases (newline_at i l.rest)) [
      | inl at_end ↦
          rw (nonzero, index, same, taken, at_end)
            (record {
              given = rw open_line (append-nil (take (suc i) l.rest) ∙ (k.0 at_end).0);
              beyond = rw open_line (k.0 at_end).1;
              counted = omega (arith, size);
              stops = λ h. refl;
              shrinks = inl shorter;
            })
      | inr inner ↦
          rw (nonzero, index, same, taken, inner)
            (record {
              given = rw open_line (k.1 inner).0;
              beyond = rw open_line (k.1 inner).1;
              counted = omega (arith, size);
              stops = λ h. absurd (omega (arith, size, ap length h));
              shrinks = inl shorter;
            })
    ]

size-Gives :
    (p r q : List ℕ) (size : ℕ) (l : JsonLine)
    → cut p ≡ size
    → l.rest ≡ (p ++ r) ++ q
    → (p ≡ [] → l.rest ≡ [])
    → l.ended ≡ false
    → Gives l (give size (p ++ r) l)
unfolding newline_position
size-Gives [] r q zero l h whole empty open_line = Gives-zero r l (empty refl) open_line
size-Gives [] r q (suc i) l h whole empty open_line = absurd (omega arith)
size-Gives (b ∷ p) r q zero l h whole empty open_line = absurd (omega (arith, h, cut_positive b p))
size-Gives (b ∷ p) r q (suc i) l h whole empty open_line =
    Gives-Cut i (b ∷ (p ++ r)) q l (omega (arith, h, cut_bounds (b ∷ p), length-append p r)) whole
      open_line
      (subst (Cut i) (sym (whole ∙ ap (◌∷◌ b) (append_assoc p r q))) (cut-Cut b p (r ++ q) i h))

nil_of_length : (xs : List ℕ) → length xs ≡ 0 → xs ≡ []
nil_of_length [] h = refl
nil_of_length (x ∷ xs) h = absurd (omega arith)

read_some-Gives :
    (k output : ℕ) (l : JsonLine)
    → 0 < k
    → 0 < output
    → l.ended ≡ false
    → Gives l (read_some (take k l.rest) output l)
unfolding read_some newline_position
read_some-Gives k output l buffered room open_line =
    let available = take k l.rest in
    let n = min (length available) output in
    let within = take n available in
    let parts : within ++ drop n available ≡ available = take-append-drop n available in
    subst (λ a. Gives l (give (cut within) a l)) parts
      (size-Gives within (drop n available) (drop k l.rest) (cut within) l refl
        (sym (ap (λ a. a ++ drop k l.rest) parts ∙ take-append-drop k l.rest))
        (λ h. nil_of_length l.rest (
          omega
            (arith, buffered, room, ap length h, length-take n available, length-take k l.rest)))
        open_line)

else_branch :
    {A : Type 0} (P : A → Type 0) (test : Bool) (x y : A)
    → test ≡ false
    → P y
    → P (if test then x else y)
else_branch P true x y h p = absurd (cc)
else_branch P false x y h p = p

-- A read with room, from a buffer that is empty at the end only.
pub read-Gives : (k output : ℕ) (l : JsonLine) → 0 < k → 0 < output → Gives l (read k output l)
unfolding read
read-Gives k output l buffered room = elim (Bool-cases l.ended) [
  | inl over ↦ rw over (record {
    given = refl;
    beyond = refl;
    counted = omega arith;
    stops = λ h. refl;
    shrinks = inr (refl, refl);
  })
  | inr open_line ↦
      let reads : (l.ended || output == 0) ≡ false = ground (arith, open_line, room) in
      else_branch (Gives l) (l.ended || output == 0) (l, []) (read_some (take k l.rest) output l)
        reads (read_some-Gives k output l buffered room open_line)
]

-- The count and the bytes to come stay the same in all.
pub Gives-total :
    (l : JsonLine) (r : JsonLine × List ℕ)
    → Gives l r
    → r.0.consumed + length (left r.0) ≡ l.consumed + length (left l)
Gives-total l r g = omega (arith, g.counted, ap length g.given, length-append r.1 (left r.0))
