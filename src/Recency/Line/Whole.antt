-- ===== src/Recency/Line/Whole.antt =====
-- A whole line, by the parser's reads and the sink: src/session_recency.rs, `read_json_line`.
use mathlib.Core.List.{append_assoc}
use fura.Base.{
  ℕ, zero, suc, ◌+◌, ◌≤◌, ◌<◌, ◌≡◌, refl, ap, ◌∙◌, ◌⊎◌, true, false, some, List, [], ◌∷◌, ◌++◌,
  arith, length, length-append, Bool-cases, inl, inr, All,
}
use fura.Recency.Line.Defs.{
  JsonLine, read, read_all, copy_to_sink, one_line, read_json_line, first_line, after_line, left,
  behind,
}
use fura.Recency.Line.Gives.{read-Gives, Gives-total}

-- What every read keeps.
record Keeps (l : JsonLine) (r : JsonLine × List ℕ) : Type 0 where
  given : r.1 ++ left r.0 ≡ left l
  beyond : behind r.0 ≡ behind l
  counted : r.0.consumed ≡ l.consumed + length r.1
  fits : length r.0.rest ≤ length l.rest

read-Keeps : (k output : ℕ) (l : JsonLine) → 0 < k → Keeps l (read k output l)
unfolding read
read-Keeps k zero l buffered = elim (Bool-cases l.ended) [
  | inl over ↦
      rw over (record { given = refl; beyond = refl; counted = omega arith; fits = omega arith })
  | inr open_line ↦
      rw open_line
        (record { given = refl; beyond = refl; counted = omega arith; fits = omega arith })
]
read-Keeps k (suc output) l buffered =
    let g = read-Gives k (suc output) l buffered (omega arith) in
    record {
      given = g.given;
      beyond = g.beyond;
      counted = g.counted;
      fits = elim g.shrinks [
        | inl shorter ↦ omega (arith, shorter)
        | inr (nothing, same) ↦ omega (arith, ap length same)
      ];
    }

read_all-Keeps :
    (reads : List (ℕ × ℕ)) (l : JsonLine) → All (λ r. 0 < r.0) reads → Keeps l (read_all reads l)
unfolding read_all
read_all-Keeps [] l h = record {
  given = refl;
  beyond = refl;
  counted = omega arith;
  fits = omega arith;
}
read_all-Keeps ((k, output) ∷ reads) l h =
    let first = read k output l in
    let later = read_all reads first.0 in
    let a = read-Keeps k output l h.0 in
    let b = read_all-Keeps reads first.0 h.1 in
    record {
      given =
          append_assoc first.1 later.1 (left later.0) ∙ ap (λ e. first.1 ++ e) b.given ∙ a.given;
      beyond = b.beyond ∙ a.beyond;
      counted = omega (arith, a.counted, b.counted, length-append first.1 later.1);
      fits = omega (arith, a.fits, b.fits);
    }

List-cases : (xs : List ℕ) → (xs ≡ []) ⊎ ((x : ℕ) × (ys : List ℕ) × (xs ≡ x ∷ ys))
List-cases [] = inl refl
List-cases (x ∷ xs) = inr (x, xs, refl)

-- With more fuel than bytes the rest of the line goes to the sink.
copy_to_sink_lem :
    (fuel : ℕ) (buffered : ℕ → ℕ) (output : ℕ) (l : JsonLine)
    → ((i : ℕ) → 0 < buffered i)
    → 0 < output
    → length l.rest < fuel
    → (l' : JsonLine) × (copy_to_sink fuel buffered output l ≡ some l')
      × (l'.rest ≡ behind l)
      × (l'.consumed ≡ l.consumed + length (left l))
unfolding copy_to_sink
copy_to_sink_lem zero buffered output l h room enough = absurd (omega arith)
copy_to_sink_lem (suc fuel) buffered output l h room enough =
    let r = read (buffered fuel) output l in
    let g = read-Gives (buffered fuel) output l (h fuel) room in
    elim (List-cases r.1) [
      | inl nothing ↦
          let over : r.0.ended ≡ true = g.stops nothing in
          let total = Gives-total l r g in
          (
            r.0,
            rw (nothing, copy_to_sink) refl,
            rw over at g.beyond,
            omega (arith, rw over at total),
          )
      | inr (x, ys, some_bytes) ↦
          let fewer : length r.0.rest < fuel = elim g.shrinks [
            | inl shorter ↦ omega (arith, shorter, enough)
            | inr (nothing, same) ↦ absurd (cc)
          ] in
          let (l', ran, behind_it, count) =
            copy_to_sink_lem fuel buffered output r.0 h room fewer in
          (l', rw (some_bytes, copy_to_sink) ran, behind_it ∙ g.beyond, count ∙ Gives-total l r g)
    ]

first_line-after_line : (bytes : List ℕ) → first_line bytes ++ after_line bytes ≡ bytes
unfolding first_line after_line
first_line-after_line [] = refl
first_line-after_line (b ∷ bs) = ground (arith, first_line-after_line bs)

-- From a reader with bytes left, however the parser reads and however much the reader buffers (never
-- nothing before the end) and the sink takes (never nothing), and with more fuel than there are
-- bytes: exactly the first physical line is consumed, and the reader stands behind it.
pub read_json_line_lem :
    (reads : List (ℕ × ℕ)) (fuel : ℕ) (buffered : ℕ → ℕ) (output b : ℕ) (bs : List ℕ)
    → All (λ r. 0 < r.0) reads
    → ((i : ℕ) → 0 < buffered i)
    → 0 < output
    → length (b ∷ bs) < fuel
    → (read_json_line reads fuel buffered output (b ∷ bs)
        ≡ one_line (length (first_line (b ∷ bs))) (after_line (b ∷ bs)))
      × (first_line (b ∷ bs) ++ after_line (b ∷ bs) ≡ b ∷ bs)
unfolding read_json_line
read_json_line_lem reads fuel buffered output b bs h h' room enough =
    let l : JsonLine = record { rest = b ∷ bs; ended = false; consumed = 0 } in
    let r = read_all reads l in
    let k = read_all-Keeps reads l h in
    let (l', ran, behind_it, count) =
      copy_to_sink_lem fuel buffered output r.0 h' room (omega (arith, k.fits, enough)) in
    let total : l'.consumed ≡ length (first_line (b ∷ bs)) =
      omega (arith, count, k.counted, ap length k.given, length-append r.1 (left r.0)) in
    (
      rw ran (
          ap (λ n. one_line n l'.rest) total
          ∙ ap (one_line (length (first_line (b ∷ bs)))) (behind_it ∙ k.beyond)),
      first_line-after_line (b ∷ bs),
    )
