-- ===== src/Recency/Line/Cut.antt =====
-- Where a read of src/session_recency.rs's `JsonLine` cuts its bytes.
use fura.Base.{
  ℕ, zero, suc, ◌≤◌, ◌<◌, ◌≡◌, refl, ap, true, false, List, [], ◌∷◌, ◌++◌, arith, ◌==◌,
  if◌then◌else◌, length, take, drop, Bool-cases, inl, inr,
}
use fura.Recency.Line.Defs.{newline, newline_position, up_to, newline_at, first_line, after_line}

abbrev pub cut : List ℕ → ℕ
cut p = up_to p (newline_position p)

cut_cons : (b : ℕ) (p : List ℕ) → cut (b ∷ p) ≡ (if b == newline then 1 else suc (cut p))
unfolding newline_position
cut_cons b p = ground arith

pub cut_bounds : (p : List ℕ) → cut p ≤ length p
unfolding newline_position
cut_bounds [] = omega arith
cut_bounds (b ∷ p) = ground (arith, cut_cons b p, cut_bounds p)

pub cut_positive : (b : ℕ) (p : List ℕ) → 0 < cut (b ∷ p)
cut_positive b p = ground (arith, cut_cons b p)

-- A cut behind a newline gives the whole line; any other cut leaves the rest of it.
abbrev pub Cut : ℕ → List ℕ → Type 0
Cut i xs =
    (newline_at i xs ≡ true → (take (suc i) xs ≡ first_line xs) × (drop (suc i) xs ≡ after_line xs))
    × (newline_at i xs ≡ false
        → (take (suc i) xs ++ first_line (drop (suc i) xs) ≡ first_line xs)
          × (after_line (drop (suc i) xs) ≡ after_line xs))

Cut-newline : (b : ℕ) (xs : List ℕ) → (b == newline) ≡ true → Cut 0 (b ∷ xs)
unfolding newline_at first_line after_line
Cut-newline b xs e = rw e (λ h. (refl, refl), λ h. absurd (cc))

Cut-other : (b : ℕ) (xs : List ℕ) → (b == newline) ≡ false → Cut 0 (b ∷ xs)
unfolding newline_at first_line after_line
Cut-other b xs e = rw e (λ h. absurd (cc), λ h. (refl, refl))

Cut-cons : (b i : ℕ) (xs : List ℕ) → (b == newline) ≡ false → Cut i xs → Cut (suc i) (b ∷ xs)
unfolding newline_at first_line after_line
Cut-cons b i xs e k =
    rw e (λ h. (ap (◌∷◌ b) (k.0 h).0, (k.0 h).1), λ h. (ap (◌∷◌ b) (k.1 h).0, (k.1 h).1))

pub cut-Cut : (b : ℕ) (p q : List ℕ) (i : ℕ) → cut (b ∷ p) ≡ suc i → Cut i (b ∷ (p ++ q))
cut-Cut b [] q zero h = elim (Bool-cases (b == newline)) [
  | inl e ↦ Cut-newline b q e
  | inr e ↦ Cut-other b q e
]
cut-Cut b [] q (suc i) h = absurd (ground (arith, cut_cons b [], cut_bounds (b ∷ [])))
cut-Cut b (b' ∷ p) q zero h = elim (Bool-cases (b == newline)) [
  | inl e ↦ Cut-newline b (b' ∷ (p ++ q)) e
  | inr e ↦ absurd (ground (arith, cut_cons b (b' ∷ p), cut_positive b' p))
]
cut-Cut b (b' ∷ p) q (suc i) h = elim (Bool-cases (b == newline)) [
  | inl e ↦ absurd (ground (arith, cut_cons b (b' ∷ p)))
  | inr e ↦ Cut-cons b i (b' ∷ (p ++ q)) e (cut-Cut b' p q i (ground (arith, cut_cons b (b' ∷ p))))
]

pub newline_at-append :
    (i : ℕ) (xs ys : List ℕ) → i < length xs → newline_at i (xs ++ ys) ≡ newline_at i xs
unfolding newline_at
newline_at-append i [] ys h = absurd (omega arith)
newline_at-append zero (x ∷ xs) ys h = refl
newline_at-append (suc i) (x ∷ xs) ys h = newline_at-append i xs ys (omega arith)

pub take-append : (n : ℕ) (xs ys : List ℕ) → n ≤ length xs → take n (xs ++ ys) ≡ take n xs
take-append zero xs ys h = refl
take-append (suc n) [] ys h = absurd (omega arith)
take-append (suc n) (x ∷ xs) ys h = ap (◌∷◌ x) (take-append n xs ys (omega arith))
