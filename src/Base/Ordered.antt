-- ===== src/Base/Ordered.antt =====
-- A sorted list and its filters: sorting after a filter, and behind the largest key.
use Prim.Native.Nat.{ℕ, ◌≤◌, ◌<◌}
use mathlib.Core.Path.{◌≡◌, refl, sym, ap, ◌∙◌}
use mathlib.Core.Bool.{Bool, true, false, ◌&&◌}
use mathlib.Core.Logic.{inl, inr}
use mathlib.Core.List.{List, [], ◌∷◌, ◌++◌, append-nil}
use native.Mathlib.Omega.{arith}
use fura.Base.Tests.{leb, leb→le, Bool-cases}
use fura.Base.Lists.{All, All-weaken}
use fura.Base.Sort.{
  filter, insert_by_key, sort_by_key, sort-All, insert-All, insert-append_past, insert_front,
  insert-append_in,
}

module _ {ℓ} {A : Type ℓ} where
  pub filter-All {κ} :
      (p : A → Bool) (P : A → Type κ) (xs : List A) → All P xs → All P (filter p xs)
  unfolding filter
  filter-All p P [] a = tt
  filter-All p P (x ∷ xs) a = elim (Bool-cases (p x)) [
    | inl e ↦ rw e (a.0, filter-All p P xs a.1)
    | inr e ↦ rw e (filter-All p P xs a.1)
  ]

  pub filter-always : (p : A → Bool) (xs : List A) → All (λ x. p x ≡ true) xs → filter p xs ≡ xs
  unfolding filter
  filter-always p [] a = refl
  filter-always p (x ∷ xs) a = rw a.0 (ap (λ ys. x ∷ ys) (filter-always p xs a.1))

  pub filter-filter :
      (p q : A → Bool) (xs : List A) → filter q (filter p xs) ≡ filter (λ x. p x && q x) xs
  unfolding filter
  filter-filter p q [] = refl
  filter-filter p q (x ∷ xs) = ground (arith, filter-filter p q xs)

  module _ (key : A → ℕ) where
    abbrev pub Sorted : List A → Type 0
    Sorted [] = Unit
    Sorted (x ∷ xs) = All (λ y. key x ≤ key y) xs × Sorted xs

    insert-Sorted : (x : A) (xs : List A) → Sorted xs → Sorted (insert_by_key key x xs)
    unfolding insert_by_key
    insert-Sorted x [] s = (tt, tt)
    insert-Sorted x (y ∷ ys) (s, t) = elim (Bool-cases (leb (key x) (key y))) [
      | inl e ↦
          let le = leb→le (key x) (key y) e in
          rw e ((le, All-weaken _ _ (λ z h. omega (arith, h, le)) ys s), (s, t))
      | inr e ↦
          rw e (insert-All key (λ z. key y ≤ key z) x ys (ground arith) s, insert-Sorted x ys t)
    ]

    sort-Sorted : (xs : List A) → Sorted (sort_by_key key xs)
    unfolding sort_by_key
    sort-Sorted [] = tt
    sort-Sorted (x ∷ xs) = insert-Sorted x (sort_by_key key xs) (sort-Sorted xs)

    filter-insert_out :
        (p : A → Bool) (x : A) (xs : List A)
        → p x ≡ false
        → filter p (insert_by_key key x xs) ≡ filter p xs
    unfolding filter insert_by_key
    filter-insert_out p x [] h = rw h refl
    filter-insert_out p x (y ∷ ys) h = ground (arith, h, filter-insert_out p x ys h)

    filter-insert_in :
        (p : A → Bool) (x : A) (xs : List A)
        → p x ≡ true
        → Sorted xs
        → filter p (insert_by_key key x xs) ≡ insert_by_key key x (filter p xs)
    unfolding filter insert_by_key
    filter-insert_in p x [] h s = rw h refl
    filter-insert_in p x (y ∷ ys) h (s, t) = elim (Bool-cases (leb (key x) (key y))) [
      | inl e ↦
          let le = leb→le (key x) (key y) e in
          rw (e, h)
            (sym (
              insert_front key x (filter p (y ∷ ys)) (
                filter-All p (λ z. key x ≤ key z) (y ∷ ys)
                  (
                    le,
                    All-weaken (λ z. key y ≤ key z) (λ z. key x ≤ key z) (λ z h. omega arith) ys s,
                  ))))
      | inr e ↦ ground (arith, e, h, filter-insert_in p x ys h t)
    ]

    pub sort-filter :
        (p : A → Bool) (xs : List A) → sort_by_key key (filter p xs) ≡ filter p (sort_by_key key xs)
    unfolding filter sort_by_key
    sort-filter p [] = refl
    sort-filter p (x ∷ xs) = elim (Bool-cases (p x)) [
      | inl e ↦ rw e (
          ap (insert_by_key key x) (sort-filter p xs)
          ∙ sym (filter-insert_in p x (sort_by_key key xs) e (sort-Sorted xs)))
      | inr e ↦ rw e (sort-filter p xs ∙ sym (filter-insert_out p x (sort_by_key key xs) e))
    ]

    -- An element whose key is above all others comes last.
    pub sort_last :
        (x : A) (xs ys : List A)
        → All (λ y. key y < key x) xs
        → All (λ y. key y < key x) ys
        → sort_by_key key (xs ++ x ∷ ys) ≡ sort_by_key key (xs ++ ys) ++ x ∷ []
    unfolding sort_by_key
    sort_last x [] ys a b =
        ap (insert_by_key key x) (sym (append-nil (sort_by_key key ys)))
        ∙ insert-append_past key x (sort_by_key key ys) [] (sort-All key (λ y. key y < key x) ys b)
    sort_last x (y ∷ xs) ys a b =
        ap (insert_by_key key y) (sort_last x xs ys a.1 b)
        ∙ insert-append_in key y (sort_by_key key (xs ++ ys)) (x ∷ []) (omega (arith, a.0), tt)
