-- ===== src/Base/Sort.antt =====
-- `slice::sort_by_key`, a stable sort, with keys in ℕ, and what a stable sort leaves together.
use Prim.Native.Nat.{ℕ, ◌+◌, ◌≤◌, ◌<◌}
use mathlib.Core.Path.{◌≡◌, refl, ap, ◌∙◌}
use mathlib.Core.Bool.{Bool, true, false}
use mathlib.Core.Logic.{◌≢◌}
use mathlib.Core.Logic.{inl, inr}
use mathlib.Core.List.{List, [], ◌∷◌, ◌++◌}
use native.Mathlib.Omega.{arith}
use fura.Base.Tests.{ltb, leb, ◌==◌, if◌then◌else◌, ltb→lt, Bool-cases, ==_iff, lt_trichotomy}
use fura.Base.Lists.{All, All-append, All-weaken}

module _ {ℓ} {A : Type ℓ} where
  unfoldable pub filter : (A → Bool) → List A → List A
  filter p [] = []
  filter p (x ∷ xs) = if p x then x ∷ filter p xs else filter p xs

  pub filter-append :
      (p : A → Bool) (xs ys : List A) → filter p (xs ++ ys) ≡ filter p xs ++ filter p ys
  unfolding filter
  filter-append p [] ys = refl
  filter-append p (x ∷ xs) ys = ground (arith, filter-append p xs ys)

  module _ (key : A → ℕ) where
    -- A later element with the same key stays behind.
    unfoldable pub insert_by_key : A → List A → List A
    insert_by_key x [] = x ∷ []
    insert_by_key x (y ∷ ys) = if leb (key x) (key y) then x ∷ y ∷ ys else y ∷ insert_by_key x ys

    unfoldable pub sort_by_key : List A → List A
    unfolding insert_by_key
    sort_by_key [] = []
    sort_by_key (x ∷ xs) = insert_by_key x (sort_by_key xs)

    unfoldable pub below : ℕ → List A → List A
    unfolding filter
    below k xs = filter (λ x. ltb (key x) k) xs

    unfoldable pub with_key : ℕ → List A → List A
    unfolding filter
    with_key k xs = filter (λ x. key x == k) xs

    unfoldable pub above : ℕ → List A → List A
    unfolding filter
    above k xs = filter (λ x. ltb k (key x)) xs

    pub with_key-append :
        (k : ℕ) (xs ys : List A) → with_key k (xs ++ ys) ≡ with_key k xs ++ with_key k ys
    unfolding with_key
    with_key-append k xs ys = filter-append (λ x. key x == k) xs ys

    pub above-append : (k : ℕ) (xs ys : List A) → above k (xs ++ ys) ≡ above k xs ++ above k ys
    unfolding above
    above-append k xs ys = filter-append (λ x. ltb k (key x)) xs ys

    pub with_key_self : (x : A) (xs : List A) → with_key (key x) (x ∷ xs) ≡ x ∷ with_key (key x) xs
    unfolding with_key
    with_key_self x xs = rw ((==_iff (key x) (key x)).1 refl)

    pub with_key_other :
        (k : ℕ) (x : A) (xs : List A) → key x ≢ k → with_key k (x ∷ xs) ≡ with_key k xs
    unfolding with_key
    with_key_other k x xs h = elim (Bool-cases (key x == k)) [
      | inl e ↦ absurd (h ((==_iff (key x) k).0 e))
      | inr e ↦ rw e
    ]

    pub insert-All {κ} :
        (P : A → Type κ) (x : A) (xs : List A) → P x → All P xs → All P (insert_by_key x xs)
    unfolding insert_by_key
    insert-All P x [] h a = (h, tt)
    insert-All P x (y ∷ ys) h a = elim (Bool-cases (leb (key x) (key y))) [
      | inl e ↦ rw e (h, a)
      | inr e ↦ rw e (a.0, insert-All P x ys h a.1)
    ]

    pub sort-All {κ} : (P : A → Type κ) (xs : List A) → All P xs → All P (sort_by_key xs)
    unfolding sort_by_key
    sort-All P [] a = tt
    sort-All P (x ∷ xs) a = insert-All P x (sort_by_key xs) a.0 (sort-All P xs a.1)

    -- What the filters keep.
    pub below-All : (k : ℕ) (xs : List A) → All (λ x. key x < k) (below k xs)
    unfolding below
    below-All k [] = tt
    below-All k (x ∷ xs) = elim (Bool-cases (ltb (key x) k)) [
      | inl e ↦ rw e (ltb→lt _ _ e, below-All k xs)
      | inr e ↦ rw e (below-All k xs)
    ]

    pub with_key-All : (k : ℕ) (xs : List A) → All (λ x. key x ≡ k) (with_key k xs)
    unfolding with_key
    with_key-All k [] = tt
    with_key-All k (x ∷ xs) = elim (Bool-cases (key x == k)) [
      | inl e ↦ rw e ((==_iff _ _).0 e, with_key-All k xs)
      | inr e ↦ rw e (with_key-All k xs)
    ]

    pub above-All : (k : ℕ) (xs : List A) → All (λ x. k < key x) (above k xs)
    unfolding above
    above-All k [] = tt
    above-All k (x ∷ xs) = elim (Bool-cases (ltb k (key x))) [
      | inl e ↦ rw e (ltb→lt _ _ e, above-All k xs)
      | inr e ↦ rw e (above-All k xs)
    ]

    -- An element goes past smaller ones, and stops at the first that is not smaller.
    pub insert-append_past :
        (x : A) (xs ys : List A)
        → All (λ y. key y < key x) xs
        → insert_by_key x (xs ++ ys) ≡ xs ++ insert_by_key x ys
    unfolding insert_by_key
    insert-append_past x [] ys a = refl
    insert-append_past x (y ∷ xs) ys a = ground (arith, a.0, insert-append_past x xs ys a.1)

    pub insert_front :
        (x : A) (ys : List A) → All (λ y. key x ≤ key y) ys → insert_by_key x ys ≡ x ∷ ys
    unfolding insert_by_key
    insert_front x [] a = refl
    insert_front x (y ∷ ys) a = ground (arith, a.0)

    pub insert-append_in :
        (x : A) (xs ys : List A)
        → All (λ y. key x ≤ key y) ys
        → insert_by_key x (xs ++ ys) ≡ insert_by_key x xs ++ ys
    unfolding insert_by_key
    insert-append_in x [] ys a = insert_front x ys a
    insert-append_in x (y ∷ xs) ys a = ground (arith, insert-append_in x xs ys a)

    insert_between :
        (x : A) (k : ℕ) (bs es gs : List A)
        → All (λ y. key y < k) bs
        → All (λ y. key y ≡ k) es
        → All (λ y. k < key y) gs
        → key x ≤ k
        → insert_by_key x (bs ++ (es ++ gs)) ≡ insert_by_key x bs ++ (es ++ gs)
    insert_between x k bs es gs a e g h = insert-append_in x bs (es ++ gs) (
        All-append (λ y. key x ≤ key y) es gs
          (All-weaken (λ y. key y ≡ k) (λ y. key x ≤ key y) (λ y p. omega arith) es e)
          (All-weaken (λ y. k < key y) (λ y. key x ≤ key y) (λ y p. omega arith) gs g))

    -- A stable sort keeps the elements with one key in their order, between those below and above.
    pub sort_split :
        (k : ℕ) (xs : List A)
        → sort_by_key xs ≡ sort_by_key (below k xs) ++ (with_key k xs ++ sort_by_key (above k xs))
    unfolding sort_by_key below with_key above
    sort_split k [] = refl
    sort_split k (x ∷ xs) =
        let bs = sort_by_key (below k xs) in
        let es = with_key k xs in
        let gs = sort_by_key (above k xs) in
        let b = sort-All (λ y. key y < k) (below k xs) (below-All k xs) in
        let e = with_key-All k xs in
        let g = sort-All (λ y. k < key y) (above k xs) (above-All k xs) in
        elim (lt_trichotomy (key x) k) [
          | inl lt ↦
              let under : ltb (key x) k ≡ true = ground arith in
              let other : (key x == k) ≡ false = ground arith in
              let over : ltb k (key x) ≡ false = ground arith in
              rw (under, other, over)
                (ap (insert_by_key x) (sort_split k xs)
                  ∙ insert_between x k bs es gs b e g (omega arith))
          | inr (inl eq) ↦
              let under : ltb (key x) k ≡ false = ground arith in
              let same : (key x == k) ≡ true = ground arith in
              let over : ltb k (key x) ≡ false = ground arith in
              rw (under, same, over)
                (ap (insert_by_key x) (sort_split k xs)
                  ∙ insert-append_past x bs (es ++ gs)
                      (All-weaken (λ y. key y < k) (λ y. key y < key x) (λ y p. omega arith) bs b)
                  ∙ ap (λ zs. bs ++ zs) (insert_between x k [] es gs tt e g (omega arith)))
          | inr (inr gt) ↦
              let under : ltb (key x) k ≡ false = ground arith in
              let other : (key x == k) ≡ false = ground arith in
              let over : ltb k (key x) ≡ true = ground arith in
              rw (under, other, over)
                (ap (insert_by_key x) (sort_split k xs)
                  ∙ insert-append_past x bs (es ++ gs)
                      (All-weaken (λ y. key y < k) (λ y. key y < key x) (λ y p. omega arith) bs b)
                  ∙ ap (λ zs. bs ++ zs)
                      (insert-append_past x es gs (
                        All-weaken (λ y. key y ≡ k) (λ y. key y < key x) (λ y p. omega arith) es
                          e)))
        ]

    below_suc-above : (n : ℕ) (xs : List A) → below (n + 1) (above n xs) ≡ []
    unfolding below above
    below_suc-above n [] = refl
    below_suc-above n (x ∷ xs) = ground (arith, below_suc-above n xs)

    with_key-above : (n : ℕ) (xs : List A) → with_key (n + 1) (above n xs) ≡ with_key (n + 1) xs
    unfolding with_key above
    with_key-above n [] = refl
    with_key-above n (x ∷ xs) = ground (arith, with_key-above n xs)

    above-above : (n : ℕ) (xs : List A) → above (n + 1) (above n xs) ≡ above (n + 1) xs
    unfolding above
    above-above n [] = refl
    above-above n (x ∷ xs) = ground (arith, above-above n xs)

    below_zero : (xs : List A) → below 0 xs ≡ []
    unfolding below
    below_zero [] = refl
    below_zero (x ∷ xs) = ground (arith, below_zero xs)

    pub sort-above :
        (n : ℕ) (xs : List A)
        → sort_by_key (above n xs) ≡ with_key (n + 1) xs ++ sort_by_key (above (n + 1) xs)
    unfolding sort_by_key
    sort-above n xs =
        let s = sort_split (n + 1) (above n xs) in
        let s' = (rw (below_suc-above n xs) at s) in
        let s'' = (rw (with_key-above n xs) at s') in rw (above-above n xs) at s''

    pub sort_by_key_lem : (xs : List A) → sort_by_key xs ≡ with_key 0 xs ++ sort_by_key (above 0 xs)
    unfolding sort_by_key
    sort_by_key_lem xs = rw (below_zero xs) at (sort_split 0 xs)
