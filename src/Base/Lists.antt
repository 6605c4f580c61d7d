-- ===== src/Base/Lists.antt =====
-- Lists measured and indexed by native numbers, under the library's names, and predicates on lists.
use Prim.Native.Nat.{ℕ, zero, suc, ◌+◌, ◌-◌, ◌≤◌, min}
use mathlib.Core.Path.{◌≡◌, refl, ap}
use mathlib.Core.List.{List, [], ◌∷◌, ◌++◌, map}
use native.Mathlib.Omega.{arith}

module _ {ℓ} {A : Type ℓ} where
  abbrev pub length : List A → ℕ
  length [] = 0
  length (x ∷ xs) = suc (length xs)

  abbrev pub take : ℕ → List A → List A
  take zero xs = []
  take (suc n) [] = []
  take (suc n) (x ∷ xs) = x ∷ take n xs

  abbrev pub drop : ℕ → List A → List A
  drop zero xs = xs
  drop (suc n) [] = []
  drop (suc n) (x ∷ xs) = drop n xs

  abbrev pub All {κ} : (A → Type κ) → List A → Type κ
  All P [] = Unit
  All P (x ∷ xs) = P x × All P xs

module _ {ℓ} {A : Type ℓ} where
  pub length-append : (xs ys : List A) → length (xs ++ ys) ≡ length xs + length ys
  length-append [] ys = omega arith
  length-append (x ∷ xs) ys = omega (arith, length-append xs ys)

  pub length-drop : (n : ℕ) (xs : List A) → length (drop n xs) ≡ length xs - n
  length-drop zero xs = omega arith
  length-drop (suc n) [] = omega arith
  length-drop (suc n) (x ∷ xs) = omega (arith, length-drop n xs)

  pub take-append-drop : (n : ℕ) (xs : List A) → take n xs ++ drop n xs ≡ xs
  take-append-drop zero xs = refl
  take-append-drop (suc n) [] = refl
  take-append-drop (suc n) (x ∷ xs) = rw (take-append-drop n xs)

  -- Lists that agree on a prefix agree on any shorter one.
  pub take-le : (m n : ℕ) (xs ys : List A) → m ≤ n → take n xs ≡ take n ys → take m xs ≡ take m ys
  take-le zero n xs ys h e = refl
  take-le (suc m) zero xs ys h e = absurd (omega arith)
  take-le (suc m) (suc n) [] [] h e = refl
  take-le (suc m) (suc n) [] (y ∷ ys) h e = cc
  take-le (suc m) (suc n) (x ∷ xs) [] h e = cc
  take-le (suc m) (suc n) (x ∷ xs) (y ∷ ys) h e = cc (take-le m n xs ys (omega arith) (cc))

  pub take_length : (xs : List A) → take (length xs) xs ≡ xs
  take_length [] = refl
  take_length (x ∷ xs) = rw (take_length xs)

  pub append-last : (xs : List A) (x y : A) → xs ++ x ∷ [] ≡ xs ++ y ∷ [] → x ≡ y
  append-last [] x y e = cc
  append-last (z ∷ xs) x y e = append-last xs x y (cc)

  pub take-append_le :
      (n : ℕ) (xs ys zs : List A) → n ≤ length xs → take n (xs ++ ys) ≡ take n (xs ++ zs)
  take-append_le zero xs ys zs h = refl
  take-append_le (suc n) [] ys zs h = absurd (omega arith)
  take-append_le (suc n) (x ∷ xs) ys zs h = rw (take-append_le n xs ys zs (omega arith))

  pub length-take : (n : ℕ) (xs : List A) → length (take n xs) ≡ min n (length xs)
  length-take zero xs = omega arith
  length-take (suc n) [] = omega arith
  length-take (suc n) (x ∷ xs) = omega (arith, length-take n xs)

  -- A list that agrees with another up to `n` becomes that list once its tail is replaced.
  pub splice_lem :
      (n : ℕ) (xs ys : List A)
      → n ≤ length ys
      → take n xs ≡ take n ys
      → (n ≤ length xs) × (take n xs ++ drop n ys ≡ ys)
  splice_lem n xs ys h e =
      (omega (arith, ap length e, length-take n xs, length-take n ys), rw e (take-append-drop n ys))

  pub All-append {κ} : (P : A → Type κ) (xs ys : List A) → All P xs → All P ys → All P (xs ++ ys)
  All-append P [] ys a b = b
  All-append P (x ∷ xs) ys a b = (a.0, All-append P xs ys a.1 b)

  pub All-weaken {κ κ'} :
      (P : A → Type κ) (Q : A → Type κ') (weaken : (x : A) → P x → Q x) (xs : List A)
      → All P xs
      → All Q xs
  All-weaken P Q weaken [] a = tt
  All-weaken P Q weaken (x ∷ xs) a = (weaken x a.0, All-weaken P Q weaken xs a.1)

  pub All-append_inv {κ} :
      (P : A → Type κ) (xs ys : List A) → All P (xs ++ ys) → All P xs × All P ys
  All-append_inv P [] ys a = (tt, a)
  All-append_inv P (x ∷ xs) ys a = let (b, c) = All-append_inv P xs ys a.1 in ((a.0, b), c)

  pub All-map {κ} :
      {B : Type ℓ} (P : B → Type κ) (f : A → B) (xs : List A)
      → All (λ x. P (f x)) xs
      → All P (map f xs)
  All-map P f [] a = tt
  All-map P f (x ∷ xs) a = (a.0, All-map P f xs a.1)

  pub All-always {κ} : (P : A → Type κ) → ((x : A) → P x) → (xs : List A) → All P xs
  All-always P h [] = tt
  All-always P h (x ∷ xs) = (h x, All-always P h xs)
