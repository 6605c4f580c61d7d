-- ===== src/Base/Positions.antt =====
-- Vectors by position: `position`, `remove`, indexed assignment and `contains` of texts.
use Prim.Native.Nat.{ℕ, zero, suc, ◌≤◌, ◌<◌, ◌+◌}
use Prim.Native.String.{String}
use mathlib.Core.Path.{◌≡◌, refl, subst}
use mathlib.Core.Bool.{Bool, true, false, ◌||◌}
use mathlib.Core.Option.{Option, none, some}
use mathlib.Core.List.{List, [], ◌∷◌, ◌++◌}
use native.Mathlib.Omega.{arith}
use text.Mathlib.Text.{◌==◌ as str_eq}
use fura.Base.Tests.{if◌then◌else◌}
use fura.Base.Lists.{take, drop, length, All}

-- `HashSet<String>` as a list without repetitions.
unfoldable pub contains : List String → String → Bool
contains [] s = false
contains (t ∷ ts) s = str_eq t s || contains ts s

unfoldable pub insert_text : String → List String → List String
unfolding contains
insert_text s ts = if contains ts s then ts else s ∷ ts

abbrev pub succ : Option ℕ → Option ℕ
succ none = none
succ (some n) = some (suc n)

module _ {ℓ} {A : Type ℓ} where
  unfoldable pub position : (A → Bool) → List A → Option ℕ
  position p [] = none
  position p (x ∷ xs) = if p x then some 0 else succ (position p xs)

  unfoldable pub erase_idx : List A → ℕ → List A
  erase_idx [] i = []
  erase_idx (x ∷ xs) zero = xs
  erase_idx (x ∷ xs) (suc i) = x ∷ erase_idx xs i

  unfoldable pub get_elem? : List A → ℕ → Option A
  get_elem? [] i = none
  get_elem? (x ∷ xs) zero = some x
  get_elem? (x ∷ xs) (suc i) = get_elem? xs i

  unfoldable pub set : List A → ℕ → A → List A
  set [] i v = []
  set (x ∷ xs) zero v = v ∷ xs
  set (x ∷ xs) (suc i) v = x ∷ set xs i v

  -- A list around one of its positions.
  pub get_elem?-split :
      (xs : List A) (i : ℕ) (x : A)
      → get_elem? xs i ≡ some x
      → take i xs ++ x ∷ drop (suc i) xs ≡ xs
  unfolding get_elem?
  get_elem?-split [] i x h = cc
  get_elem?-split (y ∷ xs) zero x h = cc
  get_elem?-split (y ∷ xs) (suc i) x h = rw (get_elem?-split xs i x h)

  pub set-split :
      (xs : List A) (i : ℕ) (x v : A)
      → get_elem? xs i ≡ some x
      → set xs i v ≡ take i xs ++ v ∷ drop (suc i) xs
  unfolding get_elem? set
  set-split [] i x v h = cc
  set-split (y ∷ xs) zero x v h = refl
  set-split (y ∷ xs) (suc i) x v h = rw (set-split xs i x v h)

  pub erase_idx-split :
      (xs : List A) (i : ℕ) (x : A)
      → get_elem? xs i ≡ some x
      → erase_idx xs i ≡ take i xs ++ drop (suc i) xs
  unfolding get_elem? erase_idx
  erase_idx-split [] i x h = cc
  erase_idx-split (y ∷ xs) zero x h = refl
  erase_idx-split (y ∷ xs) (suc i) x h = rw (erase_idx-split xs i x h)

  -- What `position` finds passes the test, and lies within the list.
  pub position_sound :
      (p : A → Bool) (xs : List A) (i : ℕ) (x : A)
      → position p xs ≡ some i
      → get_elem? xs i ≡ some x
      → p x ≡ true
  unfolding position get_elem?
  position_sound p [] i x h g = cc
  position_sound p (y ∷ xs) zero x h g = ground arith
  position_sound p (y ∷ xs) (suc i) x h g = ground (arith, position_sound p xs i x)

  pub position-lt : (p : A → Bool) (xs : List A) (i : ℕ) → position p xs ≡ some i → i < length xs
  unfolding position
  position-lt p [] i h = cc
  position-lt p (y ∷ xs) zero h = omega arith
  position-lt p (y ∷ xs) (suc i) h = ground (arith, position-lt p xs i)

  pub length-set : (xs : List A) (i : ℕ) (v : A) → length (set xs i v) ≡ length xs
  unfolding set
  length-set [] i v = refl
  length-set (x ∷ xs) zero v = refl
  length-set (x ∷ xs) (suc i) v = omega (arith, length-set xs i v)

  pub take-set : (n : ℕ) (xs : List A) (i : ℕ) (v : A) → n ≤ i → take n (set xs i v) ≡ take n xs
  unfolding set
  take-set zero xs i v h = refl
  take-set (suc n) [] i v h = refl
  take-set (suc n) (x ∷ xs) zero v h = absurd (omega arith)
  take-set (suc n) (x ∷ xs) (suc i) v h = rw (take-set n xs i v (omega arith))

  pub length-erase_idx :
      (xs : List A) (i : ℕ) → i < length xs → length (erase_idx xs i) + 1 ≡ length xs
  unfolding erase_idx
  length-erase_idx [] i h = absurd (omega arith)
  length-erase_idx (x ∷ xs) zero h = omega arith
  length-erase_idx (x ∷ xs) (suc i) h = omega (arith, length-erase_idx xs i (omega arith))

  pub take-erase_idx : (xs : List A) (i : ℕ) → take i (erase_idx xs i) ≡ take i xs
  unfolding erase_idx
  take-erase_idx [] i = refl
  take-erase_idx (x ∷ xs) zero = refl
  take-erase_idx (x ∷ xs) (suc i) = rw (take-erase_idx xs i)

  pub All-set {κ} :
      (P : A → Type κ) (xs : List A) (i : ℕ) (v : A) → P v → All P xs → All P (set xs i v)
  unfolding set
  All-set P [] i v h a = tt
  All-set P (x ∷ xs) zero v h a = (h, a.1)
  All-set P (x ∷ xs) (suc i) v h a = (a.0, All-set P xs i v h a.1)

  pub All-erase_idx {κ} : (P : A → Type κ) (xs : List A) (i : ℕ) → All P xs → All P (erase_idx xs i)
  unfolding erase_idx
  All-erase_idx P [] i a = tt
  All-erase_idx P (x ∷ xs) zero a = a.1
  All-erase_idx P (x ∷ xs) (suc i) a = (a.0, All-erase_idx P xs i a.1)

  pub All-get_elem? {κ} :
      (P : A → Type κ) (xs : List A) (i : ℕ) (x : A) → All P xs → get_elem? xs i ≡ some x → P x
  unfolding get_elem?
  All-get_elem? P [] i x a h = absurd (cc)
  All-get_elem? P (y ∷ xs) zero x a h = subst P (cc) a.0
  All-get_elem? P (y ∷ xs) (suc i) x a h = All-get_elem? P xs i x a.1 h
