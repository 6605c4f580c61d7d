-- ===== src/Base/Table/Sweep.antt =====
-- Predicates on all values of a table, and the sweep that takes out the entries that match a test.
use Prim.Native.String.{String}
use mathlib.Core.Path.{◌≡◌, refl, subst, ap, ap₂, ◌∙◌}
use mathlib.Core.Bool.{Bool, true, false, not}
use mathlib.Core.List.{List, [], ◌∷◌}
use mathlib.Core.Option.{Option, none, some}
use mathlib.Core.Logic.{inl, inr}
use native.Mathlib.Omega.{arith}
use text.Mathlib.Text.{◌==◌}
use text.Mathlib.TextEquality.{eq_iff}
use text.Mathlib.TextPositions.{eq_refl}
use fura.Base.Lists.{All}
use fura.Base.Tests.{if◌then◌else◌, Bool-cases}
use fura.Base.Table.Defs.{
  Table, lookup, insert, remove, retain, map_values, any_value, Distinct, AllValues,
}
use fura.Base.Table.Laws.{remove_absent}

module _ {ℓ κ} {V : Type ℓ} (P : V → Type κ) where
  pub AllValues-insert :
      (k : String) (v : V) (m : Table V) → P v → AllValues P m → AllValues P (insert k v m)
  unfolding insert
  AllValues-insert k v [] h a = (h, tt)
  AllValues-insert k v ((i, w) ∷ m) h a = elim (Bool-cases (i == k)) [
    | inl e ↦ rw e (h, a.1)
    | inr e ↦ rw e (a.0, AllValues-insert k v m h a.1)
  ]

  pub AllValues-remove : (k : String) (m : Table V) → AllValues P m → AllValues P (remove k m)
  unfolding remove
  AllValues-remove k [] a = tt
  AllValues-remove k ((i, w) ∷ m) a = elim (Bool-cases (i == k)) [
    | inl e ↦ rw e (AllValues-remove k m a.1)
    | inr e ↦ rw e (a.0, AllValues-remove k m a.1)
  ]

  pub AllValues-retain :
      (p : String → V → Bool) (m : Table V) → AllValues P m → AllValues P (retain p m)
  unfolding retain
  AllValues-retain p [] a = tt
  AllValues-retain p ((i, w) ∷ m) a = elim (Bool-cases (p i w)) [
    | inl e ↦ rw e (a.0, AllValues-retain p m a.1)
    | inr e ↦ rw e (AllValues-retain p m a.1)
  ]

  pub AllValues-lookup :
      (k : String) (m : Table V) {v : V} → AllValues P m → lookup k m ≡ some v → P v
  unfolding lookup
  AllValues-lookup k [] a h = absurd (ground arith)
  AllValues-lookup k ((i, w) ∷ m) {v} a h = elim (Bool-cases (i == k)) [
    | inl e ↦ let same : w ≡ v = ground arith in subst P same a.0
    | inr e ↦ AllValues-lookup k m a.1 (rw e at h)
  ]

  pub AllValues-map_values :
      (f : V → V) (m : Table V)
      → ((v : V) → P v → P (f v))
      → AllValues P m
      → AllValues P (map_values f m)
  unfolding map_values
  AllValues-map_values f [] keep a = tt
  AllValues-map_values f ((i, w) ∷ m) keep a = (keep w a.0, AllValues-map_values f m keep a.1)

-- What follows from two predicates that hold of all values.
pub AllValues-weaken {ℓ κ μ} :
    {V : Type ℓ} (P : V → Type κ) (Q : V → Type μ)
    → ((v : V) → P v → Q v)
    → (m : Table V) → AllValues P m
    → AllValues Q m
AllValues-weaken P Q f [] a = tt
AllValues-weaken P Q f ((i, v) ∷ m) a = (f v a.0, AllValues-weaken P Q f m a.1)

pub AllValues-zip {ℓ κ μ ν} :
    {V : Type ℓ} (P : V → Type κ) (Q : V → Type μ) (S : V → Type ν)
    → ((v : V) → P v → Q v → S v)
    → (m : Table V) → AllValues P m
    → AllValues Q m
    → AllValues S m
AllValues-zip P Q S f [] p q = tt
AllValues-zip P Q S f ((i, w) ∷ m) p q = (f w p.0 q.0, AllValues-zip P Q S f m p.1 q.1)

-- The key is none of the listed ones.
abbrev Absent : String → List String → Type 0
Absent i = All (λ k. (i == k) ≡ false)

module _ {ℓ} {V : Type ℓ} where
  -- What the code does to take out the entries that match a test: it collects their keys, and
  -- removes one after the other.
  unfoldable pub matching : (V → Bool) → Table V → List String
  matching p [] = []
  matching p ((i, w) ∷ m) = let rest = matching p m in if p w then i ∷ rest else rest

  unfoldable pub remove_each : List String → Table V → Table V
  remove_each [] m = m
  remove_each (k ∷ ks) m = remove_each ks (remove k m)

  -- `remove(&id).map(|v| (id, v))`, in front of what the later ids yield
  abbrev pub taken : String → Option V → Table V → Table V
  taken k none rest = rest
  taken k (some v) rest = (k, v) ∷ rest

  -- The entries that `ids.into_iter().filter_map(..)` yields.
  unfoldable pub take_each : List String → Table V → Table V
  take_each [] m = []
  take_each (k ∷ ks) m = taken k (lookup k m) (take_each ks (remove k m))

  Absent-matching :
      (p : V → Bool) (i : String) (m : Table V) → lookup i m ≡ none → Absent i (matching p m)
  unfolding lookup matching
  Absent-matching p i [] h = tt
  Absent-matching p i ((j, w) ∷ m) h = elim (Bool-cases (p w)) [
    | inl e ↦ rw e (ground (arith, eq_iff i j, eq_iff j i), Absent-matching p i m (ground arith))
    | inr e ↦ rw e (Absent-matching p i m (ground arith))
  ]

  remove_each-cons :
      (ks : List String) (i : String) (w : V) (m : Table V)
      → Absent i ks
      → remove_each ks ((i, w) ∷ m) ≡ (i, w) ∷ remove_each ks m
  unfolding remove_each remove
  remove_each-cons [] i w m a = refl
  remove_each-cons (k ∷ ks) i w m a = rw a.0 (remove_each-cons ks i w (remove k m) a.1)

  take_each-cons :
      (ks : List String) (i : String) (w : V) (m : Table V)
      → Absent i ks
      → take_each ks ((i, w) ∷ m) ≡ take_each ks m
  unfolding take_each remove lookup
  take_each-cons [] i w m a = refl
  take_each-cons (k ∷ ks) i w m a =
      rw a.0 (ap (taken k (lookup k m)) (take_each-cons ks i w (remove k m) a.1))

  remove_head : (i : String) (w : V) (m : Table V) → lookup i m ≡ none → remove i ((i, w) ∷ m) ≡ m
  unfolding remove
  remove_head i w m h = rw (eq_refl i) (remove_absent i m h)

  lookup_head : (i : String) (w : V) (m : Table V) → lookup i ((i, w) ∷ m) ≡ some w
  unfolding lookup
  lookup_head i w m = rw (eq_refl i)

  -- The sweep leaves exactly the entries that fail the test.
  pub remove_each-matching :
      (p : V → Bool) (m : Table V)
      → Distinct m
      → remove_each (matching p m) m ≡ retain (λ _ v. not (p v)) m
  unfolding remove_each matching retain remove
  remove_each-matching p [] d = refl
  remove_each-matching p ((i, w) ∷ m) d = elim (Bool-cases (p w)) [
    | inl e ↦
        rw e
          (ap (remove_each (matching p m)) (remove_head i w m d.0) ∙ remove_each-matching p m d.1)
    | inr e ↦ rw e (
        remove_each-cons (matching p m) i w m (Absent-matching p i m d.0)
        ∙ ap (◌∷◌ (i, w)) (remove_each-matching p m d.1))
  ]

  -- The sweep yields exactly the entries that pass the test.
  pub take_each-matching :
      (p : V → Bool) (m : Table V) → Distinct m → take_each (matching p m) m ≡ retain (λ _ v. p v) m
  unfolding take_each matching retain remove lookup
  take_each-matching p [] d = refl
  take_each-matching p ((i, w) ∷ m) d = elim (Bool-cases (p w)) [
    | inl e ↦ rw e (
        ap₂ (taken i) (lookup_head i w m)
          (ap (take_each (matching p m)) (remove_head i w m d.0) ∙ take_each-matching p m d.1))
    | inr e ↦ rw e (
        take_each-cons (matching p m) i w m (Absent-matching p i m d.0)
        ∙ take_each-matching p m d.1)
  ]

  pub AllValues-retain_test :
      (p : V → Bool) (m : Table V) → AllValues (λ v. p v ≡ true) (retain (λ _ v. p v) m)
  unfolding retain
  AllValues-retain_test p [] = tt
  AllValues-retain_test p ((i, w) ∷ m) = elim (Bool-cases (p w)) [
    | inl e ↦ rw e (e, AllValues-retain_test p m)
    | inr e ↦ rw e (AllValues-retain_test p m)
  ]

  pub any_value-false :
      (p : V → Bool) (m : Table V) → any_value p m ≡ false → AllValues (λ v. p v ≡ false) m
  unfolding any_value
  any_value-false p [] h = tt
  any_value-false p ((i, w) ∷ m) h = (ground arith, any_value-false p m (ground arith))

  pub AllValues-retain-not :
      (p : V → Bool) (m : Table V) → AllValues (λ v. p v ≡ false) (retain (λ _ v. not (p v)) m)
  unfolding retain
  AllValues-retain-not p [] = tt
  AllValues-retain-not p ((i, w) ∷ m) = elim (Bool-cases (p w)) [
    | inl e ↦ rw e (AllValues-retain-not p m)
    | inr e ↦ rw e (e, AllValues-retain-not p m)
  ]
