-- ===== src/Base/Table/Laws.antt =====
-- What a table answers after each operation.
use Prim.Native.String.{String}
use mathlib.Core.Path.{◌≡◌, refl, ◌∙◌}
use mathlib.Core.Bool.{Bool, true, false}
use mathlib.Core.List.{[], ◌∷◌}
use mathlib.Core.Option.{none, some}
use mathlib.Core.Logic.{inl, inr}
use native.Mathlib.Omega.{arith}
use text.Mathlib.Text.{◌==◌}
use text.Mathlib.TextEquality.{eq_iff}
use text.Mathlib.TextPositions.{eq_refl}
use fura.Base.Tests.{if◌then◌else◌, Bool-cases}
use fura.Base.Table.Defs.{Table, lookup, contains_key, insert, remove, retain, map_values, Distinct}

module _ {ℓ} {V : Type ℓ} where
  pub lookup-insert :
      (k j : String) (v : V) (m : Table V)
      → lookup j (insert k v m) ≡ (if k == j then some v else lookup j m)
  unfolding insert lookup
  lookup-insert k j v [] = refl
  lookup-insert k j v ((key, old) ∷ tail) = elim (Bool-cases (key == k)) [
    | inl same ↦ ground (arith, eq_iff key k, eq_iff key j, eq_iff k j)
    | inr other ↦ ground (arith, eq_iff key j, eq_iff k j, eq_iff key k, lookup-insert k j v tail)
  ]

  pub lookup-insert_self : (k : String) (v : V) (m : Table V) → lookup k (insert k v m) ≡ some v
  lookup-insert_self k v m = ground (arith, eq_refl k, lookup-insert k k v m)

  lookup-insert_ne :
      (k j : String) (v : V) (m : Table V) → (j == k) ≡ false → lookup j (insert k v m) ≡ lookup j m
  lookup-insert_ne k j v m h = ground (arith, eq_iff k j, eq_iff j k, lookup-insert k j v m)

  pub lookup-remove :
      (k j : String) (m : Table V) → lookup j (remove k m) ≡ (if k == j then none else lookup j m)
  unfolding lookup remove
  lookup-remove k j [] = ground arith
  lookup-remove k j ((i, w) ∷ m) =
      ground (arith, eq_iff k j, eq_iff i k, eq_iff i j, lookup-remove k j m)

  pub contains_key-insert :
      (k j : String) (v : V) (m : Table V)
      → contains_key j m ≡ true
      → contains_key j (insert k v m) ≡ true
  unfolding contains_key
  contains_key-insert k j v m there = ground (arith, lookup-insert k j v m)

  pub contains_key-remove :
      (k j : String) (m : Table V)
      → contains_key j m ≡ true
      → (j == k) ≡ false
      → contains_key j (remove k m) ≡ true
  unfolding contains_key
  contains_key-remove k j m there other =
      ground (arith, lookup-remove k j m, eq_iff k j, eq_iff j k)

  pub lookup-map_values :
      (f : V → V) (j : String) (m : Table V)
      → lookup j (map_values f m) ≡ elim (lookup j m) [ none ↦ none | some v ↦ some (f v) ]
  unfolding lookup map_values
  lookup-map_values f j [] = refl
  lookup-map_values f j ((i, w) ∷ m) = ground (arith, lookup-map_values f j m)

  pub contains_key_lem : (k : String) (m : Table V) → contains_key k m ≡ false → lookup k m ≡ none
  unfolding contains_key
  contains_key_lem k m h = ground arith

  -- A retained entry was there, and passed the test.
  pub lookup-retain-none :
      (p : String → V → Bool) (j : String) (m : Table V)
      → lookup j m ≡ none
      → lookup j (retain p m) ≡ none
  unfolding lookup retain
  lookup-retain-none p j [] h = refl
  lookup-retain-none p j ((i, w) ∷ m) h = ground (arith, lookup-retain-none p j m)

  pub lookup-retain :
      (p : String → V → Bool) (j : String) (m : Table V)
      → Distinct m
      → lookup j (retain p m)
        ≡ elim (lookup j m) [ none ↦ none | some v ↦ if p j v then some v else none ]
  unfolding lookup retain
  lookup-retain p j [] d = refl
  lookup-retain p j ((i, w) ∷ m) d = elim (Bool-cases (i == j)) [
    | inl e ↦ ground (arith, eq_iff i j, lookup-retain-none p j m, lookup-retain p j m d.1)
    | inr e ↦ ground (arith, lookup-retain p j m d.1)
  ]

  pub Distinct-insert : (k : String) (v : V) (m : Table V) → Distinct m → Distinct (insert k v m)
  unfolding insert lookup
  Distinct-insert k v [] d = (refl, tt)
  Distinct-insert k v ((i, w) ∷ m) d = elim (Bool-cases (i == k)) [
    | inl e ↦ ground (arith, eq_iff i k)
    | inr e ↦ rw e (lookup-insert_ne k i v m e ∙ d.0, Distinct-insert k v m d.1)
  ]

  pub Distinct-remove : (k : String) (m : Table V) → Distinct m → Distinct (remove k m)
  unfolding remove
  Distinct-remove k [] d = tt
  Distinct-remove k ((i, w) ∷ m) d = ground (arith, lookup-remove k i m, Distinct-remove k m d.1)

  pub Distinct-retain : (p : String → V → Bool) (m : Table V) → Distinct m → Distinct (retain p m)
  unfolding retain
  Distinct-retain p [] d = tt
  Distinct-retain p ((i, w) ∷ m) d =
      ground (arith, lookup-retain-none p i m d.0, Distinct-retain p m d.1)

  pub Distinct-map_values : (f : V → V) (m : Table V) → Distinct m → Distinct (map_values f m)
  unfolding map_values
  Distinct-map_values f [] d = tt
  Distinct-map_values f ((i, w) ∷ m) d =
      (ground (arith, lookup-map_values f i m), Distinct-map_values f m d.1)

  -- Removing a key that is not there changes nothing.
  pub remove_absent : (k : String) (m : Table V) → lookup k m ≡ none → remove k m ≡ m
  unfolding lookup remove
  remove_absent k [] h = refl
  remove_absent k ((i, w) ∷ m) h = ground (arith, remove_absent k m)
