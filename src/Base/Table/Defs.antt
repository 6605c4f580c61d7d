-- ===== src/Base/Table/Defs.antt =====
-- The operations of a keyed table.
use Prim.Native.String.{String}
use mathlib.Core.Path.{◌≡◌}
use mathlib.Core.Bool.{Bool, true, false, ◌||◌}
use mathlib.Core.List.{List, [], ◌∷◌}
use mathlib.Core.Option.{Option, none, some}
use text.Mathlib.Text.{◌==◌}
use fura.Base.Tests.{if◌then◌else◌}

abbrev pub Table {ℓ} : Type ℓ → Type ℓ
Table V = List (String × V)

module _ {ℓ} {V : Type ℓ} where
  -- `get`
  unfoldable pub lookup : String → Table V → Option V
  lookup k [] = none
  lookup k ((key, old) ∷ tail) = if key == k then some old else lookup k tail

  unfoldable pub contains_key : String → Table V → Bool
  unfolding lookup
  contains_key k m = elim (lookup k m) [ none ↦ false | some _ ↦ true ]

  unfoldable pub insert : String → V → Table V → Table V
  insert k v [] = (k, v) ∷ []
  insert k v ((key, old) ∷ tail) = if key == k then (k, v) ∷ tail else (key, old) ∷ insert k v tail

  unfoldable pub remove : String → Table V → Table V
  remove k [] = []
  remove k ((key, old) ∷ tail) =
      let rest = remove k tail in if key == k then rest else (key, old) ∷ rest

  unfoldable pub retain : (String → V → Bool) → Table V → Table V
  retain p [] = []
  retain p ((key, old) ∷ tail) =
      let rest = retain p tail in if p key old then (key, old) ∷ rest else rest

  -- `values_mut`
  unfoldable pub map_values : (V → V) → Table V → Table V
  map_values f [] = []
  map_values f ((key, old) ∷ tail) = (key, f old) ∷ map_values f tail

  -- `values().any(..)`
  unfoldable pub any_value : (V → Bool) → Table V → Bool
  any_value p [] = false
  any_value p ((key, old) ∷ tail) = p old || any_value p tail

  abbrev pub values : Table V → List V
  values [] = []
  values ((key, old) ∷ tail) = old ∷ values tail

  -- No key occurs twice.
  abbrev pub Distinct : Table V → Type ℓ
  Distinct [] = Unit
  Distinct ((key, old) ∷ tail) = (lookup key tail ≡ none) × Distinct tail

  -- Every value of the table has the property.
  abbrev pub AllValues {κ} : (V → Type κ) → Table V → Type κ
  AllValues P [] = Unit
  AllValues P ((key, old) ∷ tail) = P old × AllValues P tail
