-- ===== src/Base/Table/Clashes.antt =====
-- Tables in which no two entries clash.
use Prim.Native.String.{String}
use mathlib.Core.Path.{◌≡◌, sym, ◌∙◌, subst, subst₂}
use mathlib.Core.Bool.{false}
use mathlib.Core.Option.{some}
use mathlib.Core.Logic.{inl, inr, ◌⊎◌}
use native.Mathlib.Omega.{arith}
use text.Mathlib.Text.{◌==◌}
use text.Mathlib.TextEquality.{eq_iff}
use fura.Base.Tests.{Bool-cases, Option-cases}
use fura.Base.Table.Defs.{Table, lookup, insert, remove, map_values}
use mathlib.Core.List.{List, [], ◌∷◌}
use fura.Base.Table.Sweep.{remove_each}
use fura.Base.Table.Laws.{lookup-insert, lookup-remove, lookup-map_values}

module _ {ℓ} {V : Type ℓ} where
  -- An entry after an insertion is the new one, or was there under another key.
  pub lookup-insert_inv :
      (k j : String) (v : V) (m : Table V) {w : V}
      → lookup j (insert k v m) ≡ some w
      → ((k ≡ j) × (v ≡ w)) ⊎ (((k == j) ≡ false) × (lookup j m ≡ some w))
  lookup-insert_inv k j v m {w} h = elim (Bool-cases (k == j)) [
    | inl same ↦ inl ((eq_iff k j).0 same, ground (arith, lookup-insert k j v m))
    | inr other ↦ inr (other, ground (arith, lookup-insert k j v m))
  ]

  -- An entry after a removal was there under another key.
  pub lookup-remove_inv :
      (k j : String) (m : Table V) {w : V}
      → lookup j (remove k m) ≡ some w
      → ((k == j) ≡ false) × (lookup j m ≡ some w)
  lookup-remove_inv k j m h = elim (Bool-cases (k == j)) [
    | inl same ↦ absurd (ground (arith, lookup-remove k j m))
    | inr other ↦ (other, ground (arith, lookup-remove k j m))
  ]

  pub lookup-map_values_inv :
      (f : V → V) (j : String) (m : Table V) {w : V}
      → lookup j (map_values f m) ≡ some w
      → (v : V) × (lookup j m ≡ some v) × (f v ≡ w)
  lookup-map_values_inv f j m h = elim (Option-cases (lookup j m)) [
    | inl gone ↦ absurd (ground (arith, lookup-map_values f j m))
    | inr (v, found) ↦ (v, found, ground (arith, lookup-map_values f j m))
  ]

apart : (k j : String) → (k == j) ≡ false → k ≡ j → ⊥
apart k j other same = cc ((eq_iff k j).1 same)

module _ {ℓ κ} {V : Type ℓ} (Clash : V → V → Type κ) where
  -- Two entries that clash are one.
  abbrev pub Exclusive : Table V → Type (ℓ ⊔ κ)
  Exclusive m =
      (i j : String) (v w : V) → lookup i m ≡ some v → lookup j m ≡ some w → Clash v w → i ≡ j

  pub Exclusive-insert :
      (k : String) (u : V) (m : Table V)
      → ((j : String) (w : V) → lookup j m ≡ some w → ¬ Clash u w)
      → ((j : String) (w : V) → lookup j m ≡ some w → ¬ Clash w u)
      → Exclusive m
      → Exclusive (insert k u m)
  Exclusive-insert k u m free free' x i j v w hi hj clash = elim (lookup-insert_inv k i u m hi) [
    | inl (ki, uv) ↦ elim (lookup-insert_inv k j u m hj) [
      | inl (kj, uw) ↦ sym ki ∙ kj
      | inr (_, old) ↦ absurd (free j w old (subst (λ t. Clash t w) (sym uv) clash))
    ]
    | inr (_, old) ↦ elim (lookup-insert_inv k j u m hj) [
      | inl (kj, uw) ↦ absurd (free' i v old (subst (Clash v) (sym uw) clash))
      | inr (_, old') ↦ x i j v w old old' clash
    ]
  ]

  pub Exclusive-remove : (k : String) (m : Table V) → Exclusive m → Exclusive (remove k m)
  Exclusive-remove k m x i j v w hi hj clash =
      x i j v w (lookup-remove_inv k i m hi).1 (lookup-remove_inv k j m hj).1 clash

  pub Exclusive-remove_each :
      (ks : List String) (m : Table V) → Exclusive m → Exclusive (remove_each ks m)
  unfolding remove_each
  Exclusive-remove_each [] m x = x
  Exclusive-remove_each (k ∷ ks) m x =
      Exclusive-remove_each ks (remove k m) (Exclusive-remove k m x)

  pub Exclusive-map_values :
      (f : V → V) (m : Table V)
      → ((v w : V) → Clash (f v) (f w) → Clash v w)
      → Exclusive m
      → Exclusive (map_values f m)
  Exclusive-map_values f m back x i j v w hi hj clash =
      let (v', found, fv) = lookup-map_values_inv f i m hi in
      let (w', found', fw) = lookup-map_values_inv f j m hj in
      x i j v' w' found found' (back v' w' (subst₂ Clash (sym fv) (sym fw) clash))

  -- An entry that moves to another key, changed into one that clashes with no more.
  pub Exclusive-move :
      (k k' : String) (u u' : V) (m : Table V)
      → lookup k m ≡ some u
      → ((w : V) → Clash u' w → Clash u w)
      → ((w : V) → Clash w u' → Clash w u)
      → Exclusive m
      → Exclusive (insert k' u' (remove k m))
  Exclusive-move k k' u u' m found left right x =
      Exclusive-insert k' u' (remove k m)
        (λ j w h clash.
          let (other, old) = lookup-remove_inv k j m h in
          apart k j other (x k j u w found old (left w clash)))
        (λ j w h clash.
          let (other, old) = lookup-remove_inv k j m h in
          apart k j other (sym (x j k w u old found (right w clash))))
        (Exclusive-remove k m x)
