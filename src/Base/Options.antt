-- ===== src/Base/Options.antt =====
-- `Option`: the `?` operator as a bind, `or`, `unwrap_or`, `filter`, `is_some`.
use mathlib.Core.Bool.{Bool, true, false}
use mathlib.Core.Option.{Option, none, some}
use fura.Base.Tests.{if◌then◌else◌}

infixl 5 ◌>>=◌
abbrev pub ◌>>=◌ {ℓ κ} : {A : Type ℓ} {B : Type κ} → Option A → (A → Option B) → Option B
none >>= f = none
some a >>= f = f a

module _ {ℓ} {A : Type ℓ} where
  -- `a.or(b)`
  abbrev pub or_else : Option A → Option A → Option A
  or_else none b = b
  or_else (some a) b = some a

  abbrev pub unwrap_or : A → Option A → A
  unwrap_or d none = d
  unwrap_or d (some a) = a

  abbrev pub keep_if : (A → Bool) → Option A → Option A
  keep_if p none = none
  keep_if p (some a) = if p a then some a else none

  abbrev pub is_some : Option A → Bool
  is_some none = false
  is_some (some a) = true

  -- `is_some_and`
  abbrev pub some_and : (A → Bool) → Option A → Bool
  some_and p none = false
  some_and p (some a) = p a
