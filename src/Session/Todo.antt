-- ===== src/Session/Todo.antt =====
-- src/session.rs: the todo phases that a tool's result carries.
use fura.Base.{Bool, not, ◌&&◌, ◌||◌, Option, none, List, [], ◌∷◌, String, str_eq as ◌==◌}
use fura.Base.Sort.{filter}
use mathlib.Core.List.{reverse}
use fura.Base.Options.{or_else, ◌>>=◌}
use fura.Session.Crates.{Crates}
use fura.Session.Types.{TodoPhaseProjection, ToolCard}

unfoldable pub is_todo_tool : String → Bool
is_todo_tool name = name == "todo" || name == "todo_write"

unfoldable pub find_map {ℓ κ} : {A : Type ℓ} {B : Type κ} → (A → Option B) → List A → Option B
find_map f [] = none
find_map f (x ∷ xs) = or_else (f x) (find_map f xs)

module _ (crates : Crates) where
  open crates use {Value, get, from_value}

  unfoldable pub todo_phases_from_tool_result_value :
      Option Value → Option (List TodoPhaseProjection)
  todo_phases_from_tool_result_value value = do
    value ← value
    details ← get "details" value
    phases ← get "phases" details
    from_value (List TodoPhaseProjection) phases

  unfoldable pub latest_todo_phases_from_tool_cards :
      List (ToolCard crates) → Option (List TodoPhaseProjection)
  unfolding find_map todo_phases_from_tool_result_value is_todo_tool
  latest_todo_phases_from_tool_cards cards =
      find_map (λ (card : ToolCard crates). todo_phases_from_tool_result_value card.result)
        (filter (λ card. is_todo_tool card.tool_name && not card.is_error) (reverse cards))
