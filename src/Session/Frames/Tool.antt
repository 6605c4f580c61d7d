-- ===== src/Session/Frames/Tool.antt =====
-- src/rpc.rs: the handlers of `ToolExecutionStart`, `ToolExecutionUpdate` and `ToolExecutionEnd`.
use fura.Base.{
  ℕ, ◌-◌, Bool, true, false, not, ◌&&◌, ◌||◌, Option, none, some, List, [], ◌∷◌, ◌++◌, String,
  str_eq as ◌==◌, if◌then◌else◌, length,
}
use fura.Base.Options.{or_else, ◌>>=◌, unwrap_or, some_and}
use fura.Base.Positions.{position, erase_idx, get_elem?, set}
use fura.Recency.Fact.{Timestamp}
use fura.Session.Crates.{Crates}
use fura.Session.Types.{TodoPhaseProjection, ToolCard, TranscriptEntry, message, tool, review}
use fura.Session.Hash.{refresh_card, new_card}
use fura.Session.Todo.{is_todo_tool, todo_phases_from_tool_result_value}
use fura.Session.Record.{SessionRecord}
use fura.Session.Transcript.{transcript}

abbrev pub state_is : String → Option String → Bool
state_is name state = some_and (λ s. s == name) state

module _ (crates : Crates) where
  open crates use {Value, get, as_str}

  -- `event_timestamp` is the frame's time, or the clock's.
  unfoldable pub tool_execution_start :
      String
      → String
      → Value
      → Option String
      → Timestamp
      → SessionRecord crates
      → SessionRecord crates × Option ℕ
  unfolding new_card transcript
  tool_execution_start tool_call_id tool_name args intent event_timestamp r =
      let card =
        new_card crates tool_call_id (some event_timestamp) tool_name intent args true false none
          none (length r.messages) in
      let r' = record r { active_tool_calls = r.active_tool_calls ++ card ∷ [] } in
      (r', some (length (transcript crates r') - 1))

  unfoldable pub tool_async_state : Value → Option String
  tool_async_state result =
      get "details" result >>= λ details. get "async" details >>= λ a. get "state" a >>= as_str

  unfoldable pub is_card_of : String → ToolCard crates → Bool
  is_card_of id card = card.tool_call_id == id

  unfoldable pub is_entry_of : String → TranscriptEntry crates → Bool
  unfolding is_card_of
  is_entry_of id (message m) = false
  is_entry_of id (tool card) = is_card_of id card
  is_entry_of id (review card) = false

  -- The position of the tool's entry, or else of the last entry.
  unfoldable pub replace_from : String → SessionRecord crates → ℕ
  unfolding position is_entry_of transcript
  replace_from id r =
      unwrap_or (length (transcript crates r) - 1) (position (is_entry_of id) (transcript crates r))

  -- The todo phases that a finished tool reports.
  unfoldable pub reported_phases :
      ToolCard crates → Option Value → Option (List TodoPhaseProjection)
  unfolding is_todo_tool todo_phases_from_tool_result_value
  reported_phases card result =
      if is_todo_tool card.tool_name && not card.is_error
      then todo_phases_from_tool_result_value crates result
      else none

  -- The card at `pos` is done: it goes to the end of the completed cards.
  unfoldable pub complete_card :
      ℕ → Bool → Option Value → ToolCard crates → SessionRecord crates → SessionRecord crates
  unfolding erase_idx reported_phases refresh_card
  complete_card pos failed result card r =
      let done = record card { is_active = false; is_error = failed } in
      record r {
        active_tool_calls = erase_idx r.active_tool_calls pos;
        tool_cards =
            r.tool_cards
            ++ refresh_card crates (record done { result = result; partial_result = none }) ∷ [];
        todo_phases = or_else (reported_phases done result) r.todo_phases;
      }

  -- A partial result of the card at `pos`.
  unfoldable pub show_progress :
      ℕ → Option Value → ToolCard crates → SessionRecord crates → SessionRecord crates
  unfolding set refresh_card
  show_progress pos partial_result card r = record r {
    active_tool_calls =
        set r.active_tool_calls pos
          (refresh_card crates (record card { partial_result = partial_result }));
  }

  -- The tool of the card at `pos` goes on in the background.
  unfoldable pub keep_running :
      ℕ → Option Value → ToolCard crates → SessionRecord crates → SessionRecord crates
  unfolding set refresh_card is_todo_tool todo_phases_from_tool_result_value
  keep_running pos result card r = record r {
    active_tool_calls = set r.active_tool_calls pos (
        refresh_card crates (record card {
          is_active = true;
          is_error = false;
          result = result;
          partial_result = none;
        }));
    todo_phases =
        or_else
          (if is_todo_tool card.tool_name
            then todo_phases_from_tool_result_value crates result
            else none)
          r.todo_phases;
  }

  -- The active card with the id, and its position.
  unfoldable pub active_card : String → SessionRecord crates → Option (ℕ × ToolCard crates)
  unfolding position is_card_of get_elem?
  active_card id r = do
    pos ← position (is_card_of id) r.active_tool_calls
    card ← get_elem? r.active_tool_calls pos
    some (pos, card)

  abbrev pub updated_at :
      String
      → Option Value
      → SessionRecord crates
      → Option (ℕ × ToolCard crates)
      → SessionRecord crates × Option ℕ
  updated_at id partial_result r none = (r, none)
  updated_at id partial_result r (some (pos, card)) =
      let state = partial_result >>= tool_async_state in
      let failed = state_is "failed" state in
      let r' =
        if state_is "completed" state || failed
        then complete_card pos failed partial_result card r
        else show_progress pos partial_result card r in
      (r', some (replace_from id r'))

  unfoldable pub tool_execution_update :
      String → Option Value → SessionRecord crates → SessionRecord crates × Option ℕ
  unfolding active_card complete_card show_progress replace_from tool_async_state
  tool_execution_update id partial_result r = updated_at id partial_result r (active_card id r)

  abbrev pub ended_at :
      Option Value
      → Bool
      → SessionRecord crates
      → Option (ℕ × ToolCard crates)
      → SessionRecord crates
  ended_at result is_error r none = r
  ended_at result is_error r (some (pos, card)) =
      if state_is "running" (result >>= tool_async_state)
      then keep_running pos result card r
      else complete_card pos is_error result card r

  unfoldable pub tool_execution_end :
      String → Option Value → Option Bool → SessionRecord crates → SessionRecord crates × Option ℕ
  unfolding active_card complete_card keep_running replace_from tool_async_state
  tool_execution_end id result is_error r =
      let r' = ended_at result (unwrap_or false is_error) r (active_card id r) in
      (r', some (replace_from id r'))
