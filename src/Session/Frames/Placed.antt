-- ===== src/Session/Frames/Placed.antt =====
-- src/rpc.rs: every card of a record stands after as many messages as there are, or fewer; the
-- handlers keep that.
use fura.Base.{
  ℕ, suc, ◌<◌, ◌≤◌, ◌≡◌, refl, Bool, true, false, not, ◌&&◌, ◌||◌, Option, none, some, List, [],
  ◌∷◌, ◌++◌, String, str_eq as ◌==◌, arith, length, map, All-append, All-append_inv, All-weaken,
  All-map, Bool-cases, Option-cases, inl, inr, length-append,
}
use fura.Base.Options.{◌>>=◌, unwrap_or, is_some, or_else}
use fura.Base.Positions.{
  position, set, erase_idx, get_elem?, position-lt, length-set, length-erase_idx, All-set,
  All-erase_idx, All-get_elem?,
}
use fura.Recency.Fact.{Timestamp}
use fura.Session.Crates.{Crates}
use fura.Session.Types.{MessageRole, TranscriptMessage, ToolCard}
use fura.Session.Hash.{refresh_message, new_card}
use fura.Session.Record.{SessionRecord}
use fura.Session.Source.{omp_submission_client_message_id, assign_projected_message_id}
use fura.Session.Removal.{shift_card, projected_message_ordinal_for_append, remove_record_message}
use fura.Session.Transcript.{all_cards}
use fura.Session.Transcript.Layout.{place}
use fura.Session.Frames.Message.{
  message_update, ended_timestamp, observe_conversation_message, is_assistant, message_end,
  append_message, settle_streaming, consume_optimistic, is_optimistic, place_message,
}
use fura.Session.Frames.Tool.{
  active_card, complete_card, show_progress, keep_running, state_is, tool_async_state,
  tool_execution_start, tool_execution_update, tool_execution_end,
}
use fura.Session.Frames.Honest.{IsPlaced, active_card_sound}

module _ (crates : Crates) where
  open crates use {Value}

  abbrev Record : Type 0
  Record = SessionRecord crates

  abbrev Fits : ℕ → ToolCard crates → Type 0
  Fits n c = place crates c ≤ n

  shift-Fits :
      (n index : ℕ) (c : ToolCard crates)
      → index ≤ n
      → Fits (suc n) c
      → Fits n (shift_card crates index c)
  unfolding shift_card
  shift-Fits n index c lt h = ground arith

  pub remove_record_message-IsPlaced :
      (r : Record) (index : ℕ)
      → index < length r.messages
      → IsPlaced crates r
      → IsPlaced crates (remove_record_message crates r index)
  unfolding remove_record_message all_cards
  remove_record_message-IsPlaced r index lt placed =
      let n = length (erase_idx r.messages index) in
      let size = length-erase_idx r.messages index lt in
      let (done, active) =
        All-append_inv (Fits (length r.messages)) r.tool_cards r.active_tool_calls placed in
      All-append (Fits n) (map (shift_card crates index) r.tool_cards)
        (map (shift_card crates index) r.active_tool_calls)
        (All-map (Fits n) (shift_card crates index) r.tool_cards (
          All-weaken (Fits (length r.messages)) (λ c. Fits n (shift_card crates index c))
            (λ c h. shift-Fits n index c (omega arith) (omega arith)) r.tool_cards done))
        (All-map (Fits n) (shift_card crates index) r.active_tool_calls (
          All-weaken (Fits (length r.messages)) (λ c. Fits n (shift_card crates index c))
            (λ c h. shift-Fits n index c (omega arith) (omega arith)) r.active_tool_calls active))

  consume_optimistic-IsPlaced :
      (msg : TranscriptMessage) (id : Option String) (r : Record)
      → IsPlaced crates r
      → IsPlaced crates (consume_optimistic crates msg id r).0
  unfolding consume_optimistic
  consume_optimistic-IsPlaced msg none r placed = placed
  consume_optimistic-IsPlaced msg (some id) r placed =
      elim (Option-cases (position (is_optimistic msg id) r.messages)) [
        | inl absent ↦ rw absent placed
        | inr (index, found) ↦
            rw found
              (remove_record_message-IsPlaced r index (position-lt _ r.messages index found) placed)
      ]

  length-place_message :
      (msg : TranscriptMessage) (changed : ℕ) (ms : List TranscriptMessage)
      → length ms ≤ length (place_message msg changed ms).0
  unfolding place_message
  length-place_message msg changed ms =
      elim (Option-cases (position (λ existing. existing.id == msg.id) ms)) [
        | inl absent ↦ rw absent (omega (arith, length-append ms (msg ∷ [])))
        | inr (index, found) ↦ rw found (omega (arith, length-set ms index msg))
      ]

  append_message-IsPlaced :
      (msg : TranscriptMessage) (submission : Option String) (r : Record)
      → IsPlaced crates r
      → IsPlaced crates (append_message crates msg submission r).0
  unfolding append_message
  append_message-IsPlaced msg submission r placed =
      let (after, changed) = consume_optimistic crates msg submission r in
      let longer = length-place_message (refresh_message crates msg) changed after.messages in
      All-weaken (Fits (length after.messages)) (Fits _) (λ c h. omega arith)
        (all_cards crates after) (consume_optimistic-IsPlaced msg submission r placed)

  -- A card's change leaves it where it stands.
  in_place-IsPlaced :
      (r r' : Record) (pos : ℕ) (card card' : ToolCard crates)
      → get_elem? r.active_tool_calls pos ≡ some card
      → place crates card' ≡ place crates card
      → r'.messages ≡ r.messages
      → r'.tool_cards ≡ r.tool_cards
      → r'.active_tool_calls ≡ set r.active_tool_calls pos card'
      → IsPlaced crates r
      → IsPlaced crates r'
  unfolding all_cards
  in_place-IsPlaced r r' pos card card' found stays ms done active placed =
      let n = length r.messages in
      let (a, b) = All-append_inv (Fits n) r.tool_cards r.active_tool_calls placed in
      let own = All-get_elem? (Fits n) r.active_tool_calls pos card b found in
      rw (ms, done, active)
        (All-append (Fits n) r.tool_cards (set r.active_tool_calls pos card') a
          (All-set (Fits n) r.active_tool_calls pos card' (omega arith) b))

  completed-IsPlaced :
      (r r' : Record) (pos : ℕ) (card card' : ToolCard crates)
      → get_elem? r.active_tool_calls pos ≡ some card
      → place crates card' ≡ place crates card
      → r'.messages ≡ r.messages
      → r'.tool_cards ≡ r.tool_cards ++ card' ∷ []
      → r'.active_tool_calls ≡ erase_idx r.active_tool_calls pos
      → IsPlaced crates r
      → IsPlaced crates r'
  unfolding all_cards
  completed-IsPlaced r r' pos card card' found stays ms done active placed =
      let n = length r.messages in
      let (a, b) = All-append_inv (Fits n) r.tool_cards r.active_tool_calls placed in
      let own = All-get_elem? (Fits n) r.active_tool_calls pos card b found in
      rw (ms, done, active)
        (All-append (Fits n) (r.tool_cards ++ card' ∷ []) (erase_idx r.active_tool_calls pos)
          (All-append (Fits n) r.tool_cards (card' ∷ []) a (omega arith, tt))
          (All-erase_idx (Fits n) r.active_tool_calls pos b))

  pub tool_execution_update-IsPlaced :
      (id : String) (partial_result : Option Value) (r : Record)
      → IsPlaced crates r
      → IsPlaced crates (tool_execution_update crates id partial_result r).0
  unfolding tool_execution_update complete_card show_progress
  tool_execution_update-IsPlaced id partial_result r placed =
      elim (Option-cases (active_card crates id r)) [
        | inl none_active ↦ rw none_active placed
        | inr ((pos, card), active) ↦
            let (found, own) = active_card_sound crates id r pos card active in
            let state = partial_result >>= tool_async_state crates in
            let failed = state_is "failed" state in
            rw active (elim (Bool-cases (state_is "completed" state || failed)) [
              | inl final ↦ rw final (
                  completed-IsPlaced r (complete_card crates pos failed partial_result card r) pos
                    card _ found refl refl refl refl placed)
              | inr partial ↦ rw partial (
                  in_place-IsPlaced r (show_progress crates pos partial_result card r) pos card _
                    found refl refl refl refl placed)
            ])
      ]

  pub tool_execution_end-IsPlaced :
      (id : String) (result : Option Value) (is_error : Option Bool) (r : Record)
      → IsPlaced crates r
      → IsPlaced crates (tool_execution_end crates id result is_error r).0
  unfolding tool_execution_end complete_card keep_running
  tool_execution_end-IsPlaced id result is_error r placed =
      elim (Option-cases (active_card crates id r)) [
        | inl none_active ↦ rw none_active placed
        | inr ((pos, card), active) ↦
            let (found, own) = active_card_sound crates id r pos card active in
            let failed = unwrap_or false is_error in
            rw active (elim (Bool-cases (state_is "running" (result >>= tool_async_state crates))) [
              | inl running ↦ rw running (
                  in_place-IsPlaced r (keep_running crates pos result card r) pos card _ found refl
                    refl refl refl placed)
              | inr over ↦ rw over (
                  completed-IsPlaced r (complete_card crates pos failed result card r) pos card _
                    found refl refl refl refl placed)
            ])
      ]

  pub tool_execution_start-IsPlaced :
      (id name : String) (args : Value) (intent : Option String) (time : Timestamp) (r : Record)
      → IsPlaced crates r
      → IsPlaced crates (tool_execution_start crates id name args intent time r).0
  unfolding tool_execution_start all_cards
  tool_execution_start-IsPlaced id name args intent time r placed =
      let n = length r.messages in
      let (a, b) = All-append_inv (Fits n) r.tool_cards r.active_tool_calls placed in
      let card = new_card crates id (some time) name intent args true false none none n in
      All-append (Fits n) r.tool_cards (r.active_tool_calls ++ card ∷ []) a (
        All-append (Fits n) r.active_tool_calls (card ∷ []) b
          (unfold new_card in (omega arith, tt)))

  settle_streaming-IsPlaced :
      (role : MessageRole) (source : Value) (r : Record)
      → IsPlaced crates r
      → IsPlaced crates (settle_streaming crates role source r)
  unfolding settle_streaming all_cards
  settle_streaming-IsPlaced role source r placed =
      elim (Bool-cases
        (is_assistant role && not (is_some (omp_submission_client_message_id crates source)))) [
          | inl e ↦ rw e placed
          | inr e ↦ rw e placed
        ]

  pub message_update-IsPlaced :
      (msg : TranscriptMessage) (source : Value) (time : Option Timestamp) (r : Record)
      → IsPlaced crates r
      → IsPlaced crates (message_update crates msg source time r).0
  unfolding message_update all_cards
  message_update-IsPlaced msg source time r placed = placed

  pub message_end-IsPlaced :
      (msg : TranscriptMessage) (source : Value) (time : Option Timestamp) (r : Record)
      → IsPlaced crates r
      → IsPlaced crates (message_end crates msg source time r).0
  unfolding message_end observe_conversation_message all_cards
  message_end-IsPlaced msg source time r placed =
      let msg' = record msg { timestamp = or_else msg.timestamp time; is_new = true } in
      let msg' = ended_timestamp crates msg' source r in
      let observed = observe_conversation_message crates source msg'.timestamp r in
      let settled = settle_streaming-IsPlaced msg'.role source observed placed in
      append_message-IsPlaced
        (assign_projected_message_id crates msg' source (
          projected_message_ordinal_for_append crates
            (settle_streaming crates msg'.role source observed)))
        (omp_submission_client_message_id crates source)
        (settle_streaming crates msg'.role source observed) settled
