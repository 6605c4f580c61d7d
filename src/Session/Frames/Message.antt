-- ===== src/Session/Frames/Message.antt =====
-- src/rpc.rs: the handlers of `MessageUpdate` and `MessageEnd`. `message` is what `map_omp_message`
-- made of the raw message `source`, and `event_timestamp` the time of the frame.
use Prim.Native.String.{◌++◌ as append_text}
use fura.Base.{
  ℕ, suc, ◌+◌, ◌-◌, Bool, true, false, not, ◌&&◌, ◌||◌, Option, none, some, List, [], ◌∷◌, ◌++◌,
  String, str_eq as ◌==◌, ◌==◌ as nat_eq, if◌then◌else◌, length, min,
}
use fura.Base.Options.{or_else, ◌>>=◌, is_some, keep_if}
use fura.Base.Positions.{position, set, insert_text}
use fura.Recency.Fact.{Timestamp}
use fura.Recency.Journal.{max_time}
use fura.Session.Crates.{Crates}
use fura.Session.Text.{is_empty}
use fura.Session.Types.{
  MessageRole, assistant, TranscriptMessage, TranscriptEntry, message, tool, review,
}
use fura.Session.Hash.{refresh_message}
use fura.Session.Record.{SessionRecord}
use fura.Session.Transcript.{transcript}
use fura.Session.Source.{
  activity_time, value_timestamp, omp_submission_client_message_id, assign_projected_message_id,
}
use fura.Session.Removal.{projected_message_ordinal_for_append, remove_record_message}

unfoldable pub is_assistant : MessageRole → Bool
is_assistant assistant = true
is_assistant _ = false

unfoldable pub find_by_id : String → List TranscriptMessage → Option TranscriptMessage
find_by_id id [] = none
find_by_id id (m ∷ ms) = if m.id == id then some m else find_by_id id ms

-- The optimistic entries of a submission: its prompt, and the notice of a skill.
unfoldable pub is_optimistic : TranscriptMessage → String → TranscriptMessage → Bool
is_optimistic msg id existing =
    existing.id == append_text "__pending_prompt:" id
    || (is_some msg.skill_invocation && existing.id == append_text "__command_notice:" id)

abbrev pub placed_at :
    TranscriptMessage → ℕ → List TranscriptMessage → Option ℕ → List TranscriptMessage × ℕ
placed_at msg changed ms none = (ms ++ msg ∷ [], changed)
placed_at msg changed ms (some index) = (set ms index msg, min changed index)

-- The message replaces the one with its id, or stands at the end.
unfoldable pub place_message :
    TranscriptMessage → ℕ → List TranscriptMessage → List TranscriptMessage × ℕ
unfolding position set
place_message msg changed ms =
    placed_at msg changed ms (position (λ existing. existing.id == msg.id) ms)

module _ (crates : Crates) where
  open crates use {Value}

  abbrev Entries : Type 0
  Entries = List (TranscriptEntry crates)

  -- `OmpRpcFrame::MessageUpdate`
  unfoldable pub streamed_message :
      TranscriptMessage → Value → Option Timestamp → SessionRecord crates → TranscriptMessage
  unfolding is_empty activity_time refresh_message
  streamed_message msg source event_timestamp r =
      let id = if is_empty msg.id then "__streaming__" else msg.id in
      let earlier = keep_if (λ existing. existing.id == id) r.streaming_message >>= λ existing.
      existing.timestamp in
      let timestamp = or_else msg.timestamp (or_else earlier event_timestamp) in
      refresh_message crates
        (record msg { is_new = true; id = id; timestamp = activity_time crates source timestamp })

  unfoldable pub message_update :
      TranscriptMessage
      → Value
      → Option Timestamp
      → SessionRecord crates
      → SessionRecord crates × Option ℕ
  unfolding streamed_message transcript
  message_update msg source event_timestamp r =
      let r' = record r {
        streaming_message = some (streamed_message msg source event_timestamp r);
      } in
      (r', some (length (transcript crates r') - 1))

  -- `SessionRecord::observe_conversation_message`
  unfoldable pub observe_conversation_message :
      Value → Option Timestamp → SessionRecord crates → SessionRecord crates
  unfolding activity_time
  observe_conversation_message source fallback r = record r {
    last_message_at = max_time r.last_message_at (activity_time crates source fallback);
  }

  -- `OmpRpcFrame::MessageEnd`, in its steps.
  unfoldable pub known_timestamp : TranscriptMessage → SessionRecord crates → Option Timestamp
  unfolding is_empty find_by_id
  known_timestamp msg r =
      if is_empty msg.id
      then none
      else find_by_id msg.id r.messages >>= λ existing. existing.timestamp

  unfoldable pub streaming_timestamp : TranscriptMessage → SessionRecord crates → Option Timestamp
  unfolding is_assistant
  streaming_timestamp msg r =
      keep_if (λ _. is_assistant msg.role) r.streaming_message >>= λ existing. existing.timestamp

  unfoldable pub ended_timestamp :
      TranscriptMessage → Value → SessionRecord crates → TranscriptMessage
  unfolding known_timestamp streaming_timestamp value_timestamp
  ended_timestamp msg source r =
      if is_some (value_timestamp crates source) then msg else record msg {
        timestamp =
            or_else (known_timestamp msg r) (or_else (streaming_timestamp msg r) msg.timestamp);
      }

  -- An assistant's message takes the place of the one that streams.
  unfoldable pub settle_streaming :
      MessageRole → Value → SessionRecord crates → SessionRecord crates
  unfolding is_assistant omp_submission_client_message_id
  settle_streaming role source r =
      if is_assistant role && not (is_some (omp_submission_client_message_id crates source))
      then record r { streaming_message = none }
      else r

  abbrev pub removed_at : SessionRecord crates → Option ℕ → SessionRecord crates × ℕ
  removed_at r none = (r, length r.messages)
  removed_at r (some index) = (remove_record_message crates r index, index)

  -- The record without the optimistic entry, and the index of the first message that changed.
  unfoldable pub consume_optimistic :
      TranscriptMessage → Option String → SessionRecord crates → SessionRecord crates × ℕ
  unfolding position is_optimistic remove_record_message
  consume_optimistic msg none r = (r, length r.messages)
  consume_optimistic msg (some id) r = removed_at r (position (is_optimistic msg id) r.messages)

  unfoldable pub is_message : TranscriptEntry crates → Bool
  is_message (message m) = true
  is_message (tool c) = false
  is_message (review c) = false

  -- `take_while(..).count()`: the entries up to the message with the number `changed`.
  unfoldable pub entries_before : ℕ → ℕ → Entries → ℕ
  unfolding is_message
  entries_before changed message_count [] = 0
  entries_before changed message_count (entry ∷ entries) =
      let rest =
        entries_before changed (if is_message entry then message_count + 1 else message_count)
          entries in
      if nat_eq message_count changed then 0 else suc rest

  -- The message takes its place, once its optimistic entry is gone.
  unfoldable pub append_message :
      TranscriptMessage → Option String → SessionRecord crates → SessionRecord crates × Option ℕ
  unfolding consume_optimistic place_message refresh_message insert_text entries_before transcript
  append_message msg submission r =
      let (r, changed) = consume_optimistic msg submission r in
      let msg = refresh_message crates msg in
      let (messages, changed) = place_message msg changed r.messages in
      let r = record r {
        live_message_ids = insert_text msg.id r.live_message_ids;
        messages = messages;
      } in
      (r, some (entries_before changed 0 (transcript crates r)))

  unfoldable pub message_end :
      TranscriptMessage
      → Value
      → Option Timestamp
      → SessionRecord crates
      → SessionRecord crates × Option ℕ
  unfolding ended_timestamp observe_conversation_message settle_streaming
      assign_projected_message_id projected_message_ordinal_for_append append_message
  message_end msg source event_timestamp r =
      let msg = record msg { timestamp = or_else msg.timestamp event_timestamp; is_new = true } in
      let msg = ended_timestamp msg source r in
      let r = observe_conversation_message source msg.timestamp r in
      let r = settle_streaming msg.role source r in
      let msg =
        assign_projected_message_id crates msg source
          (projected_message_ordinal_for_append crates r) in
      append_message msg (omp_submission_client_message_id crates source) r
