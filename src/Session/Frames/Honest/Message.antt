-- ===== src/Session/Frames/Honest/Message.antt =====
-- src/rpc.rs: `MessageUpdate` and `MessageEnd`.
use fura.Base.{
  ℕ, ◌-◌, ◌<◌, ◌≤◌, ◌≡◌, refl, ap, sym, ◌∙◌, true, not, ◌&&◌, Option, none, some, List, [], ◌∷◌,
  ◌++◌, String, str_eq as ◌==◌, arith, length, take, map, min, Bool-cases, Option-cases, inl, inr,
  ltb, take-le, take-append_le, length-append, ltb→lt,
}
use mathlib.Core.List.{append-nil, map-append}
use fura.Base.Positions.{
  position, position-lt, length-set, take-set, length-erase_idx, take-erase_idx,
}
use fura.Base.Sort.{with_key}
use fura.Recency.Fact.{Timestamp}
use fura.Events.Client.Replication.{Honest}
use fura.Session.Crates.{Crates}
use fura.Session.Types.{MessageRole, TranscriptMessage, ToolCard, TranscriptEntry, message}
use fura.Session.Hash.{refresh_message}
use fura.Session.Record.{SessionRecord}
use fura.Session.Source.{omp_submission_client_message_id, assign_projected_message_id}
use fura.Base.Options.{or_else, is_some}
use fura.Session.Removal.{shift_card, projected_message_ordinal_for_append, remove_record_message}
use fura.Session.Transcript.{projection, all_cards, streaming_entry}
use fura.Session.Transcript.Layout.{place, layout, transcript-layout}
use fura.Session.Frames.Message.{
  message_update, message_end, append_message, settle_streaming, ended_timestamp,
  observe_conversation_message, is_assistant, streamed_message, is_optimistic, consume_optimistic,
  place_message,
}
use fura.Session.Frames.Honest.Boundary.{layout-Agrees}

module _ (crates : Crates) where
  open crates use {Value}

  abbrev Record : Type 0
  Record = SessionRecord crates

  abbrev Entries : Type 0
  Entries = List (TranscriptEntry crates)

  abbrev Cards : Type 0
  Cards = List (ToolCard crates)

  take_before_last :
      (es fs : Entries) (m : TranscriptMessage)
      → take (length (es ++ message m ∷ []) - 1) (es ++ message m ∷ [])
        ≡ take (length (es ++ message m ∷ []) - 1) (es ++ fs)
  take_before_last es fs m =
      take-append_le _ es (message m ∷ []) fs (omega (arith, length-append es (message m ∷ [])))

  -- A partial message changes only the last entry, or stands after the last.
  pub message_update-Honest :
      (msg : TranscriptMessage) (source : Value) (event_timestamp : Option Timestamp) (r : Record)
      → Honest (projection crates) r (message_update crates msg source event_timestamp r)
  unfolding message_update projection all_cards
  message_update-Honest msg source event_timestamp r =
      let streaming = streamed_message crates msg source event_timestamp r in
      let r' = record r { streaming_message = some streaming } in
      rw (transcript-layout crates r', transcript-layout crates r)
        (take_before_last (layout crates r.messages (all_cards crates r))
          (streaming_entry crates r.streaming_message) streaming)

  with_key-shift :
      (j index : ℕ) (cs : Cards)
      → j < index
      → with_key (place crates) j (map (shift_card crates index) cs) ≡ with_key (place crates) j cs
  unfolding with_key shift_card
  with_key-shift j index [] lt = refl
  with_key-shift j index (c ∷ cs) lt = elim (Bool-cases (ltb index c.insert_after_count)) [
    | inl e ↦
        let over : index < c.insert_after_count = ltb→lt _ _ e in
        rw e (ground (arith, with_key-shift j index cs lt))
    | inr e ↦ rw (e, with_key-shift j index cs lt)
  ]

  -- The first `k` messages are kept, and the cards before the `k`-th.
  record Kept (r r' : Record) (k : ℕ) : Type 0 where
    short : k ≤ length r.messages
    short' : k ≤ length r'.messages
    messages : take k r'.messages ≡ take k r.messages
    cards :
        (j : ℕ)
        → j < k
        → with_key (place crates) j (all_cards crates r')
          ≡ with_key (place crates) j (all_cards crates r)

  consume-Kept :
      (msg : TranscriptMessage) (id : Option String) (r : Record)
      → Kept r (consume_optimistic crates msg id r).0 (consume_optimistic crates msg id r).1
  unfolding consume_optimistic remove_record_message all_cards
  consume-Kept msg none r = record {
    short = omega arith;
    short' = omega arith;
    messages = refl;
    cards = λ j h. refl;
  }
  consume-Kept msg (some id) r = elim (Option-cases (position (is_optimistic msg id) r.messages)) [
    | inl absent ↦
        rw absent (record {
          short = omega arith;
          short' = omega arith;
          messages = refl;
          cards = λ j h. refl;
        })
    | inr (index, found) ↦
        let lt : index < length r.messages = position-lt _ r.messages index found in
        rw found (record {
          short = omega arith;
          short' = omega (arith, length-erase_idx r.messages index lt);
          messages = take-erase_idx r.messages index;
          cards = λ j h.
              ap (with_key (place crates) j)
                (sym (map-append (shift_card crates index) r.tool_cards r.active_tool_calls))
              ∙ with_key-shift j index (r.tool_cards ++ r.active_tool_calls) h;
        })
  ]

  place_message_lem :
      (msg : TranscriptMessage) (changed : ℕ) (ms : List TranscriptMessage)
      → changed ≤ length ms
      → ((place_message msg changed ms).1 ≤ changed)
        × ((place_message msg changed ms).1 ≤ length (place_message msg changed ms).0)
        × (take (place_message msg changed ms).1 (place_message msg changed ms).0
            ≡ take (place_message msg changed ms).1 ms)
  unfolding place_message
  place_message_lem msg changed ms h =
      elim (Option-cases (position (λ existing. existing.id == msg.id) ms)) [
        | inl absent ↦ rw absent (
          omega arith,
          omega (arith, length-append ms (msg ∷ [])),
          take-append_le changed ms (msg ∷ []) [] h ∙ ap (take changed) (append-nil ms),
        )
        | inr (index, found) ↦ rw found (
          omega arith,
          omega (arith, length-set ms index msg, position-lt _ ms index found),
          take-set (min changed index) ms index msg (omega arith),
        )
      ]

  append_message-Honest :
      (msg : TranscriptMessage) (submission : Option String) (r before : Record)
      → before.messages ≡ r.messages
      → all_cards crates before ≡ all_cards crates r
      → Honest (projection crates) r (append_message crates msg submission before)
  unfolding append_message projection
  append_message-Honest msg submission r before ms cs =
      let (after, changed) = consume_optimistic crates msg submission before in
      let kept = consume-Kept msg submission before in
      let placed =
        place_message_lem (refresh_message crates msg) changed after.messages kept.short' in
      let k = (place_message (refresh_message crates msg) changed after.messages).1 in
      rw (transcript-layout crates _, transcript-layout crates r)
        (layout-Agrees crates k (all_cards crates r) (all_cards crates after) _ _
          (λ j h. kept.cards j (omega (arith, placed.0)) ∙ ap (with_key (place crates) j) cs)
          r.messages (place_message (refresh_message crates msg) changed after.messages).0
          (omega (arith, placed.0, kept.short, ap length ms)) placed.1
          (placed.2
            ∙ take-le k changed after.messages before.messages placed.0 kept.messages
            ∙ ap (take k) ms))

  settle_streaming_lem :
      (role : MessageRole) (source : Value) (r : Record)
      → ((settle_streaming crates role source r).messages ≡ r.messages)
        × (all_cards crates (settle_streaming crates role source r) ≡ all_cards crates r)
  unfolding settle_streaming all_cards
  settle_streaming_lem role source r =
      elim (Bool-cases
        (is_assistant role && not (is_some (omp_submission_client_message_id crates source)))) [
          | inl e ↦ rw e (refl, refl)
          | inr e ↦ rw e (refl, refl)
        ]

  -- A final message, which may consume optimistic entries, may stand for one that is there, or come
  -- last: nothing before the index changes.
  pub message_end-Honest :
      (msg : TranscriptMessage) (source : Value) (event_timestamp : Option Timestamp) (r : Record)
      → Honest (projection crates) r (message_end crates msg source event_timestamp r)
  unfolding message_end observe_conversation_message all_cards
  message_end-Honest msg source event_timestamp r =
      let msg' = record msg { timestamp = or_else msg.timestamp event_timestamp; is_new = true } in
      let msg' = ended_timestamp crates msg' source r in
      let observed = observe_conversation_message crates source msg'.timestamp r in
      let settled = settle_streaming_lem msg'.role source observed in
      append_message-Honest
        (assign_projected_message_id crates msg' source (
          projected_message_ordinal_for_append crates
            (settle_streaming crates msg'.role source observed)))
        (omp_submission_client_message_id crates source) r
        (settle_streaming crates msg'.role source observed) settled.0 settled.1
