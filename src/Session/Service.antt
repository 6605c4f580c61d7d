-- ===== src/Session/Service.antt =====
-- src/rpc.rs and src/state.rs together: the events of sessions as calls of the coordinator.
use fura.Base.{All, ◌≤◌, ℕ, ◌+◌, ◌≡◌, true, false, Option, some, List, [], ◌∷◌, String, length}
use fura.Events.Message.{other}
use fura.Events.Client.{Roster, keeps_session}
use fura.Events.Records.{Keeps}
use fura.Events.Armed.{Arms}
use fura.Session.Frames.Honest.{IsPlaced}
use fura.Session.Listing.{is_controller_session_record}
use fura.Base.Table.{Table, lookup}
use fura.Base.Options.{unwrap_or}
use fura.Events.Coordinator.{World}
use fura.Events.Client.Replication.{
  Call, delta, snapshot, resync, sessions_list, emitted, timer, serve, Truthful,
}
use fura.Session.Crates.{Crates}
use fura.Session.Parts.{SessionStatus}
use fura.Session.Record.{SessionRecord, Header}
use fura.Session.Settle.{settle_prompt_error, mark_status, mark_pending_continuation}
use fura.Session.State.{RpcRecordState, apply_rpc_state_to_record}
use fura.Session.Replace.{replace_messages}
use fura.Session.Types.{TranscriptMessage, ToolCard, TranscriptEntry}
use fura.Recency.Fact.{Timestamp}
use fura.Session.Frames.Message.{observe_conversation_message}
use fura.Session.Transcript.Layout.{place}
use fura.Session.Transcript.{projection}
use fura.Session.Frames.Frame.{Frame, handle, Quiet}

module _ (crates : Crates) (O : Type 0) where
  open crates use {Value}

  -- A frame of a child process with the time at which it is served; a failed prompt, a continuation
  -- that waits, a change of status, a `get_state` reply, a history with its cards, and a message that
  -- is not shown; what concerns no record; and every other call of the coordinator (a creation, a
  -- removal, a remapping, a plan review, a prompt) by what it does to the records.
  abbrev pub SessionCall : Type 0
  SessionCall = Call (SessionRecord crates) (TranscriptEntry crates) (Header crates) O

  pub data Event : Type 0 where
    frame : ℕ → String → Frame crates → Event
    prompt_failed : String → Event
    continuing : String → Event
    status_marked : String → SessionStatus → Event
    state_read : String → RpcRecordState crates → Event
    history_read :
        String
        → List TranscriptMessage
        → List (ToolCard crates)
        → Option SessionStatus
        → Option Timestamp
        → Event
    observed : String → Value → Option Timestamp → Event
    resynced : String → Event
    listed : Event
    noticed : ℕ → O → Event
    timed : ℕ → Event
    called : SessionCall → Event

  -- The loop of `mark_status` gets fuel for one round more than there are messages.
  abbrev pub marked : SessionStatus → SessionRecord crates → SessionRecord crates
  marked status r = unwrap_or r (mark_status crates (length r.messages + 1) status r)

  abbrev pub call_of : Event → SessionCall
  call_of (frame now id f) = delta now id (handle crates f)
  call_of (prompt_failed id) = snapshot id (settle_prompt_error crates)
  call_of (continuing id) = snapshot id (mark_pending_continuation crates)
  call_of (status_marked id status) = snapshot id (marked status)
  call_of (state_read id state) = snapshot id (λ r. apply_rpc_state_to_record crates r state)
  call_of (history_read id messages tool_cards status recency) =
      snapshot id (replace_messages crates messages tool_cards status recency)
  call_of (observed id source time) = snapshot id (observe_conversation_message crates source time)
  call_of (resynced id) = resync id
  call_of listed = sessions_list
  call_of (noticed now m) = emitted now (other m ∷ [])
  call_of (timed generation) = timer generation
  call_of (called call) = call

  abbrev pub calls_of : List Event → List SessionCall
  calls_of [] = []
  calls_of (e ∷ es) = call_of e ∷ calls_of es

  module _ ⦃roster : Roster O⦄ (sessions_snapshot : Table (SessionRecord crates) → O)
      (id : String) where
    -- A frame that starts a tool meets a record with no message that streams, and the cards of a
    -- history stand within its messages. A list of the sessions is sent while the session is
    -- stored under its own id and is no controller's, and a notice leaves it in. Another call keeps the cards of every record within
    -- its messages, and tells the truth about the session.
    abbrev pub OrderlyAt : World (SessionRecord crates) → Event → Type 0
    OrderlyAt w (frame now j f) =
        (r : SessionRecord crates) → lookup j w.sessions ≡ some r → Quiet crates f r
    OrderlyAt w (history_read j messages tool_cards status recency) =
        All (λ c. place crates c ≤ length messages) tool_cards
    OrderlyAt w listed =
        (r : SessionRecord crates) × (lookup id w.sessions ≡ some r)
        × (r.id ≡ id)
        × (is_controller_session_record crates r ≡ false)
    OrderlyAt w (noticed now m) = keeps_session id (roster.session_ids m) ≡ true
    OrderlyAt w (called call) =
        Keeps {O = O} (projection crates) sessions_snapshot (IsPlaced crates) call
        × Truthful (projection crates) sessions_snapshot id w call
        × Arms call
    OrderlyAt w _ = Unit

    -- So it is at every event of a run.
    abbrev pub OrderlyRun : World (SessionRecord crates) → List Event → Type 0
    OrderlyRun w [] = Unit
    OrderlyRun w (e ∷ es) =
        OrderlyAt w e × OrderlyRun (serve (projection crates) sessions_snapshot w (call_of e)).0 es
