-- ===== src/Session/Live.antt =====
-- The frames of child processes and the replicas of browsers: what a browser shows of a session.
use fura.Base.{
  All, ltb, refl, ◌≤◌, ◌≡◌, Bool, true, false, Option, none, some, List, [], ◌∷◌, String, length,
  Bool-cases, inl, inr,
}
use fura.Base.Table.{Table, lookup}
use fura.Events.Message.{SessionProjection, seq_of}
use fura.Events.Coordinator.{World}
use fura.Events.Client.{Roster, keeps_session, receive, shown}
use fura.Events.Client.Replication.{serve, run, Truthful, TruthfulRun, Follows}
use fura.Events.Records.{Everywhere, Keeps, serve-Everywhere}
use fura.Events.Armed.{Arms, IsArmed}
use fura.Events.Timer.{after_run, after_timer, run-converges}
use fura.Session.Crates.{Crates}
use fura.Session.Parts.{SessionStatus}
use fura.Session.Record.{SessionRecord, Header, terminal}
use fura.Session.Listing.{listed_session_ids, contains-listed_session_ids}
use fura.Session.Settle.{settle_prompt_error, mark_status, mark_pending_continuation}
use fura.Session.Settled.{ended, mark_status-terminal, swept-IsPlaced}
use fura.Session.State.{apply_rpc_state_to_record}
use fura.Session.Types.{TranscriptEntry, TranscriptMessage, ToolCard}
use fura.Session.Replace.{
  replace_messages, replace_record_transcript, authoritative_count, with_status, with_recency,
}
use fura.Session.Replace.Placed.{reconciled-IsPlaced}
use fura.Session.Transcript.Layout.{place}
use fura.Session.Frames.Message.{observe_conversation_message}
use fura.Recency.Fact.{Timestamp}
use fura.Session.Transcript.{projection, all_cards}
use fura.Session.Frames.Honest.{IsPlaced}
use fura.Session.Frames.Handled.{handle-IsPlaced, handle-Honest}
use fura.Session.Service.{
  Event, frame, prompt_failed, continuing, status_marked, state_read, history_read, observed,
  resynced, listed, noticed, timed, called, marked, call_of, calls_of, OrderlyAt, OrderlyRun,
}

module _ (crates : Crates) (O : Type 0) ⦃roster : Roster O⦄
    (sessions_snapshot : Table (SessionRecord crates) → O) where
  abbrev Record : Type 0
  Record = SessionRecord crates

  abbrev Placed : World Record → Type 0
  Placed w = Everywhere {O = O} (projection crates) sessions_snapshot (IsPlaced crates) w

  marked-IsPlaced :
      (status : SessionStatus) (r : Record)
      → IsPlaced crates r
      → IsPlaced crates (marked crates O status r)
  unfolding mark_status all_cards
  marked-IsPlaced status r placed = elim (Bool-cases (terminal crates status)) [
    | inl over ↦
        rw (mark_status-terminal crates status r over placed)
          (swept-IsPlaced crates (ended crates status r))
    | inr goes_on ↦ rw goes_on placed
  ]

  with_status-IsPlaced :
      (status : Option SessionStatus) (r : Record)
      → IsPlaced crates r
      → IsPlaced crates (with_status crates status r)
  unfolding all_cards
  with_status-IsPlaced none r placed = placed
  with_status-IsPlaced (some status) r placed = placed

  with_recency-IsPlaced :
      (recency : Option Timestamp) (out : Record × Bool)
      → IsPlaced crates out.0
      → IsPlaced crates (with_recency crates recency out)
  unfolding all_cards
  with_recency-IsPlaced recency (r, false) placed = placed
  with_recency-IsPlaced recency (r, true) placed = placed

  replace_messages-IsPlaced :
      (messages : List TranscriptMessage) (tool_cards : List (ToolCard crates))
      (status : Option SessionStatus) (recency : Option Timestamp) (r : Record)
      → All (λ c. place crates c ≤ length messages) tool_cards
      → IsPlaced crates r
      → IsPlaced crates (replace_messages crates messages tool_cards status recency r)
  unfolding replace_messages replace_record_transcript
  replace_messages-IsPlaced messages tool_cards status recency r fits placed =
      let r' = with_status crates status r in
      with_recency-IsPlaced recency (replace_record_transcript crates r' messages tool_cards)
        (elim (Bool-cases (ltb (length messages) (authoritative_count crates r'))) [
          | inl older ↦ rw older (with_status-IsPlaced status r placed)
          | inr newer ↦ rw newer (reconciled-IsPlaced crates r' messages tool_cards fits)
        ])

  event-Keeps :
      (id : String) (e : Event crates O) (w : World Record)
      → OrderlyAt crates O sessions_snapshot id w e
      → Keeps {O = O} (projection crates) sessions_snapshot (IsPlaced crates) (call_of crates O e)
  unfolding settle_prompt_error mark_pending_continuation apply_rpc_state_to_record
      observe_conversation_message all_cards
  event-Keeps j (frame now id f) w orderly = handle-IsPlaced crates f
  event-Keeps j (prompt_failed id) w orderly = λ r placed. placed
  event-Keeps j (continuing id) w orderly = λ r placed. placed
  event-Keeps j (status_marked id status) w orderly = marked-IsPlaced status
  event-Keeps j (state_read id state) w orderly = λ r placed. placed
  event-Keeps j (history_read id messages tool_cards status recency) w orderly =
      λ r placed. replace_messages-IsPlaced messages tool_cards status recency r orderly placed
  event-Keeps j (observed id source time) w orderly = λ r placed. placed
  event-Keeps j (resynced id) w orderly = tt
  event-Keeps j listed w orderly = tt
  event-Keeps j (noticed now m) w orderly = tt
  event-Keeps j (timed generation) w orderly = tt
  event-Keeps j (called call) w orderly = orderly.0

  -- A list of the sessions carries the ids of the listed records.
  module _ (id : String)
      (lists : (sessions : Table Record)
        → roster.session_ids (sessions_snapshot sessions)
          ≡ some (listed_session_ids crates sessions)) where
    event-Truthful :
        (e : Event crates O) (w : World Record)
        → Placed w
        → OrderlyAt crates O sessions_snapshot id w e
        → Truthful (projection crates) sessions_snapshot id w (call_of crates O e)
    unfolding keeps_session
    event-Truthful (frame now j f) w placed quiet =
        λ r found. handle-Honest crates f r (placed j r found) (quiet r found)
    event-Truthful (prompt_failed j) w placed quiet = tt
    event-Truthful (continuing j) w placed quiet = tt
    event-Truthful (status_marked j status) w placed quiet = tt
    event-Truthful (state_read j state) w placed quiet = tt
    event-Truthful (history_read j messages tool_cards status recency) w placed quiet = tt
    event-Truthful (observed j source time) w placed quiet = tt
    event-Truthful (resynced j) w placed quiet = tt
    event-Truthful listed w placed (r, known, own, plain) =
        rw (lists w.sessions, contains-listed_session_ids crates id r w.sessions known own plain)
    event-Truthful (noticed now m) w placed quiet = λ r known. (quiet, tt)
    event-Truthful (called call) w placed quiet = quiet.1
    event-Truthful (timed generation) w placed quiet = tt

    events-Truthful :
        (es : List (Event crates O)) (w : World Record)
        → Placed w
        → OrderlyRun crates O sessions_snapshot id w es
        → TruthfulRun (projection crates) sessions_snapshot id w (calls_of crates O es)
    events-Truthful [] w placed quiet = tt
    events-Truthful (e ∷ es) w placed quiet = (
      event-Truthful e w placed quiet.0,
      events-Truthful es (serve (projection crates) sessions_snapshot w (call_of crates O e)).0
          (serve-Everywhere (projection crates) sessions_snapshot (IsPlaced crates)
            (call_of crates O e) w (event-Keeps id e w quiet.0) placed)
          quiet.1,
    )

    event-Arms :
        (e : Event crates O) (w : World Record)
        → OrderlyAt crates O sessions_snapshot id w e
        → Arms (call_of crates O e)
    event-Arms (frame now j f) w orderly = tt
    event-Arms (prompt_failed j) w orderly = tt
    event-Arms (continuing j) w orderly = tt
    event-Arms (status_marked j status) w orderly = tt
    event-Arms (state_read j state) w orderly = tt
    event-Arms (history_read j messages tool_cards status recency) w orderly = tt
    event-Arms (observed j source time) w orderly = tt
    event-Arms (resynced j) w orderly = tt
    event-Arms listed w orderly = tt
    event-Arms (timed generation) w orderly = tt
    event-Arms (noticed now m) w orderly = refl
    event-Arms (called call) w orderly = orderly.2

    events-Arms :
        (es : List (Event crates O)) (w : World Record)
        → OrderlyRun crates O sessions_snapshot id w es
        → All Arms (calls_of crates O es)
    events-Arms [] w orderly = tt
    events-Arms (e ∷ es) w orderly = (
      event-Arms e w orderly.0,
      events-Arms es (serve (projection crates) sessions_snapshot w (call_of crates O e)).0
          orderly.1,
    )

    -- Frames of the child processes, failed prompts, continuations, changes of status, state replies,
    -- histories, messages that are not shown, refreshes, lists of the sessions, notices, timers and any
    -- other calls of the coordinator arrive, in whatever order it serves them. Conditions: every card is
    -- placed within its record's messages at first; no tool starts while a message of its session
    -- streams; the cards of each history stand within its messages; a list of the sessions, which has
    -- all but the controllers' sessions, is sent while the session's record is stored under its own id
    -- and is no controller's, and a notice does not leave the session out of a list; each other call
    -- keeps the cards within the messages, keeps the session, tells the truth about it in what it
    -- returns and sends, and emits no delta behind another message that stands behind a delta; a
    -- waiting batch has a timer and the replica is in step at first. Once the timer of the batch that
    -- the events leave has fired, the replica then shows the session's record as it then is, under the
    -- session's number.
    pub events-converge :
        (es : List (Event crates O)) (w : World Record)
        (c : Option (SessionProjection (TranscriptEntry crates) (Header crates)))
        → Placed w
        → OrderlyRun crates O sessions_snapshot id w es
        → IsArmed w
        → Follows O (projection crates) id w c
        → let calls = calls_of crates O es in
          let w' = after_run O (projection crates) sessions_snapshot w calls in
          let c' = receive id c (run (projection crates) sessions_snapshot w calls).1 in
          (r : Record) × (lookup id w'.sessions ≡ some r)
          × (receive id c' (after_timer O (projection crates) sessions_snapshot w').1
              ≡ some (
                  shown (projection crates r) (
                    seq_of id
                      (after_timer O (projection crates) sessions_snapshot w').0.session_seqs)))
    events-converge es w c placed quiet armed follows =
        run-converges O (projection crates) sessions_snapshot id (calls_of crates O es) w c
          (events-Truthful es w placed quiet) (events-Arms es w quiet) armed follows
