-- ===== src/Examples/Session.antt =====
-- The records of src/session.rs and the frames of src/rpc.rs on one session.
use fura.Base.{
  ℕ, ◌≡◌, refl, ap, sym, true, false, Option, none, some, List, [], ◌∷◌, ◌++◌, String, arith, inl,
  inr, length, take, drop, ◌+◌, Bool-cases, str_eq as ◌==◌, ◌≢◌,
}
use mathlib.Core.Path.{subst}
use fura.Base.Options.{◌>>=◌}
use fura.Base.Positions.{contains}
use fura.Base.Table.{Table, lookup, insert, lookup-insert}
use fura.Events.Message.{SessionProjection, ServerMessage, other, seq_of}
use fura.Events.Pending.{empty}
use fura.Events.Coordinator.{World, mutate_sessions_and_emit, emit_sessions_snapshot}
use fura.Events.Client.{Roster, keeps_session, receive, shown}
use fura.Events.Client.Replication.{Follows, Honest, run, serve, sessions_changed}
use fura.Events.Timer.{after_run, after_timer}
use fura.Runtime.State.{standard}
use fura.Session.Types.{
  TranscriptMessage, user, assistant, text as text_block, ToolCard, TranscriptEntry, message, tool,
}
use fura.Session.Parts.{idle, exited, managed}
use fura.Session.Record.{SessionRecord, Header, terminal}
use fura.Session.Transcript.{transcript, projection, all_cards, streaming_entry}
use fura.Session.Transcript.Layout.{layout, transcript-layout}
use fura.Session.Settle.{mark_status}
use fura.Session.Settled.{ended, swept, mark_status-terminal}
use fura.Session.Frames.Frame.{
  Frame, update_of, end_of, tool_started, tool_progress, tool_ended, handle,
}
use fura.Session.Frames.Message.{message_end}
use fura.Session.Frames.Tool.{tool_execution_start}
use fura.Session.Frames.Honest.{IsPlaced, tool_execution_start_misses}
use fura.Session.Frames.Handled.{handle-IsPlaced, handle-Honest}
use fura.Session.Listing.{listed_session_ids, is_controller_session_record}
use fura.Session.Service.{
  Event, frame, status_marked, history_read, noticed, resynced, listed, called, calls_of,
  OrderlyRun,
}
use fura.Session.Live.{events-converge}
use fura.Examples.Json.{crates, Json, text, object, field, end, number}

abbrev pub message_of : String → TranscriptMessage
message_of id = record {
  id = id;
  role = assistant;
  blocks = text_block "hello" ∷ [];
  skill_invocation = none;
  timestamp = some 7;
  is_new = false;
  render_hash = "";
}

abbrev pub prompt : TranscriptMessage
prompt = record (message_of "__pending_prompt:p1") { role = user }

abbrev pub card_of : String → ℕ → ToolCard crates
card_of id place = record {
  tool_call_id = id;
  timestamp = none;
  tool_name = "bash";
  intent = none;
  args = object end;
  is_active = true;
  is_error = false;
  partial_result = none;
  result = none;
  render_hash = "";
  insert_after_count = place;
}

abbrev pub session : SessionRecord crates
session = record {
  id = "s";
  cwd = none;
  args = [];
  status = idle;
  created_at = 1;
  updated_at = 2;
  last_message_at = some 7;
  persisted_message_at = none;
  file_stamp = none;
  session_mode = standard;
  messages = message_of "m1" ∷ prompt ∷ message_of "m2" ∷ [];
  live_message_ids = [];
  streaming_message = none;
  is_compacting = false;
  continuation_pending = true;
  tool_cards = card_of "t1" 3 ∷ card_of "t2" 1 ∷ [];
  active_tool_calls = card_of "t3" 1 ∷ card_of "t4" 2 ∷ [];
  todo_phases = none;
  kind = managed;
  session_file = none;
  title = none;
  timestamp = none;
  category = none;
  worktree = none;
  model = none;
  thinking_level = none;
  tokens_total = 0;
  cost_usd = 0;
  context_tokens = none;
  context_window = none;
  context_percent = none;
  plan_mode = none;
  session_skills = none;
  pending_plan_review = none;
  pending_ask = none;
  available_commands = [];
}

abbrev streaming_session : SessionRecord crates
streaming_session = record session { streaming_message = some (message_of "m3") }

-- A user's message that takes the place of its optimistic prompt.
abbrev submission : Json
submission = object (
    field "role" (text "user")
      (field "clientMessageId" (text "p1") (field "timestamp" (number 9) end)))

abbrev submitted : Frame crates
submitted = end_of (record (message_of "prompt:p1") { role = user }) submission (some 9)

session-IsPlaced : IsPlaced crates session
unfolding all_cards
session-IsPlaced = omega arith

transcript-layout_example :
    transcript crates streaming_session
    ≡ layout crates streaming_session.messages (all_cards crates streaming_session)
      ++ streaming_entry crates streaming_session.streaming_message
transcript-layout_example = transcript-layout crates streaming_session

handle-IsPlaced_example : IsPlaced crates (handle crates submitted session).0
handle-IsPlaced_example = handle-IsPlaced crates submitted session session-IsPlaced

handle-Honest_example : Honest (projection crates) session (handle crates submitted session)
handle-Honest_example = handle-Honest crates submitted session session-IsPlaced tt

streaming_session-IsPlaced : IsPlaced crates streaming_session
unfolding all_cards
streaming_session-IsPlaced = omega arith

tool_execution_start_misses_example :
    let out = tool_execution_start crates "t5" "bash" (object end) none 10 streaming_session in
    let old = transcript crates streaming_session in
    let new = transcript crates out.0 in
    (es : List (TranscriptEntry crates)) × (card : ToolCard crates) × (old
      ≡ es ++ message (message_of "m3") ∷ [])
    × (new ≡ es ++ tool card ∷ message (message_of "m3") ∷ [])
    × (out.1 ≡ some (length es + 1))
    × (take (length es + 1) old ++ drop (length es + 1) new
        ≡ es ++ message (message_of "m3") ∷ message (message_of "m3") ∷ [])
    × ¬ Honest (projection crates) streaming_session out
tool_execution_start_misses_example =
    tool_execution_start_misses crates "t5" "bash" (object end) none 10 streaming_session
      (message_of "m3") streaming_session-IsPlaced refl

mark_status-terminal_example :
    mark_status crates 4 exited session ≡ some (swept crates (ended crates exited session))
unfolding terminal
mark_status-terminal_example = mark_status-terminal crates exited session refl session-IsPlaced

-- A message is a list of the sessions, by their ids, or a notice.
abbrev Notice : Type 0
Notice = Option (List String)

instance abbrev roster : Roster Notice
roster = record { session_ids = λ m. m }

-- Another session comes up, and the browsers get the list.
abbrev add_session :
    Table (SessionRecord crates)
    → Table (SessionRecord crates)
      × List (ServerMessage (TranscriptEntry crates) (Header crates) Notice)
add_session sessions =
    (insert "u" (record session { id = "u" }) sessions, other (some ("s" ∷ "u" ∷ [])) ∷ [])

abbrev events : List (Event crates Notice)
events =
    listed
    ∷ called (sessions_changed add_session)
    ∷ frame 10 "s" (tool_started "t5" "bash" (object end) none 10)
    ∷ frame 20 "s" (update_of (message_of "m3") (object end) (some 20))
    ∷ noticed 25 none
    ∷ frame 30 "s" submitted
    ∷ frame 40 "s" (tool_progress "t3" none)
    ∷ frame 50 "s" (tool_ended "t5" none (some true))
    ∷ resynced "s"
    ∷ frame 70 "s"
        (end_of (message_of "m3") (object (field "role" (text "assistant") end)) (some 70))
    ∷ history_read "s"
        (message_of "m1" ∷ message_of "prompt:p1" ∷ message_of "m2" ∷ message_of "m3" ∷ [])
        (card_of "t1" 3 ∷ []) none (some 9)
    ∷ status_marked "s" exited
    ∷ frame 80 "s" (tool_progress "t4" (some (object end)))
    ∷ []

abbrev world : World (SessionRecord crates)
world = record {
  sessions = ("s", session) ∷ [];
  pending = empty;
  session_seqs = ("s", 5) ∷ [];
  timers = [];
}

abbrev replica : Option (SessionProjection (TranscriptEntry crates) (Header crates))
replica = some (record (projection crates session) { seq = 5 })

abbrev list_sessions : Table (SessionRecord crates) → Notice
list_sessions sessions = some (listed_session_ids crates sessions)

none-ne_some : (r : SessionRecord crates) → none ≢ some r
none-ne_some r e = cc

world-IsPlaced :
    (id : String) (r : SessionRecord crates) → lookup id world.sessions ≡ some r → IsPlaced crates r
unfolding lookup
world-IsPlaced id r found = elim (Bool-cases ("s" == id)) [
  | inl e ↦
      let same : session ≡ r = (cc (rw e at found)) in subst (IsPlaced crates) same session-IsPlaced
  | inr e ↦ absurd (none-ne_some r (rw e at found))
]

inserted-IsPlaced :
    (sessions : Table (SessionRecord crates))
    → ((id : String) (r : SessionRecord crates) → lookup id sessions ≡ some r → IsPlaced crates r)
    → (id : String) (r : SessionRecord crates)
    → lookup id (insert "u" (record session { id = "u" }) sessions) ≡ some r
    → IsPlaced crates r
unfolding all_cards
inserted-IsPlaced sessions all id r found = elim (Bool-cases ("u" == id)) [
  | inl e ↦
      let same : record session { id = "u" } ≡ r =
        ground (arith, lookup-insert "u" id (record session { id = "u" }) sessions) in
      subst (IsPlaced crates) same session-IsPlaced
  | inr e ↦ all id r (ground (arith, lookup-insert "u" id (record session { id = "u" }) sessions))
]

events-OrderlyRun : OrderlyRun crates Notice list_sessions "s" world events
unfolding lookup keeps_session contains serve mutate_sessions_and_emit emit_sessions_snapshot insert
    is_controller_session_record
events-OrderlyRun = (
  (session, refl, refl, refl),
  (
    (inserted-IsPlaced, (λ r found. (r, found, ((refl, tt), inl refl))), tt),
    (
      (λ r found. sym (ap (λ o. o >>= λ (s : SessionRecord crates). s.streaming_message) found)),
      (
        (λ r found. tt),
        (
          refl,
          (
            (λ r found. tt),
            (
              (λ r found. tt),
              (
                (λ r found. tt),
                (tt, ((λ r found. tt), ((omega arith), (tt, ((λ r found. tt), tt))))),
              ),
            ),
          ),
        ),
      ),
    ),
  ),
)

world-Follows : Follows Notice (projection crates) "s" world replica
unfolding lookup seq_of
world-Follows = (session, record { known = refl; queued = λ d batched. absurd (cc); agrees = refl })

events-converge_example :
    let calls = calls_of crates Notice events in
    let w = after_run Notice (projection crates) list_sessions world calls in
    let c = receive "s" replica (run (projection crates) list_sessions world calls).1 in
    (r : SessionRecord crates) × (lookup "s" w.sessions ≡ some r)
    × (receive "s" c (after_timer Notice (projection crates) list_sessions w).1
        ≡ some (
            shown
              (projection crates r)
              (seq_of "s" (after_timer Notice (projection crates) list_sessions w).0.session_seqs)))
events-converge_example =
    events-converge crates Notice list_sessions "s" (λ sessions. refl) events world replica
      world-IsPlaced events-OrderlyRun (inl (refl, refl)) world-Follows

-- The submission removes the prompt, so all after the first message is sent again.
submitted_index : (handle crates submitted session).1 ≡ some 1
unfolding handle message_end
submitted_index = refl
