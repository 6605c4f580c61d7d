-- ===== src/Insights/Requests.antt =====
-- src/session_insights.rs: `request_session_insight` with the task that it spawns, and
-- `handle_session_insight_response`; and their steps among those of the rest of the bridge. A channel end
-- can be closed at any time, so each step is given which are closed then. The id of a request comes
-- from a UUID.
use text.Mathlib.Text.{starts_with}
use Prim.Native.String.{len}
use fura.Base.{
  ℕ, Bool, true, false, not, ◌&&◌, ◌||◌, Option, none, some, List, [], ◌∷◌, String, str_eq, ltb,
  if◌then◌else◌,
}
use fura.Base.Options.{◌>>=◌, or_else, some_and, is_some, unwrap_or}
use fura.Base.Table.{lookup, insert, remove}
use fura.Runtime.State.{Payloads, SessionRuntimeState, PendingSessionInsight}
use fura.Runtime.Transport.{
  target_session_id_for_transport, transport_session_id_for, stdin_for_transport,
}
use fura.Runtime.Metadata.{pending_create}
use fura.Session.Crates.{Crates}
use fura.Session.Parts.{SessionKind, managed, available_kind, SessionStatus, idle, busy}
use fura.Session.Record.{SessionRecord}
use fura.Insights.Types.{
  ActivityKind, job, agent, service, SessionActivitySnapshot, SessionActivityDetail,
  SessionRecapSnapshot, InsightRequest, activity_request, detail_request, recap_request,
  InsightCommand, InsightMessage, session_activity_result, session_activity_detail_result,
  session_recap_result, session_insights_error, operation, command_name, command_of,
}

unfoldable pub same_kind : ActivityKind → ActivityKind → Bool
same_kind job job = true
same_kind job agent = false
same_kind job service = false
same_kind agent job = false
same_kind agent agent = true
same_kind agent service = false
same_kind service job = false
same_kind service agent = false
same_kind service service = true

-- `Idle | Busy`
abbrev pub is_live : SessionStatus → Bool
is_live idle = true
is_live busy = true
is_live _ = false

abbrev pub is_managed : SessionKind → Bool
is_managed managed = true
is_managed available_kind = false

abbrev pub has_text : Option String → String → Bool
has_text none t = false
has_text (some s) t = str_eq s t

-- The registries hold session records and insight requests; their other payloads stay open.
abbrev pub payloads : Crates → Payloads → Payloads
payloads crates P = record P {
  SessionRecord = SessionRecord crates;
  InsightRequest = InsightRequest;
}

pub record OmpRpcResponseFrame (Value : Type 0) : Type 0 where
  pub code : Option String
  pub id : Option String
  pub command : String
  pub success : Option Bool
  pub status : Option String
  pub data_value : Option Value
  pub result : Option Value
  pub error : Option Value

module _ (crates : Crates) where
  open crates use {Value, get, as_str, as_bool, from_value}

  unfoldable pub value_str : Value → String → Option String
  value_str frame key = get key frame >>= as_str

  unfoldable pub rpc_error_message : Value → String
  rpc_error_message frame =
      unwrap_or "RPC command returned error"
        (get "error" frame >>= (λ e. or_else (as_str e) (get "message" e >>= as_str)))

  -- `payload`, `data_as`
  unfoldable pub rpc_response_data_as : (T : Type 0) → Value → Option T
  rpc_response_data_as T frame =
      from_value (OmpRpcResponseFrame Value) frame
      >>= (λ response. or_else response.data_value response.result)
      >>= from_value T

  unfoldable pub is_session_insight_response : Value → Bool
  unfolding value_str
  is_session_insight_response frame =
      some_and (λ id. starts_with id "insight-") (value_str frame "id")
      || some_and
          (λ c.
            str_eq c "get_activity"
            || str_eq c "get_activity_detail"
            || str_eq c "get_session_recap")
          (or_else (value_str frame "command") (value_str frame "requestType"))

module _ (crates : Crates) (P : Payloads) where
  open crates use {Value, get, as_bool}
  open P use {Sender}

  abbrev pub State : Type 0
  State = SessionRuntimeState (payloads crates P)

  abbrev pub Route : Type 0
  Route = PendingSessionInsight (payloads crates P)

  abbrev pub Reply : Type 0
  Reply = InsightMessage crates.Float

  unfoldable pub insight_error : Route → String → Reply
  insight_error route message =
      session_insights_error route.connection_id route.request_id route.session_id
        (operation route.request) message

  -- `mpsc::Sender::same_channel`, and `is_closed` at the time of the call.
  module _ (same_channel : Sender → Sender → Bool) where
    unfoldable pub insight_binding_is_current : (Sender → Bool) → State → Route → Bool
    insight_binding_is_current is_closed s route =
        str_eq (target_session_id_for_transport (payloads crates P) s route.transport_session_id)
          route.session_id
        && some_and (λ stdin. not (is_closed stdin) && same_channel stdin route.stdin)
            (stdin_for_transport (payloads crates P) s route.transport_session_id)
        && some_and (λ r. is_managed r.kind && is_live r.status)
            (lookup route.session_id s.sessions)

    -- The guard of the last early return.
    unfoldable pub is_unready : (Sender → Bool) → State → Route → Bool
    unfolding insight_binding_is_current
    is_unready is_closed s route =
        not (insight_binding_is_current is_closed s route)
        || is_some (pending_create (payloads crates P) s route.session_id)

    -- The part behind the `route`, for the id that the request gets: the registry, the replies, and
    -- the command that the spawned task sends.
    unfoldable pub register_insight :
        (Sender → Bool) → State → Route → String → State × List Reply × Option InsightCommand
    unfolding is_unready insight_error
    register_insight is_closed s route id =
        if is_unready is_closed s route
        then (
          s,
          insight_error route "The original OMP session is not ready or has changed." ∷ [],
          none,
        )
        else (
          record s { pending_session_insights = insert id route s.pending_session_insights },
          [],
          some (command_of route.request id route.session_id),
        )

    abbrev pub unavailable : ℕ → String → String → InsightRequest → Reply
    unavailable connection_id request_id session_id request =
        session_insights_error connection_id request_id session_id (operation request)
          "Session insights require an initialized live OMP session."

    unfoldable pub request_session_insight :
        (Sender → Bool)
        → State
        → ℕ
        → String
        → String
        → InsightRequest
        → String
        → State × List Reply × Option InsightCommand
    unfolding register_insight
    request_session_insight is_closed s connection_id request_id session_id request id =
        elim (transport_session_id_for (payloads crates P) s session_id) [
          | none ↦ (s, unavailable connection_id request_id session_id request ∷ [], none)
          | some transport ↦ elim (stdin_for_transport (payloads crates P) s transport) [
            | none ↦ (s, unavailable connection_id request_id session_id request ∷ [], none)
            | some stdin ↦
                register_insight is_closed s
                  (record {
                    connection_id = connection_id;
                    session_id = session_id;
                    transport_session_id = transport;
                    request_id = request_id;
                    stdin = stdin;
                    request = request;
                  })
                  id
          ]
        ]

    -- The end of the spawned task, after the send and, if it was sent, the sleep.
    unfoldable pub task_end : State → String → Bool → State × List Reply
    unfolding insight_error
    task_end s id sent = elim (lookup id s.pending_session_insights) [
      | none ↦ (s, [])
      | some route ↦ (
        record s { pending_session_insights = remove id s.pending_session_insights },
        insight_error route (
              if sent
              then "OMP did not return session insights before the read deadline."
              else "The original OMP process disconnected before the read was sent.")
            ∷ [],
      )
    ]

    unfoldable pub insight_result : Route → Value → Option Reply
    insight_result route frame = elim route.request [
      | activity_request ↦ do
        activity ← rpc_response_data_as crates SessionActivitySnapshot frame
        if not (str_eq activity.session_id route.session_id)
            then none
            else some (
                session_activity_result route.connection_id route.request_id route.session_id
                  activity)
      | detail_request generation kind activity_id ↦ do
        detail ← rpc_response_data_as crates SessionActivityDetail frame
        if not (str_eq detail.session_id route.session_id)
              || not (str_eq detail.generation generation)
              || not (same_kind detail.kind kind)
              || not (str_eq detail.activity_id activity_id)
              || ltb 65536 (len detail.text)
            then none
            else some (
                session_activity_detail_result route.connection_id route.request_id route.session_id
                  detail)
      | recap_request ↦ do
        recap ← rpc_response_data_as crates (SessionRecapSnapshot crates.Float) frame
        if not (str_eq recap.session_id route.session_id)
            then none
            else some
                (session_recap_result route.connection_id route.request_id route.session_id recap)
    ]

    -- The event for the route, which has left the registry.
    unfoldable pub insight_event : (Sender → Bool) → State → Route → Value → Reply
    unfolding insight_binding_is_current insight_error insight_result
    insight_event is_closed s route frame =
        if not (insight_binding_is_current is_closed s route)
        then insight_error route "The OMP session changed while reading session insights."
        else if not (
            has_text
              (or_else (value_str crates frame "command") (value_str crates frame "requestType"))
              (command_name route.request))
        then insight_error route "OMP returned a response for a different insight operation."
        else if has_text (value_str crates frame "status") "error"
            || some_and not (get "success" frame >>= as_bool)
        then insight_error route (rpc_error_message crates frame)
        else unwrap_or (insight_error route "OMP returned invalid or stale session insight data.")
            (insight_result route frame)

    -- With the events, by the id that they answer, and whether the frame is an insight reply.
    unfoldable pub handle_session_insight_response :
        (Sender → Bool) → State → String → Value → State × List (String × Reply) × Bool
    unfolding insight_event
    handle_session_insight_response is_closed s transport frame =
        let known = is_session_insight_response crates frame in
        elim (value_str crates frame "id") [
          | none ↦ (s, [], known)
          | some id ↦ elim (lookup id s.pending_session_insights) [
            | none ↦ (s, [], known)
            | some route ↦
                if str_eq route.transport_session_id transport
                then (let s' = record s {
                  pending_session_insights = remove id s.pending_session_insights;
                } in
                    (s', (id, insight_event is_closed s' route frame) ∷ [], true))
                else (s, [], known)
          ]
        ]
