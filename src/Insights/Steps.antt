-- ===== src/Insights/Steps.antt =====
-- src/session_insights.rs among the rest of the bridge: what can happen to the requests that wait, with
-- `handle_socket` of src/web.rs, which forgets those of a connection that ends.
use fura.Base.{ℕ, Bool, not, List, [], ◌∷◌, ◌++◌, String, ◌==◌, map}
use fura.Base.Table.{retain}
use fura.Runtime.State.{Payloads}
use fura.Runtime.Transport.{remove_transport, map_transport_to_session}
use fura.Session.Crates.{Crates}
use fura.Insights.Types.{InsightRequest}
use fura.Insights.Requests.{
  payloads, State, Reply, request_session_insight, task_end, handle_session_insight_response,
}

module _ (crates : Crates) (P : Payloads) where
  open crates use {Value}
  open P use {Sender}

  -- A request with the id it gets; a frame of a transport; the end of the task of a request, with
  -- whether the command was sent; a connection that ends; a transport removed, or mapped to a session;
  -- anything that leaves the waiting requests alone.
  pub data Step : Type 0 where
    requested : (Sender → Bool) → ℕ → String → String → InsightRequest → String → Step
    replied : (Sender → Bool) → String → Value → Step
    task_ended : String → Bool → Step
    disconnected : ℕ → Step
    transport_removed : String → Step
    transport_mapped : String → String → Step
    elsewhere : State crates P → Step

  -- The events of a step by the id of the request that they answer.
  abbrev pub Events : Type 0
  Events = List (String × Reply crates P)

  abbrev pub for_id : String → List (Reply crates P) → Events
  for_id id ms = map (λ m. (id, m)) ms

  module _ (same_channel : Sender → Sender → Bool) where
    unfoldable pub serve : State crates P → Step → State crates P × Events
    serve s (requested is_closed connection_id request_id session_id request id) =
        let (s', replies, sends) =
          request_session_insight crates P same_channel is_closed s connection_id request_id
            session_id request id in
        (s', for_id id replies)
    serve s (replied is_closed transport frame) =
        let (s', events, known) =
          handle_session_insight_response crates P same_channel is_closed s transport frame in
        (s', events)
    serve s (task_ended id sent) =
        let (s', events) = task_end crates P same_channel s id sent in (s', for_id id events)
    serve s (disconnected connection_id) = (
      record s {
        pending_session_insights =
            retain (λ _ pending. not (pending.connection_id == connection_id))
              s.pending_session_insights;
      },
      [],
    )
    serve s (transport_removed t) = ((remove_transport (payloads crates P) s t).0, [])
    serve s (transport_mapped t target) =
        (map_transport_to_session (payloads crates P) s t target, [])
    serve s (elsewhere s') =
        (record s' { pending_session_insights = s.pending_session_insights }, [])

    unfoldable pub run : State crates P → List Step → State crates P × Events
    unfolding serve
    run s [] = (s, [])
    run s (step ∷ steps) =
        let (s', events) = serve s step in let (s'', later) = run s' steps in (s'', events ++ later)
