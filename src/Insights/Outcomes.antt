-- ===== src/Insights/Outcomes.antt =====
-- src/session_insights.rs: what each handler does to the request of one id.
use fura.Base.{
  ℕ, ◌≡◌, refl, sym, ap, ◌∙◌, some-injective, Bool, true, false, not, ◌||◌, Option, none, some,
  List, [], ◌∷◌, String, str_eq, eq_iff, arith, if◌then◌else◌, Bool-cases, Option-cases, inl, inr,
  ◌⊎◌,
}
use fura.Base.Options.{◌>>=◌, some_and, or_else, unwrap_or}
use fura.Base.Table.{Table, lookup, remove, retain, lookup-insert, lookup-insert_self}
use fura.Runtime.State.{Payloads}
use fura.Runtime.Transport.{transport_session_id_for, stdin_for_transport}
use fura.Session.Crates.{Crates}
use fura.Insights.Types.{
  command_name, InsightCommand, SessionActivitySnapshot, SessionActivityDetail,
  SessionRecapSnapshot, InsightRequest, activity_request, detail_request, recap_request,
  InsightMessage, session_activity_result, session_activity_detail_result, session_recap_result,
  session_insights_error, operation,
}
use fura.Insights.Requests.{
  value_str, payloads, State, Route, Reply, request_session_insight, register_insight, is_unready,
  task_end, handle_session_insight_response, insight_event, insight_result, unavailable,
  insight_binding_is_current, insight_error, has_text, rpc_response_data_as,
}

-- Whom a message is for: the connection, the request and the session.
unfoldable pub addressee : {F : Type 0} → InsightMessage F → ℕ × String × String
addressee (session_activity_result c r s activity) = (c, r, s)
addressee (session_activity_detail_result c r s detail) = (c, r, s)
addressee (session_recap_result c r s recap) = (c, r, s)
addressee (session_insights_error c r s operation message) = (c, r, s)

module _ {V : Type 0} where
  pub lookup-retain_kept :
      (p : String → V → Bool) (j : String) (v : V) (m : Table V)
      → lookup j m ≡ some v
      → p j v ≡ true
      → lookup j (retain p m) ≡ some v
  unfolding lookup retain
  lookup-retain_kept p j v [] h k = absurd (cc)
  lookup-retain_kept p j v ((i, w) ∷ m) h k = elim (Bool-cases (str_eq i j)) [
    | inl e ↦
        let own : i ≡ j = (eq_iff i j).0 e in
        let found : w ≡ v = ground (arith, h, e) in
        let kept : p i w ≡ true = cc (own, found, k) in ground (arith, kept, e, found)
    | inr e ↦ ground (arith, e, h, lookup-retain_kept p j v m)
  ]

module _ (crates : Crates) (P : Payloads) (same_channel : P.Sender → P.Sender → Bool) where
  abbrev pub to_requester : Route crates P → ℕ × String × String
  to_requester r = (r.connection_id, r.request_id, r.session_id)

  register_quiet :
      (closed : P.Sender → Bool) (s : State crates P) (r : Route crates P) (id j : String)
      → str_eq j id ≡ false
      → lookup id (register_insight crates P same_channel closed s r j).0.pending_session_insights
        ≡ lookup id s.pending_session_insights
  unfolding register_insight
  register_quiet closed s r id j h =
      elim (Bool-cases (is_unready crates P same_channel closed s r)) [
        | inl e ↦ rw e refl
        | inr e ↦ rw e (lookup-insert j id r s.pending_session_insights ∙ rw h refl)
      ]

  pub requested_same :
      (closed : P.Sender → Bool) (s : State crates P) (c : ℕ) (q session : String)
      (request : InsightRequest) (id j : String)
      → str_eq j id ≡ false
      → lookup id
          (request_session_insight crates P same_channel closed s c q session request
            j).0.pending_session_insights
        ≡ lookup id s.pending_session_insights
  unfolding request_session_insight
  requested_same closed s c q session request id j h =
      elim (Option-cases (transport_session_id_for (payloads crates P) s session)) [
        | inl e ↦ rw (e, request_session_insight) refl
        | inr (t, e) ↦ elim (Option-cases (stdin_for_transport (payloads crates P) s t)) [
          | inl f ↦ rw (e, f, request_session_insight) refl
          | inr (stdin, f) ↦ rw (e, f, request_session_insight) (register_quiet closed s _ id j h)
        ]
      ]

  -- A request is refused at once, to the requester, or waits.
  abbrev pub Taken :
      State crates P
      → ℕ × String × String
      → Option String
      → String
      → State crates P × List (Reply crates P) × Option InsightCommand
      → Type 0
  Taken s to transport id out =
      ((m : Reply crates P) × (out.0 ≡ s) × (out.1 ≡ m ∷ []) × (addressee m ≡ to))
      ⊎ ((r : Route crates P) × (lookup id out.0.pending_session_insights ≡ some r)
          × (out.1 ≡ [])
          × (to_requester r ≡ to)
          × (transport ≡ some r.transport_session_id))

  register-Taken :
      (closed : P.Sender → Bool) (s : State crates P) (r : Route crates P) (id : String)
      → Taken s
          (to_requester r)
          (some r.transport_session_id)
          id
          (register_insight crates P same_channel closed s r id)
  unfolding register_insight insight_error addressee
  register-Taken closed s r id = elim (Bool-cases (is_unready crates P same_channel closed s r)) [
    | inl e ↦ inl (
      insight_error crates P r "The original OMP session is not ready or has changed.",
      rw (e, register_insight) refl,
      rw (e, register_insight) refl,
      refl,
    )
    | inr e ↦ inr (
      r,
      rw (e, register_insight) (lookup-insert_self id r s.pending_session_insights),
      rw (e, register_insight) refl,
      refl,
      refl,
    )
  ]

  pub requested-Taken :
      (closed : P.Sender → Bool) (s : State crates P) (c : ℕ) (q session : String)
      (request : InsightRequest) (id : String)
      → Taken s
          (c, q, session)
          (transport_session_id_for (payloads crates P) s session)
          id
          (request_session_insight crates P same_channel closed s c q session request id)
  unfolding request_session_insight addressee
  requested-Taken closed s c q session request id =
      elim (Option-cases (transport_session_id_for (payloads crates P) s session)) [
        | inl e ↦ inl (
          unavailable crates P same_channel c q session request,
          rw (e, request_session_insight) refl,
          rw (e, request_session_insight) refl,
          refl,
        )
        | inr (t, e) ↦ elim (Option-cases (stdin_for_transport (payloads crates P) s t)) [
          | inl f ↦ inl (
            unavailable crates P same_channel c q session request,
            rw (e, f, request_session_insight) refl,
            rw (e, f, request_session_insight) refl,
            refl,
          )
          | inr (stdin, f) ↦ rw (e, f, request_session_insight) (register-Taken closed s _ id)
        ]
      ]

  pub task_none :
      (s : State crates P) (j : String) (sent : Bool)
      → lookup j s.pending_session_insights ≡ none
      → task_end crates P same_channel s j sent ≡ (s, [])
  unfolding task_end
  task_none s j sent e = rw (e, task_end) refl

  module _ (r : Route crates P) where
    -- The entry of the id leaves the registry.
    abbrev pub freed : State crates P → String → State crates P
    freed s j = record s { pending_session_insights = remove j s.pending_session_insights }

    pub task_some :
        (s : State crates P) (j : String) (sent : Bool)
        → lookup j s.pending_session_insights ≡ some r
        → (m : Reply crates P) × (task_end crates P same_channel s j sent ≡ (freed s j, m ∷ []))
          × (addressee m ≡ to_requester r)
    unfolding task_end insight_error addressee
    task_some s j sent e = (
      insight_error crates P r (
          if sent
          then "OMP did not return session insights before the read deadline."
          else "The original OMP process disconnected before the read was sent."),
      rw (e, task_end) refl,
      refl,
    )

    guarded :
        {A : Type 0} (o : Option A) (g : A → Bool) (f : A → Reply crates P) {m : Reply crates P}
        → (o >>= λ a. if g a then none else some (f a)) ≡ some m
        → ((a : A) → addressee (f a) ≡ to_requester r)
        → addressee m ≡ to_requester r
    guarded none g f h k = absurd (cc)
    guarded (some a) g f h k = elim (Bool-cases (g a)) [
      | inl e ↦ absurd (ground (arith, h, e))
      | inr e ↦ ap addressee (sym (some-injective _ _ (rw e at h))) ∙ k a
    ]

    result_addressee :
        (frame : crates.Value) (m : Reply crates P)
        → insight_result crates P same_channel r frame ≡ some m
        → addressee m ≡ to_requester r
    unfolding insight_result addressee
    result_addressee frame m h =
        elim r.request
            as (λ q.
              insight_result crates P same_channel (record r { request = q }) frame ≡ some m
              → addressee m ≡ to_requester r) [
                | activity_request ↦ λ h.
                    guarded (rpc_response_data_as crates SessionActivitySnapshot frame) _ _ h
                      (λ a. refl)
                | detail_request g k a ↦ λ h.
                    guarded (rpc_response_data_as crates SessionActivityDetail frame) _ _ h
                      (λ a. refl)
                | recap_request ↦ λ h.
                    guarded (rpc_response_data_as crates (SessionRecapSnapshot crates.Float) frame)
                      _ _ h (λ a. refl)
              ]
          h

    unwrapped :
        (o : Option (Reply crates P)) (d : Reply crates P)
        → addressee d ≡ to_requester r
        → ((m : Reply crates P) → o ≡ some m → addressee m ≡ to_requester r)
        → addressee (unwrap_or d o) ≡ to_requester r
    unwrapped none d h k = h
    unwrapped (some m) d h k = k m refl

    event_addressee :
        (closed : P.Sender → Bool) (s : State crates P) (frame : crates.Value)
        → addressee (insight_event crates P same_channel closed s r frame) ≡ to_requester r
    unfolding insight_event insight_error addressee
    event_addressee closed s frame =
        let names =
          has_text
            (or_else (value_str crates frame "command") (value_str crates frame "requestType"))
            (command_name r.request) in
        let failed =
          has_text (value_str crates frame "status") "error"
          || some_and not (crates.get "success" frame >>= crates.as_bool) in
        elim (Bool-cases (insight_binding_is_current crates P same_channel closed s r)) [
          | inr e ↦ rw (e, insight_event) refl
          | inl e ↦ elim (Bool-cases names) [
            | inr f ↦ rw (e, f, insight_event) refl
            | inl f ↦ elim (Bool-cases failed) [
              | inl g ↦ rw (e, f, g, insight_event) refl
              | inr g ↦
                  rw (e, f, g, insight_event)
                    (unwrapped (insight_result crates P same_channel r frame)
                      (insight_error crates P r
                        "OMP returned invalid or stale session insight data.")
                      refl (result_addressee frame))
            ]
          ]
        ]

  -- A reply does nothing, or answers the request of its id, which leaves.
  abbrev pub Replied :
      State crates P → State crates P × List (String × Reply crates P) × Bool → Type 0
  Replied s out =
      ((out.0 ≡ s) × (out.1 ≡ []))
      ⊎ ((j : String) × (r : Route crates P) × (m : Reply crates P) × (lookup j
              s.pending_session_insights
            ≡ some r)
          × (out.0 ≡ freed r s j)
          × (out.1 ≡ (j, m) ∷ [])
          × (addressee m ≡ to_requester r))

  pub replied_lem :
      (closed : P.Sender → Bool) (s : State crates P) (t : String) (frame : crates.Value)
      → Replied s (handle_session_insight_response crates P same_channel closed s t frame)
  unfolding handle_session_insight_response
  replied_lem closed s t frame = elim (Option-cases (value_str crates frame "id")) [
    | inl e ↦ inl (rw (e, handle_session_insight_response) (refl, refl))
    | inr (j, e) ↦ elim (Option-cases (lookup j s.pending_session_insights)) [
      | inl f ↦ inl (rw (e, f, handle_session_insight_response) (refl, refl))
      | inr (r, f) ↦ elim (Bool-cases (str_eq r.transport_session_id t)) [
        | inl g ↦ inr (
          j,
          r,
          insight_event crates P same_channel closed (freed r s j) r frame,
          f,
          rw (e, f, g, handle_session_insight_response) refl,
          rw (e, f, g, handle_session_insight_response) refl,
          event_addressee r closed (freed r s j) frame,
        )
        | inr g ↦ inl (rw (e, f, g, handle_session_insight_response) (refl, refl))
      ]
    ]
  ]
