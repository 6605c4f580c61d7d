-- ===== src/Insights/Answers.antt =====
-- src/session_insights.rs: every request is answered once, to its requester.
use fura.Base.{
  ℕ, ◌≡◌, refl, sym, ap, ◌∙◌, Bool, true, none, some, List, [], ◌∷◌, String, arith, inl, inr, All,
}
use fura.Base.Table.{lookup}
use fura.Runtime.State.{Payloads}
use fura.Runtime.Transport.{transport_session_id_for}
use fura.Session.Crates.{Crates}
use fura.Insights.Types.{InsightRequest}
use fura.Insights.Requests.{payloads, State, Route, Reply, request_session_insight}
use fura.Insights.Steps.{Step, requested, for_id, serve, run}
use fura.Insights.Outcomes.{addressee, to_requester, requested-Taken}
use fura.Insights.Progress.{
  answers_one, answers_nil, answers-append, serve-Idle, serve-Waits, answers, NotReused, Spares,
  ends,
}

module _ (crates : Crates) (P : Payloads) (same_channel : P.Sender → P.Sender → Bool) where
  -- What a run answers for an id, once nothing waits under it and no other request gets it.
  run-Idle :
      (s : State crates P) (id : String) (steps : List (Step crates P))
      → lookup id s.pending_session_insights ≡ none
      → All (NotReused crates P id) steps
      → answers crates P id (run crates P same_channel s steps).1 ≡ []
  unfolding run answers
  run-Idle s id [] h n = refl
  run-Idle s id (step ∷ steps) h (n, ns) =
      let (free, none_now) = serve-Idle crates P same_channel s id step h n in
      answers-append crates P id (serve crates P same_channel s step).1 _ none_now
        (run-Idle (serve crates P same_channel s step).0 id steps free ns)

  run-Waits :
      (s : State crates P) (id : String) (r : Route crates P) (steps : List (Step crates P))
      → lookup id s.pending_session_insights ≡ some r
      → All (NotReused crates P id) steps
      → All (Spares crates P r.connection_id r.session_id (some r.transport_session_id)) steps
      → ends crates P id steps ≡ true
      → (m : Reply crates P) × (answers crates P id (run crates P same_channel s steps).1
          ≡ (id, m) ∷ [])
        × (addressee m ≡ to_requester crates P same_channel r)
  unfolding run
  run-Waits s id r [] h n k e = absurd (cc)
  run-Waits s id r (step ∷ steps) h (n, ns) (k, ks) e =
      elim (serve-Waits crates P same_channel s id r step h n k) [
        | inl ((waits, none_now), going) ↦
            let (m, once, to) =
              run-Waits (serve crates P same_channel s step).0 id r steps waits ns ks
                (ground (arith, e, going)) in
            (
              m,
              answers-append crates P id (serve crates P same_channel s step).1 _ none_now once,
              to,
            )
        | inr (free, (m, once, to)) ↦ (
          m,
          answers-append crates P id (serve crates P same_channel s step).1 _ once
              (run-Idle (serve crates P same_channel s step).0 id steps free ns),
          to,
        )
      ]

  -- A request under an id that nothing waits under. The steps that follow reuse no id; they neither end
  -- the connection nor remove the transport that serves the session, nor map it to another session; and
  -- the task of the request ends among them. Then there is one answer to the request in all, at once or
  -- later: it is addressed to the connection, with the request's and the session's ids.
  pub request-answered :
      (s : State crates P) (closed : P.Sender → Bool) (connection_id : ℕ)
      (request_id session_id : String) (request : InsightRequest) (id : String)
      (steps : List (Step crates P))
      → lookup id s.pending_session_insights ≡ none
      → All (NotReused crates P id) steps
      → All
          (Spares crates P connection_id session_id
            (transport_session_id_for (payloads crates P) s session_id))
          steps
      → ends crates P id steps ≡ true
      → (m : Reply crates P) × (answers crates P id
            (run crates P same_channel s
              (requested closed connection_id request_id session_id request id ∷ steps)).1
          ≡ (id, m) ∷ [])
        × (addressee m ≡ (connection_id, request_id, session_id))
  unfolding run serve
  request-answered s closed c q session request id steps h n k e =
      let out = request_session_insight crates P same_channel closed s c q session request id in
      elim (requested-Taken crates P same_channel closed s c q session request id) [
        | inl (m, same, one, to) ↦
            let free : lookup id out.0.pending_session_insights ≡ none =
              ap (λ x. lookup id x.pending_session_insights) same ∙ h in
            (
              m,
              answers-append crates P id (for_id crates P id out.1) _
                  (ap (λ ms. answers crates P id (for_id crates P id ms)) one
                    ∙ answers_one crates P id m)
                  (run-Idle out.0 id steps free n),
              to,
            )
        | inr (r, waits, none_now, to, t) ↦
            let c' : r.connection_id ≡ c = ap (λ p. p.0) to in
            let session' : r.session_id ≡ session = ap (λ p. p.2) to in
            let spared : All
                (Spares crates P r.connection_id r.session_id (some r.transport_session_id)) steps =
              rw (c', session', sym t) k in
            let (m, once, to') = run-Waits out.0 id r steps waits n spared e in
            (
              m,
              answers-append crates P id (for_id crates P id out.1) _
                  (ap (λ ms. answers crates P id (for_id crates P id ms)) none_now
                    ∙ answers_nil crates P id)
                  once,
              to' ∙ to,
            )
      ]
