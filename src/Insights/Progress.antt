-- ===== src/Insights/Progress.antt =====
-- src/session_insights.rs: what one step does to the request of an id.
use fura.Base.{
  ℕ, ◌≡◌, refl, sym, ap, ◌∙◌, some-injective, Bool, true, false, not, ◌||◌, Option, none, some,
  List, [], ◌∷◌, ◌++◌, String, str_eq, eq_iff, eq_refl, ◌==◌, Bool-cases, Option-cases, inl, inr,
  ◌⊎◌,
}
use fura.Base.Sort.{filter, filter-append}
use fura.Base.Table.{lookup, retain, lookup-remove, lookup-retain-none}
use fura.Runtime.State.{Payloads}
use fura.Runtime.Transport.{
  take_session_skills_for_transport, remove_transport, remove_registered, map_transport_to_session,
}
use fura.Session.Crates.{Crates}
use fura.Insights.Requests.{payloads, State, Route, Reply, has_text}
use fura.Insights.Steps.{
  Step, requested, replied, task_ended, disconnected, transport_removed, transport_mapped,
  elsewhere, Events, for_id, serve,
}
use fura.Insights.Outcomes.{
  addressee, lookup-retain_kept, to_requester, requested_same, task_none, freed, task_some,
  replied_lem,
}

module _ (crates : Crates) (P : Payloads) where
  -- The events for one id.
  unfoldable pub answers : String → Events crates P → Events crates P
  unfolding filter
  answers id events = filter (λ e. str_eq e.0 id) events

  -- No other request gets the id.
  abbrev pub NotReused : String → Step crates P → Type 0
  NotReused id (requested is_closed c r s request j) = str_eq j id ≡ false
  NotReused id _ = Unit

  -- The connection stays, and the transport stays and goes on serving the session.
  abbrev pub Spares : ℕ → String → Option String → Step crates P → Type 0
  Spares c session t (disconnected d) = (c == d) ≡ false
  Spares c session t (transport_removed u) = has_text t u ≡ false
  Spares c session t (transport_mapped u target) =
      (not (has_text t u) || str_eq session target) ≡ true
  Spares c session t _ = Unit

  -- The task of the request ends.
  abbrev pub is_end : String → Step crates P → Bool
  is_end id (task_ended j sent) = str_eq j id
  is_end id _ = false

  abbrev pub ends : String → List (Step crates P) → Bool
  ends id [] = false
  ends id (step ∷ steps) = is_end id step || ends id steps

  pub answers-for_id :
      (id j : String) (ms : List (Reply crates P))
      → str_eq j id ≡ false
      → answers id (for_id crates P j ms) ≡ []
  unfolding answers
  answers-for_id id j [] h = refl
  answers-for_id id j (m ∷ ms) h = rw h (answers-for_id id j ms h)

  pub answers_one : (id : String) (m : Reply crates P) → answers id ((id, m) ∷ []) ≡ (id, m) ∷ []
  unfolding answers
  answers_one id m = rw (eq_refl id) refl

  pub answers_nil : (id : String) → answers id [] ≡ []
  unfolding answers
  answers_nil id = refl

  answers_other :
      (id j : String) (m : Reply crates P) → str_eq j id ≡ false → answers id ((j, m) ∷ []) ≡ []
  unfolding answers
  answers_other id j m h = rw h refl

  pub answers-append :
      (id : String) (es fs : Events crates P) {gs hs : Events crates P}
      → answers id es ≡ gs
      → answers id fs ≡ hs
      → answers id (es ++ fs) ≡ gs ++ hs
  unfolding answers
  answers-append id es fs h k = filter-append (λ e. str_eq e.0 id) es fs ∙ rw (h, k) refl

  module _ (same_channel : P.Sender → P.Sender → Bool) where
    -- Nothing waits under the id, and nothing is answered for it.
    abbrev pub Idle : String → State crates P × Events crates P → Type 0
    Idle id out = (lookup id out.0.pending_session_insights ≡ none) × (answers id out.1 ≡ [])

    abbrev pub Waits : String → Route crates P → State crates P × Events crates P → Type 0
    Waits id r out = (lookup id out.0.pending_session_insights ≡ some r) × (answers id out.1 ≡ [])

    -- One answer for the id, to the requester, and nothing waits.
    abbrev pub Once : String → ℕ × String × String → State crates P × Events crates P → Type 0
    Once id to out =
        (lookup id out.0.pending_session_insights ≡ none)
        × ((m : Reply crates P) × (answers id out.1 ≡ (id, m) ∷ []) × (addressee m ≡ to))

    apart :
        (id j : String) (r : Route crates P) (s : State crates P)
        → lookup id s.pending_session_insights ≡ none
        → lookup j s.pending_session_insights ≡ some r
        → str_eq j id ≡ false
    apart id j r s free found = elim (Bool-cases (str_eq j id)) [
      | inl e ↦ absurd (cc ((eq_iff j id).0 e, free, found))
      | inr e ↦ e
    ]

    -- What is found under an id, when an entry with another id leaves.
    freed_other :
        (s : State crates P) (r : Route crates P) (id j : String)
        → str_eq j id ≡ false
        → lookup id (freed crates P same_channel r s j).pending_session_insights
          ≡ lookup id s.pending_session_insights
    freed_other s r id j h = lookup-remove j id s.pending_session_insights ∙ rw h refl

    freed_own :
        (s : State crates P) (r : Route crates P) (id : String)
        → lookup id (freed crates P same_channel r s id).pending_session_insights ≡ none
    freed_own s r id = lookup-remove id id s.pending_session_insights ∙ rw (eq_refl id) refl

    removed_none :
        (s : State crates P) (t id : String)
        → lookup id s.pending_session_insights ≡ none
        → lookup id (remove_transport (payloads crates P) s t).0.pending_session_insights ≡ none
    unfolding remove_transport remove_registered take_session_skills_for_transport retain
    removed_none s t id h = elim (Option-cases (lookup t s.rpc_sessions)) [
      | inl e ↦ rw (e, remove_transport) h
      | inr (handle, e) ↦
          rw (e, remove_transport)
            (lookup-retain-none (λ _ pending. not (str_eq pending.transport_session_id t)) id
              s.pending_session_insights h)
    ]

    removed_kept :
        (s : State crates P) (t id : String) (r : Route crates P)
        → lookup id s.pending_session_insights ≡ some r
        → str_eq r.transport_session_id t ≡ false
        → lookup id (remove_transport (payloads crates P) s t).0.pending_session_insights ≡ some r
    unfolding remove_transport remove_registered take_session_skills_for_transport retain
    removed_kept s t id r h k = elim (Option-cases (lookup t s.rpc_sessions)) [
      | inl e ↦ rw (e, remove_transport) h
      | inr (handle, e) ↦
          rw (e, remove_transport)
            (lookup-retain_kept (λ _ pending. not (str_eq pending.transport_session_id t)) id r
              s.pending_session_insights h (rw k refl))
    ]

    pub serve-Idle :
        (s : State crates P) (id : String) (step : Step crates P)
        → lookup id s.pending_session_insights ≡ none
        → NotReused id step
        → Idle id (serve crates P same_channel s step)
    unfolding serve map_transport_to_session
    serve-Idle s id (requested closed c q session request j) h n = (
      requested_same crates P same_channel closed s c q session request id j n ∙ h,
      answers-for_id id j _ n,
    )
    serve-Idle s id (replied closed t frame) h n =
        elim (replied_lem crates P same_channel closed s t frame) [
          | inl (e, f) ↦ rw (e, f) (h, answers_nil id)
          | inr (j, r, m, found, e, f, a) ↦
              let other : str_eq j id ≡ false = apart id j r s h found in
              rw (e, f) (freed_other s r id j other ∙ h, answers_other id j m other)
        ]
    serve-Idle s id (task_ended j sent) h n =
        elim (Option-cases (lookup j s.pending_session_insights)) [
          | inl e ↦ rw (task_none crates P same_channel s j sent e) (h, answers_nil id)
          | inr (r, found) ↦
              let (m, e, a) = task_some crates P same_channel r s j sent found in
              let other : str_eq j id ≡ false = apart id j r s h found in
              rw e (freed_other s r id j other ∙ h, answers_other id j m other)
        ]
    serve-Idle s id (disconnected d) h n =
        (lookup-retain-none _ id s.pending_session_insights h, answers_nil id)
    serve-Idle s id (transport_removed t) h n = (removed_none s t id h, answers_nil id)
    serve-Idle s id (transport_mapped t target) h n =
        (lookup-retain-none _ id s.pending_session_insights h, answers_nil id)
    serve-Idle s id (elsewhere s') h n = (h, answers_nil id)

    -- A request that waits goes on waiting, or is answered, and the end of its task answers it.
    pub serve-Waits :
        (s : State crates P) (id : String) (r : Route crates P) (step : Step crates P)
        → lookup id s.pending_session_insights ≡ some r
        → NotReused id step
        → Spares r.connection_id r.session_id (some r.transport_session_id) step
        → (Waits id r (serve crates P same_channel s step) × (is_end id step ≡ false))
          ⊎ Once id (to_requester crates P same_channel r) (serve crates P same_channel s step)
    unfolding serve map_transport_to_session
    serve-Waits s id r (requested closed c q session request j) h n k = inl (
      (
        requested_same crates P same_channel closed s c q session request id j n ∙ h,
        answers-for_id id j _ n,
      ),
      refl,
    )
    serve-Waits s id r (replied closed t frame) h n k =
        elim (replied_lem crates P same_channel closed s t frame) [
          | inl (e, f) ↦ inl (rw (e, f) (h, answers_nil id), refl)
          | inr (j, r', m, found, e, f, a) ↦ elim (Bool-cases (str_eq j id)) [
            | inl same ↦
                let own : j ≡ id = (eq_iff j id).0 same in
                let it : r' ≡ r =
                  some-injective _ _
                    (sym found ∙ ap (λ i. lookup i s.pending_session_insights) own ∙ h) in
                inr (
                  rw (e, f, own)
                    (
                      freed_own s r' id,
                      (m, answers_one id m, a ∙ ap (to_requester crates P same_channel) it),
                    ))
            | inr other ↦
                inl (rw (e, f) (freed_other s r' id j other ∙ h, answers_other id j m other), refl)
          ]
        ]
    serve-Waits s id r (task_ended j sent) h n k = elim (Bool-cases (str_eq j id)) [
      | inl same ↦
          let (m, e, a) = task_some crates P same_channel r s id sent h in
          inr (rw ((eq_iff j id).0 same, e) (freed_own s r id, (m, answers_one id m, a)))
      | inr other ↦ elim (Option-cases (lookup j s.pending_session_insights)) [
        | inl e ↦ inl (rw (task_none crates P same_channel s j sent e) (h, answers_nil id), other)
        | inr (r', found) ↦
            let (m, e, a) = task_some crates P same_channel r' s j sent found in
            inl (rw e (freed_other s r' id j other ∙ h, answers_other id j m other), other)
      ]
    ]
    serve-Waits s id r (disconnected d) h n k =
        inl (
          (lookup-retain_kept _ id r s.pending_session_insights h (rw k refl), answers_nil id),
          refl,
        )
    serve-Waits s id r (transport_removed t) h n k =
        inl ((removed_kept s t id r h k, answers_nil id), refl)
    serve-Waits s id r (transport_mapped t target) h n k =
        inl ((lookup-retain_kept _ id r s.pending_session_insights h k, answers_nil id), refl)
    serve-Waits s id r (elsewhere s') h n k = inl ((h, answers_nil id), refl)
