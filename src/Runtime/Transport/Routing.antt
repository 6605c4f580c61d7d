-- ===== src/Runtime/Transport/Routing.antt =====
-- src/state.rs: from a session to the transport that serves it, and back.
use mathlib.Core.Path.{subst}
use fura.Base.{
  true, false, some, [], ◌∷◌, String, str_eq, ◌≡◌, ◌⊎◌, refl, ap, ◌∙◌, arith, eq_iff, Bool-cases,
  Option-cases, inl, inr,
}
use fura.Base.Table.{Table, lookup, contains_key, Distinct}
use fura.Runtime.State.{Payloads, SessionRuntimeState}
use fura.Runtime.Transport.Defs.{
  or_else, find_target, route_for, transport_session_id_for, target_session_id_for_transport,
  contains_transport,
}

find_target_serves :
    (id : String) (m : Table String) {t : String}
    → Distinct m
    → find_target id m ≡ some t
    → lookup t m ≡ some id
unfolding find_target lookup
find_target_serves id [] d h = absurd (cc)
find_target_serves id ((i, w) ∷ m) {t} d h = elim (Bool-cases (str_eq w id)) [
  | inl here ↦ ground (arith, eq_iff w id, eq_iff i t)
  | inr later ↦
      let found : lookup t m ≡ some id = find_target_serves id m d.1 (rw later at h) in
      elim (Bool-cases (str_eq i t)) [
        | inl same ↦ absurd (ground (arith, eq_iff i t))
        | inr other ↦ rw other found
      ]
]

-- A transport that serves the session is found.
find_target_total :
    (id : String) (m : Table String) (t : String)
    → lookup t m ≡ some id
    → (t' : String) × (find_target id m ≡ some t')
unfolding find_target lookup
find_target_total id [] t h = absurd (cc)
find_target_total id ((i, w) ∷ m) t h = elim (Bool-cases (str_eq w id)) [
  | inl here ↦ (i, rw here refl)
  | inr later ↦ elim (Bool-cases (str_eq i t)) [
    | inl same ↦ absurd (ground (arith, eq_iff w id))
    | inr other ↦ let (t', found) = find_target_total id m t (rw other at h) in (t', rw later found)
  ]
]

module _ (T : Payloads) (s : SessionRuntimeState T) (id : String) where
  -- Where the table of targets has each key once and some transport serves the session, the answer is a transport that serves it.
  pub transport_for_served :
      (t : String)
      → Distinct s.rpc_session_targets
      → lookup t s.rpc_session_targets ≡ some id
      → (t' : String) × (transport_session_id_for T s id ≡ some t')
        × (target_session_id_for_transport T s t' ≡ id)
  unfolding transport_session_id_for target_session_id_for_transport
  transport_for_served t d serves =
      let (t', found) = find_target_total id s.rpc_session_targets t serves in
      (
        t',
        rw (found, route_for) refl,
        rw (find_target_serves id s.rpc_session_targets d found) refl,
      )

  -- Where the table of targets has each key once, an answer is a transport that serves the session, or the session's own id: of a session that is
  -- no transport's entry, or of a live transport that has moved to another session and is itself no
  -- session.
  pub transport_for_sound :
      (t : String)
      → Distinct s.rpc_session_targets
      → transport_session_id_for T s id ≡ some t
      → (target_session_id_for_transport T s t ≡ id)
        ⊎ ((t ≡ id) × (contains_key id s.sessions ≡ false) × (contains_transport T s id ≡ true))
  unfolding transport_session_id_for target_session_id_for_transport contains_transport route_for
  transport_for_sound t d answer = elim (Option-cases (find_target id s.rpc_session_targets)) [
    | inl unserved ↦ elim (Option-cases (lookup id s.rpc_session_targets)) [
      | inl unknown ↦
          let own : id ≡ t = ground arith in
          inl (subst (λ u. or_else (lookup u s.rpc_session_targets) u ≡ id) own (rw unknown refl))
      | inr (direct, known) ↦ inr (ground arith)
    ]
    | inr (t', found) ↦
        let same : t' ≡ t = ground arith in
        inl (rw (find_target_serves id s.rpc_session_targets d (found ∙ ap some same)) refl)
  ]
