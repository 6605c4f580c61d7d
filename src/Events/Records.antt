-- ===== src/Events/Records.antt =====
-- src/state.rs: what the calls of the coordinator do to the records, a property of all of them.
use mathlib.Core.Path.{subst, sym}
use fura.Base.{
  ℕ, ◌≡◌, refl, ap, ◌∙◌, String, Option, none, some, List, [], ◌∷◌, arith, str_eq as ◌==◌,
  Bool-cases, Option-cases, inl, inr, ◌||◌, not, ◌==◌ as nat_eq,
}
use fura.Base.Table.{Table, lookup, insert, lookup-insert}
use fura.Events.Message.{SessionProjection, ServerMessage}
use fura.Events.Pending.{record_delta, flush_due}
use fura.Events.Coordinator.{
  World, drain_and_broadcast, queue_delta, delta_after, mutate_session_delta,
  mutate_session_snapshot, mutate_session_and_emit, emit_current_session_snapshot,
  emit_sessions_snapshot, emit_many, emit_after, emit_built, mutate_sessions_and_emit,
  flush_pending_deltas_for_timer,
}
use fura.Events.Client.Replication.{
  Call, delta, snapshot, session_changed, sessions_changed, resync, sessions_list, emitted, timer,
  serve,
}

module _ {R E H O : Type 0} (projection : R → SessionProjection E H)
    (sessions_snapshot : Table R → O) (P : R → Type 0) where
  -- All records have the property.
  abbrev pub InAll : Table R → Type 0
  InAll sessions = (id : String) (r : R) → lookup id sessions ≡ some r → P r

  abbrev pub Everywhere : World R → Type 0
  Everywhere w = InAll w.sessions

  -- The call's change keeps it.
  abbrev pub Keeps : Call R E H O → Type 0
  Keeps (delta now id mutate) = (r : R) → P r → P (mutate r).0
  Keeps (snapshot id mutate) = (r : R) → P r → P (mutate r)
  Keeps (session_changed id build) = (r : R) → P r → P (build r).0
  Keeps (sessions_changed build) = (sessions : Table R) → InAll sessions → InAll (build sessions).0
  Keeps (resync id) = Unit
  Keeps sessions_list = Unit
  Keeps (emitted now ms) = Unit
  Keeps (timer generation) = Unit

  insert-Everywhere :
      (w : World R) (id : String) (r : R)
      → P r
      → Everywhere w
      → Everywhere (record w { sessions = insert id r w.sessions })
  insert-Everywhere w id r p all j s found = elim (Bool-cases (id == j)) [
    | inl e ↦
        let same : r ≡ s = ground (arith, found, lookup-insert id j r w.sessions) in subst P same p
    | inr e ↦ all j s (ground (arith, found, lookup-insert id j r w.sessions))
  ]

  same_sessions : (v w : World R) → v.sessions ≡ w.sessions → Everywhere w → Everywhere v
  same_sessions v w e all id r found = all id r (sym (ap (lookup id) e) ∙ found)

  drained_sessions :
      (w : World R) (ms : List (ServerMessage E H O))
      → (drain_and_broadcast projection w ms).0.sessions ≡ w.sessions
  unfolding drain_and_broadcast
  drained_sessions w ms = refl

  queued_sessions :
      (w : World R) (now : ℕ) (id : String) (k : ℕ)
      → (queue_delta {O = O} projection w now id k).0.sessions ≡ w.sessions
  unfolding queue_delta
  queued_sessions w now id k = elim (Bool-cases (flush_due (record_delta w.pending id k) now)) [
    | inl due ↦ rw due
    | inr early ↦ rw early
  ]

  delta_after-sessions :
      (w : World R) (now : ℕ) (id : String) (out : R × Option ℕ)
      → (delta_after {O = O} projection w now id out).0.sessions ≡ insert id out.0 w.sessions
  unfolding delta_after
  delta_after-sessions w now id (r, none) = refl
  delta_after-sessions w now id (r, some k) =
      queued_sessions (record w { sessions = insert id r w.sessions }) now id k

  emit_built-sessions :
      (w : World R) (ms : List (ServerMessage E H O))
      → (emit_built projection w ms).0.sessions ≡ w.sessions
  unfolding emit_built
  emit_built-sessions w [] = refl
  emit_built-sessions w (m ∷ ms) = drained_sessions w (m ∷ ms)

  emit_after-sessions :
      (w : World R) (id : String) (out : R × Option (ServerMessage E H O))
      → (emit_after projection w id out).0.sessions ≡ insert id out.0 w.sessions
  unfolding emit_after
  emit_after-sessions w id (r, none) = refl
  emit_after-sessions w id (r, some m) =
      drained_sessions (record w { sessions = insert id r w.sessions }) (m ∷ [])

  emit_many-sessions :
      (w : World R) (now : ℕ) (ms : List (ServerMessage E H O))
      → (emit_many projection w now ms).0.sessions ≡ w.sessions
  unfolding emit_many
  emit_many-sessions w now [] = refl
  emit_many-sessions w now (m ∷ ms) = refl

  -- A call keeps the property of all records if its mutation keeps it of one.
  pub serve-Everywhere :
      (call : Call R E H O) (w : World R)
      → Keeps call
      → Everywhere w
      → Everywhere (serve projection sessions_snapshot w call).0
  unfolding serve mutate_session_delta mutate_session_snapshot mutate_session_and_emit
      mutate_sessions_and_emit emit_current_session_snapshot emit_sessions_snapshot
      flush_pending_deltas_for_timer
  serve-Everywhere (delta now id mutate) w keeps all = elim (Option-cases (lookup id w.sessions)) [
    | inl gone ↦ rw (gone, mutate_session_delta) all
    | inr (r, found) ↦
        rw (found, mutate_session_delta)
          (same_sessions (delta_after {O = O} projection w now id (mutate r)).0
            (record w { sessions = insert id (mutate r).0 w.sessions })
            (delta_after-sessions w now id (mutate r))
            (insert-Everywhere w id (mutate r).0 (keeps r (all id r found)) all))
  ]
  serve-Everywhere (snapshot id mutate) w keeps all = elim (Option-cases (lookup id w.sessions)) [
    | inl gone ↦ rw (gone, mutate_session_and_emit) all
    | inr (r, found) ↦
        rw (found, mutate_session_and_emit)
          (insert-Everywhere w id (mutate r) (keeps r (all id r found)) all)
  ]
  serve-Everywhere (resync id) w keeps all = elim (Option-cases (lookup id w.sessions)) [
    | inl gone ↦ rw (gone, emit_current_session_snapshot) all
    | inr (r, found) ↦ rw (found, emit_current_session_snapshot) all
  ]
  serve-Everywhere sessions_list w keeps all = all
  serve-Everywhere (session_changed id build) w keeps all =
      elim (Option-cases (lookup id w.sessions)) [
        | inl gone ↦ rw (gone, mutate_session_and_emit) all
        | inr (r, found) ↦
            rw (found, mutate_session_and_emit)
              (same_sessions (emit_after projection w id (build r)).0
                (record w { sessions = insert id (build r).0 w.sessions })
                (emit_after-sessions w id (build r))
                (insert-Everywhere w id (build r).0 (keeps r (all id r found)) all))
      ]
  serve-Everywhere (sessions_changed build) w keeps all =
      let (sessions, ms) = build w.sessions in
      same_sessions (emit_built projection (record w { sessions = sessions }) ms).0
        (record w { sessions = sessions })
        (emit_built-sessions (record w { sessions = sessions }) ms) (keeps w.sessions all)
  serve-Everywhere (emitted now ms) w keeps all =
      same_sessions (emit_many projection w now ms).0 w (emit_many-sessions w now ms) all
  serve-Everywhere (timer generation) w keeps all =
      elim (Bool-cases
        (not w.pending.flush_scheduled || not (nat_eq w.pending.flush_generation generation))) [
          | inl stale ↦ rw stale all
          | inr fresh ↦ rw fresh all
        ]
