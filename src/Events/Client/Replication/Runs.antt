-- ===== src/Events/Client/Replication/Runs.antt =====
-- Every call of the coordinator keeps a replica in step, and so does every run.
use fura.Base.{
  ℕ, ◌≡◌, refl, ap, ◌∙◌, String, Option, none, some, List, [], ◌∷◌, ◌++◌, arith, str_eq as ◌==◌,
  eq_iff, Bool-cases, Option-cases, inl, inr, ◌||◌, not, ◌==◌ as nat_eq, eq_refl,
}
use fura.Base.Table.{Table, lookup, insert, lookup-insert}
use fura.Events.Message.{SessionProjection, ServerMessage}
use fura.Events.Coordinator.{
  World, mutate_sessions_and_emit, emit_after, emit_built, mutate_session_delta,
  mutate_session_snapshot, mutate_session_and_emit, emit_current_session_snapshot,
  emit_sessions_snapshot, flush_pending_deltas_for_timer, emit_many, prepare_external_messages,
  drain_and_broadcast,
}
use fura.Events.Client.Link.{Roster, receive, deliver}
use fura.Events.Client.Replication.Told.{emit_built-InSync}
use fura.Events.Client.Replication.Many.{emit_many-InSync}
use fura.Events.Client.Replication.Serve.{
  Call, delta, snapshot, session_changed, sessions_changed, one, Tells, resync, sessions_list,
  emitted, timer, serve, run, Honest, Truthful, TruthfulRun, Follows, drain-Follows, list-Follows,
  delta_after-Follows_self, delta_after-Follows_ne, snapshot-Follows_self, snapshot-Follows_ne,
  insert-Follows_ne,
}

module _ (O : Type 0) ⦃roster : Roster O⦄ {R E H : Type 0} (projection : R → SessionProjection E H)
    (sessions_snapshot : Table R → O) (id : String) where
  -- What the replica holds after a call.
  abbrev Served : World R → Call R E H O → Option (SessionProjection E H) → Type 0
  Served w call c =
      Follows O projection id (serve projection sessions_snapshot w call).0
        (receive id c (serve projection sessions_snapshot w call).1)

  serve_delta :
      (w : World R) (c : Option (SessionProjection E H)) (now : ℕ) (j : String)
      (mutate : R → R × Option ℕ)
      → ((r : R) → lookup j w.sessions ≡ some r → Honest projection r (mutate r))
      → Follows O projection id w c
      → Served w (delta now j mutate) c
  unfolding serve mutate_session_delta receive
  serve_delta w c now j mutate honest (r, s) = elim (Option-cases (lookup j w.sessions)) [
    | inl gone ↦ rw (gone, mutate_session_delta) (r, s)
    | inr (rj, found) ↦
        rw (found, mutate_session_delta)
          (elim (Bool-cases (j == id)) [
            | inl e ↦
                let own : j ≡ id = (eq_iff j id).0 e in
                let same : rj ≡ r = cc (ap (λ k. lookup k w.sessions) own) in
                rw (own, same)
                  (delta_after-Follows_self O projection id r w c now (mutate r)
                    (honest r (ap (λ k. lookup k w.sessions) own ∙ s.known)) s)
            | inr e ↦ delta_after-Follows_ne O projection id w c now j (mutate rj) e (r, s)
          ])
  ]

  serve_snapshot :
      (w : World R) (c : Option (SessionProjection E H)) (j : String) (mutate : R → R)
      → Follows O projection id w c
      → Served w (snapshot j mutate) c
  unfolding serve mutate_session_snapshot mutate_session_and_emit receive
  serve_snapshot w c j mutate (r, s) = elim (Option-cases (lookup j w.sessions)) [
    | inl gone ↦ rw (gone, mutate_session_and_emit) (r, s)
    | inr (rj, found) ↦
        rw (found, mutate_session_and_emit)
          (elim (Bool-cases (j == id)) [
            | inl e ↦ rw ((eq_iff j id).0 e) (
                snapshot-Follows_self O projection id (mutate rj)
                  (record w { sessions = insert id (mutate rj) w.sessions }) c
                  (ground (arith, eq_refl id, lookup-insert id id (mutate rj) w.sessions)))
            | inr e ↦
                snapshot-Follows_ne O projection id
                  (record w { sessions = insert j (mutate rj) w.sessions }) c j
                  (projection (mutate rj)) e
                  (insert-Follows_ne O projection id w c j (mutate rj) e (r, s))
          ])
  ]

  emit_after-Follows :
      (w : World R) (c : Option (SessionProjection E H)) (j : String)
      (out : R × Option (ServerMessage E H O))
      → Tells projection sessions_snapshot id w (insert j out.0 w.sessions, one out.1)
      → Follows O projection id w c
      → Follows O projection id
          (emit_after projection w j out).0
          (receive id c (emit_after projection w j out).1)
  unfolding emit_after emit_built receive
  emit_after-Follows w c j (rj, none) tells (r, s) =
      let (r', known, told) = tells r s.known in
      (r', emit_built-InSync O projection id r r' w (insert j rj w.sessions) c [] known told s)
  emit_after-Follows w c j (rj, some m) tells (r, s) =
      let (r', known, told) = tells r s.known in
      (
        r',
        emit_built-InSync O projection id r r' w (insert j rj w.sessions) c (m ∷ []) known told s,
      )

  serve_session_changed :
      (w : World R) (c : Option (SessionProjection E H)) (j : String)
      (build : R → R × Option (ServerMessage E H O))
      → ((r : R)
          → lookup j w.sessions ≡ some r
          → Tells projection sessions_snapshot id w
              (insert j (build r).0 w.sessions, one (build r).1))
      → Follows O projection id w c
      → Served w (session_changed j build) c
  unfolding serve mutate_session_and_emit receive
  serve_session_changed w c j build tells (r, s) = elim (Option-cases (lookup j w.sessions)) [
    | inl gone ↦ rw (gone, mutate_session_and_emit) (r, s)
    | inr (rj, found) ↦
        rw (found, mutate_session_and_emit)
          (emit_after-Follows w c j (build rj) (tells rj found) (r, s))
  ]

  serve_sessions_changed :
      (w : World R) (c : Option (SessionProjection E H))
      (build : Table R → Table R × List (ServerMessage E H O))
      → Tells projection sessions_snapshot id w (build w.sessions)
      → Follows O projection id w c
      → Served w (sessions_changed build) c
  unfolding serve mutate_sessions_and_emit
  serve_sessions_changed w c build tells (r, s) =
      let (r', known, told) = tells r s.known in
      let (sessions, ms) = build w.sessions in
      (r', emit_built-InSync O projection id r r' w sessions c ms known told s)

  serve_resync :
      (w : World R) (c : Option (SessionProjection E H)) (j : String)
      → Follows O projection id w c
      → Served w (resync j) c
  unfolding serve emit_current_session_snapshot receive
  serve_resync w c j (r, s) = elim (Option-cases (lookup j w.sessions)) [
    | inl gone ↦ rw (gone, emit_current_session_snapshot) (r, s)
    | inr (rj, found) ↦
        rw (found, emit_current_session_snapshot)
          (elim (Bool-cases (j == id)) [
            | inl e ↦
                let own : j ≡ id = (eq_iff j id).0 e in
                rw own (snapshot-Follows_self O projection id rj w c (rw own at found))
            | inr e ↦ snapshot-Follows_ne O projection id w c j (projection rj) e (r, s)
          ])
  ]

  serve_timer :
      (w : World R) (c : Option (SessionProjection E H)) (generation : ℕ)
      → Follows O projection id w c
      → Served w (timer generation) c
  unfolding serve flush_pending_deltas_for_timer receive
  serve_timer w c generation f =
      elim (Bool-cases
        (not w.pending.flush_scheduled || not (nat_eq w.pending.flush_generation generation))) [
          | inl stale ↦ rw stale f
          | inr fresh ↦ rw fresh (drain-Follows O projection id w c f)
        ]

  serve-Follows :
      (call : Call R E H O) (w : World R) (c : Option (SessionProjection E H))
      → Truthful projection sessions_snapshot id w call
      → Follows O projection id w c
      → Served w call c
  unfolding serve emit_sessions_snapshot emit_many prepare_external_messages drain_and_broadcast
  serve-Follows (delta now j mutate) w c h f = serve_delta w c now j mutate h f
  serve-Follows (snapshot j mutate) w c h f = serve_snapshot w c j mutate f
  serve-Follows (session_changed j build) w c h f = serve_session_changed w c j build h f
  serve-Follows (sessions_changed build) w c h f = serve_sessions_changed w c build h f
  serve-Follows (resync j) w c h f = serve_resync w c j f
  serve-Follows sessions_list w c h f =
      list-Follows O projection id w c (sessions_snapshot w.sessions) h f
  serve-Follows (emitted now ms) w c h (r, s) =
      (r, emit_many-InSync O projection id r now ms w c (h r s.known) s)
  serve-Follows (timer generation) w c h f = serve_timer w c generation f

  receive-append :
      (c : Option (SessionProjection E H)) (ms ns : List (ServerMessage E H O))
      → receive id c (ms ++ ns) ≡ receive id (receive id c ms) ns
  unfolding receive
  receive-append c [] ns = refl
  receive-append c (m ∷ ms) ns = receive-append (deliver id c m) ms ns

  -- Along any calls of the coordinator that keep the session and tell the truth about it, a replica
  -- that was in step with the session's record stays in step: it shows the record, or agrees with it
  -- up to the index that waits in the batch. To tell the truth: an index that a mutation returns
  -- leaves the entries before it as they were, and none leaves all that is shown; a built or emitted
  -- snapshot of the session shows its record; a call that changes what is shown and returns no index
  -- has a snapshot of the session among its messages; deltas of the session are not among the built
  -- messages; and no list of sessions leaves the session out (a controller session is in none).
  pub run-Follows :
      (calls : List (Call R E H O)) (w : World R) (c : Option (SessionProjection E H))
      → TruthfulRun projection sessions_snapshot id w calls
      → Follows O projection id w c
      → Follows O projection id
          (run projection sessions_snapshot w calls).0
          (receive id c (run projection sessions_snapshot w calls).1)
  unfolding run receive
  run-Follows [] w c h f = f
  run-Follows (call ∷ calls) w c h f =
      let w' = (serve projection sessions_snapshot w call).0 in
      let sent = (serve projection sessions_snapshot w call).1 in
      rw receive-append
        (run-Follows calls w' (receive id c sent) h.1 (serve-Follows call w c h.0 f))
