-- ===== src/Events/Client/Replication/Serve.antt =====
-- Runs of the coordinator's calls, and the replica of a session along them.
use fura.Base.{
  ℕ, ◌≡◌, All, refl, true, sym, ap, ◌∙◌, String, false, Option, none, some, List, [], ◌∷◌, ◌++◌,
  arith, str_eq as ◌==◌, take, eq_refl, Bool-cases, inl, inr,
}
use fura.Base.Table.{Table, lookup, insert, lookup-insert}
use fura.Events.Message.{SessionProjection, ServerMessage, session_snapshot, other}
use fura.Events.Pending.{record_delta, flush_due}
use fura.Events.Coordinator.{
  World, drain_and_broadcast, queue_delta, mutate_session_delta, mutate_session_snapshot,
  emit_current_session_snapshot, emit_sessions_snapshot, flush_pending_deltas_for_timer, emit_many,
  delta_after, mutate_session_and_emit, mutate_sessions_and_emit, coordinate_sessions_and_emit,
}
use fura.Events.Client.Link.{
  Roster, receive, keeps_session, exchange_all, exchange-snapshot, exchange-snapshot_ne,
}
use fura.Events.Client.Replication.Told.{Told, broadcast-InSync}
use fura.Events.Client.Replication.Many.{Brings}
use fura.Events.Client.Replication.Sync.{
  InSync, drained_link, drained-Current, drain_and_broadcast-InSync, record_delta-InSync_self,
  record_delta-InSync_ne, schedule_flush-InSync,
}

-- A call of the coordinator, with the time that it reads.
pub data Call (R E H O : Type 0) : Type 0 where
  delta : ℕ → String → (R → R × Option ℕ) → Call R E H O
  snapshot : String → (R → R) → Call R E H O
  session_changed : String → (R → R × Option (ServerMessage E H O)) → Call R E H O
  sessions_changed : (Table R → Table R × List (ServerMessage E H O)) → Call R E H O
  resync : String → Call R E H O
  sessions_list : Call R E H O
  emitted : ℕ → List (ServerMessage E H O) → Call R E H O
  timer : ℕ → Call R E H O

module _ {R E H O : Type 0} (projection : R → SessionProjection E H)
    (sessions_snapshot : Table R → O) where
  unfoldable pub serve : World R → Call R E H O → World R × List (ServerMessage E H O)
  serve w (delta now id mutate) =
      let (w', sent, _) = mutate_session_delta projection w now id mutate in (w', sent)
  serve w (snapshot id mutate) =
      let (w', sent, _) = mutate_session_snapshot projection w id mutate in (w', sent)
  serve w (session_changed id build) =
      let (w', sent, _) = mutate_session_and_emit projection w id build in (w', sent)
  serve w (sessions_changed build) =
      let (w', sent, _) = mutate_sessions_and_emit projection w build in (w', sent)
  serve w (resync id) =
      let (w', sent, _) = emit_current_session_snapshot projection w id in (w', sent)
  serve w sessions_list = emit_sessions_snapshot projection sessions_snapshot w
  serve w (emitted now ms) = emit_many projection w now ms
  serve w (timer generation) = flush_pending_deltas_for_timer projection w generation

  -- A call of `coordinate_sessions_and_emit` takes the world where `mutate_sessions_and_emit` takes
  -- it, and sends the same.
  coordinate-mutate {ℓ} :
      {A : Type ℓ} (w : World R) (build : Table R → Table R × A × List (ServerMessage E H O))
      → let coordinated = coordinate_sessions_and_emit projection w build in
        let served =
          serve w (sessions_changed (λ sessions. ((build sessions).0, (build sessions).2))) in
        (coordinated.0 ≡ served.0) × (coordinated.1 ≡ served.1)
  unfolding serve coordinate_sessions_and_emit mutate_sessions_and_emit
  coordinate-mutate w build = (refl, refl)

  unfoldable pub run : World R → List (Call R E H O) → World R × List (ServerMessage E H O)
  run w [] = (w, [])
  run w (call ∷ calls) =
      let (w', sent) = serve w call in let (w'', later) = run w' calls in (w'', sent ++ later)

-- A mutation tells the truth: with no index it changes nothing that is shown, and with an index it
-- keeps the entries before it.
abbrev pub Honest : {R E H : Type 0} → (R → SessionProjection E H) → R → R × Option ℕ → Type 0
Honest projection r (r', none) = projection r' ≡ projection r
Honest projection r (r', some k) =
    take k (projection r').transcript ≡ take k (projection r).transcript

-- `build().into_iter()` of the message of one session.
abbrev pub one : {A : Type 0} → Option A → List A
one none = []
one (some a) = a ∷ []

module _ {R E H O : Type 0} ⦃roster : Roster O⦄ (projection : R → SessionProjection E H)
    (sessions_snapshot : Table R → O) (id : String) where
  -- A change of the records keeps the session, and its messages tell what the record has become.
  abbrev pub Tells : World R → Table R × List (ServerMessage E H O) → Type 0
  Tells w (sessions, ms) =
      (r : R)
      → lookup id w.sessions ≡ some r
      → (r' : R) × (lookup id sessions ≡ some r') × Told id (projection r) (projection r') ms

  -- A call tells the truth about the session.
  abbrev pub Truthful : World R → Call R E H O → Type 0
  Truthful w (delta now j mutate) =
      (r : R) → lookup j w.sessions ≡ some r → Honest projection r (mutate r)
  Truthful w (session_changed j build) =
      (r : R)
      → lookup j w.sessions ≡ some r
      → Tells w (insert j (build r).0 w.sessions, one (build r).1)
  Truthful w (sessions_changed build) = Tells w (build w.sessions)
  Truthful w sessions_list =
      keeps_session id (roster.session_ids (sessions_snapshot w.sessions)) ≡ true
  Truthful w (emitted now ms) =
      (r : R) → lookup id w.sessions ≡ some r → All (Brings id (projection r)) ms
  Truthful w (snapshot j mutate) = Unit
  Truthful w (resync j) = Unit
  Truthful w (timer generation) = Unit

  -- Each call of a run does.
  abbrev pub TruthfulRun : World R → List (Call R E H O) → Type 0
  TruthfulRun w [] = Unit
  TruthfulRun w (call ∷ calls) =
      Truthful w call × TruthfulRun (serve projection sessions_snapshot w call).0 calls

module _ (O : Type 0) ⦃roster : Roster O⦄ {R E H : Type 0} (projection : R → SessionProjection E H)
    (id : String) where
  -- The replica follows some record of the session.
  abbrev pub Follows : World R → Option (SessionProjection E H) → Type 0
  Follows w c = (r : R) × InSync projection id r w c

  pub drain-Follows :
      (w : World R) (c : Option (SessionProjection E H))
      → Follows w c
      → Follows
          (drain_and_broadcast {O = O} projection w []).0
          (receive id c (drain_and_broadcast {O = O} projection w []).1)
  unfolding exchange_all
  drain-Follows w c (r, s) = (
    r,
    drain_and_broadcast-InSync O projection id r w c [] s.known
        (drained-Current O projection id r w c s),
  )

  -- A list of the sessions that has the session.
  pub list-Follows :
      (w : World R) (c : Option (SessionProjection E H)) (m : O)
      → keeps_session id (roster.session_ids m) ≡ true
      → Follows w c
      → Follows
          (drain_and_broadcast projection w (other m ∷ [])).0
          (receive id c (drain_and_broadcast projection w (other m ∷ [])).1)
  list-Follows w c m keeps (r, s) = (
    r,
    broadcast-InSync O projection id r r w w.sessions c (other m ∷ []) s.known
        ((keeps, tt), inl refl) s,
  )

  queue-Follows :
      (w : World R) (c : Option (SessionProjection E H)) (now : ℕ) (j : String) (k : ℕ)
      → Follows (record w { pending = record_delta w.pending j k }) c
      → Follows
          (queue_delta {O = O} projection w now j k).0
          (receive id c (queue_delta {O = O} projection w now j k).1)
  unfolding queue_delta receive
  queue-Follows w c now j k (r, s) =
      elim (Bool-cases (flush_due (record_delta w.pending j k) now)) [
        | inl due ↦
            rw due (drain-Follows (record w { pending = record_delta w.pending j k }) c (r, s))
        | inr early ↦ rw early (
          r,
          schedule_flush-InSync projection id r (record w { pending = record_delta w.pending j k })
              c now _ s,
        )
      ]

  -- A change of another session's record.
  pub insert-Follows_ne :
      (w : World R) (c : Option (SessionProjection E H)) (j : String) (r' : R)
      → (j == id) ≡ false
      → Follows w c
      → Follows (record w { sessions = insert j r' w.sessions }) c
  insert-Follows_ne w c j r' e (r, s) = (
    r,
    record {
      known = ground (arith, s.known, lookup-insert j id r' w.sessions);
      queued = s.queued;
      agrees = s.agrees;
    },
  )

  -- A change of the session's record that does not show.
  insert-Follows_self :
      (r r' : R) (w : World R) (c : Option (SessionProjection E H))
      → projection r' ≡ projection r
      → InSync projection id r w c
      → Follows (record w { sessions = insert id r' w.sessions }) c
  insert-Follows_self r r' w c same s = (
    r',
    record {
      known = ground (arith, eq_refl id, lookup-insert id id r' w.sessions);
      queued = s.queued;
      agrees = rw same s.agrees;
    },
  )

  -- A snapshot of the session settles the replica, whatever it held.
  pub snapshot-Follows_self :
      (r : R) (w : World R) (c : Option (SessionProjection E H))
      → lookup id w.sessions ≡ some r
      → Follows
          (drain_and_broadcast {O = O} projection w (session_snapshot id (projection r) ∷ [])).0
          (receive id c
            (drain_and_broadcast {O = O} projection w (session_snapshot id (projection r) ∷ [])).1)
  unfolding exchange_all
  snapshot-Follows_self r w c known = (
    r,
    drain_and_broadcast-InSync O projection id r w c (session_snapshot id (projection r) ∷ []) known
        (exchange-snapshot O id (drained_link O projection id w c) (projection r)),
  )

  pub snapshot-Follows_ne :
      (w : World R) (c : Option (SessionProjection E H)) (j : String) (p : SessionProjection E H)
      → (j == id) ≡ false
      → Follows w c
      → Follows
          (drain_and_broadcast {O = O} projection w (session_snapshot j p ∷ [])).0
          (receive id c (drain_and_broadcast {O = O} projection w (session_snapshot j p ∷ [])).1)
  unfolding exchange_all
  snapshot-Follows_ne w c j p e (r, s) =
      let (held, number) = exchange-snapshot_ne O id (drained_link O projection id w c) j p e in
      (
        r,
        drain_and_broadcast-InSync O projection id r w c (session_snapshot j p ∷ []) s.known (
            held
            ∙ drained-Current O projection id r w c s
            ∙ ap (λ n. some (record (projection r) { seq = n })) (sym number)),
      )

  pub delta_after-Follows_self :
      (r : R) (w : World R) (c : Option (SessionProjection E H)) (now : ℕ) (out : R × Option ℕ)
      → Honest projection r out
      → InSync projection id r w c
      → Follows
          (delta_after {O = O} projection w now id out).0
          (receive id c (delta_after {O = O} projection w now id out).1)
  unfolding delta_after receive
  delta_after-Follows_self r w c now (r', none) h s = insert-Follows_self r r' w c h s
  delta_after-Follows_self r w c now (r', some k) h s =
      queue-Follows (record w { sessions = insert id r' w.sessions }) c now id k
        (r', record_delta-InSync_self projection id r r' w c k h s)

  pub delta_after-Follows_ne :
      (w : World R) (c : Option (SessionProjection E H)) (now : ℕ) (j : String) (out : R × Option ℕ)
      → (j == id) ≡ false
      → Follows w c
      → Follows
          (delta_after {O = O} projection w now j out).0
          (receive id c (delta_after {O = O} projection w now j out).1)
  unfolding delta_after receive
  delta_after-Follows_ne w c now j (r', none) e f = insert-Follows_ne w c j r' e f
  delta_after-Follows_ne w c now j (r', some k) e (r, s) =
      queue-Follows (record w { sessions = insert j r' w.sessions }) c now j k
        (r, record_delta-InSync_ne projection id r w c j r' k e s)
