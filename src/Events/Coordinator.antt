-- ===== src/Events/Coordinator.antt =====
-- src/state.rs: the calls of `WsEventCoordinator`. The gate makes each call one step, so a call
-- takes the world to the next one, with the messages that it broadcasts. `timers` collects the
-- generations for which a timer task was spawned. Debug records and the tokio runtime are left out.
use fura.Base.{
  ℕ, String, Bool, true, false, ◌||◌, not, Option, none, some, List, [], ◌∷◌, ◌++◌, ◌==◌,
  if◌then◌else◌, length,
}
use fura.Base.Table.{Table, lookup, insert}
use fura.Events.Message.{
  SessionProjection, ServerMessage, session_snapshot, session_delta, other, send_all,
}
use fura.Events.Pending.{PendingSessionDeltas, record_delta, schedule_flush, flush_due, drain}

pub record World (R : Type 0) : Type 0 where
  pub sessions : Table R
  pub pending : PendingSessionDeltas
  pub session_seqs : Table ℕ
  pub timers : List ℕ

-- `schedule_timer_flush_if_needed`
abbrev pub spawn_timer : Option ℕ → List ℕ → List ℕ
spawn_timer none timers = timers
spawn_timer (some generation) timers = timers ++ generation ∷ []

module _ {R E H O : Type 0} (projection : R → SessionProjection E H) where
  -- `send_all` on the coordinator's counters.
  unfoldable pub broadcast :
      World R → List (ServerMessage E H O) → World R × List (ServerMessage E H O)
  broadcast w messages =
      let (seqs, sent) = send_all w.session_seqs messages in
      (record w { session_seqs = seqs }, sent)

  -- The batch is drained first, then the messages follow.
  unfoldable pub drain_and_broadcast :
      World R → List (ServerMessage E H O) → World R × List (ServerMessage E H O)
  unfolding broadcast
  drain_and_broadcast w messages =
      let (pending, drained) = drain projection w.pending w.sessions in
      broadcast (record w { pending = pending }) (drained ++ messages)

  -- The loop of `prepare_external_messages`: batch, messages to send, generation to start.
  unfoldable pub prepare_external_messages :
      Table R
      → ℕ
      → List (ServerMessage E H O)
      → PendingSessionDeltas
      → Option ℕ
      → PendingSessionDeltas × List (ServerMessage E H O) × Option ℕ
  prepare_external_messages sessions now [] pending generation = (pending, [], generation)
  prepare_external_messages sessions now (session_delta id state ∷ rest) pending none =
      let (pending', generation) =
        schedule_flush (record_delta pending id state.transcript_replace_from) now in
      prepare_external_messages sessions now rest pending' generation
  prepare_external_messages sessions now (session_delta id state ∷ rest) pending (some g) =
      prepare_external_messages sessions now rest
        (record_delta pending id state.transcript_replace_from) (some g)
  prepare_external_messages sessions now (session_snapshot id state ∷ rest) pending generation =
      let (pending', drained) = drain projection pending sessions in
      let (final, sent, scheduled) =
        prepare_external_messages sessions now rest pending' generation in
      (final, drained ++ (session_snapshot id state ∷ sent), scheduled)
  prepare_external_messages sessions now (other m ∷ rest) pending generation =
      let (pending', drained) = drain projection pending sessions in
      let (final, sent, scheduled) =
        prepare_external_messages sessions now rest pending' generation in
      (final, drained ++ (other m ∷ sent), scheduled)

  unfoldable pub emit_many :
      World R → ℕ → List (ServerMessage E H O) → World R × List (ServerMessage E H O)
  unfolding broadcast
  emit_many w now [] = (w, [])
  emit_many w now (m ∷ ms) =
      let (pending, prepared, generation) =
        prepare_external_messages w.sessions now (m ∷ ms) w.pending none in
      let (w', sent) = broadcast (record w { pending = pending }) prepared in
      (record w' { timers = spawn_timer generation w'.timers }, sent)

  -- `mutate_session_delta`, once `replace_from` is known and the record is written back.
  unfoldable pub queue_delta : World R → ℕ → String → ℕ → World R × List (ServerMessage E H O)
  unfolding drain_and_broadcast
  queue_delta w now id replace_from =
      let pending = record_delta w.pending id replace_from in
      if flush_due pending now
      then drain_and_broadcast (record w { pending = pending }) []
      else (let (pending', generation) = schedule_flush pending now in
          (record w { pending = pending'; timers = spawn_timer generation w.timers }, []))

  unfoldable pub delta_after :
      World R → ℕ → String → R × Option ℕ → World R × List (ServerMessage E H O) × Bool
  unfolding queue_delta
  delta_after w now id (r, none) = (record w { sessions = insert id r w.sessions }, [], false)
  delta_after w now id (r, some replace_from) =
      let (w', sent) =
        queue_delta (record w { sessions = insert id r w.sessions }) now id replace_from in
      (w', sent, true)

  -- A mutation that yields no index still changes the record.
  unfoldable pub mutate_session_delta :
      World R → ℕ → String → (R → R × Option ℕ) → World R × List (ServerMessage E H O) × Bool
  unfolding delta_after
  mutate_session_delta w now id mutate = elim (lookup id w.sessions) [
    | none ↦ (w, [], false)
    | some r ↦ delta_after w now id (mutate r)
  ]

  unfoldable pub emit_after :
      World R
      → String
      → R × Option (ServerMessage E H O)
      → World R × List (ServerMessage E H O) × Bool
  unfolding drain_and_broadcast
  emit_after w id (r, none) = (record w { sessions = insert id r w.sessions }, [], false)
  emit_after w id (r, some message) =
      let (w', sent) =
        drain_and_broadcast (record w { sessions = insert id r w.sessions }) (message ∷ []) in
      (w', sent, true)

  unfoldable pub mutate_session_and_emit :
      World R
      → String
      → (R → R × Option (ServerMessage E H O))
      → World R × List (ServerMessage E H O) × Bool
  unfolding emit_after
  mutate_session_and_emit w id build = elim (lookup id w.sessions) [
    | none ↦ (w, [], false)
    | some r ↦ emit_after w id (build r)
  ]

  unfoldable pub mutate_session_snapshot :
      World R → String → (R → R) → World R × List (ServerMessage E H O) × Bool
  unfolding mutate_session_and_emit
  mutate_session_snapshot w id mutate =
      mutate_session_and_emit w id
        (λ r. (mutate r, some (session_snapshot id (projection (mutate r)))))

  -- What `mutate_sessions_and_emit` and `coordinate_sessions_and_emit` share: with no message the
  -- batch stays.
  unfoldable pub emit_built :
      World R → List (ServerMessage E H O) → World R × List (ServerMessage E H O)
  unfolding drain_and_broadcast
  emit_built w [] = (w, [])
  emit_built w (m ∷ ms) = drain_and_broadcast w (m ∷ ms)

  unfoldable pub coordinate_sessions_and_emit {ℓ} :
      {A : Type ℓ}
      → World R
      → (Table R → Table R × A × List (ServerMessage E H O))
      → World R × List (ServerMessage E H O) × A
  unfolding emit_built
  coordinate_sessions_and_emit w build =
      let (sessions, result, messages) = build w.sessions in
      let (w', sent) = emit_built (record w { sessions = sessions }) messages in (w', sent, result)

  unfoldable pub emit_current_session_snapshot :
      World R → String → World R × List (ServerMessage E H O) × Bool
  unfolding drain_and_broadcast
  emit_current_session_snapshot w id = elim (lookup id w.sessions) [
    | none ↦ (w, [], false)
    | some r ↦
        let (w', sent) = drain_and_broadcast w (session_snapshot id (projection r) ∷ []) in
        (w', sent, true)
  ]

  -- `sessions_snapshot` stands for `sessions_snapshot_from_map`.
  unfoldable pub emit_sessions_snapshot :
      (Table R → O) → World R → World R × List (ServerMessage E H O)
  unfolding drain_and_broadcast
  emit_sessions_snapshot sessions_snapshot w =
      drain_and_broadcast w (other (sessions_snapshot w.sessions) ∷ [])

  -- A timer of another generation, or after its batch has gone, does nothing.
  unfoldable pub flush_pending_deltas_for_timer : World R → ℕ → World R × List (ServerMessage E H O)
  unfolding drain_and_broadcast
  flush_pending_deltas_for_timer w generation =
      if not w.pending.flush_scheduled || not (w.pending.flush_generation == generation)
      then (w, [])
      else drain_and_broadcast w []

  unfoldable pub mutate_sessions_and_emit :
      World R
      → (Table R → Table R × List (ServerMessage E H O))
      → World R × List (ServerMessage E H O) × ℕ
  unfolding emit_built
  mutate_sessions_and_emit w build =
      let (sessions, messages) = build w.sessions in
      let (w', sent) = emit_built (record w { sessions = sessions }) messages in
      (w', sent, length messages)
