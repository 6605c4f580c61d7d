-- ===== src/Events/Armed.antt =====
-- src/state.rs: along every call of the coordinator, a batch that waits has a running timer.
use fura.Base.{
  ℕ, All, ◌≡◌, refl, sym, ◌∙◌, String, true, not, ◌||◌, Option, none, some, List, [], ◌∷◌, ◌==◌,
  Bool-cases, Option-cases, inl, inr,
}
use fura.Base.Table.{Table, lookup, insert}
use fura.Events.Message.{SessionProjection, ServerMessage, session_snapshot, other}
use fura.Events.Pending.{record_delta, record_delta_schedule, flush_due, drain}
use fura.Events.Coordinator.{
  World, drain_and_broadcast, queue_delta, delta_after, mutate_session_delta,
  mutate_session_snapshot, mutate_session_and_emit, emit_current_session_snapshot,
  mutate_sessions_and_emit, emit_after, emit_built, emit_sessions_snapshot,
  flush_pending_deltas_for_timer, emit_many,
}
use fura.Events.Client.Replication.{
  Call, delta, snapshot, session_changed, sessions_changed, resync, sessions_list, emitted, timer,
  serve, run,
}
use fura.Events.Schedule.{Armed, in_one_run, in_one_run-Armed, runs_of, schedule_flush_runs}

-- So it is in the call, if it is one of `emit_many`.
abbrev pub Arms : {R E H O : Type 0} → Call R E H O → Type 0
Arms (emitted now ms) = in_one_run ms ≡ true
Arms call = Unit

-- The batch of a world.
abbrev pub IsArmed : {R : Type 0} → World R → Type 0
IsArmed w = Armed w.pending w.timers

module _ (O : Type 0) {R E H : Type 0} (projection : R → SessionProjection E H) where
  drain-IsArmed :
      (w : World R) (ms : List (ServerMessage E H O))
      → IsArmed (drain_and_broadcast projection w ms).0
  unfolding drain_and_broadcast drain
  drain-IsArmed w ms = inl (refl, refl)

  queue-IsArmed :
      (w : World R) (now : ℕ) (j : String) (k : ℕ)
      → IsArmed w
      → IsArmed (queue_delta {O = O} projection w now j k).0
  unfolding queue_delta
  queue-IsArmed w now j k a =
      let p = record_delta w.pending j k in
      let (flag, number) = record_delta_schedule w.pending j k in
      let (on, runs) =
        schedule_flush_runs p now w.timers
          (λ h. rw number (runs_of w.pending w.timers a (sym flag ∙ h))) in
      elim (Bool-cases (flush_due (record_delta w.pending j k) now)) [
        | inl due ↦ rw due (drain-IsArmed (record w { pending = record_delta w.pending j k }) [])
        | inr early ↦ rw early (inr (on, runs))
      ]

  delta_after-IsArmed :
      (w : World R) (now : ℕ) (j : String) (out : R × Option ℕ)
      → IsArmed w
      → IsArmed (delta_after {O = O} projection w now j out).0
  unfolding delta_after
  delta_after-IsArmed w now j (r', none) a = a
  delta_after-IsArmed w now j (r', some k) a =
      queue-IsArmed (record w { sessions = insert j r' w.sessions }) now j k a

  emit_built-IsArmed :
      (w : World R) (ms : List (ServerMessage E H O))
      → IsArmed w
      → IsArmed (emit_built projection w ms).0
  unfolding emit_built
  emit_built-IsArmed w [] a = a
  emit_built-IsArmed w (m ∷ ms) a = drain-IsArmed w (m ∷ ms)

  emit_after-IsArmed :
      (w : World R) (j : String) (out : R × Option (ServerMessage E H O))
      → IsArmed w
      → IsArmed (emit_after projection w j out).0
  unfolding emit_after
  emit_after-IsArmed w j (r', none) a = a
  emit_after-IsArmed w j (r', some m) a =
      drain-IsArmed (record w { sessions = insert j r' w.sessions }) (m ∷ [])

  emit_many-IsArmed :
      (w : World R) (now : ℕ) (ms : List (ServerMessage E H O))
      → in_one_run ms ≡ true
      → IsArmed w
      → IsArmed (emit_many projection w now ms).0
  unfolding emit_many
  emit_many-IsArmed w now [] h a = a
  emit_many-IsArmed w now (m ∷ ms) h a =
      in_one_run-Armed projection w.sessions now w.timers (m ∷ ms) w.pending h a

  module _ (sessions_snapshot : Table R → O) where
    -- Every call leaves a waiting batch with a timer.
    serve-IsArmed :
        (call : Call R E H O) (w : World R)
        → Arms call
        → IsArmed w
        → IsArmed (serve projection sessions_snapshot w call).0
    unfolding serve mutate_session_delta mutate_session_snapshot mutate_session_and_emit
        mutate_sessions_and_emit emit_current_session_snapshot emit_sessions_snapshot
        flush_pending_deltas_for_timer
    serve-IsArmed (delta now j mutate) w h a = elim (Option-cases (lookup j w.sessions)) [
      | inl gone ↦ rw (gone, mutate_session_delta) a
      | inr (r, found) ↦ rw (found, mutate_session_delta) (delta_after-IsArmed w now j (mutate r) a)
    ]
    serve-IsArmed (snapshot j mutate) w h a = elim (Option-cases (lookup j w.sessions)) [
      | inl gone ↦ rw (gone, mutate_session_and_emit) a
      | inr (r, found) ↦
          rw (found, mutate_session_and_emit)
            (drain-IsArmed (record w { sessions = insert j (mutate r) w.sessions })
              (session_snapshot j (projection (mutate r)) ∷ []))
    ]
    serve-IsArmed (resync j) w h a = elim (Option-cases (lookup j w.sessions)) [
      | inl gone ↦ rw (gone, emit_current_session_snapshot) a
      | inr (r, found) ↦
          rw (found, emit_current_session_snapshot)
            (drain-IsArmed w (session_snapshot j (projection r) ∷ []))
    ]
    serve-IsArmed sessions_list w h a = drain-IsArmed w (other (sessions_snapshot w.sessions) ∷ [])
    serve-IsArmed (emitted now ms) w h a = emit_many-IsArmed w now ms h a
    serve-IsArmed (session_changed j build) w h a = elim (Option-cases (lookup j w.sessions)) [
      | inl gone ↦ rw (gone, mutate_session_and_emit) a
      | inr (r, found) ↦ rw (found, mutate_session_and_emit) (emit_after-IsArmed w j (build r) a)
    ]
    serve-IsArmed (sessions_changed build) w h a =
        let (sessions, ms) = build w.sessions in
        emit_built-IsArmed (record w { sessions = sessions }) ms a
    serve-IsArmed (timer generation) w h a =
        elim (Bool-cases
          (not w.pending.flush_scheduled || not (w.pending.flush_generation == generation))) [
            | inl stale ↦ rw stale a
            | inr fresh ↦ rw fresh (drain-IsArmed w [])
          ]

    -- Along any calls of the coordinator, if in no list of messages of one `emit_many` a delta stands
    -- behind another message that itself stands behind a delta, a batch that waits keeps a timer: if
    -- at first either nothing waits and no flush is scheduled, or a flush is scheduled and a timer of
    -- its generation was spawned, then so it is at the end.
    pub run-IsArmed :
        (calls : List (Call R E H O)) (w : World R)
        → All Arms calls
        → IsArmed w
        → IsArmed (run projection sessions_snapshot w calls).0
    unfolding run
    run-IsArmed [] w h a = a
    run-IsArmed (call ∷ calls) w h a =
        run-IsArmed calls (serve projection sessions_snapshot w call).0 h.1
          (serve-IsArmed call w h.0 a)
