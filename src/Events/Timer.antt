-- ===== src/Events/Timer.antt =====
-- src/state.rs with the browser's replica: what the timer does when it fires behind a run.
use fura.Base.{
  All, ◌≡◌, String, Bool, true, false, not, ◌||◌, Option, some, List, [], arith, ◌==◌, ==_refl,
  Option-cases, inl, inr,
}
use fura.Base.Table.{Table, lookup}
use fura.Events.Message.{SessionProjection, ServerMessage, seq_of}
use fura.Events.Pending.{PendingSessionDeltas, drain}
use fura.Events.Coordinator.{World, drain_and_broadcast, flush_pending_deltas_for_timer}
use fura.Events.Client.{Roster, receive, exchange_all, shown}
use fura.Events.Client.Drain.{Current}
use fura.Events.Client.Replication.{
  Call, run, TruthfulRun, InSync, Follows, run-Follows, drain_and_broadcast-InSync, drained-Current,
}
use fura.Events.Armed.{Arms, IsArmed, run-IsArmed}

-- The early return of a timer: its batch has gone, or is of another generation.
abbrev stale_timer : PendingSessionDeltas → Bool
stale_timer p = not p.flush_scheduled || not (p.flush_generation == p.flush_generation)

module _ (O : Type 0) {R E H : Type 0} (projection : R → SessionProjection E H)
    (sessions_snapshot : Table R → O) where
  -- The replica after the run, and after the timer of the batch that the run leaves.
  abbrev pub after_run : World R → List (Call R E H O) → World R
  after_run w calls = (run projection sessions_snapshot w calls).0

  abbrev pub after_timer : World R → World R × List (ServerMessage E H O)
  after_timer w = flush_pending_deltas_for_timer projection w w.pending.flush_generation

  flush-Current :
      ⦃roster : Roster O⦄ (id : String) (r : R) (w : World R) (c : Option (SessionProjection E H))
      → IsArmed w
      → InSync projection id r w c
      → Current id (projection r) ((after_timer w).0.session_seqs, receive id c (after_timer w).1)
  unfolding flush_pending_deltas_for_timer receive drain_and_broadcast drain lookup exchange_all
  flush-Current id r w c a s = elim a [
    | inr (on, runs) ↦
        let fires : stale_timer w.pending ≡ false =
          ground (arith, on, ==_refl w.pending.flush_generation) in
        rw fires
          (drain_and_broadcast-InSync O projection id r w c [] s.known
            (drained-Current O projection id r w c s)).agrees
    | inl (nothing, off) ↦
        let idle : stale_timer w.pending ≡ true = ground (arith, off) in
        rw idle (elim (Option-cases (lookup id w.pending.sessions)) [
          | inl fresh ↦ rw fresh at s.agrees
          | inr (d, found) ↦ absurd (cc (s.queued d found))
        ])
  ]

  -- The coordinator serves calls that keep the session and tell the truth about it: an index that a
  -- mutation returns leaves the entries before it as they were, and none leaves all that is shown;
  -- a built or emitted snapshot of the session shows its record; a call that changes what is shown
  -- and returns no index has a snapshot of the session among its messages; deltas of the session are
  -- not among the built messages; and no list of sessions leaves the session out (a controller
  -- session is in none). In no list of messages of one `emit_many` a delta stands behind another
  -- message that itself stands behind a delta. If a waiting batch has a timer at first and the
  -- replica is in step at first, then once the timer of the batch that the calls leave has fired,
  -- the replica shows the session's record as it then is, under the session's number.
  pub run-converges :
      ⦃roster : Roster O⦄ (id : String) (calls : List (Call R E H O)) (w : World R)
      (c : Option (SessionProjection E H))
      → TruthfulRun projection sessions_snapshot id w calls
      → All Arms calls
      → IsArmed w
      → Follows O projection id w c
      → let w' = after_run w calls in
        let c' = receive id c (run projection sessions_snapshot w calls).1 in
        (r : R) × (lookup id w'.sessions ≡ some r)
        × (receive id c' (after_timer w').1
            ≡ some (shown (projection r) (seq_of id (after_timer w').0.session_seqs)))
  run-converges id calls w c h arms a f =
      let w' = after_run w calls in
      let c' = receive id c (run projection sessions_snapshot w calls).1 in
      let a' = run-IsArmed O projection sessions_snapshot calls w arms a in
      let (r, s) = run-Follows O projection sessions_snapshot id calls w c h f in
      (r, s.known, flush-Current id r w' c' a' s)
