-- ===== src/Web/Outbound/Converges.antt =====
-- src/web.rs with frontend/src/sessionClientState.ts: the coordinator, a
-- connection and the browser's replica of a session.
use mathlib.Core.Path.{subst}
use fura.Base.{ℕ, ◌≡◌, All, sym, ap, ◌∙◌, String, Option, some, List, ◌++◌}
use fura.Events.Message.{SessionProjection}
use fura.Events.Client.{Roster, receive}
use fura.Base.Table.{Table, lookup}
use fura.Events.Message.{seq_of}
use fura.Events.Client.{shown}
use fura.Events.Coordinator.{World}
use fura.Events.Client.Replication.{Call, run, TruthfulRun, Follows}
use fura.Events.Armed.{Arms, IsArmed}
use fura.Events.Timer.{after_run, after_timer, run-converges}
use fura.Web.Outbound.{WebSocketUpdateMode, send_broadcasts, Notice, Outgoing}
use fura.Web.Outbound.Replica.{Retains, rounds_of, taken, receive-append, receive-send_broadcasts}

module _ (S O : Type 0) ⦃roster : Roster (Notice S O)⦄ {R E H : Type 0}
    (projection : R → SessionProjection E H) (sessions_snapshot : Table R → Notice S O) where
  abbrev pub broadcasts : World R → List (Call R E H (Notice S O)) → List (Outgoing E H S O)
  broadcasts w calls =
      (run projection sessions_snapshot w calls).1
      ++ (after_timer (Notice S O) projection sessions_snapshot
          (after_run (Notice S O) projection sessions_snapshot w calls)).1

  -- The coordinator serves calls, and then the timer of the batch that they leave. The calls keep the
  -- session and tell the truth about it: an index that a mutation returns leaves the entries before
  -- it as they were, and none leaves all that is shown; a built or emitted snapshot of the session
  -- shows its record; a call that changes what is shown and returns no index has a snapshot of the
  -- session among its messages; and deltas of the session are not among the built messages. In no
  -- list of messages of one `emit_many` a delta stands behind another message that itself stands
  -- behind a delta; no list of the sessions, and none that is broadcast, leaves the session out; a
  -- waiting batch has a timer at first and the replica is in step at first. Then a connection that
  -- keeps up, in either mode and whatever groups it finds its broadcasts in, sends what makes the
  -- replica show the session's record, under the session's number.
  pub send_broadcasts-converges :
      (id : String) (calls : List (Call R E H (Notice S O))) (w : World R)
      (c : Option (SessionProjection E H)) (connection seq : ℕ) (mode : WebSocketUpdateMode)
      (groups : List (Outgoing E H S O × List (Outgoing E H S O)))
      → TruthfulRun projection sessions_snapshot id w calls
      → All Arms calls
      → IsArmed w
      → Follows (Notice S O) projection id w c
      → All (Retains id) (broadcasts w calls)
      → taken mode groups ≡ broadcasts w calls
      → let w' = after_run (Notice S O) projection sessions_snapshot w calls in
        let w'' = (after_timer (Notice S O) projection sessions_snapshot w').0 in
        (r : R) × (lookup id w'.sessions ≡ some r)
        × (receive id c (send_broadcasts connection mode (rounds_of groups) seq)
            ≡ some (shown (projection r) (seq_of id w''.session_seqs)))
  send_broadcasts-converges id calls w c connection seq mode groups h arms a f keeps j =
      let (r, known, e) =
        run-converges (Notice S O) projection sessions_snapshot id calls w c h arms a f in
      (
        r,
        known,
        receive-send_broadcasts id c connection seq mode groups
              (subst (All (Retains id)) (sym j) keeps)
            ∙ ap (receive id c) j
            ∙ receive-append id c _ _
            ∙ e,
      )
