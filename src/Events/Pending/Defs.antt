-- ===== src/Events/Pending/Defs.antt =====
-- src/state.rs: `PendingSessionDeltas`, the batch of deltas that wait for the throttle window.
use fura.Base.{
  ℕ, ◌+◌, min, String, Bool, true, false, ◌&&◌, Option, none, some, List, [], ◌∷◌, ◌++◌, leb,
  length, if◌then◌else◌,
}
use fura.Base.Table.{Table, lookup, insert}
use fura.Events.Message.{
  SessionProjection, ServerMessage, session_delta, from_projection_replace_tail, next_u64,
}

-- Milliseconds; an `Instant` is a count of milliseconds.
abbrev pub session_delta_throttle_window : ℕ
session_delta_throttle_window = 250

pub record PendingSessionDelta : Type 0 where
  pub min_replace_from : ℕ

pub record PendingSessionDeltas : Type 0 where
  pub sessions : Table PendingSessionDelta
  pub order : List String
  pub flush_scheduled : Bool
  pub flush_generation : ℕ
  pub flush_due_at : Option ℕ

abbrev pub empty : PendingSessionDeltas
empty = record {
  sessions = [];
  order = [];
  flush_scheduled = false;
  flush_generation = 0;
  flush_due_at = none;
}

-- The two branches of `record_delta`, on what `get_mut` finds.
unfoldable pub record_delta_in :
    Option PendingSessionDelta → PendingSessionDeltas → String → ℕ → PendingSessionDeltas
record_delta_in (some pending) p session_id replace_from = record p {
  sessions =
      insert session_id (record { min_replace_from = min pending.min_replace_from replace_from })
        p.sessions;
}
record_delta_in none p session_id replace_from = record p {
  order = p.order ++ session_id ∷ [];
  sessions = insert session_id (record { min_replace_from = replace_from }) p.sessions;
}

unfoldable pub record_delta : PendingSessionDeltas → String → ℕ → PendingSessionDeltas
unfolding record_delta_in
record_delta p session_id replace_from =
    record_delta_in (lookup session_id p.sessions) p session_id replace_from

-- The generation to start a timer for, if none is running.
unfoldable pub schedule_flush : PendingSessionDeltas → ℕ → PendingSessionDeltas × Option ℕ
schedule_flush p now = if p.flush_scheduled then (p, none) else (
  record p {
    flush_scheduled = true;
    flush_due_at = some (now + session_delta_throttle_window);
    flush_generation = next_u64 p.flush_generation;
  },
  some (next_u64 p.flush_generation),
)

is_due : ℕ → Option ℕ → Bool
is_due now none = false
is_due now (some due_at) = leb due_at now

unfoldable pub flush_due : PendingSessionDeltas → ℕ → Bool
unfolding is_due
flush_due p now = p.flush_scheduled && is_due now p.flush_due_at

module _ {R E H O : Type 0} (projection : R → SessionProjection E H) where
  -- The delta of one batched session, unless the batch or the record has gone.
  unfoldable pub delta_message :
      String → Option PendingSessionDelta → Option R → List (ServerMessage E H O)
  delta_message id (some delta) (some r) =
      let p = projection r in
      session_delta id
        (from_projection_replace_tail (min delta.min_replace_from (length p.transcript)) p)
      ∷ []
  delta_message id _ _ = []

  unfoldable pub delta_messages :
      List String → Table PendingSessionDelta → Table R → List (ServerMessage E H O)
  unfolding delta_message
  delta_messages [] batch sessions = []
  delta_messages (id ∷ order) batch sessions =
      delta_message id (lookup id batch) (lookup id sessions) ++ delta_messages order batch sessions

  -- `drain_pending_delta_messages_locked`
  unfoldable pub drain :
      PendingSessionDeltas → Table R → PendingSessionDeltas × List (ServerMessage E H O)
  drain p sessions = (
    record p { flush_scheduled = false; flush_due_at = none; sessions = []; order = [] },
    delta_messages p.order p.sessions sessions,
  )
