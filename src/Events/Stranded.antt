-- ===== src/Events/Stranded.antt =====
-- src/state.rs, `emit_many`: a delta behind another message of one call.
use fura.Base.{ℕ, ◌≡◌, String, false, some, List, [], ◌∷◌, arith, eq_refl}
use fura.Base.Table.{lookup, insert}
use fura.Events.Message.{
  SessionProjection, SessionProjectionDelta, ServerMessage, session_delta, other,
}
use fura.Events.Pending.{record_delta, schedule_flush, drain}
use fura.Events.Coordinator.{
  World, emit_many, prepare_external_messages, flush_pending_deltas_for_timer,
}

module _ {R E H O : Type 0} (projection : R → SessionProjection E H) (w : World R) (now : ℕ)
    (first second : String) (d d' : SessionProjectionDelta E H) (m : O) where
  abbrev stranded : List (ServerMessage E H O)
  stranded = session_delta first d ∷ other m ∷ session_delta second d' ∷ []

  abbrev pub after : World R
  after = (emit_many projection w now stranded).0

  -- One call that brings a delta, another message and a delta, while no flush is scheduled: the last
  -- delta is left in the batch, and no timer, of whatever generation, sends it.
  pub emit_many_strands :
      w.pending.flush_scheduled ≡ false
      → (generation : ℕ)
      → (lookup second after.pending.sessions
          ≡ some (record { min_replace_from = d'.transcript_replace_from }))
        × (flush_pending_deltas_for_timer {O = O} projection after generation ≡ (after, []))
  unfolding emit_many prepare_external_messages flush_pending_deltas_for_timer schedule_flush drain
      record_delta lookup insert
  emit_many_strands off generation = ground (arith, eq_refl second)
