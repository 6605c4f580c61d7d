-- ===== src/Events/Client/Replication/Many.antt =====
-- `emit_many`: the replica along a loop that batches deltas and drains the batch before every other
-- message.
use mathlib.Core.Path.{subst}
use fura.Base.{
  ℕ, refl, sym, String, Option, none, some, List, [], ◌∷◌, All, str_eq as ◌==◌, eq_iff, Bool-cases,
  inl, inr,
}
use fura.Base.Table.{lookup}
use fura.Events.Message.{SessionProjection, ServerMessage, session_snapshot, session_delta, other}
use fura.Events.Pending.{PendingSessionDeltas, record_delta, schedule_flush, drain}
use fura.Events.Coordinator.{World, prepare_external_messages, broadcast, emit_many}
use fura.Events.Client.Link.{
  Roster, Link, receive, exchange, exchange_all, exchange_all-append, receive-send_all,
}
use fura.Events.Client.Replication.Sync.{
  InSync, drained_link, drained-Current, record_delta-InSync_self, record_delta-InSync_ne,
  schedule_flush-InSync,
}
use fura.Events.Client.Replication.Told.{Fits, exchange-Current}

-- A delta of the call is batched, so what it carries does not matter; another message fits the
-- projection.
abbrev pub Brings :
    {E H O : Type 0} ⦃roster : Roster O⦄
    → String
    → SessionProjection E H
    → ServerMessage E H O
    → Type 0
Brings {O} id p (session_delta j d) = Unit
Brings {O} id p (session_snapshot j q) = Fits {O = O} id p (session_snapshot j q)
Brings {O} id p (other m) = Fits {O = O} id p (other m)

module _ (O : Type 0) ⦃roster : Roster O⦄ {R E H : Type 0} (projection : R → SessionProjection E H)
    (id : String) (r : R) where
  abbrev Replica : Type 0
  Replica = Option (SessionProjection E H)

  -- The world with another batch and a link's counters.
  abbrev linked : World R → PendingSessionDeltas → Link E H → World R
  linked w pending l = record w { pending = pending; session_seqs = l.0 }

  -- Recording an index without a change of the record.
  batched-InSync :
      (w : World R) (c : Replica) (j : String) (k : ℕ)
      → InSync projection id r w c
      → InSync projection id r (record w { pending = record_delta w.pending j k }) c
  batched-InSync w c j k s = elim (Bool-cases (j == id)) [
    | inl e ↦
        let s' = record_delta-InSync_self projection id r r w c k refl s in
        rw ((eq_iff j id).0 e) (record { known = s.known; queued = s'.queued; agrees = s'.agrees })
    | inr e ↦
        let s' = record_delta-InSync_ne projection id r w c j r k e s in
        record { known = s.known; queued = s'.queued; agrees = s'.agrees }
  ]

  -- The batch is drained, and a message follows.
  drained_message :
      (w : World R) (c : Replica) (m : ServerMessage E H O)
      → Fits id (projection r) m
      → InSync projection id r w c
      → let l = exchange id (drained_link O projection id w c) m in
        InSync projection id r (linked w (drain {O = O} projection w.pending w.sessions).0 l) l.1
  unfolding drain lookup
  drained_message w c m fits s = record {
    known = s.known;
    queued = λ d absent. cc;
    agrees =
        exchange-Current O id (projection r) m (drained_link O projection id w c) fits
          (drained-Current O projection id r w c s);
  }

  -- The link after the messages that the loop lets through.
  abbrev prepared_link : World R → Replica → ℕ → Option ℕ → List (ServerMessage E H O) → Link E H
  prepared_link w c now generation ms =
      exchange_all id (w.session_seqs, c)
        (prepare_external_messages projection w.sessions now ms w.pending generation).1

  abbrev Prepared : World R → Replica → ℕ → Option ℕ → List (ServerMessage E H O) → Type 0
  Prepared w c now generation ms =
      InSync projection id r
        (linked w (prepare_external_messages projection w.sessions now ms w.pending generation).0
          (prepared_link w c now generation ms))
        (prepared_link w c now generation ms).1

  prepare-InSync :
      (now : ℕ) (ms : List (ServerMessage E H O)) (generation : Option ℕ) (w : World R)
      (c : Replica)
      → All (Brings id (projection r)) ms
      → InSync projection id r w c
      → Prepared w c now generation ms
  unfolding prepare_external_messages exchange_all
  prepare-InSync now [] generation w c brings s = s
  prepare-InSync now (session_delta j d ∷ ms) none w c brings s =
      let batch = record_delta w.pending j d.transcript_replace_from in
      prepare-InSync now ms (schedule_flush batch now).1
        (record w { pending = (schedule_flush batch now).0 }) c brings.1
        (schedule_flush-InSync projection id r (record w { pending = batch }) c now w.timers
          (batched-InSync w c j d.transcript_replace_from s))
  prepare-InSync now (session_delta j d ∷ ms) (some g) w c brings s =
      let batch = record_delta w.pending j d.transcript_replace_from in
      prepare-InSync now ms (some g) (record w { pending = batch }) c brings.1
        (batched-InSync w c j d.transcript_replace_from s)
  prepare-InSync now (session_snapshot j q ∷ ms) generation w c brings s =
      let m : ServerMessage E H O = session_snapshot j q in
      let l = exchange id (drained_link O projection id w c) m in
      rw exchange_all-append (
        prepare-InSync now ms generation
          (linked w (drain {O = O} projection w.pending w.sessions).0 l) l.1 brings.1
          (drained_message w c m brings.0 s))
  prepare-InSync now (other m ∷ ms) generation w c brings s =
      let l = exchange id (drained_link O projection id w c) (other m) in
      rw exchange_all-append (
        prepare-InSync now ms generation
          (linked w (drain {O = O} projection w.pending w.sessions).0 l) l.1 brings.1
          (drained_message w c (other m) brings.0 s))

  pub emit_many-InSync :
      (now : ℕ) (ms : List (ServerMessage E H O)) (w : World R) (c : Replica)
      → All (Brings id (projection r)) ms
      → InSync projection id r w c
      → InSync projection id r
          (emit_many projection w now ms).0
          (receive id c (emit_many projection w now ms).1)
  unfolding emit_many broadcast receive
  emit_many-InSync now [] w c brings s = s
  emit_many-InSync now (m ∷ ms) w c brings s =
      let (pending, sent, generation) =
        prepare_external_messages projection w.sessions now (m ∷ ms) w.pending none in
      let prepared =
        subst (λ (l : Link E H). InSync projection id r (linked w pending l) l.1)
          (sym (receive-send_all id w.session_seqs c sent))
          (prepare-InSync now (m ∷ ms) none w c brings s) in
      record { known = prepared.known; queued = prepared.queued; agrees = prepared.agrees }
