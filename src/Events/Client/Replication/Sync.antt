-- ===== src/Events/Client/Replication/Sync.antt =====
-- When a replica is in step with the coordinator, and the draining of the batch.
use mathlib.Core.Path.{subst}
use fura.Base.{
  ℕ, min, ◌≡◌, sym, ◌∙◌, ◌≤◌, String, true, false, Option, none, some, List, ◌++◌, arith,
  str_eq as ◌==◌, take, take-le, eq_refl, Option-cases, inl, inr,
}
use fura.Base.Table.{lookup, insert, lookup-insert}
use fura.Events.Message.{SessionProjection, ServerMessage}
use fura.Events.Pending.{
  PendingSessionDelta, drain, record_delta, schedule_flush, merged, lookup-record_delta,
  lookup-record_delta_self, occurs, occurs-record_delta, occurs-record_delta_self,
  schedule_flush_batch,
}
use fura.Events.Coordinator.{World, drain_and_broadcast}
use fura.Events.Client.Link.{
  Roster, Link, receive, exchange_all, exchange_all-append, receive-send_all,
}
use fura.Events.Client.Drain.{
  Current, Prefix, Current-Prefix, Current-delta_messages, Prefix-delta_messages,
}

module _ {E H : Type 0} (id : String) where
  -- A session outside the batch is shown as it is; a batched one agrees up to the batched index.
  abbrev pub Agrees : SessionProjection E H → Option PendingSessionDelta → Link E H → Type 0
  Agrees p none l = Current id p l
  Agrees p (some d) l = Prefix id p d.min_replace_from l

-- The replica `c` follows the record `r` of the session.
pub record InSync {R E H : Type 0} (projection : R → SessionProjection E H) (id : String) (r : R)
    (w : World R) (c : Option (SessionProjection E H)) : Type 0 where
  pub known : lookup id w.sessions ≡ some r
  pub queued :
      (d : PendingSessionDelta)
      → lookup id w.pending.sessions ≡ some d
      → occurs id w.pending.order ≡ true
  pub agrees : Agrees id (projection r) (lookup id w.pending.sessions) (w.session_seqs, c)

module _ (O : Type 0) ⦃roster : Roster O⦄ {R E H : Type 0} (projection : R → SessionProjection E H)
    (id : String) where
  -- The link after the batch is drained.
  abbrev pub drained_link : World R → Option (SessionProjection E H) → Link E H
  drained_link w c =
      exchange_all {O = O} id (w.session_seqs, c) (drain projection w.pending w.sessions).1

  pub drained-Current :
      (r : R) (w : World R) (c : Option (SessionProjection E H))
      → InSync projection id r w c
      → Current id (projection r) (drained_link w c)
  unfolding drain
  drained-Current r w c s = elim (Option-cases (lookup id w.pending.sessions)) [
    | inl fresh ↦
        Current-delta_messages O projection id w.pending.sessions w.sessions r w.pending.order
          (w.session_seqs, c) s.known (rw fresh at s.agrees)
    | inr (d, batched) ↦
        Prefix-delta_messages O projection id w.pending.sessions w.sessions r w.pending.order
          (w.session_seqs, c) d s.known batched (rw batched at s.agrees) (s.queued d batched)
  ]

  -- What a replica knows after the drain and the messages behind it.
  drain_and_broadcast_link :
      (w : World R) (c : Option (SessionProjection E H)) (ms : List (ServerMessage E H O))
      → ◌≡◌ {A = Link E H}
          (
            (drain_and_broadcast projection w ms).0.session_seqs,
            receive id c (drain_and_broadcast projection w ms).1,
          )
          (exchange_all id (drained_link w c) ms)
  unfolding drain_and_broadcast
  drain_and_broadcast_link w c ms =
      receive-send_all id w.session_seqs c ((drain projection w.pending w.sessions).1 ++ ms)
      ∙ exchange_all-append id (w.session_seqs, c) (drain projection w.pending w.sessions).1 ms

  -- If the link shows the record after the call, the replica is in step.
  pub drain_and_broadcast-InSync :
      (r : R) (w : World R) (c : Option (SessionProjection E H)) (ms : List (ServerMessage E H O))
      → lookup id w.sessions ≡ some r
      → Current id (projection r) (exchange_all id (drained_link w c) ms)
      → InSync projection id r
          (drain_and_broadcast projection w ms).0
          (receive id c (drain_and_broadcast projection w ms).1)
  unfolding drain_and_broadcast drain lookup
  drain_and_broadcast-InSync r w c ms known h = record {
    known = known;
    queued = λ d absent. cc;
    agrees = subst (Current id (projection r)) (sym (drain_and_broadcast_link w c ms)) h;
  }

module _ {R E H : Type 0} (projection : R → SessionProjection E H) (id : String) where
  Prefix-le :
      (p p' : SessionProjection E H) (m k : ℕ) (l : Link E H)
      → m ≤ k
      → take k p'.transcript ≡ take k p.transcript
      → Prefix id p m l
      → Prefix id p' m l
  Prefix-le p p' m k l h same (q, held, numbered, agrees) =
      (q, held, numbered, agrees ∙ sym (take-le m k p'.transcript p.transcript h same))

  Prefix-min :
      (p : SessionProjection E H) (m k : ℕ) (l : Link E H)
      → Prefix id p m l
      → Prefix id p (min m k) l
  Prefix-min p m k l (q, held, numbered, agrees) =
      (q, held, numbered, take-le (min m k) m q.transcript p.transcript (omega arith) agrees)

  -- Recording the session's own index: the mutation has kept the first `k` entries.
  Agrees-merged :
      (p p' : SessionProjection E H) (k : ℕ) (l : Link E H) (o : Option PendingSessionDelta)
      → take k p'.transcript ≡ take k p.transcript
      → Agrees id p o l
      → Prefix id p' (merged o k).min_replace_from l
  Agrees-merged p p' k l none same h =
      Prefix-le p p' k k l (omega arith) same (Current-Prefix id p k l h)
  Agrees-merged p p' k l (some d) same h =
      Prefix-le p p' (min d.min_replace_from k) k l (omega arith) same
        (Prefix-min p d.min_replace_from k l h)

  pub record_delta-InSync_self :
      (r r' : R) (w : World R) (c : Option (SessionProjection E H)) (k : ℕ)
      → take k (projection r').transcript ≡ take k (projection r).transcript
      → InSync projection id r w c
      → InSync projection id r'
          (record w { sessions = insert id r' w.sessions; pending = record_delta w.pending id k })
          c
  record_delta-InSync_self r r' w c k same s = record {
    known = ground (arith, eq_refl id, lookup-insert id id r' w.sessions);
    queued = λ d found. occurs-record_delta_self w.pending id k s.queued;
    agrees = rw (lookup-record_delta_self w.pending id k) (
        Agrees-merged (projection r) (projection r') k (w.session_seqs, c)
          (lookup id w.pending.sessions) same s.agrees);
  }

  -- Recording the index of another session.
  pub record_delta-InSync_ne :
      (r : R) (w : World R) (c : Option (SessionProjection E H)) (j : String) (r' : R) (k : ℕ)
      → (j == id) ≡ false
      → InSync projection id r w c
      → InSync projection id r
          (record w { sessions = insert j r' w.sessions; pending = record_delta w.pending j k })
          c
  record_delta-InSync_ne r w c j r' k e s =
      let same : lookup id (record_delta w.pending j k).sessions ≡ lookup id w.pending.sessions =
        ground (arith, lookup-record_delta w.pending j id k) in
      record {
        known = ground (arith, s.known, lookup-insert j id r' w.sessions);
        queued = λ d found. occurs-record_delta w.pending j id k (s.queued d (sym same ∙ found));
        agrees = rw same s.agrees;
      }

  -- Scheduling a flush leaves the batch as it is.
  pub schedule_flush-InSync :
      (r : R) (w : World R) (c : Option (SessionProjection E H)) (now : ℕ) (timers : List ℕ)
      → InSync projection id r w c
      → InSync projection id r
          (record w { pending = (schedule_flush w.pending now).0; timers = timers })
          c
  schedule_flush-InSync r w c now timers s =
      let (batch, order) = schedule_flush_batch w.pending now in
      record {
        known = s.known;
        queued = λ d found. rw order (s.queued d (rw batch at found));
        agrees = rw batch s.agrees;
      }
