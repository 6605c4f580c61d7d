-- ===== src/Events/Client/Replication/Told.antt =====
-- Messages that tell a replica of a session what its record has become.
use fura.Base.{
  ◌≡◌, sym, ap, ◌∙◌, ◌⊎◌, String, Bool, true, false, ◌||◌, Option, some, List, [], ◌∷◌, All,
  str_eq as ◌==◌, eq_iff, Bool-cases, inl, inr,
}
use fura.Base.Table.{Table, lookup}
use fura.Events.Message.{
  SessionProjection, ServerMessage, session_snapshot, session_delta, other, seq_of,
}
use fura.Events.Coordinator.{World, drain_and_broadcast, emit_built}
use fura.Events.Client.Link.{
  Roster, Link, receive, shown, keeps_session, exchange, exchange_all, exchange-other,
  exchange-snapshot, exchange-snapshot_ne, exchange-delta_ne,
}
use fura.Events.Client.Drain.{Current}
use fura.Events.Client.Replication.Sync.{
  InSync, drained_link, drained-Current, drain_and_broadcast-InSync,
}

module _ {E H O : Type 0} ⦃roster : Roster O⦄ (id : String) where
  -- A message that says nothing of the session but what the projection shows: no delta of it, no
  -- other snapshot of it, and no list of sessions that leaves it out.
  abbrev pub Fits : SessionProjection E H → ServerMessage E H O → Type 0
  Fits p (session_snapshot j q) = ((j == id) ≡ false) ⊎ (q ≡ p)
  Fits p (session_delta j d) = (j == id) ≡ false
  Fits p (other m) = keeps_session id (roster.session_ids m) ≡ true

  -- The messages have a snapshot of the session.
  abbrev pub shows : List (ServerMessage E H O) → Bool
  shows [] = false
  shows (session_snapshot j q ∷ ms) = j == id || shows ms
  shows (session_delta j d ∷ ms) = shows ms
  shows (other m ∷ ms) = shows ms

  -- The record's projection has changed from `p` to `p'`, and the messages say so.
  abbrev pub Told :
      SessionProjection E H → SessionProjection E H → List (ServerMessage E H O) → Type 0
  Told p p' ms = All (Fits p') ms × ((p' ≡ p) ⊎ (shows ms ≡ true))

module _ (O : Type 0) ⦃roster : Roster O⦄ {E H : Type 0} (id : String) where
  -- What leaves the replica and its number alone leaves it showing the projection.
  unchanged-Current :
      (p : SessionProjection E H) (l l' : Link E H)
      → l'.1 ≡ l.1
      → seq_of id l'.0 ≡ seq_of id l.0
      → Current id p l
      → Current id p l'
  unchanged-Current p l l' held number h = held ∙ h ∙ ap (λ n. some (shown p n)) (sym number)

  pub exchange-Current :
      (p : SessionProjection E H) (m : ServerMessage E H O) (l : Link E H)
      → Fits id p m
      → Current id p l
      → Current id p (exchange id l m)
  exchange-Current p (session_snapshot j q) l (inl e) h =
      let (held, number) = exchange-snapshot_ne O id l j q e in
      unchanged-Current p l (exchange {O = O} id l (session_snapshot j q)) held number h
  exchange-Current p (session_snapshot j q) l (inr same) h = elim (Bool-cases (j == id)) [
    | inl e ↦ rw ((eq_iff j id).0 e, same) (exchange-snapshot O id l p)
    | inr e ↦
        let (held, number) = exchange-snapshot_ne O id l j q e in
        unchanged-Current p l (exchange {O = O} id l (session_snapshot j q)) held number h
  ]
  exchange-Current p (session_delta j d) l e h =
      let (held, number) = exchange-delta_ne O id l j d e in
      unchanged-Current p l (exchange {O = O} id l (session_delta j d)) held number h
  exchange-Current p (other m) l keeps h = rw (exchange-other O id l m keeps) h

  exchange_all-Current :
      (p : SessionProjection E H) (ms : List (ServerMessage E H O)) (l : Link E H)
      → All (Fits id p) ms
      → Current id p l
      → Current id p (exchange_all id l ms)
  unfolding exchange_all
  exchange_all-Current p [] l fits h = h
  exchange_all-Current p (m ∷ ms) l fits h =
      exchange_all-Current p ms (exchange id l m) fits.1 (exchange-Current p m l fits.0 h)

  -- A snapshot among them settles the replica, whatever it held.
  exchange_all-settles :
      (p : SessionProjection E H) (ms : List (ServerMessage E H O)) (l : Link E H)
      → All (Fits id p) ms
      → shows {O = O} id ms ≡ true
      → Current id p (exchange_all id l ms)
  unfolding exchange_all
  exchange_all-settles p [] l fits s = absurd (cc)
  exchange_all-settles p (session_snapshot j q ∷ ms) l (inl e, fits) s =
      exchange_all-settles p ms (exchange {O = O} id l (session_snapshot j q)) fits (rw e at s)
  exchange_all-settles p (session_snapshot j q ∷ ms) l (inr same, fits) s =
      elim (Bool-cases (j == id)) [
        | inl e ↦
            exchange_all-Current p ms (exchange {O = O} id l (session_snapshot j q)) fits
              (rw ((eq_iff j id).0 e, same) (exchange-snapshot O id l p))
        | inr e ↦
            exchange_all-settles p ms (exchange {O = O} id l (session_snapshot j q)) fits
              (rw e at s)
      ]
  exchange_all-settles p (session_delta j d ∷ ms) l fits s =
      exchange_all-settles p ms (exchange {O = O} id l (session_delta j d)) fits.1 s
  exchange_all-settles p (other m ∷ ms) l fits s =
      exchange_all-settles p ms (exchange {O = O} id l (other m)) fits.1 s

module _ (O : Type 0) ⦃roster : Roster O⦄ {R E H : Type 0} (projection : R → SessionProjection E H)
    (id : String) where
  -- The session's record shows the same.
  pub same-InSync :
      (r r' : R) (w : World R) (sessions : Table R) (c : Option (SessionProjection E H))
      → lookup id sessions ≡ some r'
      → projection r' ≡ projection r
      → InSync projection id r w c
      → InSync projection id r' (record w { sessions = sessions }) c
  same-InSync r r' w sessions c known same s = record {
    known = known;
    queued = s.queued;
    agrees = rw same s.agrees;
  }

  -- The batch, and messages that say what the record has become.
  pub broadcast-InSync :
      (r r' : R) (w : World R) (sessions : Table R) (c : Option (SessionProjection E H))
      (ms : List (ServerMessage E H O))
      → lookup id sessions ≡ some r'
      → Told id (projection r) (projection r') ms
      → InSync projection id r w c
      → InSync projection id r'
          (drain_and_broadcast projection (record w { sessions = sessions }) ms).0
          (receive id c (drain_and_broadcast projection (record w { sessions = sessions }) ms).1)
  broadcast-InSync r r' w sessions c ms known (fits, said) s =
      let w' = record w { sessions = sessions } in
      let l = drained_link O projection id w' c in
      drain_and_broadcast-InSync O projection id r' w' c ms known (elim said [
        | inl same ↦
            exchange_all-Current O id (projection r') ms l fits
              (drained-Current O projection id r' w' c (same-InSync r r' w sessions c known same s))
        | inr snapshot_of ↦ exchange_all-settles O id (projection r') ms l fits snapshot_of
      ])

  -- The same of `emit_built`, which keeps the batch when there is no message.
  pub emit_built-InSync :
      (r r' : R) (w : World R) (sessions : Table R) (c : Option (SessionProjection E H))
      (ms : List (ServerMessage E H O))
      → lookup id sessions ≡ some r'
      → Told id (projection r) (projection r') ms
      → InSync projection id r w c
      → InSync projection id r'
          (emit_built projection (record w { sessions = sessions }) ms).0
          (receive id c (emit_built projection (record w { sessions = sessions }) ms).1)
  unfolding emit_built receive
  emit_built-InSync r r' w sessions c [] known (fits, inl same) s =
      same-InSync r r' w sessions c known same s
  emit_built-InSync r r' w sessions c [] known (fits, inr h) s = absurd (cc)
  emit_built-InSync r r' w sessions c (m ∷ ms) known told s =
      broadcast-InSync r r' w sessions c (m ∷ ms) known told s
