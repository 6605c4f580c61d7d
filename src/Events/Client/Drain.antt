-- ===== src/Events/Client/Drain.antt =====
-- What a drained batch does to the replica of one session.
use fura.Base.{
  ℕ, min, ◌≡◌, refl, sym, ap, ◌∙◌, String, true, false, Option, none, some, List, [], ◌∷◌, arith,
  str_eq as ◌==◌, length, take, eq_refl, eq_iff, Bool-cases, Option-cases, inl, inr,
}
use fura.Base.Table.{Table, lookup, lookup-insert}
use fura.Events.Message.{SessionProjection, from_projection_replace_tail, seq_of, next_u64, or_zero}
use fura.Events.Pending.{PendingSessionDelta, delta_message, delta_messages, occurs}
use fura.Events.Client.Link.{
  Roster, Link, shown, exchange_all, exchange_all-append, exchange-delta, exchange-delta_ne,
}

module _ {E H : Type 0} (id : String) where
  -- The replica shows the projection, under the bridge's number.
  abbrev pub Current : SessionProjection E H → Link E H → Type 0
  Current p l = l.1 ≡ some (shown p (seq_of id l.0))

  -- The replica has missed no number, and agrees with the projection on the first `k` entries.
  abbrev pub Prefix : SessionProjection E H → ℕ → Link E H → Type 0
  Prefix p k l =
      (q : SessionProjection E H) × (l.1 ≡ some q)
      × (q.seq ≡ seq_of id l.0)
      × (take k q.transcript ≡ take k p.transcript)

  pub Current-Prefix :
      (p : SessionProjection E H) (k : ℕ) (l : Link E H) → Current p l → Prefix p k l
  Current-Prefix p k l h = (shown p (seq_of id l.0), h, refl, refl)

module _ (O : Type 0) ⦃roster : Roster O⦄ {R E H : Type 0} (projection : R → SessionProjection E H)
    (id : String) where
  own_delta :
      (d : PendingSessionDelta) (r : R) (l : Link E H)
      → Prefix id (projection r) d.min_replace_from l
      → Current id
          (projection r)
          (exchange_all {O = O} id l (delta_message projection id (some d) (some r)))
  unfolding exchange_all delta_message seq_of
  own_delta d r (seqs, c) (q, held, numbered, agrees) = rw held (
      rw (exchange-delta O id seqs q (projection r) d.min_replace_from numbered agrees) (
        ground (arith, eq_refl id, lookup-insert id id (next_u64 (or_zero (lookup id seqs))) seqs)))

  other_delta :
      (j : String) (d : Option PendingSessionDelta) (r : Option R) (l : Link E H)
      → (j == id) ≡ false
      → ((exchange_all {O = O} id l (delta_message projection j d r)).1 ≡ l.1)
        × (seq_of id (exchange_all {O = O} id l (delta_message projection j d r)).0 ≡ seq_of id l.0)
  unfolding exchange_all delta_message
  other_delta j (some d) (some r) l h =
      exchange-delta_ne O id l j
        (from_projection_replace_tail (min d.min_replace_from (length (projection r).transcript))
          (projection r))
        h
  other_delta j none r l h = (refl, refl)
  other_delta j (some d) none l h = (refl, refl)

  module _ (batch : Table PendingSessionDelta) (sessions : Table R) (r : R) where
    -- The link after the message, if any, of one batched session.
    abbrev head : Link E H → String → Link E H
    head l j =
        exchange_all {O = O} id l (delta_message projection j (lookup j batch) (lookup j sessions))

    other_head :
        (l : Link E H) (j : String) (k : ℕ)
        → (j == id) ≡ false
        → (Current id (projection r) l → Current id (projection r) (head l j))
          × (Prefix id (projection r) k l → Prefix id (projection r) k (head l j))
    other_head l j k e =
        let (held, number) = other_delta j (lookup j batch) (lookup j sessions) l e in
        (
          λ h. held ∙ h ∙ ap (λ n. some (shown (projection r) n)) (sym number),
          λ h. (h.0, held ∙ h.1, h.2 ∙ sym number, h.3),
        )

    own_head :
        (l : Link E H) (d : PendingSessionDelta)
        → lookup id sessions ≡ some r
        → lookup id batch ≡ some d
        → Prefix id (projection r) d.min_replace_from l
        → Current id (projection r) (head l id)
    own_head l d known batched h = rw (known, batched) (own_delta d r l h)

    own_head-Current :
        (l : Link E H)
        → lookup id sessions ≡ some r
        → Current id (projection r) l
        → Current id (projection r) (head l id)
    unfolding exchange_all delta_message
    own_head-Current l known h = elim (Option-cases (lookup id batch)) [
      | inl fresh ↦ rw (known, fresh) h
      | inr (d, batched) ↦
          own_head l d known batched (Current-Prefix id (projection r) d.min_replace_from l h)
    ]

    -- A replica that shows the session keeps showing it.
    pub Current-delta_messages :
        (order : List String) (l : Link E H)
        → lookup id sessions ≡ some r
        → Current id (projection r) l
        → Current id
            (projection r)
            (exchange_all {O = O} id l (delta_messages projection order batch sessions))
    unfolding delta_messages exchange_all
    Current-delta_messages [] l known h = h
    Current-delta_messages (j ∷ order) l known h = rw exchange_all-append (
        Current-delta_messages order (head l j) known (elim (Bool-cases (j == id)) [
          | inl e ↦ rw ((eq_iff j id).0 e) (own_head-Current l known h)
          | inr e ↦ (other_head l j 0 e).0 h
        ]))

    -- A replica that agrees on the batched prefix shows the session after the drain.
    pub Prefix-delta_messages :
        (order : List String) (l : Link E H) (d : PendingSessionDelta)
        → lookup id sessions ≡ some r
        → lookup id batch ≡ some d
        → Prefix id (projection r) d.min_replace_from l
        → occurs id order ≡ true
        → Current id
            (projection r)
            (exchange_all {O = O} id l (delta_messages projection order batch sessions))
    unfolding delta_messages
    Prefix-delta_messages [] l d known batched h found = cc
    Prefix-delta_messages (j ∷ order) l d known batched h found =
        rw exchange_all-append (elim (Bool-cases (j == id)) [
          | inl e ↦
              Current-delta_messages order (head l j) known
                (rw ((eq_iff j id).0 e) (own_head l d known batched h))
          | inr e ↦
              Prefix-delta_messages order (head l j) d known batched
                ((other_head l j d.min_replace_from e).1 h) (ground arith)
        ])
