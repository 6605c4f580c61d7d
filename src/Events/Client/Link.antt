-- ===== src/Events/Client/Link.antt =====
-- The browser's replica of one session: frontend/src/sessionClientState.ts, `applySessionSnapshot`
-- and `applySessionDelta`, with the handling of a refused delta and of a list of the sessions in
-- frontend/src/main.ts; and the link that stamps a message on the bridge and delivers it to the browser.
use fura.Base.{
  ℕ, ◌≡◌, refl, ap, String, Bool, true, false, not, ◌||◌, ◌&&◌, Option, none, some, List, [], ◌∷◌,
  ◌++◌, arith, ltb, ◌==◌ as nat_eq, str_eq as ◌==◌, if◌then◌else◌, length, take, min, eq_refl,
  eq_iff, take-le, splice_lem,
}
use fura.Base.Positions.{contains}
use text.Mathlib.Text.{starts_with}
use fura.Base.Table.{Table, lookup, insert, lookup-insert}
use fura.Events.Message.{
  SessionProjection, SessionProjectionDelta, ServerMessage, session_snapshot, session_delta, other,
  stamp_session_seq, send_all, seq_of, next_u64, or_zero, from_projection_replace_tail,
}

module _ {E H : Type 0} where
  -- `none`: the replica has missed a broadcast.
  unfoldable pub apply_session_delta :
      SessionProjection E H → SessionProjectionDelta E H → Option (SessionProjection E H)
  apply_session_delta previous delta =
      if not (nat_eq previous.seq delta.base_seq)
      then none
      else if ltb (length previous.transcript) delta.transcript_replace_from
      then none
      else some (record {
        header = delta.header;
        transcript =
            take delta.transcript_replace_from previous.transcript ++ delta.transcript_append;
        seq = delta.seq;
      })

  -- A refused delta leaves the replica, and a fresh snapshot is asked for.
  unfoldable pub or_keep :
      Option (SessionProjection E H) → SessionProjection E H → Option (SessionProjection E H)
  or_keep none previous = some previous
  or_keep (some next) previous = some next

  unfoldable pub spliced :
      Option (SessionProjection E H) → SessionProjectionDelta E H → Option (SessionProjection E H)
  unfolding apply_session_delta or_keep
  spliced none delta = none
  spliced (some previous) delta = or_keep (apply_session_delta previous delta) previous

-- The ids of the sessions that a `sessions.snapshot` lists; `none` is every other message.
pub record Roster (O : Type 0) : Type 0 where
  pub session_ids : O → Option (List String)

-- `isPinnedDiffPanelId`
abbrev is_pinned_diff_panel_id : String → Bool
is_pinned_diff_panel_id id = starts_with id "pinnedDiff:" && not (id == "pinnedDiff:")

-- The guard of `pruneStaleSessionCaches`.
unfoldable pub keeps_session : String → Option (List String) → Bool
keeps_session id none = true
keeps_session id (some live_session_ids) =
    contains live_session_ids id || is_pinned_diff_panel_id id

unfoldable pub pruned {ℓ} : {A : Type ℓ} → String → Option (List String) → Option A → Option A
unfolding keeps_session
pruned id live_session_ids c = if keeps_session id live_session_ids then c else none

module _ {E H O : Type 0} ⦃roster : Roster O⦄ (id : String) where
  unfoldable pub deliver :
      Option (SessionProjection E H) → ServerMessage E H O → Option (SessionProjection E H)
  unfolding spliced pruned
  deliver c (session_snapshot j state) = if j == id then some state else c
  deliver c (session_delta j delta) = if j == id then spliced c delta else c
  deliver c (other m) = pruned id (roster.session_ids m) c

  unfoldable pub receive :
      Option (SessionProjection E H) → List (ServerMessage E H O) → Option (SessionProjection E H)
  receive c [] = c
  receive c (m ∷ ms) = receive (deliver c m) ms

-- The bridge's counters, and the replica.
abbrev pub Link : Type 0 → Type 0 → Type 0
Link E H = Table ℕ × Option (SessionProjection E H)

-- The state of the bridge, as the replica should show it under a sequence number.
abbrev pub shown : {E H : Type 0} → SessionProjection E H → ℕ → SessionProjection E H
shown p n = record p { seq = n }

module _ {E H O : Type 0} ⦃roster : Roster O⦄ (id : String) where
  -- One message is stamped, sent and delivered.
  unfoldable pub exchange : Link E H → ServerMessage E H O → Link E H
  unfolding deliver stamp_session_seq
  exchange l m = let (seqs, sent) = stamp_session_seq l.0 m in (seqs, deliver id l.1 sent)

  unfoldable pub exchange_all : Link E H → List (ServerMessage E H O) → Link E H
  exchange_all l [] = l
  exchange_all l (m ∷ ms) = exchange_all (exchange l m) ms

  pub receive-send_all :
      (seqs : Table ℕ) (c : Option (SessionProjection E H)) (ms : List (ServerMessage E H O))
      → ◌≡◌ {A = Link E H}
          ((send_all seqs ms).0, receive id c (send_all seqs ms).1)
          (exchange_all (seqs, c) ms)
  unfolding send_all receive exchange exchange_all
  receive-send_all seqs c [] = refl
  receive-send_all seqs c (m ∷ ms) =
      receive-send_all (stamp_session_seq seqs m).0 (deliver id c (stamp_session_seq seqs m).1) ms

  pub exchange_all-append :
      (l : Link E H) (ms ns : List (ServerMessage E H O))
      → exchange_all l (ms ++ ns) ≡ exchange_all (exchange_all l ms) ns
  unfolding exchange_all
  exchange_all-append l [] ns = refl
  exchange_all-append l (m ∷ ms) ns = exchange_all-append (exchange l m) ms ns

module _ (O : Type 0) ⦃roster : Roster O⦄ {E H : Type 0} (id : String) where
  -- A message that does not prune the session leaves the link alone.
  pub exchange-other :
      (l : Link E H) (m : O)
      → keeps_session id (roster.session_ids m) ≡ true
      → exchange {O = O} id l (other m) ≡ l
  unfolding exchange pruned
  exchange-other (seqs, c) m keeps = ap (λ b. (seqs, if b then c else none)) keeps

  -- After a snapshot the replica shows it, whatever it held.
  pub exchange-snapshot :
      (l : Link E H) (p : SessionProjection E H)
      → (exchange {O = O} id l (session_snapshot id p)).1
        ≡ some (shown p (seq_of id (exchange {O = O} id l (session_snapshot id p)).0))
  unfolding exchange seq_of
  exchange-snapshot l p =
      ground (arith, eq_refl id, lookup-insert id id (next_u64 (or_zero (lookup id l.0))) l.0)

  -- Messages of other sessions leave the replica and its number alone.
  pub exchange-snapshot_ne :
      (l : Link E H) (j : String) (p : SessionProjection E H)
      → (j == id) ≡ false
      → ((exchange {O = O} id l (session_snapshot j p)).1 ≡ l.1)
        × (seq_of id (exchange {O = O} id l (session_snapshot j p)).0 ≡ seq_of id l.0)
  unfolding exchange seq_of
  exchange-snapshot_ne l j p h =
      ground (
        arith,
        eq_iff id j,
        eq_iff j id,
        lookup-insert j id (next_u64 (or_zero (lookup j l.0))) l.0,
      )

  pub exchange-delta_ne :
      (l : Link E H) (j : String) (d : SessionProjectionDelta E H)
      → (j == id) ≡ false
      → ((exchange {O = O} id l (session_delta j d)).1 ≡ l.1)
        × (seq_of id (exchange {O = O} id l (session_delta j d)).0 ≡ seq_of id l.0)
  unfolding exchange seq_of
  exchange-delta_ne l j d h =
      ground (
        arith,
        eq_iff id j,
        eq_iff j id,
        lookup-insert j id (next_u64 (or_zero (lookup j l.0))) l.0,
      )

  -- A delta whose prefix the replica holds brings it up to date.
  pub exchange-delta :
      (seqs : Table ℕ) (q p : SessionProjection E H) (k : ℕ)
      → q.seq ≡ seq_of id seqs
      → take k q.transcript ≡ take k p.transcript
      → exchange {O = O} id
          (seqs, some q)
          (session_delta id (from_projection_replace_tail (min k (length p.transcript)) p))
        ≡ (insert id (next_u64 (seq_of id seqs)) seqs, some (shown p (next_u64 (seq_of id seqs))))
  unfolding exchange seq_of from_projection_replace_tail
  exchange-delta seqs q p k n e =
      let rf = min k (length p.transcript) in
      let agree : take rf q.transcript ≡ take rf p.transcript =
        take-le rf k q.transcript p.transcript (omega arith) e in
      let (fits, spliced) = splice_lem rf q.transcript p.transcript (omega arith) agree in
      ground (arith, eq_refl id)
