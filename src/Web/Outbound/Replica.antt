-- ===== src/Web/Outbound/Replica.antt =====
-- src/web.rs with frontend/src/sessionClientState.ts: the browser's replica of a session behind a
-- connection that conflates.
use mathlib.Core.Path.{subst}
use mathlib.Core.List.{append_assoc, append-nil}
use fura.Base.{
  ℕ, ◌+◌, ◌%◌, ◌^◌, ◌≡◌, refl, sym, ap, ◌∙◌, String, true, false, Option, some, List, [], ◌∷◌, ◌++◌,
  map, All, All-append_inv, arith, str_eq, eq_iff, if◌then◌else◌, Bool-cases, Option-cases, inl,
  inr,
}
use fura.Events.Message.{
  SessionProjection, SessionProjectionDelta, session_snapshot, session_delta, other,
}
use fura.Events.Client.{Roster, keeps_session, pruned, deliver, receive}
use fura.Web.Outbound.{
  WebSocketUpdateMode, immediate, send_broadcasts, Notice, sessions_snapshot, targeted, targeted_if,
  untargeted, same_key, Outgoing, TryRecv, received, collected, key_of, conflate_server_messages,
  collect_from, collect_outbound_events, conflate_and_delta, uses_conflation,
  server_message_visible_to_connection, send_client_message, send_collected,
}
use fura.Web.Outbound.Kept.{outlives, latest}
use fura.Web.Outbound.Latest.{conflate_server_messages-latest}

-- A message is no list of sessions that leaves the session out.
abbrev pub Retains :
    {E H S O : Type 0} ⦃roster : Roster (Notice S O)⦄ → String → Outgoing E H S O → Type 0
Retains id (session_snapshot j p) = Unit
Retains id (session_delta j p) = Unit
Retains ⦃roster⦄ id (other m) = keeps_session id (roster.session_ids m) ≡ true

module _ {E H S O : Type 0} ⦃roster : Roster (Notice S O)⦄ (id : String) where
  deliver-other :
      (c : Option (SessionProjection E H)) (m : Notice S O)
      → keeps_session id (roster.session_ids m) ≡ true
      → c ≡ deliver {E = E} {H = H} id c (other m)
  unfolding deliver pruned
  deliver-other c m keeps = rw keeps refl

  -- The replica that a snapshot of the session replaces does not matter.
  receive_before :
      (c d : Option (SessionProjection E H)) (p : SessionProjection E H)
      (ms : List (Outgoing E H S O))
      → All (Retains id) ms
      → outlives (session_snapshot id p) ms ≡ false
      → receive id c ms ≡ receive id d ms
  unfolding receive outlives key_of same_key deliver
  receive_before c d p [] keeps h = absurd (cc)
  receive_before c d p (session_snapshot j q ∷ ms) keeps h = elim (Bool-cases (str_eq j id)) [
    | inl e ↦ rw e refl
    | inr e ↦
        rw e (receive_before c d p ms keeps.1 (ground (arith, h, e, eq_iff id j, eq_iff j id)))
  ]
  receive_before c d p (session_delta j q ∷ ms) keeps h =
      receive_before (deliver {O = Notice S O} id c (session_delta j q))
        (deliver {O = Notice S O} id d (session_delta j q)) p ms keeps.1 h
  receive_before c d p (other (sessions_snapshot s) ∷ ms) keeps h =
      receive_before (deliver {O = Notice S O} id c (other (sessions_snapshot s)))
        (deliver {O = Notice S O} id d (other (sessions_snapshot s))) p ms keeps.1 h
  receive_before c d p (other (targeted n o) ∷ ms) keeps h =
      receive_before (deliver {O = Notice S O} id c (other (targeted n o)))
        (deliver {O = Notice S O} id d (other (targeted n o))) p ms keeps.1 h
  receive_before c d p (other (targeted_if n o) ∷ ms) keeps h =
      receive_before (deliver {O = Notice S O} id c (other (targeted_if n o)))
        (deliver {O = Notice S O} id d (other (targeted_if n o))) p ms keeps.1 h
  receive_before c d p (other (untargeted o) ∷ ms) keeps h =
      receive_before (deliver {O = Notice S O} id c (other (untargeted o)))
        (deliver {O = Notice S O} id d (other (untargeted o))) p ms keeps.1 h

  outlives-delta :
      (j : String) (q : SessionProjectionDelta E H) (ms : List (Outgoing E H S O))
      → outlives (session_delta j q) ms ≡ true
  unfolding outlives key_of
  outlives-delta j q [] = refl
  outlives-delta j q (n ∷ ns) = elim (Option-cases (key_of n)) [
    | inl e ↦ rw (e, outlives) (outlives-delta j q ns)
    | inr (k, e) ↦ rw (e, outlives) (outlives-delta j q ns)
  ]

  -- A message that does not outlive the others changes nothing in the end.
  receive_dropped :
      (c : Option (SessionProjection E H)) (m : Outgoing E H S O) (ms : List (Outgoing E H S O))
      → All (Retains id) (m ∷ ms)
      → outlives m ms ≡ false
      → receive id c ms ≡ receive id (deliver id c m) ms
  unfolding deliver
  receive_dropped c (session_snapshot j q) ms keeps h = elim (Bool-cases (str_eq j id)) [
    | inl e ↦ rw e (receive_before c (some q) q ms keeps.1 (cc ((eq_iff j id).0 e, h)))
    | inr e ↦ rw e refl
  ]
  receive_dropped c (session_delta j q) ms keeps h = absurd (cc (outlives-delta j q ms, h))
  receive_dropped c (other n) ms keeps h = ap (λ d. receive id d ms) (deliver-other c n keeps.0)

  receive-latest :
      (c : Option (SessionProjection E H)) (ms : List (Outgoing E H S O))
      → All (Retains id) ms
      → receive id c (latest ms) ≡ receive id c ms
  unfolding receive latest
  receive-latest c [] keeps = refl
  receive-latest c (m ∷ ms) keeps = elim (Bool-cases (outlives m ms)) [
    | inl e ↦ rw e (receive-latest (deliver id c m) ms keeps.1)
    | inr e ↦ rw e (receive-latest c ms keeps.1 ∙ receive_dropped c m ms keeps e)
  ]

  Retains-latest :
      (ms : List (Outgoing E H S O)) → All (Retains id) ms → All (Retains id) (latest ms)
  unfolding latest
  Retains-latest [] keeps = tt
  Retains-latest (m ∷ ms) keeps = elim (Bool-cases (outlives m ms)) [
    | inl e ↦ rw e (keeps.0, Retains-latest ms keeps.1)
    | inr e ↦ rw e (Retains-latest ms keeps.1)
  ]

  -- What a connection does not see is no message of the session.
  hidden-deliver :
      (c : Option (SessionProjection E H)) (m : Outgoing E H S O) (connection : ℕ)
      → Retains id m
      → server_message_visible_to_connection m connection ≡ false
      → c ≡ deliver id c m
  unfolding deliver server_message_visible_to_connection
  hidden-deliver c (session_snapshot j p) connection keeps h = absurd (cc)
  hidden-deliver c (session_delta j p) connection keeps h = absurd (cc)
  hidden-deliver c (other n) connection keeps h = deliver-other c n keeps

  receive-send_collected :
      (c : Option (SessionProjection E H)) (connection seq : ℕ) (ms : List (Outgoing E H S O))
      → All (Retains id) ms
      → receive id c (send_collected connection ms seq).1 ≡ receive id c ms
  unfolding receive send_collected send_client_message deliver server_message_visible_to_connection
  receive-send_collected c connection seq [] keeps = refl
  receive-send_collected c connection seq (m ∷ ms) keeps =
      elim (Bool-cases (server_message_visible_to_connection m connection)) [
        | inl e ↦
            rw e
              (receive-send_collected (deliver id c m) connection ((seq + 1) % 2 ^ 64) ms keeps.1)
        | inr e ↦ rw e (
            receive-send_collected c connection seq ms keeps.1
            ∙ ap (λ d. receive id d ms) (hidden-deliver c m connection keeps.0 e))
      ]

collect_from-received :
    {E H S O : Type 0} (ms ws : List (Outgoing E H S O))
    → collect_from ms (map received ws) ≡ collected (conflate_server_messages (ms ++ ws))
unfolding collect_from
collect_from-received ms [] =
    ap (λ xs. collected (conflate_server_messages xs)) (sym (append-nil ms))
collect_from-received ms (w ∷ ws) =
    collect_from-received (ms ++ w ∷ []) ws
    ∙ ap (λ xs. collected (conflate_server_messages xs)) (append_assoc ms (w ∷ []) ws)

-- The rounds of a connection that keeps up with the broadcasts.
abbrev pub rounds_of :
    {E H S O : Type 0}
    → List (Outgoing E H S O × List (Outgoing E H S O))
    → List (Outgoing E H S O × List (TryRecv (Outgoing E H S O)))
rounds_of [] = []
rounds_of ((first, waiting) ∷ groups) = (first, map received waiting) ∷ rounds_of groups

-- The messages that the rounds take from the channel.
unfoldable pub taken :
    {E H S O : Type 0}
    → WebSocketUpdateMode
    → List (Outgoing E H S O × List (Outgoing E H S O))
    → List (Outgoing E H S O)
taken mode [] = []
taken mode ((first, waiting) ∷ groups) =
    first ∷ ((if uses_conflation mode then waiting else []) ++ taken mode groups)

module _ {E H S O : Type 0} ⦃roster : Roster (Notice S O)⦄ (id : String) where
  pub receive-append :
      (c : Option (SessionProjection E H)) (ms ns : List (Outgoing E H S O))
      → receive id c (ms ++ ns) ≡ receive id (receive id c ms) ns
  unfolding receive
  receive-append c [] ns = refl
  receive-append c (m ∷ ms) ns = receive-append (deliver id c m) ms ns

  receive-conflate :
      (c : Option (SessionProjection E H)) (connection seq : ℕ) (ms : List (Outgoing E H S O))
      → All (Retains id) ms
      → receive id c (send_collected connection (conflate_server_messages ms) seq).1
        ≡ receive id c ms
  receive-conflate c connection seq ms keeps =
      receive-send_collected id c connection seq (conflate_server_messages ms) (
        subst (All (Retains id)) (sym (conflate_server_messages-latest ms))
          (Retains-latest id ms keeps))
      ∙ ap (receive id c) (conflate_server_messages-latest ms)
      ∙ receive-latest id c ms keeps

  -- A round collects, and leaves the replica as its messages one by one would.
  receive-collected :
      (c : Option (SessionProjection E H)) (connection seq : ℕ) (mode : WebSocketUpdateMode)
      (first : Outgoing E H S O) (waiting : List (Outgoing E H S O))
      → All (Retains id) (first ∷ (if uses_conflation mode then waiting else []))
      → (ms : List (Outgoing E H S O)) × (collect_outbound_events first (map received waiting) mode
          ≡ collected ms)
        × (receive id c (send_collected connection ms seq).1
            ≡ receive id c (first ∷ (if uses_conflation mode then waiting else [])))
  unfolding collect_outbound_events uses_conflation
  receive-collected c connection seq immediate first waiting keeps =
      (first ∷ [], refl, receive-send_collected id c connection seq (first ∷ []) keeps)
  receive-collected c connection seq conflate_and_delta first waiting keeps = (
    conflate_server_messages (first ∷ waiting),
    collect_from-received (first ∷ []) waiting,
    receive-conflate c connection seq (first ∷ waiting) keeps,
  )

  pub receive-send_broadcasts :
      (c : Option (SessionProjection E H)) (connection seq : ℕ) (mode : WebSocketUpdateMode)
      (groups : List (Outgoing E H S O × List (Outgoing E H S O)))
      → All (Retains id) (taken mode groups)
      → receive id c (send_broadcasts connection mode (rounds_of groups) seq)
        ≡ receive id c (taken mode groups)
  unfolding send_broadcasts taken
  receive-send_broadcasts c connection seq mode [] keeps = refl
  receive-send_broadcasts c connection seq mode ((first, waiting) ∷ groups) keeps =
      let group : List (Outgoing E H S O) = if uses_conflation mode then waiting else [] in
      let split = All-append_inv (Retains id) group (taken mode groups) keeps.1 in
      let (ms, e, received_all) =
        receive-collected c connection seq mode first waiting (keeps.0, split.0) in
      let (next, sent) = send_collected connection ms seq in
      let rest = send_broadcasts connection mode (rounds_of groups) next in
      let now : List (Outgoing E H S O) = first ∷ (if uses_conflation mode then waiting else []) in
      rw (e, send_broadcasts)
        (receive-append c sent rest
          ∙ ap (λ d. receive id d rest) received_all
          ∙ receive-send_broadcasts (receive id c now) connection next mode groups split.1
          ∙ sym (receive-append c now (taken mode groups)))
