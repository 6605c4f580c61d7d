-- ===== src/Web/Outbound.antt =====
-- src/web.rs: the update modes, the conflation of waiting broadcasts, and who sees a message. The
-- messages beside snapshots and deltas of one session are told apart by the connections they are for.
pub mod Kept
pub mod Latest
pub mod Replica
pub mod Converges
use fura.Base.{
  ℕ, ◌+◌, ◌%◌, ◌^◌, String, Bool, true, false, not, Option, none, some, List, [], ◌∷◌, ◌++◌, map,
  ◌==◌, str_eq, if◌then◌else◌,
}
use fura.Base.Sort.{filter, sort_by_key}
use fura.Events.Message.{ServerMessage, session_snapshot, session_delta, other}

pub data WebSocketUpdateMode : Type 0 where
  immediate conflate_and_delta : WebSocketUpdateMode

unfoldable pub from_client : Option String → WebSocketUpdateMode
from_client none = immediate
from_client (some client) = if str_eq client "mobile" then conflate_and_delta else immediate

unfoldable pub uses_conflation : WebSocketUpdateMode → Bool
uses_conflation immediate = false
uses_conflation conflate_and_delta = true

-- `SessionsSnapshot`; a message with a `target_connection_id` that is a `u64` (insights and by-the-way
-- questions) or an `Option<u64>` (forks, skills and rewinds); any other message.
pub data Notice (S O : Type 0) : Type 0 where
  sessions_snapshot : S → Notice S O
  targeted : ℕ → O → Notice S O
  targeted_if : Option ℕ → O → Notice S O
  untargeted : O → Notice S O

pub data ConflationKey : Type 0 where
  sessions_snapshot_key : ConflationKey
  session_snapshot_key : String → ConflationKey

unfoldable pub same_key : ConflationKey → ConflationKey → Bool
same_key sessions_snapshot_key sessions_snapshot_key = true
same_key sessions_snapshot_key (session_snapshot_key j) = false
same_key (session_snapshot_key i) sessions_snapshot_key = false
same_key (session_snapshot_key i) (session_snapshot_key j) = str_eq i j

-- What `try_recv` returns while messages wait; at the end of a list it returns `Empty`.
pub data TryRecv (M : Type 0) : Type 0 where
  received : M → TryRecv M
  lagged : ℕ → TryRecv M
  closed : TryRecv M

pub data OutboundCollectError : Type 0 where
  lagged_error : ℕ → OutboundCollectError
  closed_error : OutboundCollectError

pub data Collected (M : Type 0) : Type 0 where
  collected : List M → Collected M
  failed : OutboundCollectError → Collected M

abbrev pub Outgoing : Type 0 → Type 0 → Type 0 → Type 0 → Type 0
Outgoing E H S O = ServerMessage E H (Notice S O)

abbrev pub Indexed : Type 0 → Type 0 → Type 0 → Type 0 → Type 0
Indexed E H S O = ℕ × Outgoing E H S O

module _ {E H S O : Type 0} where
  unfoldable pub key_of : Outgoing E H S O → Option ConflationKey
  key_of (session_snapshot id state) = some (session_snapshot_key id)
  key_of (session_delta id state) = none
  key_of (other (sessions_snapshot s)) = some sessions_snapshot_key
  key_of (other (targeted c o)) = none
  key_of (other (targeted_if c o)) = none
  key_of (other (untargeted o)) = none

  abbrev pub index_of : Indexed E H S O → ℕ
  index_of m = m.0

  abbrev pub message_of : Indexed E H S O → Outgoing E H S O
  message_of m = m.1

  abbrev pub entry_of : ConflationKey × Indexed E H S O → Indexed E H S O
  entry_of e = e.1

  -- The entry of the key leaves and the new one comes; a `HashMap` has no order.
  unfoldable pub put :
      ConflationKey
      → Indexed E H S O
      → List (ConflationKey × Indexed E H S O)
      → List (ConflationKey × Indexed E H S O)
  unfolding filter
  put k m t = filter (λ e. not (same_key e.0 k)) t ++ (k, m) ∷ []

  -- `into_values`, `extend`, `sort_by_key`
  unfoldable pub in_order :
      List (ConflationKey × Indexed E H S O) → List (Indexed E H S O) → List (Indexed E H S O)
  in_order conflated passthrough = sort_by_key index_of (map entry_of conflated ++ passthrough)

  -- The loop, from the message with this index on.
  unfoldable pub conflate_from :
      ℕ
      → List (ConflationKey × Indexed E H S O)
      → List (Indexed E H S O)
      → List (Outgoing E H S O)
      → List (Indexed E H S O)
  unfolding in_order
  conflate_from n conflated passthrough [] = in_order conflated passthrough
  conflate_from n conflated passthrough (m ∷ ms) = elim (key_of m) [
    | none ↦ conflate_from (n + 1) conflated (passthrough ++ (n, m) ∷ []) ms
    | some k ↦ conflate_from (n + 1) (put k (n, m) conflated) passthrough ms
  ]

  unfoldable pub conflate_server_messages : List (Outgoing E H S O) → List (Outgoing E H S O)
  unfolding conflate_from
  conflate_server_messages ms = map message_of (conflate_from 0 [] [] ms)

  unfoldable pub collect_from :
      List (Outgoing E H S O) → List (TryRecv (Outgoing E H S O)) → Collected (Outgoing E H S O)
  unfolding conflate_server_messages
  collect_from messages [] = collected (conflate_server_messages messages)
  collect_from messages (received m ∷ rest) = collect_from (messages ++ m ∷ []) rest
  collect_from messages (lagged skipped ∷ rest) = failed (lagged_error skipped)
  collect_from messages (closed ∷ rest) = failed closed_error

  unfoldable pub collect_outbound_events :
      (Outgoing E H S O)
      → List (TryRecv (Outgoing E H S O))
      → WebSocketUpdateMode
      → Collected (Outgoing E H S O)
  unfolding collect_from
  collect_outbound_events first waiting mode =
      if not (uses_conflation mode)
      then collected (first ∷ [])
      else collect_from (first ∷ []) waiting

  unfoldable pub server_message_visible_to_connection : Outgoing E H S O → ℕ → Bool
  server_message_visible_to_connection (session_snapshot id state) connection = true
  server_message_visible_to_connection (session_delta id state) connection = true
  server_message_visible_to_connection (other (sessions_snapshot s)) connection = true
  server_message_visible_to_connection (other (targeted c o)) connection = c == connection
  server_message_visible_to_connection (other (targeted_if none o)) connection = false
  server_message_visible_to_connection (other (targeted_if (some c) o)) connection = c == connection
  server_message_visible_to_connection (other (untargeted o)) connection = true

  -- The connection's counter and the message sent, if it is sent.
  unfoldable pub send_client_message : ℕ → Outgoing E H S O → ℕ → ℕ × List (Outgoing E H S O)
  unfolding server_message_visible_to_connection
  send_client_message connection message outbound_seq =
      if not (server_message_visible_to_connection message connection)
      then (outbound_seq, [])
      else ((outbound_seq + 1) % 2 ^ 64, message ∷ [])

  -- The loop over the collected messages, while every send succeeds.
  unfoldable pub send_collected : ℕ → List (Outgoing E H S O) → ℕ → ℕ × List (Outgoing E H S O)
  unfolding send_client_message
  send_collected connection [] outbound_seq = (outbound_seq, [])
  send_collected connection (m ∷ ms) outbound_seq =
      let (next, sent) = send_client_message connection m outbound_seq in
      let (last, rest) = send_collected connection ms next in (last, sent ++ rest)

  -- The rounds of the connection's loop that serve broadcasts: what `recv` returned, and what
  -- `try_recv` then returns. A round that fails to collect ends the connection.
  unfoldable pub send_broadcasts :
      ℕ
      → WebSocketUpdateMode
      → List (Outgoing E H S O × List (TryRecv (Outgoing E H S O)))
      → ℕ
      → List (Outgoing E H S O)
  unfolding collect_outbound_events send_collected
  send_broadcasts connection mode [] outbound_seq = []
  send_broadcasts connection mode ((first, waiting) ∷ rounds) outbound_seq =
      elim (collect_outbound_events first waiting mode) [
        | failed error ↦ []
        | collected messages ↦
            let (next, sent) = send_collected connection messages outbound_seq in
            sent ++ send_broadcasts connection mode rounds next
      ]
