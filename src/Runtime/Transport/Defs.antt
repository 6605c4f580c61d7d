-- ===== src/Runtime/Transport/Defs.antt =====
-- src/state.rs: the methods on transports, their protocol versions and their message pages.
use fura.Base.{
  ℕ, Bool, false, not, ◌||◌, Option, none, some, List, [], ◌∷◌, String, str_eq, ◌==◌, if◌then◌else◌,
}
use fura.Base.Table.{
  Table, lookup, contains_key, insert, remove, retain, map_values, matching, remove_each, take_each,
  values,
}
use fura.Runtime.State.{
  Payloads, SessionRuntimeState, RpcSessionHandle, RemovedRpcTransport, PendingRpcMessagesPage,
  PendingSessionFork, BtwRequestRoute, PendingRewindRpc, PendingSessionSkills,
  PendingSessionInsight, RewindRoute, list, branch, branch_get_state,
}

abbrev pub or_else {ℓ} : {A : Type ℓ} → Option A → A → A
or_else none d = d
or_else (some a) d = a

abbrev is_connection : Option ℕ → ℕ → Bool
is_connection none connection_id = false
is_connection (some c) connection_id = c == connection_id

-- `iter().find(|(_, target)| target == id).map(|(transport, _)| transport)`
unfoldable pub find_target : String → Table String → Option String
find_target id [] = none
find_target id ((transport, target) ∷ m) =
    if str_eq target id then some transport else find_target id m

-- `removed_btw_ids.contains(..)`
unfoldable pub has_id {ℓ} : {A : Type ℓ} → String → Table A → Bool
has_id id [] = false
has_id id ((j, a) ∷ m) = str_eq j id || has_id id m

module _ (T : Payloads) where
  abbrev pub route : PendingRewindRpc T → RewindRoute
  route (list r) = r
  route (branch r) = r
  route (branch_get_state r outcome) = r

  abbrev State : Type 0
  State = SessionRuntimeState T

  unfoldable pub register_transport : State → String → RpcSessionHandle T → State
  register_transport s transport handle = record s {
    rpc_sessions = insert transport handle s.rpc_sessions;
    rpc_session_targets = insert transport transport s.rpc_session_targets;
  }

  unfoldable pub map_transport_to_session : State → String → String → State
  map_transport_to_session s transport target = record s {
    pending_session_skills =
        retain
          (λ _ pending.
            not (str_eq pending.transport_session_id transport) || str_eq pending.session_id target)
          s.pending_session_skills;
    pending_session_insights =
        retain
          (λ _ pending.
            not (str_eq pending.transport_session_id transport) || str_eq pending.session_id target)
          s.pending_session_insights;
    rpc_session_targets = insert transport target s.rpc_session_targets;
  }

  -- Which entries belong to the transport.
  abbrev pub page_of : String → PendingRpcMessagesPage T → Bool
  page_of t pending = str_eq pending.transport_session_id t

  abbrev pub fork_of : String → PendingSessionFork → Bool
  fork_of t fork = str_eq fork.transport_session_id t

  abbrev pub btw_of : String → BtwRequestRoute → Bool
  btw_of t request = str_eq request.transport_session_id t

  abbrev pub rewind_of : String → PendingRewindRpc T → Bool
  rewind_of t rewind = str_eq (route rewind).transport_session_id t

  abbrev pub skills_of : String → PendingSessionSkills T → Bool
  skills_of t pending = str_eq pending.transport_session_id t

  abbrev pub insight_of : String → PendingSessionInsight T → Bool
  insight_of t pending = str_eq pending.transport_session_id t

  unfoldable pub take_session_skills_for_transport :
      State → String → State × List (PendingSessionSkills T)
  take_session_skills_for_transport s t =
      let ids = matching (skills_of t) s.pending_session_skills in
      (
        record s { pending_session_skills = remove_each ids s.pending_session_skills },
        values (take_each ids s.pending_session_skills),
      )

  unfoldable pub detach_session_skills_connection : State → ℕ → State
  detach_session_skills_connection s connection_id = record s {
    pending_session_skills =
        map_values
          (λ pending.
            if is_connection pending.target_connection_id connection_id
            then record pending { target_connection_id = none }
            else pending)
          s.pending_session_skills;
  }

  unfoldable pub target_session_id_for_transport : State → String → String
  target_session_id_for_transport s transport =
      or_else (lookup transport s.rpc_session_targets) transport

  -- The part of `remove_transport` behind the removed handle.
  unfoldable pub remove_registered :
      State → String → RpcSessionHandle T → State × RemovedRpcTransport T
  remove_registered s t handle =
      let target = or_else (lookup t s.rpc_session_targets) t in
      let fork_ids = matching (fork_of t) s.pending_session_forks in
      let btw_ids = matching (btw_of t) s.btw_requests in
      let btw_requests = take_each btw_ids s.btw_requests in
      let rewind_ids = matching (rewind_of t) s.pending_rewind_rpcs in
      let (s', session_skills) =
        take_session_skills_for_transport
          (record s {
            rpc_sessions = remove t s.rpc_sessions;
            rpc_session_targets = remove t s.rpc_session_targets;
            rpc_protocol_versions = remove t s.rpc_protocol_versions;
            pending_session_insights =
                retain (λ _ pending. not (insight_of t pending)) s.pending_session_insights;
            pending_rpc_message_pages =
                retain (λ _ pending. not (page_of t pending)) s.pending_rpc_message_pages;
            pending_session_forks = remove_each fork_ids s.pending_session_forks;
            btw_requests = remove_each btw_ids s.btw_requests;
            pending_btw_commands =
                retain (λ _ command. not (has_id command.btw_id btw_requests))
                  s.pending_btw_commands;
            pending_compaction_commands =
                retain (λ _ session_id. not (str_eq session_id target))
                  s.pending_compaction_commands;
            pending_rewind_rpcs = remove_each rewind_ids s.pending_rewind_rpcs;
          })
          t in
      (
        s',
        record {
          handle = handle;
          target_session_id = target;
          btw_requests = btw_requests;
          rewind_requests = values (take_each rewind_ids s.pending_rewind_rpcs);
          session_forks = values (take_each fork_ids s.pending_session_forks);
          session_skills = session_skills;
        },
      )

  removed : State → String → Option (RpcSessionHandle T) → State × Option (RemovedRpcTransport T)
  removed s t none = (s, none)
  removed s t (some handle) = let (s', r) = remove_registered s t handle in (s', some r)

  unfoldable pub remove_transport : State → String → State × Option (RemovedRpcTransport T)
  unfolding removed
  remove_transport s t = removed s t (lookup t s.rpc_sessions)

  -- The cases of `transport_session_id_for`: a transport that serves the session, the session's own
  -- entry among the targets, and neither.
  unfoldable pub route_for : State → String → Option String → Option String → Option String
  route_for s id (some transport) direct = some transport
  route_for s id none (some direct) =
      if contains_key id s.sessions
      then none
      else if contains_key id s.rpc_sessions
      then some id
      else none
  route_for s id none none = some id

  unfoldable pub transport_session_id_for : State → String → Option String
  unfolding route_for
  transport_session_id_for s id =
      route_for s id (find_target id s.rpc_session_targets) (lookup id s.rpc_session_targets)

  unfoldable pub contains_transport : State → String → Bool
  contains_transport s t = contains_key t s.rpc_sessions

  unfoldable pub stdin_for_transport : State → String → Option T.Sender
  stdin_for_transport s t = elim (lookup t s.rpc_sessions) [
    | none ↦ none
    | some handle ↦ some handle.stdin
  ]

  unfoldable pub set_rpc_protocol_version : State → String → ℕ → State
  set_rpc_protocol_version s t version = record s {
    rpc_protocol_versions = insert t version s.rpc_protocol_versions;
  }

  unfoldable pub has_rpc_protocol_version : State → String → Bool
  has_rpc_protocol_version s t = contains_key t s.rpc_protocol_versions

  unfoldable pub rpc_protocol_version : State → String → ℕ
  rpc_protocol_version s t = or_else (lookup t s.rpc_protocol_versions) 1

  unfoldable pub insert_pending_rpc_message_page : State → String → PendingRpcMessagesPage T → State
  insert_pending_rpc_message_page s id pending = record s {
    pending_rpc_message_pages = insert id pending s.pending_rpc_message_pages;
  }

  unfoldable pub take_pending_rpc_message_page :
      State → String → State × Option (PendingRpcMessagesPage T)
  take_pending_rpc_message_page s id = (
    record s { pending_rpc_message_pages = remove id s.pending_rpc_message_pages },
    lookup id s.pending_rpc_message_pages,
  )

  unfoldable pub clear_pending_rpc_message_pages_for_transport : State → String → State
  clear_pending_rpc_message_pages_for_transport s t = record s {
    pending_rpc_message_pages =
        retain (λ _ pending. not (page_of t pending)) s.pending_rpc_message_pages;
  }
