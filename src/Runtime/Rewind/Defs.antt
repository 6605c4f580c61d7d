-- ===== src/Runtime/Rewind/Defs.antt =====
-- src/state.rs: `PendingRewindRpc` and the methods on pending rewinds. A method works on its registry
-- alone.
use fura.Base.{
  ℕ, Bool, true, false, ◌&&◌, ◌||◌, Option, none, some, String, str_eq, ◌==◌, if◌then◌else◌,
}
use fura.Base.Table.{Table, lookup, contains_key, insert, remove, map_values, any_value}
use fura.Runtime.State.{
  Payloads, RewindRoute, RewindOutcome, PendingRewindRpc, list, branch, branch_get_state,
}
use fura.Runtime.Transport.{route}

abbrev is_connection : Option ℕ → ℕ → Bool
is_connection none connection_id = false
is_connection (some c) connection_id = c == connection_id

unfoldable pub detach_route : ℕ → RewindRoute → RewindRoute
detach_route connection_id r =
    if is_connection r.target_connection_id connection_id
    then record r { target_connection_id = none }
    else r

module _ (T : Payloads) where
  abbrev pub Rewinds : Type 0
  Rewinds = Table (PendingRewindRpc T)

  abbrev pub is_mutation : PendingRewindRpc T → Bool
  is_mutation (list r) = false
  is_mutation (branch r) = true
  is_mutation (branch_get_state r outcome) = true

  -- A pending mutation on the transport of the new request.
  abbrev pub blocks : RewindRoute → PendingRewindRpc T → Bool
  blocks r rewind =
      is_mutation rewind && str_eq (route T rewind).transport_session_id r.transport_session_id

  unfoldable pub insert_pending_rewind_list : Rewinds → String → RewindRoute → Rewinds × Bool
  insert_pending_rewind_list pending command_id r =
      if contains_key command_id pending || any_value (blocks r) pending
      then (pending, false)
      else (insert command_id (list r) pending, true)

  unfoldable pub insert_pending_rewind_branch : Rewinds → String → RewindRoute → Rewinds × Bool
  insert_pending_rewind_branch pending command_id r =
      if contains_key command_id pending || any_value (blocks r) pending
      then (pending, false)
      else (insert command_id (branch r) pending, true)

  unfoldable pub pending_rewind_rpc : Rewinds → String → Option (PendingRewindRpc T)
  pending_rewind_rpc pending command_id = lookup command_id pending

  unfoldable pub take_pending_rewind_rpc : Rewinds → String → Rewinds × Option (PendingRewindRpc T)
  take_pending_rewind_rpc pending command_id =
      (remove command_id pending, lookup command_id pending)

  -- Only a branch moves on.
  unfoldable pub refresh_after :
      Rewinds → String → String → RewindOutcome T → Option (PendingRewindRpc T) → Rewinds × Bool
  refresh_after pending id get_state_id outcome none = (pending, false)
  refresh_after pending id get_state_id outcome (some (list r)) = (pending, false)
  refresh_after pending id get_state_id outcome (some (branch r)) =
      (insert get_state_id (branch_get_state r outcome) (remove id pending), true)
  refresh_after pending id get_state_id outcome (some (branch_get_state r o)) = (pending, false)

  unfoldable pub transition_rewind_branch_to_get_state :
      Rewinds → String → String → RewindOutcome T → Rewinds × Bool
  transition_rewind_branch_to_get_state pending branch_command_id get_state_command_id outcome =
      if contains_key get_state_command_id pending
      then (pending, false)
      else refresh_after pending branch_command_id get_state_command_id outcome
          (lookup branch_command_id pending)

  -- `route_mut`
  unfoldable pub detach_rewind : ℕ → PendingRewindRpc T → PendingRewindRpc T
  detach_rewind c (list r) = list (detach_route c r)
  detach_rewind c (branch r) = branch (detach_route c r)
  detach_rewind c (branch_get_state r outcome) = branch_get_state (detach_route c r) outcome

  unfoldable pub detach_rewind_connection : Rewinds → ℕ → Rewinds
  detach_rewind_connection pending connection_id = map_values (detach_rewind connection_id) pending
