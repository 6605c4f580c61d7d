-- ===== src/Runtime/Fork/Defs.antt =====
-- src/state.rs: the methods on pending session forks. A method works on its registry alone.
use fura.Base.{ℕ, Bool, true, false, ◌||◌, Option, none, some, String, str_eq, ◌==◌, if◌then◌else◌}
use fura.Base.Table.{Table, lookup, contains_key, insert, remove, map_values, any_value}
use fura.Runtime.State.{PendingSessionFork}

abbrev pub Forks : Type 0
Forks = Table PendingSessionFork

unfoldable pub insert_pending_session_fork : Forks → String → PendingSessionFork → Forks × Bool
insert_pending_session_fork pending command_id pending_fork =
    if contains_key command_id pending
      || any_value (λ fork. str_eq fork.transport_session_id pending_fork.transport_session_id)
          pending
    then (pending, false)
    else (insert command_id pending_fork pending, true)

unfoldable pub pending_session_fork : Forks → String → Option PendingSessionFork
pending_session_fork pending command_id = lookup command_id pending

unfoldable pub take_pending_session_fork : Forks → String → Forks × Option PendingSessionFork
take_pending_session_fork pending command_id =
    (remove command_id pending, lookup command_id pending)

-- `let Some(mut fork) = pending.remove(..)`, on what was there
unfoldable pub await_state : Forks → String → String → Option PendingSessionFork → Forks × Bool
await_state pending fork_command_id get_state_command_id none = (pending, false)
await_state pending fork_command_id get_state_command_id (some fork) = (
  insert get_state_command_id (record fork { awaiting_state = true })
      (remove fork_command_id pending),
  true,
)

unfoldable pub transition_session_fork_to_get_state : Forks → String → String → Forks × Bool
transition_session_fork_to_get_state pending fork_command_id get_state_command_id =
    if contains_key get_state_command_id pending
    then (pending, false)
    else await_state pending fork_command_id get_state_command_id (lookup fork_command_id pending)

abbrev is_connection : Option ℕ → ℕ → Bool
is_connection none connection_id = false
is_connection (some c) connection_id = c == connection_id

unfoldable pub detach_fork : ℕ → PendingSessionFork → PendingSessionFork
detach_fork connection_id fork =
    if is_connection fork.target_connection_id connection_id
    then record fork { target_connection_id = none }
    else fork

unfoldable pub detach_session_fork_connection : Forks → ℕ → Forks
detach_session_fork_connection pending connection_id =
    map_values (detach_fork connection_id) pending
