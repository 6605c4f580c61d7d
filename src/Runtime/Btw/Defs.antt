-- ===== src/Runtime/Btw/Defs.antt =====
-- src/state.rs: the methods on side questions ("by the way" requests) and on the commands sent for
-- them.
use fura.Base.{ℕ, Bool, true, false, not, Option, String, str_eq, ◌==◌, if◌then◌else◌}
use fura.Base.Table.{Table, lookup, contains_key, insert, remove, retain}
use fura.Runtime.State.{Payloads, SessionRuntimeState, BtwRequestRoute, PendingBtwCommand}

module _ (T : Payloads) where
  abbrev State : Type 0
  State = SessionRuntimeState T

  unfoldable pub insert_btw_request : State → String → BtwRequestRoute → State × Bool
  insert_btw_request s btw_id r =
      if contains_key btw_id s.btw_requests
      then (s, false)
      else (record s { btw_requests = insert btw_id r s.btw_requests }, true)

  unfoldable pub btw_request : State → String → Option BtwRequestRoute
  btw_request s btw_id = lookup btw_id s.btw_requests

  unfoldable pub btw_requests_for_owner : State → ℕ → Table BtwRequestRoute
  btw_requests_for_owner s owner = retain (λ _ r. r.owner_connection_id == owner) s.btw_requests

  unfoldable pub remove_btw_request : State → String → State × Option BtwRequestRoute
  remove_btw_request s btw_id = (
    record s {
      btw_requests = remove btw_id s.btw_requests;
      pending_btw_commands =
          retain (λ _ command. not (str_eq command.btw_id btw_id)) s.pending_btw_commands;
    },
    lookup btw_id s.btw_requests,
  )

  unfoldable pub insert_pending_btw_command : State → String → PendingBtwCommand → State
  insert_pending_btw_command s command_id command = record s {
    pending_btw_commands = insert command_id command s.pending_btw_commands;
  }

  unfoldable pub pending_btw_command : State → String → Option PendingBtwCommand
  pending_btw_command s command_id = lookup command_id s.pending_btw_commands

  unfoldable pub take_pending_btw_command : State → String → State × Option PendingBtwCommand
  take_pending_btw_command s command_id = (
    record s { pending_btw_commands = remove command_id s.pending_btw_commands },
    lookup command_id s.pending_btw_commands,
  )

  unfoldable pub insert_pending_compaction_command : State → String → String → State
  insert_pending_compaction_command s command_id session_id = record s {
    pending_compaction_commands = insert command_id session_id s.pending_compaction_commands;
  }

  unfoldable pub take_pending_compaction_command : State → String → State × Option String
  take_pending_compaction_command s command_id = (
    record s { pending_compaction_commands = remove command_id s.pending_compaction_commands },
    lookup command_id s.pending_compaction_commands,
  )
