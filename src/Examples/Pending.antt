-- ===== src/Examples/Pending.antt =====
-- Session forks and rewinds that wait on one transport.
use fura.Base.{ℕ, ◌≡◌, refl, true, false, some, List, [], ◌∷◌, String}
use fura.Base.Table.{lookup, contains_key, insert, remove, any_value}
use fura.Runtime.State.{
  Payloads, PendingSessionFork, RewindRoute, PendingRewindRpc, branch_get_state, error,
}
use fura.Runtime.Fork.{
  insert_pending_session_fork, transition_session_fork_to_get_state, await_state,
}
use fura.Runtime.Fork.Exclusive.{
  ForkCall, insert_fork, transition, apply as apply_fork, apply_all as apply_forks, forks-Exclusive,
}
use fura.Runtime.Rewind.{
  insert_pending_rewind_list, insert_pending_rewind_branch, transition_rewind_branch_to_get_state,
  refresh_after,
}
use fura.Runtime.Rewind.Exclusive.{
  RewindCall, insert_list, insert_branch, transition as refresh, apply as apply_rewind,
  apply_all as apply_rewinds, rewinds-Exclusive,
}

abbrev fork : PendingSessionFork
fork = record {
  target_connection_id = some 1;
  request_id = "r";
  source_session_id = "s";
  transport_session_id = "t";
  name = "fork";
  awaiting_state = false;
}

-- The second fork is refused.
abbrev fork_calls : List ForkCall
fork_calls = insert_fork "c1" fork ∷ insert_fork "c2" fork ∷ transition "c1" "c3" ∷ []

fork_found : lookup "c3" (apply_forks [] fork_calls) ≡ some (record fork { awaiting_state = true })
unfolding lookup contains_key insert remove any_value apply_fork apply_forks
    insert_pending_session_fork transition_session_fork_to_get_state await_state
fork_found = refl

forks-Exclusive_example : ◌≡◌ {A = String} "c3" "c3"
forks-Exclusive_example =
    forks-Exclusive fork_calls "c3" "c3" (record fork { awaiting_state = true })
      (record fork { awaiting_state = true }) fork_found fork_found refl

abbrev payloads : Payloads
payloads = record {
  SessionRecord = ℕ;
  Sender = ℕ;
  Stop = ℕ;
  Value = ℕ;
  Image = ℕ;
  CreatedSession = ℕ;
  Carryover = ℕ;
  InsightRequest = ℕ;
}

abbrev rewind_route : RewindRoute
rewind_route = record {
  target_connection_id = some 1;
  request_id = "r";
  source_session_id = "s";
  transport_session_id = "t";
}

abbrev rewind_calls : List (RewindCall payloads)
rewind_calls =
    insert_list "c0" rewind_route
    ∷ insert_branch "c1" rewind_route
    ∷ insert_branch "c2" rewind_route
    ∷ refresh "c1" "c3" (error "failed")
    ∷ []

abbrev refreshing : PendingRewindRpc payloads
refreshing = branch_get_state rewind_route (error "failed")

rewind_found : lookup "c3" (apply_rewinds payloads [] rewind_calls) ≡ some refreshing
unfolding lookup contains_key insert remove any_value apply_rewind apply_rewinds
    insert_pending_rewind_list insert_pending_rewind_branch transition_rewind_branch_to_get_state
    refresh_after
rewind_found = refl

rewinds-Exclusive_example : ◌≡◌ {A = String} "c3" "c3"
rewinds-Exclusive_example =
    rewinds-Exclusive payloads rewind_calls "c3" "c3" refreshing refreshing rewind_found
      rewind_found refl refl refl
