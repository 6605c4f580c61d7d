-- ===== src/Examples/Runtime.antt =====
-- A runtime state with two transports and what waits on them.
use fura.Base.{
  ℕ, ◌≡◌, ◌⊎◌, ◌↔◌, refl, Bool, true, false, not, ◌&&◌, none, some, List, [], ◌∷◌, String, str_eq,
  arith, if◌then◌else◌,
}
use fura.Base.Table.{Table, lookup, contains_key, Distinct}
use fura.Runtime.State.{
  Payloads, SessionRuntimeState, RpcSessionHandle, RemovedRpcTransport, PendingSessionFork,
  BtwRequestRoute, start, standard, diff_review, new,
}
use fura.Runtime.Transport.{
  remove_transport, transport_session_id_for, target_session_id_for_transport, contains_transport,
  find_target, route_for,
}
use fura.Runtime.Transport.Removal.{IsKeyed, IsPurged, Spares, HandsOver, remove_transport_lem}
use fura.Runtime.Transport.Routing.{transport_for_served, transport_for_sound}
use fura.Runtime.Metadata.{
  session_category, set_remapped_session_metadata, prune_session_metadata, prune_reports,
  prune_keeps, remapped_lem, is_standard,
}
use fura.Runtime.Stderr.{remember_all, take_recent_rpc_stderr, last_lines, remember_all_lem}
use fura.Runtime.Btw.Routed.{
  IsRouted, BtwCall, drop_transport, insert_question, remove_question, apply_btws, calls-IsRouted,
}

abbrev pub numbers : Payloads
numbers = record {
  SessionRecord = ℕ;
  Sender = ℕ;
  Stop = ℕ;
  Value = ℕ;
  Image = ℕ;
  CreatedSession = ℕ;
  Carryover = ℕ;
  InsightRequest = ℕ;
}

abbrev fork_on : String → PendingSessionFork
fork_on transport = record {
  target_connection_id = some 1;
  request_id = "r";
  source_session_id = "s";
  transport_session_id = transport;
  name = "fork";
  awaiting_state = false;
}

abbrev question_on : String → BtwRequestRoute
question_on transport = record {
  target_client_id = "c";
  owner_connection_id = 1;
  source_session_id = "s";
  transport_session_id = transport;
  terminal = false;
}

abbrev handle : RpcSessionHandle numbers
handle = record { stdin = 1; stop = 2 }

abbrev two_transports : SessionRuntimeState numbers
two_transports =
    record (new numbers (("s", "work") ∷ ("old", "work") ∷ []) (("s", diff_review) ∷ [])) {
      rpc_sessions = ("t", handle) ∷ ("u", handle) ∷ [];
      rpc_session_targets = ("t", "s") ∷ ("u", "u") ∷ [];
      pending_session_forks = ("c1", fork_on "t") ∷ ("c2", fork_on "u") ∷ [];
      btw_requests = ("b1", question_on "t") ∷ ("b2", question_on "u") ∷ [];
      pending_btw_commands =
          ("c3", record { btw_id = "b1"; kind = start })
          ∷ ("c4", record { btw_id = "b2"; kind = start })
          ∷ [];
    }

two_transports-IsKeyed : IsKeyed numbers two_transports
unfolding lookup
two_transports-IsKeyed = record {
  forks = (refl, (refl, tt));
  btws = (refl, (refl, tt));
  rewinds = tt;
  skills = tt;
}

t_is_known : lookup "t" two_transports.rpc_sessions ≡ some handle
unfolding lookup
t_is_known = refl

remove_transport_lem_example :
    IsPurged numbers "t"
      (target_session_id_for_transport numbers two_transports "t")
      (remove_transport numbers two_transports "t").0
    × Spares numbers "t" two_transports (remove_transport numbers two_transports "t").0
    × ((r : RemovedRpcTransport numbers) × ((remove_transport numbers two_transports "t").1
          ≡ some r)
        × HandsOver numbers "t" two_transports handle r)
remove_transport_lem_example =
    remove_transport_lem numbers two_transports "t" handle two_transports-IsKeyed t_is_known

targets-Distinct : Distinct two_transports.rpc_session_targets
unfolding lookup
targets-Distinct = (refl, (refl, tt))

t_serves_s : lookup "t" two_transports.rpc_session_targets ≡ some "s"
unfolding lookup
t_serves_s = refl

route_to_s : transport_session_id_for numbers two_transports "s" ≡ some "t"
unfolding transport_session_id_for find_target route_for lookup
route_to_s = refl

transport_for_served_example :
    (t : String) × (transport_session_id_for numbers two_transports "s" ≡ some t)
    × (target_session_id_for_transport numbers two_transports t ≡ "s")
transport_for_served_example =
    transport_for_served numbers two_transports "s" "t" targets-Distinct t_serves_s

transport_for_sound_example :
    (target_session_id_for_transport numbers two_transports "t" ≡ "s")
    ⊎ ((◌≡◌ {A = String} "t" "s")
        × (contains_key "s" two_transports.sessions ≡ false)
        × (contains_transport numbers two_transports "s" ≡ true))
transport_for_sound_example =
    transport_for_sound numbers two_transports "s" "t" targets-Distinct route_to_s

abbrev is_s : String → Bool
is_s id = str_eq id "s"

abbrev pruned_state : SessionRuntimeState numbers
pruned_state = (prune_session_metadata numbers two_transports is_s).0

prune_reports_example : ((prune_session_metadata numbers two_transports is_s).1 ≡ false) ↔ (
    (pruned_state.session_categories ≡ two_transports.session_categories)
    × (pruned_state.session_modes ≡ two_transports.session_modes))
prune_reports_example = prune_reports numbers two_transports is_s

categories-Distinct : Distinct two_transports.session_categories
unfolding lookup
categories-Distinct = (refl, (refl, tt))

modes-Distinct : Distinct two_transports.session_modes
unfolding lookup
modes-Distinct = (refl, tt)

prune_keeps_example :
    (session_category numbers pruned_state "old"
      ≡ (if is_s "old" then session_category numbers two_transports "old" else none))
    × (lookup "old" pruned_state.session_modes ≡ elim (lookup "old" two_transports.session_modes) [
      | none ↦ none
      | some mode ↦ if is_s "old" && not (is_standard mode) then some mode else none
    ])
prune_keeps_example =
    prune_keeps numbers two_transports is_s categories-Distinct modes-Distinct "old"

abbrev remapped_state : SessionRuntimeState numbers
remapped_state = set_remapped_session_metadata numbers two_transports "s" none standard

remapped_lem_example :
    (session_category numbers remapped_state "s"
      ≡ (if str_eq "s" "s" then none else session_category numbers two_transports "s"))
    × (lookup "s" remapped_state.session_modes ≡ (
        if str_eq "s" "s"
        then (if is_standard standard then none else some standard)
        else lookup "s" two_transports.session_modes))
remapped_lem_example = remapped_lem numbers two_transports "s" none standard "s"

nothing_yet : lookup {V = List String} "t" [] ≡ none
unfolding lookup
nothing_yet = refl

abbrev stderr_lines : List String
stderr_lines = "one" ∷ "two" ∷ "three" ∷ []

remember_all_lem_example :
    (recent : Table (List String)) × (remember_all [] "t" 2 stderr_lines ≡ some recent)
    × ((take_recent_rpc_stderr recent "t").1 ≡ last_lines 2 stderr_lines)
remember_all_lem_example = remember_all_lem 2 "t" stderr_lines [] (omega arith) nothing_yet

two_transports-IsRouted : IsRouted numbers two_transports
unfolding contains_key lookup
two_transports-IsRouted = (refl, (refl, tt))

questions-Distinct : Distinct two_transports.btw_requests
unfolding lookup
questions-Distinct = (refl, (refl, tt))

abbrev btw_calls : List (BtwCall numbers)
btw_calls = drop_transport "t" ∷ insert_question "b3" (question_on "u") ∷ remove_question "b2" ∷ []

calls-IsRouted_example : IsRouted numbers (apply_btws numbers two_transports btw_calls)
calls-IsRouted_example =
    calls-IsRouted numbers btw_calls two_transports questions-Distinct two_transports-IsRouted
