-- ===== src/Examples/Insights.antt =====
-- src/session_insights.rs: a request on a live session, which a late reply of another transport and the
-- end of a connection do not answer.
use fura.Base.{ℕ, ◌≡◌, refl, Bool, true, false, List, [], ◌∷◌, ◌==◌}
use fura.Base.Table.{lookup}
use fura.Runtime.State.{new}
use fura.Runtime.Transport.{transport_session_id_for, find_target}
use fura.Insights.Types.{recap_request}
use fura.Insights.Requests.{payloads, State, Reply}
use fura.Insights.Steps.{Step, requested, task_ended, disconnected, transport_mapped, run}
use fura.Insights.Outcomes.{addressee}
use fura.Insights.Progress.{answers}
use fura.Insights.Answers.{request-answered}
use fura.Examples.Json.{crates}
use fura.Examples.Runtime.{numbers}
use fura.Examples.Session.{session}

abbrev state : State crates numbers
state = record (new (payloads crates numbers) [] []) {
  sessions = ("s", session) ∷ [];
  rpc_sessions = ("t", record { stdin = 7; stop = 1 }) ∷ [];
  rpc_session_targets = ("t", "s") ∷ [];
}

abbrev all_open : ℕ → Bool
all_open sender = false

abbrev steps : List (Step crates numbers)
steps =
    disconnected 2
    ∷ transport_mapped "u" "v"
    ∷ task_ended "insight-8" true
    ∷ task_ended "insight-9" true
    ∷ []

request-answered_example :
    (m : Reply crates numbers) × (answers crates numbers "insight-9"
        (run crates numbers ◌==◌ state
          (requested all_open 1 "r" "s" recap_request "insight-9" ∷ steps)).1
      ≡ ("insight-9", m) ∷ [])
    × (addressee m ≡ (1, "r", "s"))
unfolding lookup transport_session_id_for find_target
request-answered_example =
    request-answered crates numbers ◌==◌ state all_open 1 "r" "s" recap_request "insight-9" steps
      refl (tt, (tt, (tt, (tt, tt)))) (refl, (refl, (tt, (tt, tt)))) refl
