-- ===== src/Examples/Status.antt =====
-- What src/session.rs and src/state.rs report of one session.
use fura.Base.{◌≡◌, refl, true, false, ◌||◌, Option, none, some, List, [], ◌∷◌, inl}
use fura.Session.Record.{header, is_terminal, reconcile_persisted_recency, SessionRecord}
use fura.Session.Parts.{SessionSkillsState, SessionFileStamp}
use fura.Recency.Fact.{Timestamp}
use fura.Session.State.{RpcRecordState, apply_rpc_state_to_record}
use fura.Session.Status.{
  ShowsWork, OwnSkills, ReviewsPlan, header-ShowsWork, apply_rpc_state_to_record_lem,
  reconcile_persisted_recency_lem, scanned,
}
use fura.Examples.Json.{crates}
use fura.Examples.Session.{session}

header-ShowsWork_example : ShowsWork crates (is_terminal crates session) session
header-ShowsWork_example = header-ShowsWork crates session

abbrev other_skills : SessionSkillsState
other_skills = record {
  session_id = "t";
  journal_session_id = "t";
  revision = "1";
  selected = [];
  active_revision = "1";
  active = [];
  pending = false;
  applying = false;
  error = none;
}

abbrev reply : RpcRecordState crates
reply = record {
  is_streaming = true;
  is_compacting = false;
  session_name = some "new name";
  model = none;
  thinking_level = none;
  session_file = none;
  context_tokens = some 3;
  context_window = none;
  context_percent = none;
  plan_mode = some none;
  todo_phases = none;
  session_skills = some other_skills;
}

apply_rpc_state_to_record_lem_example :
    let r' = apply_rpc_state_to_record crates session reply in
    ((header crates r').is_busy
      ≡ (reply.is_streaming || session.continuation_pending || reply.is_compacting))
    × ((header crates r').compacting ≡ reply.is_compacting)
    × OwnSkills crates r'
    × ReviewsPlan crates r'
apply_rpc_state_to_record_lem_example =
    apply_rpc_state_to_record_lem crates session reply (inl refl)

abbrev live_session : SessionRecord crates
live_session = record session { last_message_at = some 9; persisted_message_at = some 5 }

abbrev scans : List (Option Timestamp × Option SessionFileStamp)
scans = (some 6, none) ∷ (some 6, none) ∷ (some 8, none) ∷ []

reconcile_persisted_recency_lem_example :
    ((scanned crates scans live_session).last_message_at ≡ some 9)
    × ((reconcile_persisted_recency crates
          (some 10)
          none
          (scanned crates scans live_session)).last_message_at
        ≡ some 10)
unfolding is_terminal
reconcile_persisted_recency_lem_example =
    reconcile_persisted_recency_lem crates scans (some 10) none live_session refl refl
      (refl, refl, (refl, refl, (refl, refl, tt))) (inl refl)
