-- ===== src/Session/State.antt =====
-- src/state.rs: `apply_rpc_state_to_record`, what a `get_state` reply changes in a record.
use fura.Base.{ℕ, Bool, not, ◌||◌, Option, none, some, List, String, str_eq as ◌==◌, if◌then◌else◌}
use fura.Base.Options.{or_else, is_some, some_and, keep_if}
use fura.Session.Crates.{Crates}
use fura.Session.Types.{TodoPhaseProjection}
use fura.Session.Parts.{
  idle, busy, PlanModeProjection, PendingPlanReviewProjection, SessionSkillsState,
}
use fura.Session.Record.{SessionRecord}

abbrev pub titled : Option String → Option String → Option String
titled none title = title
titled (some name) title =
    if not (is_some title) || not (some_and (λ t. t == name) title) then some name else title

abbrev pub plan_enabled : Option PlanModeProjection → Bool
plan_enabled mode = some_and (λ m. m.enabled) mode

abbrev pub planned :
    Option (Option PlanModeProjection)
    → Option PlanModeProjection
    → Option PendingPlanReviewProjection
    → Option PlanModeProjection × Option PendingPlanReviewProjection
planned none old review = (old, review)
planned (some mode) old review = (mode, if plan_enabled mode then review else none)

module _ (crates : Crates) where
  open crates use {Float}

  pub record RpcRecordState : Type 0 where
    pub is_streaming : Bool
    pub is_compacting : Bool
    pub session_name : Option String
    pub model : Option String
    pub thinking_level : Option String
    pub session_file : Option String
    pub context_tokens : Option ℕ
    pub context_window : Option ℕ
    pub context_percent : Option Float
    pub plan_mode : Option (Option PlanModeProjection)
    pub todo_phases : Option (List TodoPhaseProjection)
    pub session_skills : Option SessionSkillsState

  unfoldable pub apply_rpc_state_to_record :
      SessionRecord crates → RpcRecordState → SessionRecord crates
  apply_rpc_state_to_record r state =
      let (plan_mode, review) = planned state.plan_mode r.plan_mode r.pending_plan_review in
      record r {
        status = if state.is_streaming then busy else idle;
        is_compacting = state.is_compacting;
        session_skills = keep_if (λ skills. skills.session_id == r.id) state.session_skills;
        title = titled state.session_name r.title;
        model = or_else state.model r.model;
        thinking_level = or_else state.thinking_level r.thinking_level;
        session_file = or_else state.session_file r.session_file;
        context_tokens = state.context_tokens;
        context_window = state.context_window;
        context_percent = state.context_percent;
        plan_mode = plan_mode;
        pending_plan_review = review;
        todo_phases = or_else state.todo_phases r.todo_phases;
      }
