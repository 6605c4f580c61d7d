-- ===== src/Session/Record.antt =====
-- src/session.rs: `SessionRecord`, what it reports of itself (`summary`, `effective_status`, ...) and
-- its recency. The projection's fields other than the transcript and the number are its header.
use fura.Base.{
  ℕ, Bool, true, false, not, ◌&&◌, ◌||◌, Option, none, some, List, [], ◌∷◌, String, str_eq as ◌==◌,
  if◌then◌else◌, leb, length,
}
use fura.Base.Options.{or_else, ◌>>=◌, unwrap_or, is_some, some_and}
use fura.Base.Sort.{filter}
use fura.Recency.Fact.{Timestamp}
use fura.Recency.Journal.{max_time}
use fura.Runtime.State.{SessionMode}
use fura.Session.Crates.{Crates}
use fura.Session.Text.{starts_with}
use fura.Session.Types.{TranscriptMessage, TodoPhaseProjection, ToolCard}
use fura.Session.Parts.{
  SessionKind, SessionStatus, starting, idle, busy, exited, available, error,
  SessionWorktreeSummary, PlanModeProjection, PendingPlanReviewProjection, SessionFileStamp,
  SessionSkillsState, RpcAvailableSlashCommand,
}
use fura.Session.Todo.{latest_todo_phases_from_tool_cards}

pub record SessionSummary : Type 0 where
  pub session_id : String
  pub cwd : Option String
  pub status : SessionStatus
  pub created_at : Timestamp
  pub updated_at : Timestamp
  pub last_message_at : Timestamp
  pub message_count : ℕ
  pub kind : SessionKind
  pub session_mode : SessionMode
  pub session_file : Option String
  pub title : Option String
  pub timestamp : Option String
  pub category : Option String
  pub worktree : Option SessionWorktreeSummary
  pub awaiting_ask : Bool

-- Blocking ask methods require a user response and lock the composer.
unfoldable pub is_blocking_ask_method : String → Bool
is_blocking_ask_method method =
    method == "select" || method == "confirm" || method == "input" || method == "editor"

-- The comparisons of `Option<Timestamp>`, where `None` is least.
abbrev pub time_le : Option Timestamp → Option Timestamp → Bool
time_le none b = true
time_le (some a) none = false
time_le (some a) (some b) = leb a b

abbrev pub time_eq : Option Timestamp → Option Timestamp → Bool
time_eq a b = time_le a b && time_le b a

-- `Iterator::max` of optional times.
unfoldable pub latest : List (Option Timestamp) → Option Timestamp
latest [] = none
latest (t ∷ ts) = max_time t (latest ts)

module _ (crates : Crates) where
  open crates use {Value, Float, get, as_str}

  pub record SessionRecord : Type 0 where
    pub id : String
    pub cwd : Option String
    pub args : List String
    pub status : SessionStatus
    pub created_at : Timestamp
    pub updated_at : Timestamp
    pub last_message_at : Option Timestamp
    pub persisted_message_at : Option Timestamp
    pub file_stamp : Option SessionFileStamp
    pub session_mode : SessionMode
    pub messages : List TranscriptMessage
    pub live_message_ids : List String
    pub streaming_message : Option TranscriptMessage
    pub is_compacting : Bool
    pub continuation_pending : Bool
    pub tool_cards : List (ToolCard crates)
    pub active_tool_calls : List (ToolCard crates)
    pub todo_phases : Option (List TodoPhaseProjection)
    pub kind : SessionKind
    pub session_file : Option String
    pub title : Option String
    pub timestamp : Option String
    pub category : Option String
    pub worktree : Option SessionWorktreeSummary
    pub model : Option String
    pub thinking_level : Option String
    pub tokens_total : ℕ
    pub cost_usd : Float
    pub context_tokens : Option ℕ
    pub context_window : Option ℕ
    pub context_percent : Option Float
    pub plan_mode : Option PlanModeProjection
    pub session_skills : Option SessionSkillsState
    pub pending_plan_review : Option PendingPlanReviewProjection
    pub pending_ask : Option Value
    pub available_commands : List RpcAvailableSlashCommand

  pub record Header : Type 0 where
    pub summary : SessionSummary
    pub is_busy : Bool
    pub compacting : Bool
    pub model : Option String
    pub thinking_level : Option String
    pub tokens_total : ℕ
    pub cost_usd : Float
    pub context_tokens : Option ℕ
    pub context_window : Option ℕ
    pub context_percent : Option Float
    pub plan_mode : Option PlanModeProjection
    pub pending_plan_review : Option PendingPlanReviewProjection
    pub session_skills : Option SessionSkillsState
    pub todo_phases : List TodoPhaseProjection
    pub pending_ask : Option Value
    pub available_commands : List RpcAvailableSlashCommand

  -- The statuses of a session that has no child process.
  unfoldable pub terminal : SessionStatus → Bool
  terminal exited = true
  terminal available = true
  terminal error = true
  terminal starting = false
  terminal idle = false
  terminal busy = false

  unfoldable pub is_terminal : SessionRecord → Bool
  unfolding terminal
  is_terminal r = terminal r.status

  unfoldable pub effective_status : SessionRecord → SessionStatus
  unfolding terminal
  effective_status r =
      if terminal r.status
      then r.status
      else if r.continuation_pending || r.is_compacting
      then busy
      else r.status

  unfoldable pub working : SessionStatus → Bool
  working starting = true
  working busy = true
  working idle = false
  working exited = false
  working available = false
  working error = false

  unfoldable pub projected_pending_ask : SessionRecord → Option Value
  unfolding is_terminal
  projected_pending_ask r = if is_terminal r then none else r.pending_ask

  unfoldable pub ask_method : Value → Option String
  ask_method pending = get "method" pending >>= as_str

  unfoldable pub awaiting_ask : SessionRecord → Bool
  unfolding projected_pending_ask ask_method is_blocking_ask_method
  awaiting_ask r = some_and is_blocking_ask_method (projected_pending_ask r >>= ask_method)

  unfoldable pub any_active : List (ToolCard crates) → Bool
  any_active [] = false
  any_active (card ∷ cards) = card.is_active || any_active cards

  unfoldable pub has_active_work_artifacts : SessionRecord → Bool
  unfolding any_active
  has_active_work_artifacts r = is_some r.streaming_message || any_active r.active_tool_calls

  unfoldable pub message_times : List TranscriptMessage → List (Option Timestamp)
  message_times [] = []
  message_times (m ∷ ms) = m.timestamp ∷ message_times ms

  unfoldable pub is_pending_prompt : TranscriptMessage → Bool
  is_pending_prompt m = starts_with m.id "__pending_prompt:"

  unfoldable pub effective_last_message_at : SessionRecord → Timestamp
  unfolding latest message_times filter is_pending_prompt
  effective_last_message_at r =
      let pending = latest (message_times (filter is_pending_prompt r.messages)) in
      unwrap_or r.created_at (
        max_time (max_time pending r.last_message_at)
          (r.streaming_message >>= λ message. message.timestamp))

  unfoldable pub effective_todo_phases : SessionRecord → List TodoPhaseProjection
  unfolding latest_todo_phases_from_tool_cards
  effective_todo_phases r =
      unwrap_or [] (or_else r.todo_phases (latest_todo_phases_from_tool_cards crates r.tool_cards))

  unfoldable pub summary : SessionRecord → SessionSummary
  unfolding effective_status effective_last_message_at awaiting_ask
  summary r = record {
    session_id = r.id;
    cwd = r.cwd;
    status = effective_status r;
    created_at = r.created_at;
    updated_at = r.updated_at;
    last_message_at = effective_last_message_at r;
    message_count = length r.messages;
    kind = r.kind;
    session_mode = r.session_mode;
    session_file = r.session_file;
    title = r.title;
    timestamp = r.timestamp;
    category = r.category;
    worktree = r.worktree;
    awaiting_ask = awaiting_ask r;
  }

  unfoldable pub header : SessionRecord → Header
  unfolding summary working effective_status is_terminal effective_todo_phases projected_pending_ask
  header r = record {
    summary = summary r;
    is_busy = working (effective_status r);
    compacting = r.is_compacting && not (is_terminal r);
    model = r.model;
    thinking_level = r.thinking_level;
    tokens_total = r.tokens_total;
    cost_usd = r.cost_usd;
    context_tokens = r.context_tokens;
    context_window = r.context_window;
    context_percent = r.context_percent;
    plan_mode = r.plan_mode;
    pending_plan_review = r.pending_plan_review;
    session_skills = r.session_skills;
    todo_phases = effective_todo_phases r;
    pending_ask = projected_pending_ask r;
    available_commands = r.available_commands;
  }

  unfoldable pub reconcile_persisted_recency :
      Option Timestamp → Option SessionFileStamp → SessionRecord → SessionRecord
  unfolding is_terminal
  reconcile_persisted_recency recency stamp r =
      let follows =
        time_eq r.last_message_at r.persisted_message_at
        || time_le r.last_message_at recency
        || not (time_le r.persisted_message_at recency)
        || is_terminal r in
      record r {
        last_message_at = if follows then recency else r.last_message_at;
        persisted_message_at = recency;
        file_stamp = stamp;
      }
