-- ===== src/Session/Parts.antt =====
-- The small types that a session's record holds: src/session.rs (status, kind, worktree, plan mode),
-- src/protocol.rs (skills), src/omp_rpc.rs (slash commands), src/session_recency.rs (file stamp).
use fura.Base.{ℕ, Bool, Option, List, String}
use fura.Base.Int.{ℤ}

pub data SessionKind : Type 0 where
  managed : SessionKind
  available_kind : SessionKind

pub data SessionStatus : Type 0 where
  starting : SessionStatus
  idle : SessionStatus
  busy : SessionStatus
  exited : SessionStatus
  available : SessionStatus
  error : SessionStatus

pub record SessionWorktreeSummary : Type 0 where
  pub path : String

pub record PlanModeProjection : Type 0 where
  pub enabled : Bool
  pub plan_file_path : String
  pub workflow : Option String

pub record PendingPlanReviewProjection : Type 0 where
  pub plan_file_path : String
  pub final_plan_file_path : String
  pub title : Option String
  pub content : String

-- The file's modification time in nanoseconds, if it is known, and its numbers on Unix.
pub record SessionFileStamp : Type 0 where
  pub modified : Option ℤ
  pub length : ℕ
  pub device : ℕ
  pub inode : ℕ
  pub changed_seconds : ℤ
  pub changed_nanoseconds : ℤ

pub data SessionSkillStatus : Type 0 where
  available_skill : SessionSkillStatus
  changed : SessionSkillStatus
  missing : SessionSkillStatus

pub record SessionSkillDescriptor : Type 0 where
  pub id : String
  pub name : String
  pub hash : String

pub record SessionSkillsState : Type 0 where
  pub session_id : String
  pub journal_session_id : String
  pub revision : String
  pub selected : List SessionSkillDescriptor
  pub active_revision : String
  pub active : List SessionSkillDescriptor
  pub pending : Bool
  pub applying : Bool
  pub error : Option String

pub record RpcAvailableSlashCommandInput : Type 0 where
  pub hint : Option String

pub record RpcAvailableSlashSubcommand : Type 0 where
  pub name : String
  pub description : Option String
  pub usage : Option String

pub record RpcAvailableSlashCommand : Type 0 where
  pub name : String
  pub aliases : List String
  pub description : Option String
  pub input : Option RpcAvailableSlashCommandInput
  pub subcommands : List RpcAvailableSlashSubcommand
  pub source : String
