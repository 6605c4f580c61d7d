-- ===== src/Runtime/State.antt =====
-- src/state.rs: the registries and the records that they hold.
use fura.Base.{ℕ, Bool, Option, List, [], String}
use fura.Base.Table.{Table}

-- What the registries store and never look into: session records, channel ends, JSON values, prompt
-- images, the metadata of a session under creation, an approved plan, an insight request.
pub record Payloads : Type 1 where
  pub SessionRecord : Type 0
  pub Sender : Type 0
  pub Stop : Type 0
  pub Value : Type 0
  pub Image : Type 0
  pub CreatedSession : Type 0
  pub Carryover : Type 0
  pub InsightRequest : Type 0

pub data SessionMode : Type 0 where
  standard diff_review : SessionMode

pub record PendingSessionFork : Type 0 where
  pub target_connection_id : Option ℕ
  pub request_id : String
  pub source_session_id : String
  pub transport_session_id : String
  pub name : String
  pub awaiting_state : Bool

pub record BtwRequestRoute : Type 0 where
  pub target_client_id : String
  pub owner_connection_id : ℕ
  pub source_session_id : String
  pub transport_session_id : String
  pub terminal : Bool

pub data PendingBtwCommandKind : Type 0 where
  start cancel release promote : PendingBtwCommandKind

pub record PendingBtwCommand : Type 0 where
  pub btw_id : String
  pub kind : PendingBtwCommandKind

pub record RewindRoute : Type 0 where
  pub target_connection_id : Option ℕ
  pub request_id : String
  pub source_session_id : String
  pub transport_session_id : String

module _ (T : Payloads) where
  open T use {SessionRecord, Sender, Stop, Value, Image, CreatedSession, Carryover, InsightRequest}

  pub record RpcSessionHandle : Type 0 where
    pub stdin : Sender
    pub stop : Stop

  pub record PendingRpcMessagesPage : Type 0 where
    pub transport_session_id : String
    pub session_id : String
    pub messages : List Value
    pub restart_count : ℕ

  pub data RewindOutcome : Type 0 where
    success : String → List Image → RewindOutcome
    error : String → RewindOutcome

  pub data PendingRewindRpc : Type 0 where
    list : RewindRoute → PendingRewindRpc
    branch : RewindRoute → PendingRewindRpc
    branch_get_state : RewindRoute → RewindOutcome → PendingRewindRpc

  pub record PendingSessionSkills : Type 0 where
    pub target_connection_id : Option ℕ
    pub request_id : String
    pub session_id : String
    pub journal_session_id : String
    pub transport_session_id : String
    pub stdin : Sender
    pub command : String

  pub record PendingSessionInsight : Type 0 where
    pub connection_id : ℕ
    pub session_id : String
    pub transport_session_id : String
    pub request_id : String
    pub stdin : Sender
    pub request : InsightRequest

  pub record SessionRuntimeState : Type 0 where
    pub sessions : Table SessionRecord
    pub rpc_sessions : Table RpcSessionHandle
    pub rpc_session_targets : Table String
    pub session_categories : Table String
    pub session_modes : Table SessionMode
    pub pending_created_sessions : Table CreatedSession
    pub recent_rpc_stderr : Table (List String)
    pub pending_new_session_names : Table String
    pub plan_execution_carryovers : Table Carryover
    pub rpc_protocol_versions : Table ℕ
    pub pending_rpc_message_pages : Table PendingRpcMessagesPage
    pub pending_session_forks : Table PendingSessionFork
    pub btw_requests : Table BtwRequestRoute
    pub pending_btw_commands : Table PendingBtwCommand
    pub pending_compaction_commands : Table String
    pub pending_rewind_rpcs : Table PendingRewindRpc
    pub pending_session_skills : Table PendingSessionSkills
    pub pending_session_insights : Table PendingSessionInsight

  pub record RemovedRpcTransport : Type 0 where
    pub handle : RpcSessionHandle
    pub target_session_id : String
    pub btw_requests : Table BtwRequestRoute
    pub rewind_requests : List PendingRewindRpc
    pub session_forks : List PendingSessionFork
    pub session_skills : List PendingSessionSkills

  -- `new`
  abbrev pub new : Table String → Table SessionMode → SessionRuntimeState
  new session_categories session_modes = record {
    sessions = [];
    rpc_sessions = [];
    rpc_session_targets = [];
    session_categories = session_categories;
    session_modes = session_modes;
    pending_created_sessions = [];
    recent_rpc_stderr = [];
    pending_new_session_names = [];
    plan_execution_carryovers = [];
    rpc_protocol_versions = [];
    pending_rpc_message_pages = [];
    pending_session_forks = [];
    btw_requests = [];
    pending_btw_commands = [];
    pending_compaction_commands = [];
    pending_rewind_rpcs = [];
    pending_session_skills = [];
    pending_session_insights = [];
  }
