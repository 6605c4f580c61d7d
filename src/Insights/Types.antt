-- ===== src/Insights/Types.antt =====
-- src/session_insights.rs: the data of insight requests and their results. `Float` is `f64`.
use fura.Base.{ℕ, Bool, Option, List, String}
use fura.Base.Int.{ℤ}

pub data ActivityKind : Type 0 where
  job agent service : ActivityKind

pub data ActivityStatus : Type 0 where
  pending_activity running completed failed_activity cancelled starting_service ready restarting
        stopping exited_service aborted :
      ActivityStatus

pub record ActivityItem : Type 0 where
  pub id : String
  pub kind : ActivityKind
  pub label : String
  pub status : ActivityStatus
  pub started_at : ℕ
  pub ended_at : Option ℕ
  pub tool_call_id : Option String
  pub exit_code : Option ℤ
  pub queued : Option Bool
  pub detail_available : Bool

pub record ActivitySourceState : Type 0 where
  pub available : Bool
  pub error : Option String

pub record ActivitySources : Type 0 where
  pub jobs : ActivitySourceState
  pub agents : ActivitySourceState
  pub services : ActivitySourceState

pub record SessionActivitySnapshot : Type 0 where
  pub session_id : String
  pub generation : String
  pub observed_at : ℕ
  pub items : List ActivityItem
  pub sources : ActivitySources

pub record SessionActivityDetail : Type 0 where
  pub session_id : String
  pub generation : String
  pub kind : ActivityKind
  pub activity_id : String
  pub text : String
  pub truncated : Bool
  pub observed_at : ℕ

pub record SessionRecap : Type 0 where
  pub id : ℕ
  pub text : String
  pub created_at : ℕ
  pub source_leaf_id : Option String
  pub stale : Option Bool

pub record SessionRecapSnapshot (Float : Type 0) : Type 0 where
  pub session_id : String
  pub enabled : Bool
  pub idle_seconds : Float
  pub generating : Bool
  pub recap : Option SessionRecap
  pub error : Option String

pub data InsightOperation : Type 0 where
  activity_operation detail_operation recap_operation : InsightOperation

pub data InsightRequest : Type 0 where
  activity_request : InsightRequest
  detail_request : String → ActivityKind → String → InsightRequest
  recap_request : InsightRequest

unfoldable pub operation : InsightRequest → InsightOperation
operation activity_request = activity_operation
operation (detail_request generation kind activity_id) = detail_operation
operation recap_request = recap_operation

unfoldable pub command_name : InsightRequest → String
command_name activity_request = "get_activity"
command_name (detail_request generation kind activity_id) = "get_activity_detail"
command_name recap_request = "get_session_recap"

-- The commands of `OmpRpcCommand` that read insights.
pub data InsightCommand : Type 0 where
  get_activity : String → String → InsightCommand
  get_activity_detail : String → String → String → ActivityKind → String → InsightCommand
  get_session_recap : String → String → InsightCommand

unfoldable pub command_of : InsightRequest → String → String → InsightCommand
command_of activity_request id session_id = get_activity id session_id
command_of (detail_request generation kind activity_id) id session_id =
    get_activity_detail id session_id generation kind activity_id
command_of recap_request id session_id = get_session_recap id session_id

-- The messages of `ServerMessage` about insights: the connection, the request and the session that
-- they are for, and what they carry.
pub data InsightMessage (Float : Type 0) : Type 0 where
  session_activity_result : ℕ → String → String → SessionActivitySnapshot → InsightMessage Float
  session_activity_detail_result :
      ℕ → String → String → SessionActivityDetail → InsightMessage Float
  session_recap_result : ℕ → String → String → SessionRecapSnapshot Float → InsightMessage Float
  session_insights_error : ℕ → String → String → InsightOperation → String → InsightMessage Float
