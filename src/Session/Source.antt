-- ===== src/Session/Source.antt =====
-- src/projection.rs: what a handler reads from a raw OMP message, and the id of a message that has
-- none; `conversation_message_timestamp` of src/session_recency.rs on such a message.
use mathlib.Core.List.{filter_map}
use Prim.Native.String.{◌++◌}
use fura.Base.{ℕ, Bool, not, ◌&&◌, Option, none, some, List, String, str_eq as ◌==◌, if◌then◌else◌}
use fura.Base.Options.{◌>>=◌, unwrap_or, some_and, is_some, keep_if}
use fura.Recency.Fact.{Timestamp, Content, text, blocks, unit}
use fura.Recency.Visit.Defs.{Message, conversation_message_timestamp}
use fura.Session.Crates.{Crates}
use fura.Session.Text.{is_empty}
use fura.Time.Text.{codes}
use fura.Time.Rfc3339.{parse_rfc3339_utc_millis}
use fura.Session.Types.{MessageRole, assistant, ContentBlock, TranscriptMessage}

module _ (crates : Crates) where
  open crates use {
    Value, get, as_str, as_bool, as_array, as_u64, to_json, hasher, update, update_u64, finalize,
  }

  -- `RpcTimestampInput` of a JSON value
  abbrev pub parse_timestamp : Value → Option Timestamp
  parse_timestamp value = elim (as_u64 value) [
    | some millis ↦ some millis
    | none ↦ as_str value >>= (λ text. parse_rfc3339_utc_millis (codes text))
  ]

  -- `Timestamp::from_rpc`
  abbrev pub from_rpc : Value → Option Timestamp
  from_rpc input = parse_timestamp input

  unfoldable pub str_at : String → Value → Option String
  str_at key value = get key value >>= as_str

  unfoldable pub content_of : Option Value → Content
  unfolding str_at
  content_of none = unit
  content_of (some content) = elim (as_str content) [
    | some s ↦ text s
    | none ↦ elim (as_array content) [
      | some items ↦ blocks (filter_map (str_at "type") items)
      | none ↦ unit
    ]
  ]

  -- The keys that decide whether the message is conversation.
  unfoldable pub facts : Value → Message Value
  unfolding str_at content_of
  facts value = record {
    role = str_at "role" value;
    attribution = str_at "attribution" value;
    timestamp = get "timestamp" value;
    content = content_of (get "content" value);
    error_message = str_at "errorMessage" value;
  }

  unfoldable pub activity_time : Value → Option Timestamp → Option Timestamp
  unfolding facts conversation_message_timestamp
  activity_time source enclosing = conversation_message_timestamp from_rpc (facts source) enclosing

  unfoldable pub value_timestamp : Value → Option Timestamp
  value_timestamp value = get "timestamp" value >>= from_rpc

  unfoldable pub is_user_skill_invocation : Value → Bool
  unfolding str_at
  is_user_skill_invocation value =
      some_and (λ s. s == "custom") (str_at "role" value)
      && some_and (λ s. s == "skill-prompt") (str_at "customType" value)
      && some_and (λ s. s == "user") (str_at "attribution" value)
      && some_and (λ (b : Bool). b) (get "display" value >>= as_bool)

  unfoldable pub omp_submission_client_message_id : Value → Option String
  unfolding str_at is_user_skill_invocation
  omp_submission_client_message_id value =
      if some_and (λ s. s == "user") (str_at "role" value)
      then str_at "clientMessageId" value
      else if some_and (λ s. s == "custom") (str_at "role" value) && is_user_skill_invocation value
      then get "details" value >>= str_at "clientMessageId"
      else none

  unfoldable pub upstream_message_id : Value → String
  unfolding omp_submission_client_message_id is_empty
  upstream_message_id value = elim (omp_submission_client_message_id value) [
    | some id ↦ "prompt:" ++ id
    | none ↦ unwrap_or "" (keep_if (λ id. not (is_empty id)) (str_at "id" value))
  ]

  unfoldable pub projected_message_kind : Value → String
  unfolding str_at
  projected_message_kind value =
      if some_and (λ s. s == "bashExecution") (str_at "role" value)
      then "bashExecution"
      else if some_and (λ s. s == "pythonExecution") (str_at "role" value)
      then "pythonExecution"
      else "message"

  unfoldable pub identity_role : TranscriptMessage → MessageRole
  identity_role m = if is_some m.skill_invocation then assistant else m.role

  unfoldable pub projected_message_id_from_message : String → ℕ → TranscriptMessage → String
  unfolding identity_role
  projected_message_id_from_message kind visible_ordinal m =
      let h = update (update (update hasher "projected-message-id-v2;") kind) ";ordinal=" in
      let h = update (update_u64 h visible_ordinal) ";role=" in
      let h = update (update h (to_json MessageRole (identity_role m))) ";blocks=" in
      let h = update h (to_json (List ContentBlock) m.blocks) in
      "__projected:" ++ (kind ++ (":" ++ finalize h))

  unfoldable pub assign_projected_message_id : TranscriptMessage → Value → ℕ → TranscriptMessage
  unfolding is_empty projected_message_kind projected_message_id_from_message
  assign_projected_message_id m value visible_ordinal =
      if not (is_empty m.id) then m else record m {
        id = projected_message_id_from_message (projected_message_kind value) visible_ordinal m;
      }
