-- ===== src/Session/Hash.antt =====
-- src/session.rs: the fingerprints of what is rendered, and the constructors that set them.
use fura.Base.{ℕ, Bool, Option, List, String}
use fura.Recency.Fact.{Timestamp}
use fura.Session.Crates.{Crates}
use fura.Session.Types.{
  MessageRole, ContentBlock, SkillInvocation, TranscriptMessage, ToolCard, ReviewCard,
  ReviewVerdict, ReviewFinding,
}

module _ (crates : Crates) where
  open crates use {Value, Hasher, hasher, update, finalize, to_json}

  unfoldable pub hash_json_field : Hasher → String → (T : Type 0) → T → Hasher
  hash_json_field h name T value =
      update (update (update (update h name) "=") (to_json T value)) ";"

  abbrev version : String → Hasher
  version name = update (update hasher name) ";"

  unfoldable pub message_hash : TranscriptMessage → String
  unfolding hash_json_field
  message_hash m =
      let h = version "message-render-v1" in
      let h = hash_json_field h "id" String m.id in
      let h = hash_json_field h "role" MessageRole m.role in
      let h = hash_json_field h "blocks" (List ContentBlock) m.blocks in
      let h = hash_json_field h "skillInvocation" (Option SkillInvocation) m.skill_invocation in
      let h = hash_json_field h "timestamp" (Option Timestamp) m.timestamp in
      finalize (hash_json_field h "isNew" Bool m.is_new)

  unfoldable pub card_hash : ToolCard crates → String
  unfolding hash_json_field
  card_hash c =
      let h = version "tool-card-render-v1" in
      let h = hash_json_field h "toolCallId" String c.tool_call_id in
      let h = hash_json_field h "timestamp" (Option Timestamp) c.timestamp in
      let h = hash_json_field h "toolName" String c.tool_name in
      let h = hash_json_field h "intent" (Option String) c.intent in
      let h = hash_json_field h "args" Value c.args in
      let h = hash_json_field h "isActive" Bool c.is_active in
      let h = hash_json_field h "isError" Bool c.is_error in
      let h = hash_json_field h "partialResult" (Option Value) c.partial_result in
      finalize (hash_json_field h "result" (Option Value) c.result)

  unfoldable pub review_hash : ReviewCard crates → String
  unfolding hash_json_field
  review_hash c =
      let h = version "review-card-render-v1" in
      let h = hash_json_field h "toolCallId" String c.tool_call_id in
      let h = hash_json_field h "timestamp" (Option Timestamp) c.timestamp in
      let h = hash_json_field h "isActive" Bool c.is_active in
      let h = hash_json_field h "verdicts" (List (ReviewVerdict crates)) c.verdicts in
      finalize (hash_json_field h "findings" (List (ReviewFinding crates)) c.findings)

  -- `TranscriptMessage::refresh_render_hash`
  unfoldable pub refresh_message : TranscriptMessage → TranscriptMessage
  refresh_message m = record m { render_hash = message_hash m }

  -- `ToolCard::refresh_render_hash`
  unfoldable pub refresh_card : ToolCard crates → ToolCard crates
  refresh_card c = record c { render_hash = card_hash c }

  -- `ReviewCard::refresh_render_hash`
  unfoldable pub refresh_review : ReviewCard crates → ReviewCard crates
  refresh_review c = record c { render_hash = review_hash c }

  -- `ToolCard::new`
  unfoldable pub new_card :
      String
      → Option Timestamp
      → String
      → Option String
      → Value
      → Bool
      → Bool
      → Option Value
      → Option Value
      → ℕ
      → ToolCard crates
  unfolding refresh_card
  new_card tool_call_id timestamp tool_name intent args is_active is_error partial_result result
        insert_after_count =
      refresh_card (record {
        tool_call_id = tool_call_id;
        timestamp = timestamp;
        tool_name = tool_name;
        intent = intent;
        args = args;
        is_active = is_active;
        is_error = is_error;
        partial_result = partial_result;
        result = result;
        render_hash = "";
        insert_after_count = insert_after_count;
      })
