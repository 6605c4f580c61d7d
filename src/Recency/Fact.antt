-- ===== src/Recency/Fact.antt =====
-- src/session_recency.rs: what counts as conversation (`conversational_role`, `conversational_block`),
-- and the facts of one journal record (`MessageFact`, `JournalFact`).
use fura.Base.{
  ℕ, Bool, false, not, ◌&&◌, ◌||◌, Option, none, some, List, [], ◌∷◌, String, str_eq as ◌==◌,
  if◌then◌else◌,
}

-- Milliseconds since the epoch.
abbrev pub Timestamp : Type 0
Timestamp = ℕ

unfoldable pub conversational_role : Option String → Bool → Bool → Bool
conversational_role none agent_attributed assistant_content = false
conversational_role (some role) agent_attributed assistant_content =
    if role == "user"
    then not agent_attributed
    else if role == "assistant"
    then assistant_content
    else false

unfoldable pub conversational_block : String → Bool
conversational_block kind =
    kind == "text"
    || kind == "thinking"
    || kind == "image"
    || kind == "redactedThinking"
    || kind == "redacted_thinking"

unfoldable pub is_text : String → Bool
is_text s = not (s == "")

-- `ContentSummary`: what the visitor keeps of a message's content.
pub data Content : Type 0 where
  text : String → Content
  blocks : List String → Content
  unit : Content

unfoldable pub any_block : List String → Bool
unfolding conversational_block
any_block [] = false
any_block (kind ∷ kinds) = conversational_block kind || any_block kinds

-- `blocks` lists the types of the content's blocks.
unfoldable pub content_summary : Content → Bool
unfolding any_block is_text
content_summary (text s) = is_text s
content_summary (blocks kinds) = any_block kinds
content_summary unit = false

-- `V` is the type of raw JSON timestamps.
pub record MessageFact (V : Type 0) : Type 0 where
  pub role : Option String
  pub attribution : Option String
  pub timestamp : Option V
  pub content : Bool
  pub error_message : Option String

-- `parent_id`: absent, explicitly null, or a record's id.
pub data Parent : Type 0 where
  absent : Parent
  null : Parent
  of_id : String → Parent

pub record JournalFact (V : Type 0) : Type 0 where
  pub kind : String
  pub id : Option String
  pub parent_id : Parent
  pub timestamp : Option V
  pub message : Option (MessageFact V)

abbrev pub or_else {ℓ} : {A : Type ℓ} → Option A → Option A → Option A
or_else none b = b
or_else (some a) b = some a

abbrev pub and_then {ℓ κ} : {A : Type ℓ} {B : Type κ} → Option A → (A → Option B) → Option B
and_then none f = none
and_then (some a) f = f a

abbrev pub is_str : Option String → String → Bool
is_str none s = false
is_str (some t) s = t == s

abbrev pub has_text : Option String → Bool
has_text none = false
has_text (some t) = not (t == "")

module _ {V : Type 0} (from_rpc : V → Option Timestamp) where
  unfoldable pub message_activity : Option V → MessageFact V → Option Timestamp
  unfolding conversational_role
  message_activity enclosing message =
      if conversational_role message.role (is_str message.attribution "agent")
        (message.content || has_text message.error_message)
      then or_else (and_then message.timestamp from_rpc) (and_then enclosing from_rpc)
      else none

  -- `from_rpc` is `Timestamp::from_rpc`.
  unfoldable pub activity : JournalFact V → Option Timestamp
  unfolding message_activity
  activity fact =
      if not (fact.kind == "message")
      then none
      else and_then fact.message (message_activity fact.timestamp)

  unfoldable pub is_user_message : JournalFact V → Bool
  is_user_message fact =
      fact.kind == "message"
      && elim fact.message [ none ↦ false | some message ↦ is_str message.role "user" ]
