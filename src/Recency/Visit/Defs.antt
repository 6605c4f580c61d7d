-- ===== src/Recency/Visit/Defs.antt =====
-- src/session_recency.rs: `MessageVisitor`, which reads a message of a journal key by key and skips
-- the content of messages where it cannot matter, and `conversation_message_timestamp`, which looks
-- at a whole message. Values of the wrong type, on which the visitor fails, are left out.
use fura.Base.{
  Bool, false, not, ◌||◌, Option, none, some, List, [], ◌∷◌, String, str_eq as ◌==◌, if◌then◌else◌,
}
use fura.Recency.Fact.{
  Timestamp, conversational_role, Content, unit, content_summary, MessageFact, is_str, has_text,
  or_else, and_then,
}

-- A key of the message and its value; `null` is `none`.
pub data Key (V : Type 0) : Type 0 where
  role_key : Option String → Key V
  attribution_key : Option String → Key V
  timestamp_key : Option V → Key V
  error_message_key : Option String → Key V
  content_key : Content → Key V
  ignored_key : Key V

-- The message as a whole; a key that is not there is `none`, absent content `unit`.
pub record Message (V : Type 0) : Type 0 where
  pub role : Option String
  pub attribution : Option String
  pub timestamp : Option V
  pub content : Content
  pub error_message : Option String

-- `role.is_some_and(|role| role != "assistant")`
abbrev pub skips_content : Option String → Bool
skips_content none = false
skips_content (some role) = not (role == "assistant")

module _ {V : Type 0} where
  unfoldable pub visit_key : MessageFact V → Key V → MessageFact V
  unfolding content_summary
  visit_key message (role_key r) = record message { role = r }
  visit_key message (attribution_key a) = record message { attribution = a }
  visit_key message (timestamp_key t) = record message { timestamp = t }
  visit_key message (error_message_key e) = record message { error_message = e }
  visit_key message (content_key c) = record message {
    content = if skips_content message.role then message.content else content_summary c;
  }
  visit_key message ignored_key = message

  unfoldable pub visit_keys : MessageFact V → List (Key V) → MessageFact V
  unfolding visit_key
  visit_keys message [] = message
  visit_keys message (key ∷ keys) = visit_keys (visit_key message key) keys

  -- `visit_map`
  unfoldable pub visit_map : List (Key V) → MessageFact V
  unfolding visit_keys
  visit_map keys =
      visit_keys
        (record {
          role = none;
          attribution = none;
          timestamp = none;
          content = false;
          error_message = none;
        })
        keys

  -- The message that the keys make up.
  unfoldable pub set_key : Message V → Key V → Message V
  set_key message (role_key r) = record message { role = r }
  set_key message (attribution_key a) = record message { attribution = a }
  set_key message (timestamp_key t) = record message { timestamp = t }
  set_key message (error_message_key e) = record message { error_message = e }
  set_key message (content_key c) = record message { content = c }
  set_key message ignored_key = message

  unfoldable pub set_keys : Message V → List (Key V) → Message V
  unfolding set_key
  set_keys message [] = message
  set_keys message (key ∷ keys) = set_keys (set_key message key) keys

  unfoldable pub message_of : List (Key V) → Message V
  unfolding set_keys
  message_of keys =
      set_keys
        (record {
          role = none;
          attribution = none;
          timestamp = none;
          content = unit;
          error_message = none;
        })
        keys

  unfoldable pub conversation_message_timestamp :
      (V → Option Timestamp) → Message V → Option Timestamp → Option Timestamp
  unfolding conversational_role content_summary
  conversation_message_timestamp from_rpc message enclosing =
      if conversational_role message.role (is_str message.attribution "agent")
        (content_summary message.content || has_text message.error_message)
      then or_else (and_then message.timestamp from_rpc) enclosing
      else none

  -- The keys hold the role at most once.
  abbrev pub NoRole : List (Key V) → Type 0
  NoRole [] = Unit
  NoRole (role_key r ∷ keys) = ⊥
  NoRole (attribution_key a ∷ keys) = NoRole keys
  NoRole (timestamp_key t ∷ keys) = NoRole keys
  NoRole (error_message_key e ∷ keys) = NoRole keys
  NoRole (content_key c ∷ keys) = NoRole keys
  NoRole (ignored_key ∷ keys) = NoRole keys

  abbrev pub RoleOnce : List (Key V) → Type 0
  RoleOnce [] = Unit
  RoleOnce (role_key r ∷ keys) = NoRole keys
  RoleOnce (attribution_key a ∷ keys) = RoleOnce keys
  RoleOnce (timestamp_key t ∷ keys) = RoleOnce keys
  RoleOnce (error_message_key e ∷ keys) = RoleOnce keys
  RoleOnce (content_key c ∷ keys) = RoleOnce keys
  RoleOnce (ignored_key ∷ keys) = RoleOnce keys
