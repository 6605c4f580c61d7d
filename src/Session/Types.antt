-- ===== src/Session/Types.antt =====
-- src/session.rs: the entries of a transcript, and the small types of a record.
use fura.Base.{ℕ, Bool, Option, List, String}
use fura.Recency.Fact.{Timestamp}
use fura.Session.Crates.{Crates}

pub data MessageRole : Type 0 where
  user : MessageRole
  assistant : MessageRole
  system : MessageRole
  tool : MessageRole

pub data ContentBlock : Type 0 where
  text : String → ContentBlock
  -- The data, its type and the alternative text.
  image : String → String → Option String → ContentBlock
  thinking : String → ContentBlock
  redacted_thinking : ContentBlock

pub record SkillInvocation : Type 0 where
  pub name : Option String
  pub prompt : Option String
  pub args : Option String

pub record TranscriptMessage : Type 0 where
  pub id : String
  pub role : MessageRole
  pub blocks : List ContentBlock
  pub skill_invocation : Option SkillInvocation
  pub timestamp : Option Timestamp
  pub is_new : Bool
  pub render_hash : String

pub data ReviewPriority : Type 0 where
  p0 : ReviewPriority
  p1 : ReviewPriority
  p2 : ReviewPriority
  p3 : ReviewPriority

pub data ReviewCorrectness : Type 0 where
  correct : ReviewCorrectness
  incorrect : ReviewCorrectness

pub data TodoStatusProjection : Type 0 where
  pending : TodoStatusProjection
  in_progress : TodoStatusProjection
  completed : TodoStatusProjection
  abandoned : TodoStatusProjection
  blocked : TodoStatusProjection

pub record TodoItemProjection : Type 0 where
  pub content : String
  pub status : TodoStatusProjection
  pub blocker : Option String
  pub notes : List String

pub record TodoPhaseProjection : Type 0 where
  pub name : String
  pub tasks : List TodoItemProjection

module _ (crates : Crates) where
  open crates use {Value, Float}

  pub record ToolCard : Type 0 where
    pub tool_call_id : String
    pub timestamp : Option Timestamp
    pub tool_name : String
    pub intent : Option String
    pub args : Value
    pub is_active : Bool
    pub is_error : Bool
    pub partial_result : Option Value
    pub result : Option Value
    pub render_hash : String
    pub insert_after_count : ℕ

  pub record ReviewFinding : Type 0 where
    pub title : String
    pub body : String
    pub priority : ReviewPriority
    pub confidence : Float
    pub file_path : String
    pub line_start : ℕ
    pub line_end : ℕ
    pub agent : Option String

  pub record ReviewVerdict : Type 0 where
    pub agent : Option String
    pub overall_correctness : ReviewCorrectness
    pub explanation : String
    pub confidence : Float

  pub record ReviewCard : Type 0 where
    pub tool_call_id : String
    pub timestamp : Option Timestamp
    pub is_active : Bool
    pub verdicts : List ReviewVerdict
    pub findings : List ReviewFinding
    pub render_hash : String

  pub data TranscriptEntry : Type 0 where
    message : TranscriptMessage → TranscriptEntry
    tool : ToolCard → TranscriptEntry
    review : ReviewCard → TranscriptEntry
