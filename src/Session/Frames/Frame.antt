-- ===== src/Session/Frames/Frame.antt =====
-- src/rpc.rs: the frames that change a transcript in place, and the handler of each.
use fura.Base.{ℕ, Bool, Option, none, String, ◌≡◌}
use fura.Recency.Fact.{Timestamp}
use fura.Session.Crates.{Crates}
use fura.Session.Types.{TranscriptMessage}
use fura.Session.Record.{SessionRecord}
use fura.Session.Frames.Message.{message_update, message_end}
use fura.Session.Frames.Tool.{tool_execution_start, tool_execution_update, tool_execution_end}

module _ (crates : Crates) where
  open crates use {Value}

  -- The mapped message, the raw message and the frame's time; the fields of the tool frames, with the
  -- time of a start.
  pub data Frame : Type 0 where
    update_of : TranscriptMessage → Value → Option Timestamp → Frame
    end_of : TranscriptMessage → Value → Option Timestamp → Frame
    tool_started : String → String → Value → Option String → Timestamp → Frame
    tool_progress : String → Option Value → Frame
    tool_ended : String → Option Value → Option Bool → Frame

  unfoldable pub handle : Frame → SessionRecord crates → SessionRecord crates × Option ℕ
  handle (update_of msg source time) r = message_update crates msg source time r
  handle (end_of msg source time) r = message_end crates msg source time r
  handle (tool_started id name args intent time) r =
      tool_execution_start crates id name args intent time r
  handle (tool_progress id partial_result) r = tool_execution_update crates id partial_result r
  handle (tool_ended id result is_error) r = tool_execution_end crates id result is_error r

  -- A tool that starts finds no message that streams.
  abbrev pub Quiet : Frame → SessionRecord crates → Type 0
  Quiet (update_of msg source time) r = Unit
  Quiet (end_of msg source time) r = Unit
  Quiet (tool_started id name args intent time) r = r.streaming_message ≡ none
  Quiet (tool_progress id partial_result) r = Unit
  Quiet (tool_ended id result is_error) r = Unit
