-- ===== src/Session/Frames/Handled.antt =====
-- src/rpc.rs: every frame keeps the cards placed, and tells the coordinator the truth.
use fura.Events.Client.Replication.{Honest}
use fura.Session.Crates.{Crates}
use fura.Session.Record.{SessionRecord}
use fura.Session.Transcript.{projection}
use fura.Session.Frames.Frame.{
  Frame, update_of, end_of, tool_started, tool_progress, tool_ended, handle, Quiet,
}
use fura.Session.Frames.Placed.{
  message_update-IsPlaced, message_end-IsPlaced, tool_execution_start-IsPlaced,
  tool_execution_update-IsPlaced, tool_execution_end-IsPlaced,
}
use fura.Session.Frames.Honest.{
  IsPlaced, message_update-Honest, message_end-Honest, tool_execution_start-Honest,
  tool_execution_update-Honest, tool_execution_end-Honest,
}

module _ (crates : Crates) where
  -- At a record whose cards each stand after as many messages as there are, or fewer, every frame
  -- leaves a record whose cards do so again.
  pub handle-IsPlaced :
      (f : Frame crates) (r : SessionRecord crates)
      → IsPlaced crates r
      → IsPlaced crates (handle crates f r).0
  unfolding handle
  handle-IsPlaced (update_of msg source time) r placed =
      message_update-IsPlaced crates msg source time r placed
  handle-IsPlaced (end_of msg source time) r placed =
      message_end-IsPlaced crates msg source time r placed
  handle-IsPlaced (tool_started id name args intent time) r placed =
      tool_execution_start-IsPlaced crates id name args intent time r placed
  handle-IsPlaced (tool_progress id partial_result) r placed =
      tool_execution_update-IsPlaced crates id partial_result r placed
  handle-IsPlaced (tool_ended id result is_error) r placed =
      tool_execution_end-IsPlaced crates id result is_error r placed

  -- Whatever frame arrives, at a record whose cards are placed within its messages: the transcript
  -- afterwards agrees with the one before up to the index that the handler returns, and if it returns
  -- none, the projection is the same. A tool's start has to find no message that streams.
  pub handle-Honest :
      (f : Frame crates) (r : SessionRecord crates)
      → IsPlaced crates r
      → Quiet crates f r
      → Honest (projection crates) r (handle crates f r)
  unfolding handle
  handle-Honest (update_of msg source time) r placed quiet =
      message_update-Honest crates msg source time r
  handle-Honest (end_of msg source time) r placed quiet =
      message_end-Honest crates msg source time r
  handle-Honest (tool_started id name args intent time) r placed quiet =
      tool_execution_start-Honest crates id name args intent time r placed quiet
  handle-Honest (tool_progress id partial_result) r placed quiet =
      tool_execution_update-Honest crates id partial_result r
  handle-Honest (tool_ended id result is_error) r placed quiet =
      tool_execution_end-Honest crates id result is_error r
