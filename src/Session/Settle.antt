-- ===== src/Session/Settle.antt =====
-- src/rpc.rs: changes of a record's status. `fuel` bounds the rounds of a `while let` loop.
use fura.Base.{ℕ, zero, suc, true, false, Option, none, some, if◌then◌else◌}
use fura.Base.Positions.{position}
use fura.Session.Crates.{Crates}
use fura.Session.Parts.{SessionStatus, idle, busy}
use fura.Session.Record.{SessionRecord, terminal, is_pending_prompt}
use fura.Session.Removal.{remove_record_message}

module _ (crates : Crates) where
  -- `settle_prompt_error_and_broadcast`
  unfoldable pub settle_prompt_error : SessionRecord crates → SessionRecord crates
  settle_prompt_error r = record r {
    status = idle;
    streaming_message = none;
    continuation_pending = false;
  }

  -- `while let Some(index) = .. { remove_record_message(record, index) }`; `none` is a loop that has
  -- not ended.
  unfoldable pub remove_pending_prompts : ℕ → SessionRecord crates → Option (SessionRecord crates)
  unfolding position is_pending_prompt remove_record_message
  remove_pending_prompts zero r = none
  remove_pending_prompts (suc fuel) r = elim (position (is_pending_prompt crates) r.messages) [
    | none ↦ some r
    | some index ↦ remove_pending_prompts fuel (remove_record_message crates r index)
  ]

  -- `mark_status_and_broadcast`
  unfoldable pub mark_status :
      ℕ → SessionStatus → SessionRecord crates → Option (SessionRecord crates)
  unfolding terminal remove_pending_prompts
  mark_status fuel status r =
      let r = record r { status = status; continuation_pending = false } in
      if terminal crates r.status
      then remove_pending_prompts fuel (record r { streaming_message = none })
      else some r

  -- `mark_pending_continuation_and_broadcast`
  unfoldable pub mark_pending_continuation : SessionRecord crates → SessionRecord crates
  mark_pending_continuation r = record r { status = busy; continuation_pending = true }
