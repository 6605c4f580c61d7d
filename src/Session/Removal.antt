-- ===== src/Session/Removal.antt =====
-- src/rpc.rs: `remove_record_message`, and the ids that OMP does not know.
use fura.Base.{ℕ, ◌-◌, Bool, not, ◌||◌, String, map, if◌then◌else◌, ltb, length}
use fura.Base.Sort.{filter}
use fura.Base.Positions.{erase_idx}
use fura.Session.Crates.{Crates}
use fura.Session.Text.{starts_with}
use fura.Session.Types.{ToolCard}
use fura.Session.Record.{SessionRecord}

unfoldable pub is_synthetic_transcript_message_id : String → Bool
is_synthetic_transcript_message_id id =
    starts_with id "approved-plan:" || starts_with id "__pending_prompt:"

module _ (crates : Crates) where
  unfoldable pub projected_message_ordinal_for_append : SessionRecord crates → ℕ
  unfolding filter is_synthetic_transcript_message_id
  projected_message_ordinal_for_append r =
      length (filter (λ m. not (is_synthetic_transcript_message_id m.id)) r.messages)

  unfoldable pub shift_card : ℕ → ToolCard crates → ToolCard crates
  shift_card index card = record card {
    insert_after_count =
        if ltb index card.insert_after_count
        then card.insert_after_count - 1
        else card.insert_after_count;
  }

  unfoldable pub remove_record_message : SessionRecord crates → ℕ → SessionRecord crates
  unfolding erase_idx shift_card
  remove_record_message r index = record r {
    messages = erase_idx r.messages index;
    tool_cards = map (shift_card index) r.tool_cards;
    active_tool_calls = map (shift_card index) r.active_tool_calls;
  }
