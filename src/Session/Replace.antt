-- ===== src/Session/Replace.antt =====
-- src/rpc.rs: `replace_record_transcript`, the reconciliation of a record with the history that OMP
-- sends, and `replace_messages_and_broadcast`.
pub mod Placed
pub mod Content
use Prim.Native.String.{◌++◌ as append_text}
use mathlib.Core.List.{filter_map}
use fura.Base.{
  ℕ, zero, suc, ◌+◌, Bool, true, false, not, Option, none, some, List, [], ◌∷◌, ◌++◌, String, map,
  min, if◌then◌else◌, ltb, length,
}
use fura.Base.Options.{unwrap_or}
use fura.Base.Sort.{filter}
use fura.Base.Positions.{contains, insert_text, get_elem?}
use fura.Base.Table.{Table, lookup, insert}
use fura.Recency.Fact.{Timestamp}
use fura.Recency.Journal.{max_time}
use fura.Session.Crates.{Crates}
use fura.Session.Text.{strip_prefix}
use fura.Session.Types.{TranscriptMessage, ToolCard}
use fura.Session.Hash.{refresh_message}
use fura.Session.Parts.{SessionStatus}
use fura.Session.Record.{SessionRecord, is_pending_prompt}

-- `Vec::insert`
unfoldable pub insert_idx {ℓ} : {A : Type ℓ} → List A → ℕ → A → List A
insert_idx xs zero v = v ∷ xs
insert_idx [] (suc i) v = v ∷ []
insert_idx (x ∷ xs) (suc i) v = x ∷ insert_idx xs i v

-- The submissions that the history holds.
unfoldable pub consumed_ids : List TranscriptMessage → List String
consumed_ids ms = filter_map (λ (m : TranscriptMessage). strip_prefix "prompt:" m.id) ms

-- The id of each message, with the number of messages up to it; the last one of an id counts.
unfoldable pub positions_from : ℕ → List TranscriptMessage → Table ℕ → Table ℕ
positions_from index [] known = known
positions_from index (m ∷ ms) known = positions_from (index + 1) ms (insert m.id (index + 1) known)

-- For each boundary between the old messages, from the first on, the boundary in the new ones;
-- `last` is the boundary before.
unfoldable pub boundaries_from : Table ℕ → ℕ → List TranscriptMessage → List ℕ
boundaries_from positions last [] = []
boundaries_from positions last (m ∷ ms) =
    let next = unwrap_or last (lookup m.id positions) in next ∷ boundaries_from positions next ms

module _ (crates : Crates) where
  abbrev Cards : Type 0
  Cards = List (ToolCard crates)

  -- The variables of the loop over the old messages.
  pub record Retained : Type 0 where
    pub boundary : ℕ
    pub retained : ℕ
    pub messages : List TranscriptMessage
    pub cards : Cards
    pub live : List String

  unfoldable pub shift_up : ℕ → ToolCard crates → ToolCard crates
  shift_up index card = record card {
    insert_after_count =
        if ltb index card.insert_after_count
        then card.insert_after_count + 1
        else card.insert_after_count;
  }

  -- An optimistic prompt that the history does not hold stands where it stood among the others.
  unfoldable pub retain_message : TranscriptMessage → Retained → Retained
  unfolding insert_idx shift_up
  retain_message m s =
      let index = min (s.boundary + s.retained) (length s.messages) in
      record s {
        retained = s.retained + 1;
        messages = insert_idx s.messages index m;
        cards = map (shift_up index) s.cards;
      }

  abbrev pub retain_step : List String → TranscriptMessage → Retained → Option String → Retained
  retain_step consumed m s none = record s { boundary = s.boundary + 1 }
  retain_step consumed m s (some id) =
      if contains consumed id
      then record s { live = insert_text (append_text "prompt:" id) s.live }
      else retain_message m s

  unfoldable pub retain_all : List String → List TranscriptMessage → Retained → Retained
  unfolding retain_message strip_prefix
  retain_all consumed [] s = s
  retain_all consumed (m ∷ ms) s =
      retain_all consumed ms (retain_step consumed m s (strip_prefix "__pending_prompt:" m.id))

  -- `boundaries[count.min(record.messages.len())]`, in a list of one more than there are messages.
  unfoldable pub boundary_of : List ℕ → ℕ → ToolCard crates → ℕ
  unfolding get_elem?
  boundary_of boundaries size card =
      unwrap_or 0 (get_elem? boundaries (min card.insert_after_count size))

  unfoldable pub known_boundaries : List ℕ → ℕ → Cards → Table ℕ → Table ℕ
  unfolding boundary_of
  known_boundaries boundaries size [] known = known
  known_boundaries boundaries size (c ∷ cs) known =
      known_boundaries boundaries size cs
        (insert c.tool_call_id (boundary_of boundaries size c) known)

  unfoldable pub place_known : Table ℕ → ToolCard crates → ToolCard crates
  place_known known card = record card {
    insert_after_count = unwrap_or card.insert_after_count (lookup card.tool_call_id known);
  }

  unfoldable pub place_active : List ℕ → ℕ → ToolCard crates → ToolCard crates
  unfolding boundary_of
  place_active boundaries size card = record card {
    insert_after_count = boundary_of boundaries size card;
  }

  unfoldable pub keep_new : List String → TranscriptMessage → TranscriptMessage
  unfolding contains refresh_message
  keep_new live m =
      if contains live m.id then refresh_message crates (record m { is_new = true }) else m

  unfoldable pub reconciled :
      SessionRecord crates → List TranscriptMessage → Cards → SessionRecord crates
  unfolding retain_all consumed_ids positions_from boundaries_from known_boundaries place_known
      place_active keep_new
  reconciled r messages tool_cards =
      let s = retain_all (consumed_ids messages) r.messages (record {
        boundary = 0;
        retained = 0;
        messages = messages;
        cards = tool_cards;
        live = r.live_message_ids;
      }) in
      let size = length r.messages in
      let boundaries = 0 ∷ boundaries_from (positions_from 0 s.messages []) 0 r.messages in
      let known = known_boundaries boundaries size (r.tool_cards ++ r.active_tool_calls) [] in
      record r {
        messages = map (keep_new s.live) s.messages;
        live_message_ids = s.live;
        tool_cards = map (place_known known) s.cards;
        active_tool_calls = map (place_active boundaries size) r.active_tool_calls;
      }

  -- The messages that the record does not hold on trust.
  unfoldable pub authoritative_count : SessionRecord crates → ℕ
  unfolding filter is_pending_prompt
  authoritative_count r = length (filter (λ m. not (is_pending_prompt crates m)) r.messages)

  unfoldable pub replace_record_transcript :
      SessionRecord crates → List TranscriptMessage → Cards → SessionRecord crates × Bool
  unfolding reconciled authoritative_count
  replace_record_transcript r messages tool_cards =
      if ltb (length messages) (authoritative_count r)
      then (r, false)
      else (reconciled r messages tool_cards, true)

  abbrev pub with_status : Option SessionStatus → SessionRecord crates → SessionRecord crates
  with_status none r = r
  with_status (some status) r = record r { status = status }

  abbrev pub with_recency : Option Timestamp → SessionRecord crates × Bool → SessionRecord crates
  with_recency recency (r, false) = r
  with_recency recency (r, true) = record r { last_message_at = max_time r.last_message_at recency }

  -- The mutation of `replace_messages_and_broadcast`.
  unfoldable pub replace_messages :
      List TranscriptMessage
      → Cards
      → Option SessionStatus
      → Option Timestamp
      → SessionRecord crates
      → SessionRecord crates
  unfolding replace_record_transcript
  replace_messages messages tool_cards status recency r =
      with_recency recency (replace_record_transcript (with_status status r) messages tool_cards)
