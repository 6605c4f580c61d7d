-- ===== src/Session/Transcript.antt =====
-- src/session.rs: `SessionRecord::projection`. The loops that lay the tool cards between the messages
-- return the transcript so far and the cards that are left.
pub mod Layout
pub mod Split
use fura.Base.{
  ℕ, zero, suc, ◌+◌, Bool, true, false, Option, none, some, List, [], ◌∷◌, ◌++◌, if◌then◌else◌,
  ◌==◌,
}
use fura.Base.Sort.{sort_by_key}
use fura.Events.Message.{SessionProjection}
use fura.Session.Crates.{Crates}
use fura.Session.Types.{
  TranscriptMessage, ToolCard, ReviewCard, TranscriptEntry, message, tool, review,
}
use fura.Session.Review.{review_card_from_tool}
use fura.Session.Record.{SessionRecord, Header, header}

module _ (crates : Crates) where
  abbrev Entries : Type 0
  Entries = List (TranscriptEntry crates)

  abbrev Cards : Type 0
  Cards = List (ToolCard crates)

  abbrev pub review_entry : Option (ReviewCard crates) → Entries
  review_entry none = []
  review_entry (some card) = review card ∷ []

  unfoldable pub push_tool_entry : Entries → ToolCard crates → Entries
  push_tool_entry transcript card =
      (transcript ++ tool card ∷ []) ++ review_entry (review_card_from_tool crates card)

  -- The cards at the front of the list that stand after `count` messages.
  unfoldable pub push_cards_at : ℕ → Entries → Cards → Entries × Cards
  unfolding push_tool_entry
  push_cards_at count t [] = (t, [])
  push_cards_at count t (card ∷ cards) =
      let rest = push_cards_at count (push_tool_entry t card) cards in
      if card.insert_after_count == count then rest else (t, card ∷ cards)

  -- `mi` is the index of the first of the messages.
  unfoldable pub push_messages : ℕ → Entries → Cards → List TranscriptMessage → Entries × Cards
  unfolding push_cards_at
  push_messages mi t cards [] = (t, cards)
  push_messages mi t cards (msg ∷ msgs) =
      let (t', cards') = push_cards_at (mi + 1) (t ++ message msg ∷ []) cards in
      push_messages (mi + 1) t' cards' msgs

  unfoldable pub push_rest : Entries → Cards → Entries
  unfolding push_tool_entry
  push_rest t [] = t
  push_rest t (card ∷ cards) = push_rest (push_tool_entry t card) cards

  abbrev pub streaming_entry : Option TranscriptMessage → Entries
  streaming_entry none = []
  streaming_entry (some streaming) = message streaming ∷ []

  unfoldable pub all_cards : SessionRecord crates → Cards
  all_cards r = r.tool_cards ++ r.active_tool_calls

  unfoldable pub transcript : SessionRecord crates → Entries
  unfolding sort_by_key all_cards push_cards_at push_messages push_rest
  transcript r =
      let cards = sort_by_key (λ card. card.insert_after_count) (all_cards r) in
      let (t, cards) = push_cards_at 0 [] cards in
      let (t, cards) = push_messages 0 t cards r.messages in
      push_rest t cards ++ streaming_entry r.streaming_message

  unfoldable pub projection :
      SessionRecord crates → SessionProjection (TranscriptEntry crates) (Header crates)
  unfolding header transcript
  projection r = record { header = header crates r; transcript = transcript r; seq = 0 }
