-- ===== src/Session/Transcript/Layout.antt =====
-- src/session.rs: where the loops of `projection` put each card, without the loops.
use fura.Base.{ℕ, ◌+◌, ◌<◌, ◌≡◌, refl, ap, ◌∙◌, List, [], ◌∷◌, ◌++◌, arith, All, ==_iff}
use mathlib.Core.List.{append_assoc, append-nil}
use fura.Base.Sort.{
  sort_by_key, with_key, above, sort-above, sort_by_key_lem, with_key-All, above-All, sort-All,
}
use fura.Session.Crates.{Crates}
use fura.Session.Types.{TranscriptMessage, ToolCard, TranscriptEntry, message, tool}
use fura.Session.Review.{review_card_from_tool}
use fura.Session.Record.{SessionRecord}
use fura.Session.Transcript.{
  review_entry, push_tool_entry, push_cards_at, push_messages, push_rest, streaming_entry,
  all_cards, transcript,
}

module _ (crates : Crates) where
  abbrev Entries : Type 0
  Entries = List (TranscriptEntry crates)

  abbrev Cards : Type 0
  Cards = List (ToolCard crates)

  abbrev pub place : ToolCard crates → ℕ
  place card = card.insert_after_count

  -- A card, followed by its review.
  abbrev pub entries_of : Cards → Entries
  entries_of [] = []
  entries_of (card ∷ cards) =
      tool card ∷ (review_entry crates (review_card_from_tool crates card) ++ entries_of cards)

  -- The messages from the `n`-th on, each followed by its cards in their order, and the cards past
  -- the end by their place.
  abbrev pub after : ℕ → List TranscriptMessage → Cards → Entries
  after n [] cards = entries_of (sort_by_key place (above place n cards))
  after n (m ∷ ms) cards =
      message m ∷ (entries_of (with_key place (n + 1) cards) ++ after (n + 1) ms cards)

  abbrev pub layout : List TranscriptMessage → Cards → Entries
  layout ms cards = entries_of (with_key place 0 cards) ++ after 0 ms cards

  pub entries_of-append : (cs ds : Cards) → entries_of (cs ++ ds) ≡ entries_of cs ++ entries_of ds
  entries_of-append [] ds = refl
  entries_of-append (c ∷ cs) ds = simp (entries_of-append cs ds, append_assoc)

  push_tool_entry-append :
      (t : Entries) (c : ToolCard crates) (es : Entries)
      → push_tool_entry crates t c ++ es
        ≡ t ++ (tool c ∷ (review_entry crates (review_card_from_tool crates c) ++ es))
  unfolding push_tool_entry
  push_tool_entry-append t c es = simp append_assoc

  push_stop :
      (k : ℕ) (t : Entries) (cs : Cards)
      → All (λ c. k < place c) cs
      → push_cards_at crates k t cs ≡ (t, cs)
  unfolding push_cards_at
  push_stop k t [] a = refl
  push_stop k t (c ∷ cs) a = ground (arith, a.0)

  push_cards_at_lem :
      (k : ℕ) (t : Entries) (cs ds : Cards)
      → All (λ c. place c ≡ k) cs
      → All (λ c. k < place c) ds
      → push_cards_at crates k t (cs ++ ds) ≡ (t ++ entries_of cs, ds)
  unfolding push_cards_at
  push_cards_at_lem k t [] ds a b = push_stop k t ds b ∙ rw (append-nil t)
  push_cards_at_lem k t (c ∷ cs) ds a b = rw ((==_iff (place c) k).1 a.0) (
      push_cards_at_lem k (push_tool_entry crates t c) cs ds a.1 b
      ∙ ap (λ es. (es, ds)) (push_tool_entry-append t c (entries_of cs)))

  push_rest_lem : (t : Entries) (cs : Cards) → push_rest crates t cs ≡ t ++ entries_of cs
  unfolding push_rest
  push_rest_lem t [] = rw (append-nil t)
  push_rest_lem t (c ∷ cs) =
      push_rest_lem (push_tool_entry crates t c) cs ∙ push_tool_entry-append t c (entries_of cs)

  push_messages_lem :
      (n : ℕ) (t : Entries) (ms : List TranscriptMessage) (cs : Cards)
      → push_rest crates
          (push_messages crates n t (sort_by_key place (above place n cs)) ms).0
          (push_messages crates n t (sort_by_key place (above place n cs)) ms).1
        ≡ t ++ after n ms cs
  unfolding push_messages
  push_messages_lem n t [] cs = push_rest_lem t (sort_by_key place (above place n cs))
  push_messages_lem n t (m ∷ ms) cs =
      let k = n + 1 in
      let here = with_key place k cs in
      let later = sort_by_key place (above place k cs) in
      let pushed =
        push_cards_at_lem k (t ++ message m ∷ []) here later (with_key-All place k cs)
          (sort-All place (λ c. k < place c) (above place k cs) (above-All place k cs)) in
      rw (sort-above place n cs, push_messages, pushed)
        (push_messages_lem k ((t ++ message m ∷ []) ++ entries_of here) ms cs ∙ simp (append_assoc))

  -- The transcript of a record: each message, in order, is followed by the cards that stand after as
  -- many messages, completed cards before active ones and otherwise in the order of their lists,
  -- each with its review; cards placed past the last message come after it by their place, and the
  -- message that streams is last.
  pub transcript-layout :
      (r : SessionRecord crates)
      → transcript crates r
        ≡ layout r.messages (all_cards crates r) ++ streaming_entry crates r.streaming_message
  unfolding transcript
  transcript-layout r =
      let cs = all_cards crates r in
      let here = with_key place 0 cs in
      let later = sort_by_key place (above place 0 cs) in
      let pushed =
        push_cards_at_lem 0 [] here later (with_key-All place 0 cs)
          (sort-All place (λ c. 0 < place c) (above place 0 cs) (above-All place 0 cs)) in
      rw (sort_by_key_lem place cs, pushed)
        (ap (λ es. es ++ streaming_entry crates r.streaming_message)
          (push_messages_lem 0 (entries_of here) r.messages cs))
