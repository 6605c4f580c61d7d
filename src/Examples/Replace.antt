-- ===== src/Examples/Replace.antt =====
-- A history that src/rpc.rs reconciles with one session.
use mathlib.Core.List.{filter_map}
use fura.Base.{◌≡◌, refl, not, List, [], ◌∷◌, arith}
use fura.Base.Sort.{filter}
use fura.Session.Text.{strip_prefix}
use fura.Session.Types.{TranscriptMessage, ToolCard}
use fura.Session.Frames.Honest.{IsPlaced}
use fura.Session.Replace.{reconciled, consumed_ids}
use fura.Session.Replace.Placed.{reconciled-IsPlaced}
use fura.Session.Replace.Content.{optimistic, retained, ids, AllPlain, reconciled_lem}
use fura.Examples.Json.{crates}
use fura.Examples.Session.{session, message_of, card_of}

abbrev history : List TranscriptMessage
history = message_of "m1" ∷ message_of "m2" ∷ message_of "m4" ∷ []

abbrev history_cards : List (ToolCard crates)
history_cards = card_of "t1" 2 ∷ card_of "t9" 3 ∷ []

history-AllPlain : AllPlain history
unfolding strip_prefix
history-AllPlain = (refl, (refl, (refl, tt)))

reconciled_lem_example :
    let r' = reconciled crates session history history_cards in
    (ids (filter (λ m. not (optimistic m)) r'.messages) ≡ ids history)
    × (ids (filter optimistic r'.messages)
        ≡ ids (filter (retained (consumed_ids history)) session.messages))
reconciled_lem_example = reconciled_lem crates session history history_cards history-AllPlain

-- The prompt is still there, after the message that it followed.
reconciled_ids :
    ids (reconciled crates session history history_cards).messages
    ≡ "m1" ∷ "__pending_prompt:p1" ∷ "m2" ∷ "m4" ∷ []
unfolding reconciled filter_map
reconciled_ids = refl

reconciled-IsPlaced_example : IsPlaced crates (reconciled crates session history history_cards)
reconciled-IsPlaced_example = reconciled-IsPlaced crates session history history_cards (omega arith)
