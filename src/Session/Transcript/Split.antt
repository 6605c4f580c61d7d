-- ===== src/Session/Transcript/Split.antt =====
-- Two transcripts with the same messages and cards that differ from one card on.
use fura.Base.{
  ℕ, zero, suc, ◌+◌, ◌<◌, ◌≤◌, ◌≡◌, refl, sym, Bool, true, List, [], ◌∷◌, ◌++◌, arith, length, take,
  take-append_le, ℕ-cases, inl, inr,
}
use mathlib.Core.Path.{subst}
use mathlib.Core.List.{append_assoc}
use fura.Base.Options.{unwrap_or}
use fura.Base.Positions.{position}
use fura.Base.Sort.{
  sort_by_key, with_key, above, sort-above, with_key-append, with_key_self, with_key_other,
}
use fura.Session.Crates.{Crates}
use fura.Session.Types.{TranscriptMessage, ToolCard, TranscriptEntry, message, tool}
use fura.Session.Review.{review_card_from_tool}
use fura.Session.Transcript.{review_entry}
use fura.Session.Transcript.Layout.{place, entries_of, entries_of-append, after, layout}

module _ (crates : Crates) (card : ToolCard crates) where
  abbrev Entries : Type 0
  Entries = List (TranscriptEntry crates)

  abbrev Cards : Type 0
  Cards = List (ToolCard crates)

  -- The first list shows the card where the lists part.
  pub record Splits (new old : Entries) : Type 0 where
    pub front : Entries
    pub new_rest : Entries
    pub old_rest : Entries
    pub new_eq : new ≡ front ++ tool card ∷ new_rest
    pub old_eq : old ≡ front ++ old_rest

  prepend : (es new old : Entries) → Splits new old → Splits (es ++ new) (es ++ old)
  prepend es new old s = record {
    front = es ++ s.front;
    new_rest = s.new_rest;
    old_rest = s.old_rest;
    new_eq = rw (s.new_eq) (sym (append_assoc es s.front (tool card ∷ s.new_rest)));
    old_eq = rw (s.old_eq) (sym (append_assoc es s.front s.old_rest));
  }

  pub Splits-append :
      (new old new' old' : Entries) → Splits new old → Splits (new ++ new') (old ++ old')
  Splits-append new old new' old' s = record {
    front = s.front;
    new_rest = s.new_rest ++ new';
    old_rest = s.old_rest ++ old';
    new_eq = rw (s.new_eq) (append_assoc s.front (tool card ∷ s.new_rest) new');
    old_eq = rw (s.old_eq) (append_assoc s.front s.old_rest old');
  }

  module _ (same new_tail old_tail : Cards)
      (keeps : (j : ℕ)
        → j < place crates card
        → with_key (place crates) j new_tail ≡ with_key (place crates) j old_tail) where
    abbrev new_cards : Cards
    new_cards = same ++ card ∷ new_tail

    abbrev old_cards : Cards
    old_cards = same ++ old_tail

    before :
        (j : ℕ)
        → j < place crates card
        → with_key (place crates) j new_cards ≡ with_key (place crates) j old_cards
    before j h =
        rw
          (
            with_key-append (place crates) j same (card ∷ new_tail),
            with_key-append (place crates) j same old_tail,
            with_key_other (place crates) j card new_tail (omega arith),
            keeps j h,
          )
          refl

    at :
        Splits
          (entries_of crates (with_key (place crates) (place crates card) new_cards))
          (entries_of crates (with_key (place crates) (place crates card) old_cards))
    at = record {
      front = entries_of crates (with_key (place crates) (place crates card) same);
      new_rest =
          review_entry crates (review_card_from_tool crates card)
          ++ entries_of crates (with_key (place crates) (place crates card) new_tail);
      old_rest = entries_of crates (with_key (place crates) (place crates card) old_tail);
      new_eq =
          rw
            (
              with_key-append (place crates) (place crates card) same (card ∷ new_tail),
              with_key_self (place crates) card new_tail,
            )
            (entries_of-append crates _ _);
      old_eq =
          rw (with_key-append (place crates) (place crates card) same old_tail)
            (entries_of-append crates _ _);
    }

    past : (n : ℕ) (cs : Cards) → Entries
    past n cs = entries_of crates (sort_by_key (place crates) (above (place crates) n cs))

    past-step :
        (n : ℕ) (cs : Cards)
        → past n cs ≡ entries_of crates (with_key (place crates) (n + 1) cs) ++ past (n + 1) cs
    unfolding past
    past-step n cs = rw (sort-above (place crates) n cs) (entries_of-append crates _ _)

    past_splits :
        (d n : ℕ) → n + suc d ≡ place crates card → Splits (past n new_cards) (past n old_cards)
    past_splits zero n e =
        rw (past-step n new_cards, past-step n old_cards, e) (Splits-append _ _ _ _ at)
    past_splits (suc d) n e =
        rw (past-step n new_cards, past-step n old_cards, before (n + 1) (omega arith))
          (prepend _ _ _ (past_splits d (n + 1) (omega arith)))

    after_splits :
        (d n : ℕ) (ms : List TranscriptMessage)
        → n + suc d ≡ place crates card
        → Splits (after crates n ms new_cards) (after crates n ms old_cards)
    after_splits d n [] e = unfold past in past_splits d n e
    after_splits zero n (m ∷ ms) e = rw e (prepend (message m ∷ []) _ _ (Splits-append _ _ _ _ at))
    after_splits (suc d) n (m ∷ ms) e = rw (before (n + 1) (omega arith)) (
        prepend (message m ∷ entries_of crates (with_key (place crates) (n + 1) old_cards)) _ _
          (after_splits d (n + 1) ms (omega arith)))

    pub layout-Splits :
        (ms : List TranscriptMessage)
        → Splits (layout crates ms new_cards) (layout crates ms old_cards)
    layout-Splits ms = elim (ℕ-cases (place crates card)) [
      | inl e ↦ Splits-append _ _ _ _ (
          subst
            (λ k.
              Splits (entries_of crates (with_key (place crates) k new_cards))
                (entries_of crates (with_key (place crates) k old_cards)))
            e at)
      | inr (d, e) ↦ rw (before 0 (omega arith)) (
          prepend (entries_of crates (with_key (place crates) 0 old_cards)) _ _
            (after_splits d 0 ms (omega arith)))
    ]

  position-front :
      (p : TranscriptEntry crates → Bool) (d : ℕ) (es fs : Entries)
      → p (tool card) ≡ true
      → unwrap_or d (position p (es ++ tool card ∷ fs)) ≤ length es
  unfolding position
  position-front p d [] fs h = rw h (omega arith)
  position-front p d (e ∷ es) fs h = ground (arith, position-front p d es fs h)

  -- The first entry of the card's tool stands no later than where the lists part.
  pub Splits-take :
      (p : TranscriptEntry crates → Bool) (d : ℕ) (new old : Entries)
      → p (tool card) ≡ true
      → Splits new old
      → take (unwrap_or d (position p new)) new ≡ take (unwrap_or d (position p new)) old
  Splits-take p d new old h s =
      rw (s.new_eq, s.old_eq)
        (take-append_le _ s.front (tool card ∷ s.new_rest) s.old_rest
          (position-front p d s.front s.new_rest h))
