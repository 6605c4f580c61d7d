-- ===== src/Session/Frames/Honest/Tool.antt =====
-- src/rpc.rs: `ToolExecutionUpdate` and `ToolExecutionEnd`.
use fura.Base.{
  ℕ, suc, ◌<◌, ◌≡◌, refl, ap, sym, ◌∙◌, Bool, true, false, Option, some, List, [], ◌∷◌, ◌++◌,
  String, arith, take, drop, Bool-cases, Option-cases, inl, inr, ◌||◌,
}
use mathlib.Core.List.{append_assoc}
use fura.Base.Options.{◌>>=◌, unwrap_or}
use fura.Base.Positions.{
  position, get_elem?, set, erase_idx, get_elem?-split, set-split, erase_idx-split, position_sound,
}
use fura.Base.Sort.{with_key, with_key-append, with_key_other}
use fura.Events.Client.Replication.{Honest}
use fura.Session.Crates.{Crates}
use fura.Session.Types.{ToolCard}
use fura.Session.Record.{SessionRecord}
use fura.Session.Transcript.{transcript, projection, all_cards}
use fura.Session.Transcript.Layout.{place, transcript-layout}
use fura.Session.Transcript.Split.{Splits, layout-Splits, Splits-append, Splits-take}
use fura.Session.Frames.Tool.{
  is_card_of, is_entry_of, replace_from, complete_card, show_progress, keep_running, active_card,
  tool_execution_update, tool_execution_end, state_is, tool_async_state,
}

module _ (crates : Crates) where
  open crates use {Value}

  abbrev Record : Type 0
  Record = SessionRecord crates

  abbrev Cards : Type 0
  Cards = List (ToolCard crates)

  -- A handler that changes cards from one card of the tool on, and says where that card stands.
  replaced :
      (r r' : Record) (id : String) (card : ToolCard crates) (same new_tail old_tail : Cards)
      → r'.messages ≡ r.messages
      → is_card_of crates id card ≡ true
      → all_cards crates r' ≡ same ++ card ∷ new_tail
      → all_cards crates r ≡ same ++ old_tail
      → ((j : ℕ)
          → j < place crates card
          → with_key (place crates) j new_tail ≡ with_key (place crates) j old_tail)
      → take (replace_from crates id r') (transcript crates r')
        ≡ take (replace_from crates id r') (transcript crates r)
  unfolding replace_from is_entry_of
  replaced r r' id card same new_tail old_tail ms own new old keeps =
      let splits : Splits crates card (transcript crates r') (transcript crates r) =
        rw (transcript-layout crates r', transcript-layout crates r, ms, new, old)
          (Splits-append crates card _ _ _ _
            (layout-Splits crates card same new_tail old_tail keeps r.messages)) in
      Splits-take crates card (is_entry_of crates id) _ (transcript crates r') (transcript crates r)
        own splits

  pub active_card_sound :
      (id : String) (r : Record) (pos : ℕ) (card : ToolCard crates)
      → active_card crates id r ≡ some (pos, card)
      → (get_elem? r.active_tool_calls pos ≡ some card) × (is_card_of crates id card ≡ true)
  unfolding active_card
  active_card_sound id r pos card h =
      elim (Option-cases (position (is_card_of crates id) r.active_tool_calls)) [
        | inl e ↦ absurd (cc)
        | inr (i, e) ↦ elim (Option-cases (get_elem? r.active_tool_calls i)) [
          | inl e' ↦ absurd (cc)
          | inr (c, e') ↦
              let at_i : active_card crates id r ≡ some (i, c) = rw (e, e') in
              let same : ◌≡◌ {A = ℕ × ToolCard crates} (i, c) (pos, card) = cc (sym at_i ∙ h) in
              let cards : c ≡ card = ap (λ q. q.1) same in
              (
                ap (get_elem? r.active_tool_calls) (sym (ap (λ q. q.0) same)) ∙ e' ∙ ap some cards,
                ap (is_card_of crates id) (sym cards)
                    ∙ position_sound (is_card_of crates id) r.active_tool_calls i c e e',
              )
        ]
      ]

  module _ (r r' : Record) (id : String) (pos : ℕ) (card card' : ToolCard crates)
      (found : get_elem? r.active_tool_calls pos ≡ some card)
      (own : is_card_of crates id card' ≡ true) (stays : place crates card' ≡ place crates card)
      (ms : r'.messages ≡ r.messages) where
    abbrev earlier : Cards
    earlier = take pos r.active_tool_calls

    abbrev later : Cards
    later = drop (suc pos) r.active_tool_calls

    changed_in_place :
        r'.tool_cards ≡ r.tool_cards
        → r'.active_tool_calls ≡ set r.active_tool_calls pos card'
        → take (replace_from crates id r') (transcript crates r')
          ≡ take (replace_from crates id r') (transcript crates r)
    unfolding all_cards
    changed_in_place done active =
        replaced r r' id card' (r.tool_cards ++ earlier) later (card ∷ later) ms own
          (rw (done, active, set-split r.active_tool_calls pos card card' found)
            (sym (append_assoc r.tool_cards earlier (card' ∷ later))))
          (sym (
            append_assoc r.tool_cards earlier (card ∷ later)
            ∙ ap (λ cs. r.tool_cards ++ cs) (get_elem?-split r.active_tool_calls pos card found)))
          (λ j h. sym (with_key_other (place crates) j card later (omega arith)))

    completed :
        r'.tool_cards ≡ r.tool_cards ++ card' ∷ []
        → r'.active_tool_calls ≡ erase_idx r.active_tool_calls pos
        → take (replace_from crates id r') (transcript crates r')
          ≡ take (replace_from crates id r') (transcript crates r)
    unfolding all_cards
    completed done active =
        replaced r r' id card' r.tool_cards (earlier ++ later) r.active_tool_calls ms own
          (rw (done, active, erase_idx-split r.active_tool_calls pos card found)
            (append_assoc r.tool_cards (card' ∷ []) (earlier ++ later)))
          refl
          (λ j h.
            with_key-append (place crates) j earlier later
            ∙ ap (λ cs. with_key (place crates) j earlier ++ cs)
                (sym (with_key_other (place crates) j card later (omega arith)))
            ∙ sym (with_key-append (place crates) j earlier (card ∷ later))
            ∙ ap (with_key (place crates) j) (get_elem?-split r.active_tool_calls pos card found))

  -- A partial result of a tool, or its end in the background, changes nothing before the index.
  pub tool_execution_update-Honest :
      (id : String) (partial_result : Option Value) (r : Record)
      → Honest (projection crates) r (tool_execution_update crates id partial_result r)
  unfolding tool_execution_update projection complete_card show_progress
  tool_execution_update-Honest id partial_result r = elim (Option-cases (active_card crates id r)) [
    | inl none_active ↦ rw none_active refl
    | inr ((pos, card), active) ↦
        let (found, own) = active_card_sound id r pos card active in
        let state = partial_result >>= tool_async_state crates in
        let failed = state_is "failed" state in
        rw active (elim (Bool-cases (state_is "completed" state || failed)) [
          | inl final ↦ rw final (
              completed r (complete_card crates pos failed partial_result card r) id pos card _
                found own refl refl refl refl)
          | inr partial ↦ rw partial (
              changed_in_place r (show_progress crates pos partial_result card r) id pos card _
                found own refl refl refl refl)
        ])
  ]

  -- The end of a tool, in the background or not, and of a tool that is not active.
  pub tool_execution_end-Honest :
      (id : String) (result : Option Value) (is_error : Option Bool) (r : Record)
      → Honest (projection crates) r (tool_execution_end crates id result is_error r)
  unfolding tool_execution_end projection complete_card keep_running
  tool_execution_end-Honest id result is_error r = elim (Option-cases (active_card crates id r)) [
    | inl none_active ↦ rw none_active refl
    | inr ((pos, card), active) ↦
        let (found, own) = active_card_sound id r pos card active in
        let failed = unwrap_or false is_error in
        rw active (elim (Bool-cases (state_is "running" (result >>= tool_async_state crates))) [
          | inl running ↦ rw running (
              changed_in_place r (keep_running crates pos result card r) id pos card _ found own
                refl refl refl refl)
          | inr over ↦ rw over (
              completed r (complete_card crates pos failed result card r) id pos card _ found own
                refl refl refl refl)
        ])
  ]
