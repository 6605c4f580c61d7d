-- ===== src/Session/Settled.antt =====
-- src/rpc.rs: the loop that removes the optimistic prompts of a session that has ended.
use fura.Base.{
  ℕ, zero, suc, ◌+◌, ◌-◌, ◌<◌, ◌≤◌, ◌≡◌, refl, ap, ◌∙◌, Bool, true, false, not, none, some, List,
  [], ◌∷◌, ◌++◌, arith, length, take, map, All, All-always, All-map, All-append, All-append_inv,
  if◌then◌else◌, ltb, Option-cases, inl, inr, length-take,
}
use fura.Base.Sort.{filter}
use fura.Base.Positions.{position, erase_idx, position-lt, length-erase_idx}
use fura.Session.Crates.{Crates}
use fura.Session.Types.{TranscriptMessage, ToolCard}
use fura.Session.Parts.{SessionStatus}
use fura.Session.Record.{SessionRecord, terminal, is_pending_prompt}
use fura.Session.Removal.{shift_card, remove_record_message}
use fura.Session.Settle.{remove_pending_prompts, mark_status}
use fura.Session.Transcript.{all_cards}
use fura.Session.Transcript.Layout.{place}
use fura.Session.Frames.Honest.{IsPlaced}
use fura.Session.Frames.Placed.{remove_record_message-IsPlaced}

module _ {ℓ} {A : Type ℓ} (p : A → Bool) where
  -- The rejected elements of a list.
  abbrev rest : List A → List A
  rest xs = filter (λ x. not (p x)) xs

  rest_all : (xs : List A) → position p xs ≡ none → rest xs ≡ xs
  unfolding filter position
  rest_all [] h = refl
  rest_all (x ∷ xs) h = ground (arith, rest_all xs)

  position-take : (xs : List A) (n : ℕ) → position p xs ≡ none → position p (take n xs) ≡ none
  unfolding position
  position-take [] zero h = refl
  position-take [] (suc n) h = refl
  position-take (x ∷ xs) zero h = refl
  position-take (x ∷ xs) (suc n) h = ground (arith, position-take xs n)

  rest-erase_idx : (xs : List A) (i : ℕ) → position p xs ≡ some i → rest (erase_idx xs i) ≡ rest xs
  unfolding filter position erase_idx
  rest-erase_idx [] i h = refl
  rest-erase_idx (x ∷ xs) zero h = ground arith
  rest-erase_idx (x ∷ xs) (suc i) h = ground (arith, rest-erase_idx xs i)

  abbrev shifted : ℕ → ℕ → ℕ
  shifted i n = if ltb i n then n - 1 else n

  rest-take_erase :
      (xs : List A) (i n : ℕ)
      → position p xs ≡ some i
      → rest (take (shifted i n) (erase_idx xs i)) ≡ rest (take n xs)
  unfolding filter position erase_idx
  rest-take_erase [] i n h = cc
  rest-take_erase (x ∷ xs) zero zero h = refl
  rest-take_erase (x ∷ xs) zero (suc n) h =
      let past : shifted 0 (suc n) ≡ n = ground arith in rw past (ground arith)
  rest-take_erase (x ∷ xs) (suc i) zero h =
      let before : shifted (suc i) 0 ≡ 0 = ground arith in rw before
  rest-take_erase (x ∷ xs) (suc i) (suc n) h =
      let next : shifted (suc i) (suc n) ≡ suc (shifted i n) = ground arith in
      rw next (ground (arith, rest-take_erase xs i n))

  length-rest_take : (xs : List A) (n : ℕ) → length (rest (take n xs)) ≤ length (rest xs)
  unfolding filter
  length-rest_take [] zero = omega arith
  length-rest_take [] (suc n) = omega arith
  length-rest_take (x ∷ xs) zero = omega arith
  length-rest_take (x ∷ xs) (suc n) = ground (arith, length-rest_take xs n)

module _ (crates : Crates) where
  abbrev Record : Type 0
  Record = SessionRecord crates

  -- The messages that are no optimistic prompts.
  abbrev pub lasting : List TranscriptMessage → List TranscriptMessage
  lasting ms = filter (λ m. not (is_pending_prompt crates m)) ms

  -- The card after the same messages, less the optimistic prompts.
  abbrev pub follow : List TranscriptMessage → ToolCard crates → ToolCard crates
  follow ms card = record card {
    insert_after_count = length (lasting (take card.insert_after_count ms));
  }

  -- The record without its optimistic prompts.
  abbrev pub swept : Record → Record
  swept r = record r {
    messages = lasting r.messages;
    tool_cards = map (follow r.messages) r.tool_cards;
    active_tool_calls = map (follow r.messages) r.active_tool_calls;
  }

  abbrev pub ended : SessionStatus → Record → Record
  ended status r = record r {
    status = status;
    continuation_pending = false;
    streaming_message = none;
  }

  abbrev Fits : ℕ → ToolCard crates → Type 0
  Fits n c = place crates c ≤ n

  take_all : (n : ℕ) (ms : List TranscriptMessage) → n ≤ length ms → length (take n ms) ≡ n
  take_all n ms h = omega (arith, length-take n ms)

  follow_still :
      (ms : List TranscriptMessage) (cs : List (ToolCard crates))
      → position (is_pending_prompt crates) ms ≡ none
      → All (λ c. place crates c ≤ length ms) cs
      → map (follow ms) cs ≡ cs
  follow_still ms [] none_pending a = refl
  follow_still ms (c ∷ cs) none_pending a =
      let whole =
        rest_all (is_pending_prompt crates) (take c.insert_after_count ms)
          (position-take (is_pending_prompt crates) ms c.insert_after_count none_pending) in
      let stays = ap length whole ∙ take_all c.insert_after_count ms a.0 in
      rw (stays, follow_still ms cs none_pending a.1)

  follow-shift :
      (ms : List TranscriptMessage) (index : ℕ) (cs : List (ToolCard crates))
      → position (is_pending_prompt crates) ms ≡ some index
      → map (follow (erase_idx ms index)) (map (shift_card crates index) cs) ≡ map (follow ms) cs
  unfolding shift_card
  follow-shift ms index [] found = refl
  follow-shift ms index (c ∷ cs) found = rw (
    rest-take_erase (is_pending_prompt crates) ms index c.insert_after_count found,
    follow-shift ms index cs found,
  )

  swept-remove :
      (r : Record) (index : ℕ)
      → position (is_pending_prompt crates) r.messages ≡ some index
      → swept (remove_record_message crates r index) ≡ swept r
  unfolding remove_record_message
  swept-remove r index found = rw (
    rest-erase_idx (is_pending_prompt crates) r.messages index found,
    follow-shift r.messages index r.tool_cards found,
    follow-shift r.messages index r.active_tool_calls found,
  )

  shorter :
      (r : Record) (index : ℕ) {fuel : ℕ}
      → index < length r.messages
      → length r.messages < suc fuel
      → length (remove_record_message crates r index).messages < fuel
  unfolding remove_record_message
  shorter r index lt lt' = omega (arith, length-erase_idx r.messages index lt)

  placed_cards :
      (r : Record)
      → IsPlaced crates r
      → All (Fits (length r.messages)) (r.tool_cards ++ r.active_tool_calls)
  unfolding all_cards
  placed_cards r placed = placed

  remove_pending_prompts_lem :
      (fuel : ℕ) (r : Record)
      → length r.messages < fuel
      → IsPlaced crates r
      → remove_pending_prompts crates fuel r ≡ some (swept r)
  unfolding remove_pending_prompts
  remove_pending_prompts_lem zero r lt placed = absurd (omega arith)
  remove_pending_prompts_lem (suc fuel) r lt placed =
      elim (Option-cases (position (is_pending_prompt crates) r.messages)) [
        | inl clean ↦
            let (done, active) =
              All-append_inv (Fits (length r.messages)) r.tool_cards r.active_tool_calls
                (placed_cards r placed) in
            rw (
              clean,
              remove_pending_prompts,
              rest_all (is_pending_prompt crates) r.messages clean,
              follow_still r.messages r.tool_cards clean done,
              follow_still r.messages r.active_tool_calls clean active,
            )
        | inr (index, found) ↦
            let lt' = position-lt (is_pending_prompt crates) r.messages index found in
            let r' = remove_record_message crates r index in
            let size = length-erase_idx r.messages index lt' in
            rw (found, remove_pending_prompts)
              (remove_pending_prompts_lem fuel r' (shorter r index lt' lt)
                  (remove_record_message-IsPlaced crates r index lt' placed)
                ∙ ap some (swept-remove r index found))
      ]

  -- The end of a session, for a record whose cards are placed within its messages: with fuel for one
  -- round more than there are messages the loop ends, and the record has the status, no message that
  -- streams, no continuation that waits and none of its optimistic prompts; its other messages stay
  -- in order, and each card stays after those messages that it stood after.
  pub mark_status-terminal :
      (status : SessionStatus) (r : Record)
      → terminal crates status ≡ true
      → IsPlaced crates r
      → mark_status crates (length r.messages + 1) status r ≡ some (swept (ended status r))
  unfolding mark_status all_cards
  mark_status-terminal status r over placed =
      rw over
        (remove_pending_prompts_lem (length r.messages + 1) (ended status r) (omega arith) placed)

  pub swept-IsPlaced : (r : Record) → IsPlaced crates (swept r)
  unfolding all_cards
  swept-IsPlaced r =
      let fits = λ (c : ToolCard crates).
        length-rest_take (is_pending_prompt crates) r.messages c.insert_after_count in
      let n = length (lasting r.messages) in
      All-append (Fits n) (map (follow r.messages) r.tool_cards)
        (map (follow r.messages) r.active_tool_calls)
        (All-map (Fits n) (follow r.messages) r.tool_cards (All-always _ fits r.tool_cards))
        (All-map (Fits n) (follow r.messages) r.active_tool_calls
          (All-always _ fits r.active_tool_calls))
