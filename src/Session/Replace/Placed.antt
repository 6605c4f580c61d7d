-- ===== src/Session/Replace/Placed.antt =====
-- src/rpc.rs: the cards of a reconciled record stand within its messages.
use fura.Base.{
  ℕ, zero, suc, ◌+◌, ◌≤◌, ◌≡◌, refl, Option, none, some, List, [], ◌∷◌, ◌++◌, String, arith, map,
  min, length, All, All-append, All-map, All-weaken, All-always, str_eq as ◌==◌, Bool-cases,
  Option-cases, inl, inr,
}
use fura.Base.Options.{unwrap_or}
use fura.Base.Positions.{contains, get_elem?, All-get_elem?}
use fura.Base.Table.{Table, lookup, insert}
use fura.Session.Crates.{Crates}
use fura.Session.Text.{strip_prefix}
use fura.Session.Types.{TranscriptMessage, ToolCard}
use fura.Session.Record.{SessionRecord}
use fura.Session.Transcript.{all_cards}
use fura.Session.Transcript.Layout.{place}
use fura.Session.Frames.Honest.{IsPlaced}
use fura.Session.Replace.{
  insert_idx, consumed_ids, positions_from, boundaries_from, Retained, shift_up, retain_message,
  retain_step, retain_all, boundary_of, known_boundaries, place_known, place_active, keep_new,
  reconciled,
}

pub length-insert_idx {ℓ} :
    {A : Type ℓ} (xs : List A) (i : ℕ) (v : A) → length (insert_idx xs i v) ≡ length xs + 1
unfolding insert_idx
length-insert_idx xs zero v = omega arith
length-insert_idx [] (suc i) v = omega arith
length-insert_idx (x ∷ xs) (suc i) v = omega (arith, length-insert_idx xs i v)

-- The numbers of a table are bounded.
abbrev Bounded : ℕ → Table ℕ → Type 0
Bounded n known = All (λ (entry : String × ℕ). entry.1 ≤ n) known

insert-Bounded :
    (n : ℕ) (k : String) (v : ℕ) (m : Table ℕ) → v ≤ n → Bounded n m → Bounded n (insert k v m)
unfolding insert
insert-Bounded n k v [] h a = (h, tt)
insert-Bounded n k v ((j, w) ∷ m) h a = elim (Bool-cases (j == k)) [
  | inl e ↦ rw e (h, a.1)
  | inr e ↦ rw e (a.0, insert-Bounded n k v m h a.1)
]

lookup-Bounded :
    (n d : ℕ) (k : String) (m : Table ℕ) → d ≤ n → Bounded n m → unwrap_or d (lookup k m) ≤ n
unfolding lookup
lookup-Bounded n d k [] h a = h
lookup-Bounded n d k ((j, w) ∷ m) h a = elim (Bool-cases (j == k)) [
  | inl e ↦ rw e a.0
  | inr e ↦ rw e (lookup-Bounded n d k m h a.1)
]

positions-Bounded :
    (n index : ℕ) (ms : List TranscriptMessage) (known : Table ℕ)
    → index + length ms ≤ n
    → Bounded n known
    → Bounded n (positions_from index ms known)
unfolding positions_from
positions-Bounded n index [] known h a = a
positions-Bounded n index (m ∷ ms) known h a =
    positions-Bounded n (index + 1) ms (insert m.id (index + 1) known) (omega arith)
      (insert-Bounded n m.id (index + 1) known (omega arith) a)

boundaries_bound :
    (n last : ℕ) (positions : Table ℕ) (ms : List TranscriptMessage)
    → Bounded n positions
    → last ≤ n
    → All (λ b. b ≤ n) (boundaries_from positions last ms)
unfolding boundaries_from
boundaries_bound n last positions [] a h = tt
boundaries_bound n last positions (m ∷ ms) a h =
    let next = lookup-Bounded n last m.id positions h a in
    (next, boundaries_bound n (unwrap_or last (lookup m.id positions)) positions ms a next)

length-map {ℓ κ} :
    {A : Type ℓ} {B : Type κ} (f : A → B) (xs : List A) → length (map f xs) ≡ length xs
length-map f [] = refl
length-map f (x ∷ xs) = omega (arith, length-map f xs)

module _ (crates : Crates) where
  abbrev Cards : Type 0
  Cards = List (ToolCard crates)

  abbrev Fits : ℕ → ToolCard crates → Type 0
  Fits n c = place crates c ≤ n

  abbrev Fitting : Retained crates → Type 0
  Fitting s = All (Fits (length s.messages)) s.cards

  shift_up-Fits :
      (n index : ℕ) (c : ToolCard crates) → Fits n c → Fits (n + 1) (shift_up crates index c)
  unfolding shift_up
  shift_up-Fits n index c h = ground arith

  retain_message-Fits :
      (m : TranscriptMessage) (s : Retained crates)
      → Fitting s
      → Fitting (retain_message crates m s)
  unfolding retain_message
  retain_message-Fits m s a =
      let index = min (s.boundary + s.retained) (length s.messages) in
      All-map (Fits _) (shift_up crates index) s.cards (
        All-weaken (Fits (length s.messages)) _
          (λ c h.
            rw (length-insert_idx s.messages index m) (shift_up-Fits (length s.messages) index c h))
          s.cards a)

  retain_all-Fits :
      (consumed : List String) (ms : List TranscriptMessage) (s : Retained crates)
      → Fitting s
      → Fitting (retain_all crates consumed ms s)
  unfolding retain_all
  retain_all-Fits consumed [] s a = a
  retain_all-Fits consumed (m ∷ ms) s a =
      retain_all-Fits consumed ms _ (step (strip_prefix "__pending_prompt:" m.id))
    where
      step : (o : Option String) → Fitting (retain_step crates consumed m s o)
      step none = a
      step (some id) = elim (Bool-cases (contains consumed id)) [
        | inl known ↦ rw known a
        | inr fresh ↦ rw fresh (retain_message-Fits m s a)
      ]

  boundary_of-le :
      (n size : ℕ) (boundaries : List ℕ) (c : ToolCard crates)
      → All (λ b. b ≤ n) boundaries
      → boundary_of crates boundaries size c ≤ n
  unfolding boundary_of
  boundary_of-le n size boundaries c a =
      elim (Option-cases (get_elem? boundaries (min c.insert_after_count size))) [
        | inl outside ↦ rw outside (omega arith)
        | inr (b, found) ↦ rw found (All-get_elem? (λ k. k ≤ n) boundaries _ b a found)
      ]

  known-Bounded :
      (n size : ℕ) (boundaries : List ℕ) (cs : Cards) (known : Table ℕ)
      → All (λ b. b ≤ n) boundaries
      → Bounded n known
      → Bounded n (known_boundaries crates boundaries size cs known)
  unfolding known_boundaries
  known-Bounded n size boundaries [] known a b = b
  known-Bounded n size boundaries (c ∷ cs) known a b =
      known-Bounded n size boundaries cs
        (insert c.tool_call_id (boundary_of crates boundaries size c) known) a
        (insert-Bounded n c.tool_call_id (boundary_of crates boundaries size c) known
          (boundary_of-le n size boundaries c a) b)

  placed_active :
      (n : ℕ) (boundaries : List ℕ) (size : ℕ) (c : ToolCard crates)
      → All (λ b. b ≤ n) boundaries
      → Fits n (place_active crates boundaries size c)
  unfolding place_active
  placed_active n boundaries size c a = boundary_of-le n size boundaries c a

  place_known-Fits :
      (n : ℕ) (known : Table ℕ) (c : ToolCard crates)
      → Bounded n known
      → Fits n c
      → Fits n (place_known crates known c)
  unfolding place_known
  place_known-Fits n known c a h = lookup-Bounded n c.insert_after_count c.tool_call_id known h a

  -- If the cards of the history stand within its messages, every card of the reconciled record stands
  -- within the record's, wherever the record's own cards stood.
  pub reconciled-IsPlaced :
      (r : SessionRecord crates) (messages : List TranscriptMessage) (tool_cards : Cards)
      → All (λ c. place crates c ≤ length messages) tool_cards
      → IsPlaced crates (reconciled crates r messages tool_cards)
  unfolding reconciled all_cards
  reconciled-IsPlaced r messages tool_cards fits =
      let start : Retained crates = record {
        boundary = 0;
        retained = 0;
        messages = messages;
        cards = tool_cards;
        live = r.live_message_ids;
      } in
      let s = retain_all crates (consumed_ids messages) r.messages start in
      let n = length s.messages in
      let size = length r.messages in
      let positions = positions_from 0 s.messages [] in
      let boundaries = 0 ∷ boundaries_from positions 0 r.messages in
      let cards = r.tool_cards ++ r.active_tool_calls in
      let bounds : All (λ b. b ≤ n) boundaries = (
        omega arith,
        boundaries_bound n 0 positions r.messages
            (positions-Bounded n 0 s.messages [] (omega arith) tt) (omega arith),
      ) in
      let known = known_boundaries crates boundaries size cards [] in
      let known_bounded = known-Bounded n size boundaries cards [] bounds tt in
      rw (length-map (keep_new crates s.live) s.messages) (
        All-append (Fits n) (map (place_known crates known) s.cards)
          (map (place_active crates boundaries size) r.active_tool_calls)
          (All-map (Fits n) (place_known crates known) s.cards (
            All-weaken (Fits n) _ (λ c h. place_known-Fits n known c known_bounded h) s.cards
              (retain_all-Fits (consumed_ids messages) r.messages start fits)))
          (All-map (Fits n) (place_active crates boundaries size) r.active_tool_calls
            (All-always _ (λ c. placed_active n boundaries size c bounds) r.active_tool_calls)))
