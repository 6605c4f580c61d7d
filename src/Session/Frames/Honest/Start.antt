-- ===== src/Session/Frames/Honest/Start.antt =====
-- src/rpc.rs: `ToolExecutionStart`, which says that only the last entry is new. That is so unless a
-- message is still streaming: the new card then stands before it.
use fura.Base.{
  ℕ, suc, ◌+◌, ◌-◌, ◌<◌, ◌≤◌, ◌≡◌, ◌≢◌, refl, ap, sym, ◌∙◌, true, false, not, Option, none, some,
  List, [], ◌∷◌, ◌++◌, String, str_eq as ◌==◌, arith, length, take, drop, All, Bool-cases, inl, inr,
  length-append, All-append, take-append_le, take_length, append-last,
}
use native.Mathlib.Numerals.{unary_clauses}
use mathlib.Core.Path.{ap₂}
use mathlib.Core.List.{append_assoc, append-nil}
use fura.Base.Sort.{sort_by_key, with_key, above, with_key-append, with_key_self, with_key_other}
use fura.Recency.Fact.{Timestamp}
use fura.Events.Client.Replication.{Honest}
use fura.Session.Crates.{Crates}
use fura.Session.Types.{TranscriptMessage, ToolCard, TranscriptEntry, message, tool}
use fura.Session.Hash.{new_card}
use fura.Session.Review.{review_card_from_tool}
use fura.Session.Record.{SessionRecord}
use fura.Session.Transcript.{transcript, projection, all_cards, streaming_entry}
use fura.Session.Transcript.Layout.{
  place, entries_of, entries_of-append, after, layout, transcript-layout,
}
use fura.Session.Frames.Tool.{tool_execution_start}

module _ (crates : Crates) where
  open crates use {Value}

  abbrev Record : Type 0
  Record = SessionRecord crates

  abbrev Entries : Type 0
  Entries = List (TranscriptEntry crates)

  abbrev Cards : Type 0
  Cards = List (ToolCard crates)

  -- Every card stands after as many messages as there are, or fewer.
  abbrev pub IsPlaced : Record → Type 0
  IsPlaced r = All (λ c. place crates c ≤ length r.messages) (all_cards crates r)

  above_none :
      (n : ℕ) (cs : Cards) → All (λ c. place crates c ≤ n) cs → above (place crates) n cs ≡ []
  unfolding above
  above_none n [] a = refl
  above_none n (c ∷ cs) a = ground (arith, a.0, above_none n cs a.1)

  module _ (card : ToolCard crates) (cs : Cards)
      (placed : All (λ c. place crates c ≤ place crates card) cs) where
    abbrev here : ℕ → Cards → Entries
    here n cards = entries_of crates (with_key (place crates) n cards)

    abbrev grown : Cards
    grown = cs ++ card ∷ []

    here_before : (n : ℕ) → n < place crates card → here n grown ≡ here n cs
    unfolding with_key
    here_before n lt = rw (
      with_key-append (place crates) n cs (card ∷ []),
      with_key_other (place crates) n card [] (omega arith),
      append-nil (with_key (place crates) n cs),
    )

    here_at :
        here (place crates card) grown
        ≡ here (place crates card) cs ++ entries_of crates (card ∷ [])
    unfolding with_key
    here_at =
        rw
          (
            with_key-append (place crates) (place crates card) cs (card ∷ []),
            with_key_self (place crates) card [],
          )
          (entries_of-append crates (with_key (place crates) (place crates card) cs) (card ∷ []))

    nothing_after :
        (ds : Cards)
        → All (λ c. place crates c ≤ place crates card) ds
        → after crates (place crates card) [] ds ≡ []
    unfolding sort_by_key
    nothing_after ds a = rw (above_none (place crates card) ds a)

    abbrev laid : ℕ → List TranscriptMessage → Cards → Entries
    laid n ms cards = here n cards ++ after crates n ms cards

    laid-grown :
        (n : ℕ) (ms : List TranscriptMessage)
        → n + length ms ≡ place crates card
        → laid n ms grown ≡ laid n ms cs ++ entries_of crates (card ∷ [])
    laid-grown n [] e =
        let last : n ≡ place crates card = omega (arith, e) in
        let all_placed =
          All-append (λ c. place crates c ≤ place crates card) cs (card ∷ []) placed
            (omega arith, tt) in
        rw
          (
            last,
            nothing_after grown all_placed,
            nothing_after cs placed,
            append-nil (here (place crates card) grown),
            append-nil (here (place crates card) cs),
          )
          here_at
    laid-grown n (m ∷ ms) e =
        rw (here_before n (omega arith), laid-grown (n + 1) ms (omega arith))
          (sym (
            append_assoc (here n cs) (message m ∷ laid (n + 1) ms cs)
              (entries_of crates (card ∷ []))))

    pub layout-grown :
        (ms : List TranscriptMessage)
        → length ms ≡ place crates card
        → layout crates ms grown ≡ layout crates ms cs ++ entries_of crates (card ∷ [])
    layout-grown ms e = laid-grown 0 ms (omega (arith, e))

  started : String → String → Value → Option String → Timestamp → Record → ToolCard crates
  started id name args intent time r =
      new_card crates id (some time) name intent args true false none none (length r.messages)

  -- A card that has just started has no review.
  started_alone :
      (id name : String) (args : Value) (intent : Option String) (time : Timestamp) (r : Record)
      → entries_of crates (started id name args intent time r ∷ [])
        ≡ tool (started id name args intent time r) ∷ []
  unfolding started new_card review_card_from_tool
  started_alone id name args intent time r = elim (Bool-cases (not (name == "task"))) [
    | inl e ↦ rw e
    | inr e ↦ rw e
  ]

  start-transcript :
      (id name : String) (args : Value) (intent : Option String) (time : Timestamp) (r : Record)
      → IsPlaced r
      → transcript crates (tool_execution_start crates id name args intent time r).0
        ≡ (layout crates r.messages (all_cards crates r)
            ++ tool (started id name args intent time r) ∷ [])
          ++ streaming_entry crates r.streaming_message
  unfolding tool_execution_start started all_cards new_card
  start-transcript id name args intent time r placed =
      let card = started id name args intent time r in
      let r' = (tool_execution_start crates id name args intent time r).0 in
      rw (transcript-layout crates r') (
        ap (λ es. es ++ streaming_entry crates r.streaming_message)
          (ap (layout crates r.messages)
              (sym (append_assoc r.tool_cards r.active_tool_calls (card ∷ [])))
            ∙ layout-grown card (all_cards crates r) placed r.messages refl
            ∙ ap (λ es. layout crates r.messages (all_cards crates r) ++ es)
                (started_alone id name args intent time r)))

  take_all_but_last :
      (es : Entries) (x : TranscriptEntry crates)
      → take (length (es ++ x ∷ []) - 1) (es ++ x ∷ []) ≡ take (length (es ++ x ∷ []) - 1) es
  take_all_but_last es x =
      take-append_le _ es (x ∷ []) [] (omega (arith, length-append es (x ∷ [])))
      ∙ ap (take (length (es ++ x ∷ []) - 1)) (append-nil es)

  -- While no message streams, a tool that starts adds the last entry and changes none.
  pub tool_execution_start-Honest :
      (id name : String) (args : Value) (intent : Option String) (time : Timestamp) (r : Record)
      → IsPlaced r
      → r.streaming_message ≡ none
      → Honest (projection crates) r (tool_execution_start crates id name args intent time r)
  unfolding tool_execution_start projection
  tool_execution_start-Honest id name args intent time r placed quiet =
      let base = layout crates r.messages (all_cards crates r) in
      let card = started id name args intent time r in
      let shown =
        start-transcript id name args intent time r placed
        ∙ ap (λ s. (base ++ tool card ∷ []) ++ streaming_entry crates s) quiet
        ∙ append-nil (base ++ tool card ∷ []) in
      let held =
        transcript-layout crates r
        ∙ ap (λ s. base ++ streaming_entry crates s) quiet
        ∙ append-nil base in
      rw (shown, held) (take_all_but_last base (tool card))

  before_last_differs :
      (es : Entries) (x y : TranscriptEntry crates)
      → x ≢ y
      → take (length ((es ++ x ∷ []) ++ y ∷ []) - 1) ((es ++ x ∷ []) ++ y ∷ [])
        ≢ take (length ((es ++ x ∷ []) ++ y ∷ []) - 1) (es ++ y ∷ [])
  before_last_differs es x y ne e =
      let sizes : length ((es ++ x ∷ []) ++ y ∷ []) - 1 ≡ length (es ++ x ∷ []) =
        omega (arith, length-append (es ++ x ∷ []) (y ∷ [])) in
      let same_size : length (es ++ x ∷ []) ≡ length (es ++ y ∷ []) =
        omega (arith, length-append es (x ∷ []), length-append es (y ∷ [])) in
      let left =
        take_all_but_last (es ++ x ∷ []) y
        ∙ ap (λ n. take n (es ++ x ∷ [])) sizes
        ∙ take_length (es ++ x ∷ []) in
      let right =
        ap (λ n. take n (es ++ y ∷ [])) (sizes ∙ same_size) ∙ take_length (es ++ y ∷ []) in
      ne (append-last es x y (sym left ∙ e ∙ right))

  start_dishonest :
      (id name : String) (args : Value) (intent : Option String) (time : Timestamp) (r : Record)
      (streaming : TranscriptMessage)
      → IsPlaced r
      → r.streaming_message ≡ some streaming
      → ¬ Honest (projection crates) r (tool_execution_start crates id name args intent time r)
  unfolding tool_execution_start projection
  start_dishonest id name args intent time r streaming placed live honest =
      let base = layout crates r.messages (all_cards crates r) in
      let card = started id name args intent time r in
      let shown =
        start-transcript id name args intent time r placed
        ∙ ap (λ s. (base ++ tool card ∷ []) ++ streaming_entry crates s) live in
      let held = transcript-layout crates r ∙ ap (λ s. base ++ streaming_entry crates s) live in
      before_last_differs base (tool card) (message streaming) (λ e. cc)
        (rw (shown, held) at honest)

  start_index :
      (id name : String) (args : Value) (intent : Option String) (time : Timestamp) (r : Record)
      (es : Entries) (card : ToolCard crates) (streaming : TranscriptMessage)
      → transcript crates (tool_execution_start crates id name args intent time r).0
        ≡ es ++ tool card ∷ message streaming ∷ []
      → (tool_execution_start crates id name args intent time r).1 ≡ some (length es + 1)
  unfolding tool_execution_start
  start_index id name args intent time r es card streaming e =
      ap (λ ts. some (length ts - 1)) e
      ∙ ap some (omega (arith, length-append es (tool card ∷ message streaming ∷ [])))

  -- One entry before the last is new, and only the last is sent.
  spliced_twice :
      (es : Entries) (x y : TranscriptEntry crates)
      → take (length es + 1) (es ++ y ∷ []) ++ drop (length es + 1) (es ++ x ∷ y ∷ [])
        ≡ es ++ y ∷ y ∷ []
  spliced_twice [] x y = refl
  spliced_twice (e ∷ es) x y =
      let rest : take (suc (length es)) (es ++ y ∷ []) ++ drop (suc (length es)) (es ++ x ∷ y ∷ [])
          ≡ es ++ y ∷ y ∷ [] =
        ap (λ n. take n (es ++ y ∷ []) ++ drop n (es ++ x ∷ y ∷ [])) {x = suc (length es)}
          (omega arith)
        ∙ spliced_twice es x y in
      simp unary_clauses (ap (◌∷◌ e) rest)

  -- If a message is streaming when a tool starts, in a record whose cards stand within its messages,
  -- then the card is put before the streaming message, at the place where the transcripts begin to
  -- differ, and the index that is reported is one higher: the mutation is not honest, and the old
  -- entries before the index, followed by the new ones from it on, lack the card and have the
  -- streaming message twice.
  pub tool_execution_start_misses :
      (id name : String) (args : Value) (intent : Option String) (time : Timestamp) (r : Record)
      (streaming : TranscriptMessage)
      → IsPlaced r
      → r.streaming_message ≡ some streaming
      → let out = tool_execution_start crates id name args intent time r in
        let old = transcript crates r in
        let new = transcript crates out.0 in
        (es : Entries) × (card : ToolCard crates) × (old ≡ es ++ message streaming ∷ [])
        × (new ≡ es ++ tool card ∷ message streaming ∷ [])
        × (out.1 ≡ some (length es + 1))
        × (take (length es + 1) old ++ drop (length es + 1) new
            ≡ es ++ message streaming ∷ message streaming ∷ [])
        × ¬ Honest (projection crates) r out
  tool_execution_start_misses id name args intent time r streaming placed live =
      let es = layout crates r.messages (all_cards crates r) in
      let card = started id name args intent time r in
      let old_is = transcript-layout crates r ∙ ap (λ s. es ++ streaming_entry crates s) live in
      let new_is =
        start-transcript id name args intent time r placed
        ∙ ap (λ s. (es ++ tool card ∷ []) ++ streaming_entry crates s) live
        ∙ append_assoc es (tool card ∷ []) (message streaming ∷ []) in
      (
        es,
        card,
        old_is,
        new_is,
        start_index id name args intent time r es card streaming new_is,
        ap₂ (λ a b. take (length es + 1) a ++ drop (length es + 1) b) old_is new_is
            ∙ spliced_twice es (tool card) (message streaming),
        start_dishonest id name args intent time r streaming placed live,
      )
