-- ===== src/Session/Replace/Content.antt =====
-- src/rpc.rs: what messages a reconciled record holds.
use mathlib.Core.List.{append_assoc, append-nil}
use fura.Base.{
  ℕ, zero, suc, ◌+◌, ◌≤◌, ◌≡◌, refl, ap, sym, ◌∙◌, Bool, true, false, not, List, [], ◌∷◌, ◌++◌,
  String, arith, map, min, length, drop, All, ltb, ltb→lt, Bool-cases, Option-cases, inl, inr,
}
use fura.Base.Options.{is_some, some_and}
use fura.Base.Sort.{filter}
use Prim.Native.String.{◌++◌ as append_text}
use fura.Base.Positions.{contains, insert_text}
use fura.Session.Crates.{Crates}
use fura.Session.Text.{strip_prefix}
use fura.Session.Types.{TranscriptMessage, ToolCard}
use fura.Session.Hash.{refresh_message}
use fura.Session.Record.{SessionRecord}
use fura.Session.Replace.Placed.{length-insert_idx}
use fura.Session.Replace.{
  insert_idx, consumed_ids, Retained, retain_message, retain_all, keep_new, reconciled,
}

-- An optimistic prompt, and one whose submission is not among `consumed`.
abbrev pub optimistic : TranscriptMessage → Bool
optimistic m = is_some (strip_prefix "__pending_prompt:" m.id)

abbrev pub retained : List String → TranscriptMessage → Bool
retained consumed m =
    some_and (λ id. not (contains consumed id)) (strip_prefix "__pending_prompt:" m.id)

abbrev pub ids : List TranscriptMessage → List String
ids ms = map (λ (m : TranscriptMessage). m.id) ms

-- No optimistic prompt.
abbrev pub AllPlain : List TranscriptMessage → Type 0
AllPlain ms = All (λ m. optimistic m ≡ false) ms

plain-filter : (ms : List TranscriptMessage) → AllPlain ms → filter optimistic ms ≡ []
unfolding filter
plain-filter [] a = refl
plain-filter (m ∷ ms) a = rw (a.0, plain-filter ms a.1)

plain-rest : (ms : List TranscriptMessage) → AllPlain ms → filter (λ m. not (optimistic m)) ms ≡ ms
unfolding filter
plain-rest [] a = refl
plain-rest (m ∷ ms) a = rw (a.0, plain-rest ms a.1)

plain-drop :
    (ms : List TranscriptMessage) (n : ℕ) → AllPlain (drop n ms) → AllPlain (drop (suc n) ms)
plain-drop [] zero a = tt
plain-drop [] (suc n) a = tt
plain-drop (m ∷ ms) zero a = a.1
plain-drop (m ∷ ms) (suc n) a = plain-drop ms n a

module _ (m : TranscriptMessage) (own : optimistic m ≡ true) where
  insert-optimistic :
      (ms : List TranscriptMessage) (i : ℕ)
      → i ≤ length ms
      → AllPlain (drop i ms)
      → filter optimistic (insert_idx ms i m) ≡ filter optimistic ms ++ m ∷ []
  unfolding insert_idx filter
  insert-optimistic [] zero h a = rw own
  insert-optimistic (x ∷ ms) zero h a = rw (own, a.0, plain-filter ms a.1)
  insert-optimistic [] (suc i) h a = absurd (omega arith)
  insert-optimistic (x ∷ ms) (suc i) h a = elim (Bool-cases (optimistic x)) [
    | inl e ↦ rw (e, insert-optimistic ms i (omega arith) a)
    | inr e ↦ rw (e, insert-optimistic ms i (omega arith) a)
  ]

  insert-rest :
      (ms : List TranscriptMessage) (i : ℕ)
      → filter (λ x. not (optimistic x)) (insert_idx ms i m) ≡ filter (λ x. not (optimistic x)) ms
  unfolding insert_idx filter
  insert-rest ms zero = rw own
  insert-rest [] (suc i) = rw own
  insert-rest (x ∷ ms) (suc i) = rw (insert-rest ms i)

drop-insert :
    (m : TranscriptMessage) (ms : List TranscriptMessage) (i : ℕ)
    → i ≤ length ms
    → drop (suc i) (insert_idx ms i m) ≡ drop i ms
unfolding insert_idx
drop-insert m ms zero h = refl
drop-insert m [] (suc i) h = absurd (omega arith)
drop-insert m (x ∷ ms) (suc i) h = drop-insert m ms i (omega arith)

module _ (crates : Crates) where
  abbrev at : Retained crates → ℕ
  at s = min (s.boundary + s.retained) (length s.messages)

  -- The prompts that were put back stand before the place of the next.
  abbrev Ahead : Retained crates → Type 0
  Ahead s = AllPlain (drop (at s) s.messages)

  step_none-Ahead : (s : Retained crates) → Ahead s → Ahead (record s { boundary = s.boundary + 1 })
  step_none-Ahead s a = elim (Bool-cases (ltb (s.boundary + s.retained) (length s.messages))) [
    | inl e ↦
        let lt = ltb→lt _ _ e in
        let next : min (s.boundary + 1 + s.retained) (length s.messages) ≡ suc (at s) =
          omega arith in
        rw next (plain-drop s.messages (at s) a)
    | inr e ↦
        let same : min (s.boundary + 1 + s.retained) (length s.messages) ≡ at s = ground arith in
        rw same a
  ]

  step_retain-Ahead :
      (m : TranscriptMessage) (s : Retained crates) → Ahead s → Ahead (retain_message crates m s)
  unfolding retain_message
  step_retain-Ahead m s a =
      let next : min (s.boundary + (s.retained + 1)) (length (insert_idx s.messages (at s) m))
          ≡ suc (at s) =
        omega (arith, length-insert_idx s.messages (at s) m) in
      rw (next, drop-insert m s.messages (at s) (omega arith)) a

  id-keep_new : (live : List String) (m : TranscriptMessage) → (keep_new crates live m).id ≡ m.id
  unfolding keep_new refresh_message
  id-keep_new live m = elim (Bool-cases (contains live m.id)) [ inl e ↦ rw e | inr e ↦ rw e ]

  retained_here :
      (m : TranscriptMessage) (s : Retained crates)
      → optimistic m ≡ true
      → Ahead s
      → (filter (λ x. not (optimistic x)) (retain_message crates m s).messages
          ≡ filter (λ x. not (optimistic x)) s.messages)
        × (filter optimistic (retain_message crates m s).messages
            ≡ filter optimistic s.messages ++ m ∷ [])
  unfolding retain_message
  retained_here m s own a = (
    insert-rest m own s.messages (at s),
    insert-optimistic m own s.messages (at s) (omega arith) a,
  )

  ids-keep_new :
      (live : List String) (p : TranscriptMessage → Bool) (ms : List TranscriptMessage)
      → ((m : TranscriptMessage) → p (keep_new crates live m) ≡ p m)
      → ids (filter p (map (keep_new crates live) ms)) ≡ ids (filter p ms)
  unfolding filter
  ids-keep_new live p [] same = refl
  ids-keep_new live p (m ∷ ms) same = elim (Bool-cases (p m)) [
    | inl e ↦ rw (same m, e, ids-keep_new live p ms same, id-keep_new live m)
    | inr e ↦ rw (same m, e, ids-keep_new live p ms same)
  ]

  -- The loop keeps the history, and puts the prompts back in their order.
  retain_all_lem :
      (consumed : List String) (ms : List TranscriptMessage) (s : Retained crates)
      → Ahead s
      → (filter (λ m. not (optimistic m)) (retain_all crates consumed ms s).messages
          ≡ filter (λ m. not (optimistic m)) s.messages)
        × (filter optimistic (retain_all crates consumed ms s).messages
            ≡ filter optimistic s.messages ++ filter (retained consumed) ms)
  unfolding retain_all filter
  retain_all_lem consumed [] s a = (refl, sym (append-nil (filter optimistic s.messages)))
  retain_all_lem consumed (m ∷ ms) s a =
      elim (Option-cases (strip_prefix "__pending_prompt:" m.id)) [
        | inl plain ↦
            rw (plain, retain_all)
              (retain_all_lem consumed ms (record s { boundary = s.boundary + 1 })
                (step_none-Ahead s a))
        | inr (id, own) ↦ elim (Bool-cases (contains consumed id)) [
          | inl known ↦
              rw (own, retain_all, known)
                (retain_all_lem consumed ms
                  (record s { live = insert_text (append_text "prompt:" id) s.live }) a)
          | inr fresh ↦
              let (plain, back) =
                retain_all_lem consumed ms (retain_message crates m s) (step_retain-Ahead m s a) in
              let prompt : optimistic m ≡ true = rw own in
              let (kept, put) = retained_here m s prompt a in
              rw (own, retain_all, fresh)
                (
                  plain ∙ kept,
                  back
                      ∙ ap (λ ps. ps ++ filter (retained consumed) ms) put
                      ∙ append_assoc (filter optimistic s.messages) (m ∷ [])
                          (filter (retained consumed) ms),
                )
        ]
      ]

  -- If the history holds no optimistic prompt, the reconciled record holds, by their ids, the history
  -- in its order, and with it exactly those of the record's optimistic prompts whose submission the
  -- history does not hold, in their order.
  pub reconciled_lem :
      (r : SessionRecord crates) (messages : List TranscriptMessage)
      (tool_cards : List (ToolCard crates))
      → AllPlain messages
      → let r' = reconciled crates r messages tool_cards in
        (ids (filter (λ m. not (optimistic m)) r'.messages) ≡ ids messages)
        × (ids (filter optimistic r'.messages)
            ≡ ids (filter (retained (consumed_ids messages)) r.messages))
  unfolding reconciled
  reconciled_lem r messages tool_cards plain =
      let start : Retained crates = record {
        boundary = 0;
        retained = 0;
        messages = messages;
        cards = tool_cards;
        live = r.live_message_ids;
      } in
      let s = retain_all crates (consumed_ids messages) r.messages start in
      let first : min 0 (length messages) ≡ 0 = omega arith in
      let ahead : Ahead start = rw first plain in
      let (rest, prompts) = retain_all_lem (consumed_ids messages) r.messages start ahead in
      let optimistic_new = λ (m : TranscriptMessage).
        ap (λ id. is_some (strip_prefix "__pending_prompt:" id)) (id-keep_new s.live m) in
      (
        ids-keep_new s.live (λ m. not (optimistic m)) s.messages (λ m. ap not (optimistic_new m))
            ∙ ap ids (rest ∙ plain-rest messages plain),
        ids-keep_new s.live optimistic s.messages optimistic_new
            ∙ ap ids (
                prompts
                ∙ ap (λ ms. ms ++ filter (retained (consumed_ids messages)) r.messages)
                    (plain-filter messages plain)),
      )
