-- ===== src/Session/Frames/Honest/Boundary.antt =====
-- src/rpc.rs: two transcripts up to the message that a `MessageEnd` changed.
use fura.Base.{
  Option, none, some, All-append, ℕ, zero, suc, ◌+◌, ◌<◌, ◌≤◌, ◌≡◌, refl, ap, true, false, List, [],
  ◌∷◌, ◌++◌, arith, All, length, take, ◌==◌ as nat_eq,
}
use mathlib.Core.List.{append_assoc}
use fura.Base.Sort.{with_key}
use fura.Session.Crates.{Crates}
use fura.Session.Types.{TranscriptMessage, ToolCard, ReviewCard, TranscriptEntry, message}
use fura.Session.Review.{review_card_from_tool}
use fura.Session.Transcript.{review_entry}
use fura.Session.Transcript.Layout.{place, entries_of, after, layout}
use fura.Session.Frames.Message.{is_message, entries_before}

module _ (crates : Crates) where
  abbrev Entries : Type 0
  Entries = List (TranscriptEntry crates)

  abbrev Cards : Type 0
  Cards = List (ToolCard crates)

  review-All :
      (o : Option (ReviewCard crates))
      → All (λ e. is_message crates e ≡ false) (review_entry crates o)
  unfolding is_message
  review-All none = tt
  review-All (some card) = (refl, tt)

  entries-All : (cs : Cards) → All (λ e. is_message crates e ≡ false) (entries_of crates cs)
  unfolding is_message
  entries-All [] = tt
  entries-All (c ∷ cs) = (
    refl,
    All-append (λ e. is_message crates e ≡ false)
        (review_entry crates (review_card_from_tool crates c)) (entries_of crates cs)
        (review-All (review_card_from_tool crates c)) (entries-All cs),
  )

  -- After `n` messages, the lists agree up to the entry that follows the `k`-th message.
  abbrev Agrees : ℕ → ℕ → Entries → Entries → Type 0
  Agrees k n new old =
      take (entries_before crates k n new) new ≡ take (entries_before crates k n new) old

  Agrees-at : (k n : ℕ) (new old : Entries) → n ≡ k → Agrees k n new old
  unfolding entries_before
  Agrees-at k n [] old e = refl
  Agrees-at k n (entry ∷ new) old e = let same : nat_eq n k ≡ true = ground arith in rw same

  Agrees-append :
      (k n : ℕ) (es new old : Entries)
      → n < k
      → All (λ e. is_message crates e ≡ false) es
      → Agrees k n new old
      → Agrees k n (es ++ new) (es ++ old)
  unfolding entries_before
  Agrees-append k n [] new old lt a h = h
  Agrees-append k n (e ∷ es) new old lt a h =
      let other : nat_eq n k ≡ false = ground arith in
      rw (other, a.0) (ap (λ rest. e ∷ rest) (Agrees-append k n es new old lt a.1 h))

  Agrees-message :
      (k n : ℕ) (m m' : TranscriptMessage) (new old : Entries)
      → n < k
      → m' ≡ m
      → Agrees k (n + 1) new old
      → Agrees k n (message m' ∷ new) (message m ∷ old)
  unfolding entries_before is_message
  Agrees-message k n m m' new old lt same h =
      let other : nat_eq n k ≡ false = ground arith in
      rw (other, same) (ap (λ es. message m ∷ es) h)

  module _ (k : ℕ) (cs cs' : Cards) (tail tail' : Entries)
      (keeps : (j : ℕ) → j < k → with_key (place crates) j cs' ≡ with_key (place crates) j cs) where
    abbrev here : ℕ → Cards → Entries
    here n cards = entries_of crates (with_key (place crates) n cards)

    here-Agrees :
        (d n : ℕ) (new old : Entries)
        → n + d ≡ k
        → Agrees k n new old
        → Agrees k n (here n cs' ++ new) (here n cs ++ old)
    here-Agrees zero n new old e h = Agrees-at k n _ _ (omega arith)
    here-Agrees (suc d) n new old e h = rw (keeps n (omega arith)) (
        Agrees-append k n (here n cs) new old (omega arith)
          (entries-All (with_key (place crates) n cs)) h)

    after-Agrees :
        (d n : ℕ) (ms ms' : List TranscriptMessage)
        → n + d ≡ k
        → d ≤ length ms
        → d ≤ length ms'
        → take d ms' ≡ take d ms
        → Agrees k n (after crates n ms' cs' ++ tail') (after crates n ms cs ++ tail)
    after-Agrees zero n ms ms' e le le' same = Agrees-at k n _ _ (omega arith)
    after-Agrees (suc d) n [] ms' e le le' same = absurd (omega arith)
    after-Agrees (suc d) n (m ∷ ms) [] e le le' same = absurd (omega arith)
    after-Agrees (suc d) n (m ∷ ms) (m' ∷ ms') e le le' same =
        let here' = here (n + 1) cs' in
        let later = after crates (n + 1) ms cs in
        let later' = after crates (n + 1) ms' cs' in
        rw (append_assoc here' later' tail', append_assoc (here (n + 1) cs) later tail)
          (Agrees-message k n m m' (here' ++ (later' ++ tail')) (here (n + 1) cs ++ (later ++ tail))
            (omega arith) (cc)
            (here-Agrees d (n + 1) (later' ++ tail') (later ++ tail) (omega arith)
              (after-Agrees d (n + 1) ms ms' (omega arith) (omega arith) (omega arith) (cc))))

    pub layout-Agrees :
        (ms ms' : List TranscriptMessage)
        → k ≤ length ms
        → k ≤ length ms'
        → take k ms' ≡ take k ms
        → Agrees k 0 (layout crates ms' cs' ++ tail') (layout crates ms cs ++ tail)
    layout-Agrees ms ms' le le' same =
        rw
          (
            append_assoc (here 0 cs') (after crates 0 ms' cs') tail',
            append_assoc (here 0 cs) (after crates 0 ms cs) tail,
          )
          (here-Agrees k 0 (after crates 0 ms' cs' ++ tail') (after crates 0 ms cs ++ tail)
            (omega arith) (after-Agrees k 0 ms ms' (omega arith) le le' same))
