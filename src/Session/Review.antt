-- ===== src/Session/Review.antt =====
-- src/session.rs: the card of findings and verdicts that is derived from a reviewer's `task` card.
use Prim.Native.Nat.{compare as compare_ℕ, Ordering}
use Prim.Native.String.{compare}
use mathlib.Core.List.{filter_map}
use fura.Base.{
  ℕ, ◌^◌, Bool, true, false, not, ◌&&◌, ◌||◌, Option, none, some, List, [], ◌∷◌, ◌++◌, String,
  str_eq as ◌==◌, if◌then◌else◌, ltb,
}
use fura.Base.Options.{or_else, ◌>>=◌, unwrap_or, keep_if}
use fura.Session.Crates.{Crates}
use fura.Session.Text.{trim, is_empty}
use fura.Session.Types.{
  ReviewPriority, p0, p1, p2, p3, ReviewCorrectness, correct, incorrect, ToolCard, ReviewFinding,
  ReviewVerdict, ReviewCard,
}
use fura.Session.Hash.{refresh_review}

-- `ReviewPriority::from_label`
unfoldable pub from_label : String → Option ReviewPriority
from_label value =
    if value == "P0"
    then some p0
    else if value == "P1"
    then some p1
    else if value == "P2"
    then some p2
    else if value == "P3"
    then some p3
    else none

unfoldable pub correctness : String → Option ReviewCorrectness
correctness value =
    if value == "correct"
    then some correct
    else if value == "incorrect"
    then some incorrect
    else none

-- The derived order of the priorities.
unfoldable pub rank : ReviewPriority → ℕ
rank p0 = 0
rank p1 = 1
rank p2 = 2
rank p3 = 3

-- `Ordering::then_with`
unfoldable pub then_with : Ordering → Ordering → Ordering
then_with Ordering.eq o = o
then_with Ordering.lt o = Ordering.lt
then_with Ordering.gt o = Ordering.gt

unfoldable pub nonempty {ℓ} : {A : Type ℓ} → List A → Bool
nonempty [] = false
nonempty (x ∷ xs) = true

-- `sort_by`: stable, by a comparison.
module _ {ℓ} {A : Type ℓ} (order : A → A → Ordering) where
  unfoldable pub insert_by : A → List A → List A
  insert_by x [] = x ∷ []
  insert_by x (y ∷ ys) =
      let rest = insert_by x ys in elim (order x y) [ Ordering.gt ↦ y ∷ rest | _ ↦ x ∷ y ∷ ys ]

  unfoldable pub sort_by : List A → List A
  unfolding insert_by
  sort_by [] = []
  sort_by (x ∷ xs) = insert_by x (sort_by xs)

module _ (crates : Crates) where
  open crates use {Value, get, as_str, as_array, as_u64, as_f64, float_zero}

  -- Numbers of a `u32`.
  unfoldable pub json_u32 : Option Value → Option ℕ
  json_u32 value = do value ← value; n ← as_u64 value; if ltb n (2 ^ 32) then some n else none

  unfoldable pub parse_review_finding : Value → Option String → Option (ReviewFinding crates)
  unfolding from_label trim json_u32 is_empty
  parse_review_finding value agent = do
    label ← (get "priority" value >>= as_str)
    priority ← from_label label
    title ← (get "title" value >>= as_str)
    let title = trim title
    file_path ← (get "file_path" value >>= as_str)
    line_start ← json_u32 (get "line_start" value)
    let line_end = unwrap_or line_start (json_u32 (get "line_end" value))
    if is_empty title || is_empty file_path
        then none
        else some (record {
          title = title;
          body = unwrap_or "" (get "body" value >>= as_str);
          priority = priority;
          confidence = unwrap_or float_zero (get "confidence" value >>= as_f64);
          file_path = file_path;
          line_start = line_start;
          line_end = line_end;
          agent = agent;
        })

  unfoldable pub parse_review_verdict : Value → Option String → Option (ReviewVerdict crates)
  unfolding correctness trim
  parse_review_verdict value agent = do
    label ← (get "overall_correctness" value >>= as_str)
    overall_correctness ← correctness label
    some (record {
      agent = agent;
      overall_correctness = overall_correctness;
      explanation = trim (unwrap_or "" (get "explanation" value >>= as_str));
      confidence = unwrap_or float_zero (get "confidence" value >>= as_f64);
    })

  unfoldable pub agent_of : Value → Option String
  agent_of entry = get "agent" entry >>= as_str

  -- The array under a key of an entry's extracted tool data; none stands for an empty one.
  unfoldable pub extracted : String → Value → List Value
  extracted key entry =
      unwrap_or [] (get "extractedToolData" entry >>= λ data'. get key data' >>= as_array)

  unfoldable pub entry_findings : Value → List (ReviewFinding crates)
  unfolding parse_review_finding agent_of extracted
  entry_findings entry =
      filter_map (λ (finding : Value). parse_review_finding finding (agent_of entry))
        (extracted "report_finding" entry)

  unfoldable pub entry_verdicts : Value → List (ReviewVerdict crates)
  unfolding parse_review_verdict agent_of extracted
  entry_verdicts entry =
      filter_map
        (λ (item : Value). parse_review_verdict (unwrap_or item (get "data" item)) (agent_of entry))
        (extracted "yield" entry)

  -- The loop over the reviewers' entries.
  unfoldable pub collect :
      List (ReviewFinding crates)
      → List (ReviewVerdict crates)
      → List Value
      → List (ReviewFinding crates) × List (ReviewVerdict crates)
  unfolding entry_findings entry_verdicts
  collect findings verdicts [] = (findings, verdicts)
  collect findings verdicts (entry ∷ entries) =
      collect (findings ++ entry_findings entry) (verdicts ++ entry_verdicts entry) entries

  unfoldable pub compare_findings : ReviewFinding crates → ReviewFinding crates → Ordering
  unfolding rank then_with
  compare_findings a b =
      then_with
        (then_with (compare_ℕ (rank a.priority) (rank b.priority))
          (compare a.file_path b.file_path))
        (compare_ℕ a.line_start b.line_start)

  -- The live snapshot while the card is active, the final results afterwards.
  unfoldable pub review_entries : Bool → Value → Option (List Value)
  unfolding nonempty
  review_entries is_active details =
      let progress = keep_if nonempty (get "progress" details >>= as_array) in
      let results = keep_if nonempty (get "results" details >>= as_array) in
      if is_active then or_else progress results else or_else results progress

  unfoldable pub review_of :
      ToolCard crates
      → List (ReviewFinding crates) × List (ReviewVerdict crates)
      → Option (ReviewCard crates)
  unfolding nonempty sort_by compare_findings refresh_review
  review_of card (findings, verdicts) =
      if not (nonempty findings) && not (nonempty verdicts)
      then none
      else some (
          refresh_review crates (record {
            tool_call_id = card.tool_call_id;
            timestamp = card.timestamp;
            is_active = card.is_active;
            verdicts = verdicts;
            findings = sort_by compare_findings findings;
            render_hash = "";
          }))

  unfoldable pub review_card_from_tool : ToolCard crates → Option (ReviewCard crates)
  unfolding review_entries collect review_of
  review_card_from_tool card = if not (card.tool_name == "task") then none else do
    source ← or_else card.partial_result card.result
    details ← get "details" source
    entries ← review_entries card.is_active details
    review_of card (collect [] [] entries)
