-- ===== src/Examples/Recency.antt =====
-- A journal with an abandoned branch.
use fura.Recency.Line.Defs.{read_json_line, one_line, first_line, after_line}
use fura.Recency.Line.Whole.{read_json_line_lem}
use fura.Recency.Fact.{text}
use fura.Recency.Visit.Defs.{
  Key, role_key, content_key, timestamp_key, visit_map, message_of, conversation_message_timestamp,
}
use fura.Recency.Visit.Agreement.{activity-visit_map}
use fura.Base.{arith, length, ◌++◌, ℕ, ◌≡◌, refl, true, none, some, List, [], ◌∷◌, String}
use fura.Base.Table.{lookup, insert}
use fura.Recency.Fact.{JournalFact, Parent, absent, null, of_id, activity}
use fura.Recency.Journal.{empty, scan, push, is_leaf}
use fura.Recency.Branch.{
  active_branch, latest, NoneAfter, ActiveAt, scan-active_branch, scan_bounds,
}

abbrev user_message : String → Parent → ℕ → JournalFact ℕ
user_message id parent at = record {
  kind = "message";
  id = some id;
  parent_id = parent;
  timestamp = some at;
  message = some (record {
    role = some "user";
    attribution = none;
    timestamp = none;
    content = true;
    error_message = none;
  });
}

-- The message `b` is left behind when `c` answers `a`.
abbrev journal : List (JournalFact ℕ)
journal =
    user_message "a" null 10 ∷ user_message "b" absent 90 ∷ user_message "c" (of_id "a") 20 ∷ []

journal_recency : (scan some empty journal).last_message_at ≡ some 20
unfolding scan push is_leaf lookup insert activity
journal_recency = refl

scan_bounds_example :
    NoneAfter some 20 (active_branch journal) × ActiveAt some 20 (active_branch journal)
scan_bounds_example = scan_bounds some journal 20 journal_recency

scan-active_branch_example :
    (scan some empty journal).last_message_at ≡ latest some (active_branch journal)
scan-active_branch_example = scan-active_branch some journal

-- The parser stops in the middle of the first line.
read_json_line_lem_example :
    (read_json_line ((3, 2) ∷ []) 9 (λ i. 2) 4 (123 ∷ 125 ∷ 32 ∷ 10 ∷ 123 ∷ [])
      ≡ one_line
          (length (first_line (123 ∷ 125 ∷ 32 ∷ 10 ∷ 123 ∷ [])))
          (after_line (123 ∷ 125 ∷ 32 ∷ 10 ∷ 123 ∷ [])))
    × (first_line (123 ∷ 125 ∷ 32 ∷ 10 ∷ 123 ∷ []) ++ after_line (123 ∷ 125 ∷ 32 ∷ 10 ∷ 123 ∷ [])
        ≡ 123 ∷ 125 ∷ 32 ∷ 10 ∷ 123 ∷ [])
read_json_line_lem_example =
    read_json_line_lem ((3, 2) ∷ []) 9 (λ i. 2) 4 123 (125 ∷ 32 ∷ 10 ∷ 123 ∷ []) (omega arith, tt)
      (λ i. omega arith) (omega arith) (omega arith)

-- The content stands in front of the role.
abbrev keys : List (Key ℕ)
keys = content_key (text "hello") ∷ role_key (some "assistant") ∷ timestamp_key none ∷ []

activity-visit_map_example :
    activity some (record {
      kind = "message";
      id = some "a";
      parent_id = null;
      timestamp = some 30;
      message = some (visit_map keys);
    })
    ≡ conversation_message_timestamp some (message_of keys) (some 30)
activity-visit_map_example = activity-visit_map some keys (some "a") null (some 30) tt
