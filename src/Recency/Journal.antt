-- ===== src/Recency/Journal.antt =====
-- src/session_recency.rs: `JournalRecency`, the fold over a journal's records.
use fura.Base.{
  Bool, not, ◌||◌, Option, none, some, List, [], ◌∷◌, String, str_eq as ◌==◌, if◌then◌else◌, leb,
}
use fura.Base.Table.{Table, lookup, insert}
use fura.Recency.Fact.{Timestamp, JournalFact, Parent, absent, null, of_id, activity}

pub record JournalRecency : Type 0 where
  pub last_message_at : Option Timestamp
  pub ids : Table (Option Timestamp)

abbrev pub empty : JournalRecency
empty = record { last_message_at = none; ids = [] }

-- `Ord::max` on `Option<Timestamp>`: `None` is least.
abbrev pub max_time : Option Timestamp → Option Timestamp → Option Timestamp
max_time none b = b
max_time (some a) none = some a
max_time (some a) (some b) = if leb a b then some b else some a

abbrev pub flatten {ℓ} : {A : Type ℓ} → Option (Option A) → Option A
flatten none = none
flatten (some a) = a

-- Header and title-slot lines are no journal leaves.
unfoldable pub is_leaf : String → Bool
is_leaf kind = not (kind == "" || (kind == "session" || kind == "title"))

unfoldable pub parent_of : JournalRecency → Parent → Option Timestamp
parent_of j (of_id id) = flatten (lookup id j.ids)
parent_of j null = none
parent_of j absent = j.last_message_at

abbrev pub note_id {ℓ} : {A : Type ℓ} → Option String → A → Table A → Table A
note_id none a ids = ids
note_id (some id) a ids = insert id a ids

module _ {V : Type 0} (from_rpc : V → Option Timestamp) where
  unfoldable pub push_leaf : JournalRecency → JournalFact V → JournalRecency
  unfolding parent_of
  push_leaf j fact =
      let last = max_time (parent_of j fact.parent_id) (activity from_rpc fact) in
      record { last_message_at = last; ids = note_id fact.id last j.ids }

  unfoldable pub push : JournalRecency → JournalFact V → JournalRecency
  unfolding push_leaf
  push j fact = if is_leaf fact.kind then push_leaf j fact else j

  -- The whole journal, record by record.
  unfoldable pub scan : JournalRecency → List (JournalFact V) → JournalRecency
  scan j [] = j
  scan j (fact ∷ facts) = scan (push j fact) facts
