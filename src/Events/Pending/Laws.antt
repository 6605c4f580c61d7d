-- ===== src/Events/Pending/Laws.antt =====
-- What a batch holds after a delta is recorded or a flush is scheduled.
use fura.Base.{
  ℕ, min, ◌≡◌, String, Bool, true, false, ◌||◌, Option, none, some, List, [], ◌∷◌, ◌++◌, arith,
  str_eq as ◌==◌, eq_refl, Option-cases, inl, inr, if◌then◌else◌,
}
use fura.Base.Table.{lookup, lookup-insert}
use fura.Events.Pending.Defs.{
  PendingSessionDelta, PendingSessionDeltas, record_delta, record_delta_in, schedule_flush,
}

abbrev pub occurs : String → List String → Bool
occurs id [] = false
occurs id (j ∷ js) = j == id || occurs id js

occurs-append_last : (id : String) (order : List String) → occurs id (order ++ id ∷ []) ≡ true
occurs-append_last id [] = ground (arith, eq_refl id)
occurs-append_last id (j ∷ order) = ground (arith, occurs-append_last id order)

occurs-append_left :
    (id j : String) (order : List String)
    → occurs id order ≡ true
    → occurs id (order ++ j ∷ []) ≡ true
occurs-append_left id j [] h = cc
occurs-append_left id j (i ∷ order) h = ground (arith, occurs-append_left id j order)

-- The smallest index asked for so far.
abbrev pub merged : Option PendingSessionDelta → ℕ → PendingSessionDelta
merged none k = record { min_replace_from = k }
merged (some d) k = record { min_replace_from = min d.min_replace_from k }

pub lookup-record_delta :
    (p : PendingSessionDeltas) (id j : String) (k : ℕ)
    → lookup j (record_delta p id k).sessions
      ≡ (if id == j then some (merged (lookup id p.sessions) k) else lookup j p.sessions)
unfolding record_delta
lookup-record_delta p id j k =
    let new = merged (lookup id p.sessions) k in
    ground (arith, lookup-insert id j (merged none k) p.sessions, lookup-insert id j new p.sessions)

pub lookup-record_delta_self :
    (p : PendingSessionDeltas) (id : String) (k : ℕ)
    → lookup id (record_delta p id k).sessions ≡ some (merged (lookup id p.sessions) k)
lookup-record_delta_self p id k = ground (arith, eq_refl id, lookup-record_delta p id id k)

pub occurs-record_delta :
    (p : PendingSessionDeltas) (id j : String) (k : ℕ)
    → occurs j p.order ≡ true
    → occurs j (record_delta p id k).order ≡ true
unfolding record_delta
occurs-record_delta p id j k h = ground (arith, occurs-append_left j id p.order)

-- A recorded session stands in the order.
pub occurs-record_delta_self :
    (p : PendingSessionDeltas) (id : String) (k : ℕ)
    → ((d : PendingSessionDelta) → lookup id p.sessions ≡ some d → occurs id p.order ≡ true)
    → occurs id (record_delta p id k).order ≡ true
occurs-record_delta_self p id k h = elim (Option-cases (lookup id p.sessions)) [
  | inl fresh ↦ unfold record_delta in rw (fresh, record_delta_in) (occurs-append_last id p.order)
  | inr (d, found) ↦ occurs-record_delta p id id k (h d found)
]

pub schedule_flush_batch :
    (p : PendingSessionDeltas) (now : ℕ)
    → ((schedule_flush p now).0.sessions ≡ p.sessions) × ((schedule_flush p now).0.order ≡ p.order)
unfolding schedule_flush
schedule_flush_batch p now = ground arith

-- Recording a delta leaves the schedule as it is.
pub record_delta_schedule :
    (p : PendingSessionDeltas) (id : String) (k : ℕ)
    → ((record_delta p id k).flush_scheduled ≡ p.flush_scheduled)
      × ((record_delta p id k).flush_generation ≡ p.flush_generation)
unfolding record_delta
record_delta_schedule p id k = ground arith
