-- ===== src/Runtime/Metadata.antt =====
-- src/state.rs: the metadata that Fura keeps of sessions, and the other registries that only store.
use fura.Base.{
  ◌≤◌, Bool, true, false, not, ◌&&◌, ◌||◌, Option, none, some, [], ◌∷◌, String, str_eq, ◌==◌,
  if◌then◌else◌, ◌≡◌, ◌↔◌, refl, ap, arith, length, Bool-cases, inl, inr,
}
use fura.Base.Table.{
  Table, lookup, contains_key, insert, remove, retain, lookup-insert, lookup-remove, lookup-retain,
  Distinct,
}
use fura.Runtime.State.{Payloads, SessionMode, standard, diff_review, SessionRuntimeState}

unfoldable pub is_standard : SessionMode → Bool
is_standard standard = true
is_standard diff_review = false

module _ (T : Payloads) where
  open T use {CreatedSession, Carryover}

  abbrev State : Type 0
  State = SessionRuntimeState T

  unfoldable pub session_category : State → String → Option String
  session_category s id = lookup id s.session_categories

  unfoldable pub set_session_category : State → String → Option String → State
  set_session_category s id none = record s { session_categories = remove id s.session_categories }
  set_session_category s id (some category) = record s {
    session_categories = insert id category s.session_categories;
  }

  unfoldable pub set_remapped_session_metadata :
      State → String → Option String → SessionMode → State
  unfolding is_standard
  set_remapped_session_metadata s id category session_mode =
      let s' = set_session_category s id category in
      record s' {
        session_modes =
            if is_standard session_mode
            then remove id s'.session_modes
            else insert id session_mode s'.session_modes;
      }

  -- `retained` is the membership test of the set of retained ids.
  unfoldable pub prune_session_metadata : State → (String → Bool) → State × Bool
  unfolding is_standard
  prune_session_metadata s retained =
      let categories = retain (λ id _. retained id) s.session_categories in
      let modes = retain (λ id mode. retained id && not (is_standard mode)) s.session_modes in
      (
        record s { session_categories = categories; session_modes = modes },
        not (length categories == length s.session_categories)
            || not (length modes == length s.session_modes),
      )

  unfoldable pub register_pending_create : State → String → CreatedSession → State
  register_pending_create s t pending = record s {
    pending_created_sessions = insert t pending s.pending_created_sessions;
  }

  unfoldable pub pending_create : State → String → Option CreatedSession
  pending_create s t = lookup t s.pending_created_sessions

  unfoldable pub has_pending_create : State → String → Bool
  has_pending_create s t = contains_key t s.pending_created_sessions

  unfoldable pub remove_pending_create : State → String → State × Option CreatedSession
  remove_pending_create s t = (
    record s { pending_created_sessions = remove t s.pending_created_sessions },
    lookup t s.pending_created_sessions,
  )

  unfoldable pub set_pending_session_name : State → String → String → State
  set_pending_session_name s t name = record s {
    pending_new_session_names = insert t name s.pending_new_session_names;
  }

  unfoldable pub pending_session_name : State → String → Option String
  pending_session_name s t = lookup t s.pending_new_session_names

  unfoldable pub has_pending_session_name : State → String → Bool
  has_pending_session_name s t = contains_key t s.pending_new_session_names

  unfoldable pub remove_pending_session_name : State → String → State × Option String
  remove_pending_session_name s t = (
    record s { pending_new_session_names = remove t s.pending_new_session_names },
    lookup t s.pending_new_session_names,
  )

  unfoldable pub set_plan_execution_carryover : State → String → Carryover → State
  set_plan_execution_carryover s id carryover = record s {
    plan_execution_carryovers = insert id carryover s.plan_execution_carryovers;
  }

  unfoldable pub plan_execution_carryover : State → String → Option Carryover
  plan_execution_carryover s id = lookup id s.plan_execution_carryovers

  unfoldable pub remove_plan_execution_carryover : State → String → State × Option Carryover
  remove_plan_execution_carryover s id = (
    record s { plan_execution_carryovers = remove id s.plan_execution_carryovers },
    lookup id s.plan_execution_carryovers,
  )

length-retain_le {ℓ} :
    {V : Type ℓ} (p : String → V → Bool) (m : Table V) → length (retain p m) ≤ length m
unfolding retain
length-retain_le p [] = omega arith
length-retain_le p ((i, w) ∷ m) = ground (arith, length-retain_le p m)

-- A table that keeps its size keeps its entries.
retain_all {ℓ} :
    {V : Type ℓ} (p : String → V → Bool) (m : Table V)
    → length (retain p m) ≡ length m
    → retain p m ≡ m
unfolding retain
retain_all p [] h = refl
retain_all p ((i, w) ∷ m) h = elim (Bool-cases (p i w)) [
  | inl keep ↦ rw keep (ap (◌∷◌ (i, w)) (retain_all p m (ground arith)))
  | inr drop ↦ absurd (ground (arith, length-retain_le p m))
]

module _ (T : Payloads) (s : SessionRuntimeState T) (retained : String → Bool) where
  abbrev pruned : SessionRuntimeState T
  pruned = (prune_session_metadata T s retained).0

  -- Pruning reports a change exactly if it dropped an entry of one of the two tables.
  pub prune_reports : ((prune_session_metadata T s retained).1 ≡ false) ↔ (
      (pruned.session_categories ≡ s.session_categories) × (pruned.session_modes ≡ s.session_modes))
  unfolding prune_session_metadata
  prune_reports = (
    λ same. (
      retain_all (λ id _. retained id) s.session_categories (ground arith),
      retain_all (λ id mode. retained id && not (is_standard mode)) s.session_modes (ground arith),
    ),
    λ same. ground (arith, ap length same.0, ap length same.1),
  )

  -- Where both tables have each key once: after pruning, a retained session has its category and, if it is not standard, its mode; any other
  -- session has neither.
  pub prune_keeps :
      Distinct s.session_categories
      → Distinct s.session_modes
      → (id : String)
      → (session_category T pruned id ≡ (if retained id then session_category T s id else none))
        × (lookup id pruned.session_modes ≡ elim (lookup id s.session_modes) [
          | none ↦ none
          | some mode ↦ if retained id && not (is_standard mode) then some mode else none
        ])
  unfolding prune_session_metadata session_category
  prune_keeps dc dm id = (
    ground (arith, lookup-retain (λ i _. retained i) id s.session_categories dc),
    lookup-retain (λ i mode. retained i && not (is_standard mode)) id s.session_modes dm,
  )

module _ (T : Payloads) (s : SessionRuntimeState T) (id : String) (category : Option String)
    (mode : SessionMode) where
  -- After a remap the session has the given category and mode, where the standard mode is stored as
  -- no mode, and every other session has what it had.
  pub remapped_lem :
      (j : String)
      → let s' = set_remapped_session_metadata T s id category mode in
        (session_category T s' j ≡ (if str_eq id j then category else session_category T s j))
        × (lookup j s'.session_modes ≡ (
            if str_eq id j
            then (if is_standard mode then none else some mode)
            else lookup j s.session_modes))
  unfolding set_remapped_session_metadata set_session_category session_category
  remapped_lem j =
      (kept category, ground (arith, lookup-insert id j mode modes, lookup-remove id j modes))
    where
      modes : Table SessionMode
      modes = s.session_modes

      kept :
          (o : Option String)
          → session_category T (set_session_category T s id o) j
            ≡ (if str_eq id j then o else session_category T s j)
      kept none = lookup-remove id j s.session_categories
      kept (some c) = lookup-insert id j c s.session_categories
