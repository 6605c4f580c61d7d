-- ===== src/Session/Status.antt =====
-- src/session.rs and src/state.rs: what a session's header says of its work, after any history and
-- after a `get_state` reply, and the recency of a record after a scan.
use fura.Base.{
  List, [], ◌∷◌, ◌≡◌, refl, ap, sym, ◌∙◌, Bool, true, false, ◌&&◌, ◌||◌, Option, none, some, String,
  ◌⊎◌, inl, inr, arith, str_eq as ◌==◌, eq_iff, if◌then◌else◌, Bool-cases,
}
use fura.Base.Options.{keep_if}
use fura.Recency.Fact.{Timestamp}
use fura.Session.Crates.{Crates}
use fura.Session.Parts.{
  SessionStatus, starting, idle, busy, exited, available, error, PlanModeProjection,
  PendingPlanReviewProjection, SessionFileStamp, SessionSkillsState,
}
use fura.Session.Record.{
  SessionRecord, header, terminal, is_terminal, effective_status, working, awaiting_ask,
  projected_pending_ask, summary, reconcile_persisted_recency, time_le, time_eq,
}
use fura.Session.State.{RpcRecordState, apply_rpc_state_to_record, planned, plan_enabled}

bool_and_false : (b : Bool) → (b && false) ≡ false
bool_and_false true = refl
bool_and_false false = refl

if_same {ℓ} : {A : Type ℓ} (b : Bool) (x : A) → (if b then x else x) ≡ x
if_same true x = refl
if_same false x = refl

or_false : (a b : Bool) → (a || b) ≡ false → (a ≡ false) × (b ≡ false)
or_false true b h = absurd (cc)
or_false false b h = (refl, h)

time_le_refl : (t : Option Timestamp) → time_le t t ≡ true
time_le_refl none = refl
time_le_refl (some n) = ground arith

kept_own :
    (id : String) (given : Option SessionSkillsState) (skills : SessionSkillsState)
    → keep_if (λ s. s.session_id == id) given ≡ some skills
    → skills.session_id ≡ id
kept_own id none skills h = cc
kept_own id (some given) skills h = elim (Bool-cases (given.session_id == id)) [
  | inl own ↦
      let same : given ≡ skills = cc (rw own at h) in
      ap (λ s. s.session_id) (sym same) ∙ (eq_iff given.session_id id).0 own
  | inr other ↦ cc (rw other at h)
]

planned_reviews :
    (mode : Option (Option PlanModeProjection)) (old : Option PlanModeProjection)
    (review : Option PendingPlanReviewProjection)
    → (review ≡ none) ⊎ (plan_enabled old ≡ true)
    → ((planned mode old review).1 ≡ none) ⊎ (plan_enabled (planned mode old review).0 ≡ true)
planned_reviews none old review h = h
planned_reviews (some mode) old review h = elim (Bool-cases (plan_enabled mode)) [
  | inl on ↦ inr on
  | inr off ↦ inl (rw off)
]

module _ (crates : Crates) where
  abbrev Record : Type 0
  Record = SessionRecord crates

  -- A session without a child process shows no work, no compaction and no question; any other is busy
  -- exactly if it is starting or busy, or if a continuation or a compaction is under way, shows that
  -- compaction, and shows the question that waits.
  abbrev pub ShowsWork : Bool → Record → Type 0
  ShowsWork true r =
      ((header crates r).is_busy ≡ false)
      × ((header crates r).compacting ≡ false)
      × ((header crates r).pending_ask ≡ none)
      × ((header crates r).summary.awaiting_ask ≡ false)
  ShowsWork false r =
      ((header crates r).is_busy
        ≡ (working crates r.status || r.continuation_pending || r.is_compacting))
      × ((header crates r).compacting ≡ r.is_compacting)
      × ((header crates r).pending_ask ≡ r.pending_ask)

  with_status :
      (status : SessionStatus) (r : Record)
      → ShowsWork (terminal crates status) (record r { status = status })
  unfolding header summary is_terminal effective_status working terminal awaiting_ask
      projected_pending_ask
  with_status exited r = (refl, bool_and_false r.is_compacting, refl, refl)
  with_status available r = (refl, bool_and_false r.is_compacting, refl, refl)
  with_status error r = (refl, bool_and_false r.is_compacting, refl, refl)
  with_status starting r = (ground arith, ground arith, refl)
  with_status idle r = (ground arith, ground arith, refl)
  with_status busy r = (ground arith, ground arith, refl)

  -- What the header of a record shows of its work, for a terminal record and for any other: a terminal
  -- one shows no work, no compaction and no question; any other is busy exactly if its status is
  -- starting or busy, a continuation is pending or it is compacting, shows a compaction exactly if it
  -- is compacting, and shows its pending question.
  pub header-ShowsWork : (r : Record) → ShowsWork (is_terminal crates r) r
  unfolding is_terminal
  header-ShowsWork r = with_status r.status r

  -- A plan waits for its review only while plan mode is on.
  abbrev pub ReviewsPlan : Record → Type 0
  ReviewsPlan r = (r.pending_plan_review ≡ none) ⊎ (plan_enabled r.plan_mode ≡ true)

  -- The skills that a record holds are its own session's.
  abbrev pub OwnSkills : Record → Type 0
  OwnSkills r =
      (skills : SessionSkillsState) → r.session_skills ≡ some skills → skills.session_id ≡ r.id

  -- After a `get_state` reply the header is busy exactly if the reply says that the session streams or
  -- compacts or a continuation is pending, and shows a compaction exactly if the reply says so; the
  -- record's skills are its own session's; and if a plan waited for review only under plan mode, so
  -- it does.
  pub apply_rpc_state_to_record_lem :
      (r : Record) (state : RpcRecordState crates)
      → ReviewsPlan r
      → let r' = apply_rpc_state_to_record crates r state in
        ((header crates r').is_busy
          ≡ (state.is_streaming || r.continuation_pending || state.is_compacting))
        × ((header crates r').compacting ≡ state.is_compacting)
        × OwnSkills r'
        × ReviewsPlan r'
  unfolding header summary is_terminal effective_status working terminal awaiting_ask
      projected_pending_ask apply_rpc_state_to_record
  apply_rpc_state_to_record_lem r state reviews = (
    ground arith,
    ground arith,
    (λ skills held. kept_own r.id state.session_skills skills held),
    planned_reviews state.plan_mode r.plan_mode r.pending_plan_review reviews,
  )

  -- The record after scans of the session's file, each with the recency that it read.
  abbrev pub scanned : List (Option Timestamp × Option SessionFileStamp) → Record → Record
  scanned [] r = r
  scanned ((recency, stamp) ∷ scans) r =
      scanned scans (reconcile_persisted_recency crates recency stamp r)

  -- Scans that never go back behind the one before, and all are earlier than the live activity.
  abbrev pub Lags :
      Option Timestamp
      → Option Timestamp
      → List (Option Timestamp × Option SessionFileStamp)
      → Type 0
  Lags persisted live [] = Unit
  Lags persisted live ((recency, stamp) ∷ scans) =
      (time_le persisted recency ≡ true) × (time_le live recency ≡ false) × Lags recency live scans

  lagging_scan :
      (recency : Option Timestamp) (stamp : Option SessionFileStamp) (r : Record)
      → is_terminal crates r ≡ false
      → time_eq r.last_message_at r.persisted_message_at ≡ false
      → time_le r.persisted_message_at recency ≡ true
      → time_le r.last_message_at recency ≡ false
      → reconcile_persisted_recency crates recency stamp r
        ≡ record r { persisted_message_at = recency; file_stamp = stamp }
  unfolding reconcile_persisted_recency
  lagging_scan recency stamp r lives unacknowledged forward lags =
      rw (unacknowledged, lags, forward, lives) refl

  scanned-keeps :
      (scans : List (Option Timestamp × Option SessionFileStamp)) (r : Record)
      → is_terminal crates r ≡ false
      → time_eq r.last_message_at r.persisted_message_at ≡ false
      → Lags r.persisted_message_at r.last_message_at scans
      → ((scanned scans r).last_message_at ≡ r.last_message_at)
        × (is_terminal crates (scanned scans r) ≡ false)
        × (time_eq r.last_message_at (scanned scans r).persisted_message_at ≡ false)
  unfolding is_terminal
  scanned-keeps [] r lives unacknowledged lags = (refl, lives, unacknowledged)
  scanned-keeps ((recency, stamp) ∷ scans) r lives unacknowledged (forward, lags, later) =
      rw (scanned, lagging_scan recency stamp r lives unacknowledged forward lags)
        (scanned-keeps scans (record r { persisted_message_at = recency; file_stamp = stamp }) lives
          (rw lags refl) later)

  -- In a session that goes on, with live activity that no scan has acknowledged: however many scans
  -- follow that never go back and are all earlier than the activity, the record keeps the activity's
  -- time. The next scan, if it has caught up with the activity or goes back behind the scan before
  -- it, sets the record's time to its own.
  pub reconcile_persisted_recency_lem :
      (scans : List (Option Timestamp × Option SessionFileStamp)) (recency : Option Timestamp)
      (stamp : Option SessionFileStamp) (r : Record)
      → is_terminal crates r ≡ false
      → time_eq r.last_message_at r.persisted_message_at ≡ false
      → Lags r.persisted_message_at r.last_message_at scans
      → (time_le r.last_message_at recency ≡ true)
        ⊎ (time_le (scanned scans r).persisted_message_at recency ≡ false)
      → ((scanned scans r).last_message_at ≡ r.last_message_at)
        × ((reconcile_persisted_recency crates recency stamp (scanned scans r)).last_message_at
            ≡ recency)
  unfolding reconcile_persisted_recency
  reconcile_persisted_recency_lem scans recency stamp r lives unacknowledged lags settles =
      let (kept, _, behind) = scanned-keeps scans r lives unacknowledged lags in
      (
        kept,
        rw (kept, behind)
            (elim settles [
              | inl caught_up ↦ rw caught_up refl
              | inr back ↦ rw back (ground arith)
            ]),
      )
