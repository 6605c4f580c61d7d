-- ===== src/Events/Schedule.antt =====
-- src/state.rs: the batch and its timers along the loop of `emit_many`, which asks for a flush once.
use fura.Base.{
  ℕ, ◌≡◌, refl, sym, ◌∙◌, ◌⊎◌, Bool, true, false, ◌||◌, Option, none, some, List, [], ◌∷◌, ◌++◌,
  arith, ◌==◌, ==_refl, Bool-cases, inl, inr,
}
use fura.Base.Table.{Table}
use fura.Events.Message.{
  SessionProjection, ServerMessage, session_snapshot, session_delta, other, next_u64,
}
use fura.Events.Pending.{
  PendingSessionDeltas, record_delta, record_delta_schedule, schedule_flush, drain,
}
use fura.Events.Coordinator.{spawn_timer, prepare_external_messages}

abbrev pub has_timer : ℕ → List ℕ → Bool
has_timer g [] = false
has_timer g (t ∷ ts) = t == g || has_timer g ts

has_timer-append : (g : ℕ) (ts : List ℕ) → has_timer g (ts ++ g ∷ []) ≡ true
has_timer-append g [] = ground (arith, ==_refl g)
has_timer-append g (t ∷ ts) = ground (arith, has_timer-append g ts)

-- No delta.
abbrev no_delta : {E H O : Type 0} → List (ServerMessage E H O) → Bool
no_delta [] = true
no_delta (session_delta id d ∷ ms) = false
no_delta (session_snapshot id p ∷ ms) = no_delta ms
no_delta (other m ∷ ms) = no_delta ms

-- Deltas, and behind them no delta any more.
abbrev deltas_then : {E H O : Type 0} → List (ServerMessage E H O) → Bool
deltas_then [] = true
deltas_then (session_delta id d ∷ ms) = deltas_then ms
deltas_then (session_snapshot id p ∷ ms) = no_delta ms
deltas_then (other m ∷ ms) = no_delta ms

-- No delta stands behind another message that itself stands behind a delta.
abbrev pub in_one_run : {E H O : Type 0} → List (ServerMessage E H O) → Bool
in_one_run [] = true
in_one_run (session_delta id d ∷ ms) = deltas_then ms
in_one_run (session_snapshot id p ∷ ms) = in_one_run ms
in_one_run (other m ∷ ms) = in_one_run ms

-- Either nothing waits and no flush is scheduled, or a flush is scheduled and a timer of its
-- generation was spawned.
abbrev pub Armed : PendingSessionDeltas → List ℕ → Type 0
Armed pending timers =
    ((pending.order ≡ []) × (pending.flush_scheduled ≡ false))
    ⊎ ((pending.flush_scheduled ≡ true) × (has_timer pending.flush_generation timers ≡ true))

-- A scheduled batch has a timer.
pub runs_of :
    (pending : PendingSessionDeltas) (timers : List ℕ)
    → Armed pending timers
    → pending.flush_scheduled ≡ true
    → has_timer pending.flush_generation timers ≡ true
runs_of pending timers (inl (none_waits, off)) on = cc
runs_of pending timers (inr (flag, runs)) on = runs

-- After `schedule_flush` a timer of the batch's generation runs.
pub schedule_flush_runs :
    (p : PendingSessionDeltas) (now : ℕ) (timers : List ℕ)
    → (p.flush_scheduled ≡ true → has_timer p.flush_generation timers ≡ true)
    → ((schedule_flush p now).0.flush_scheduled ≡ true)
      × (has_timer
            (schedule_flush p now).0.flush_generation
            (spawn_timer (schedule_flush p now).1 timers)
          ≡ true)
unfolding schedule_flush
schedule_flush_runs p now timers h = elim (Bool-cases p.flush_scheduled) [
  | inl on ↦ ground (arith, h on)
  | inr off ↦ ground (arith, has_timer-append (next_u64 p.flush_generation) timers)
]

-- `emit_many` asks for a flush once: for the first delta that schedules one.
module _ {R E H O : Type 0} (projection : R → SessionProjection E H) (sessions : Table R) (now : ℕ)
    (timers : List ℕ) where
  abbrev loop :
      List (ServerMessage E H O)
      → PendingSessionDeltas
      → Option ℕ
      → PendingSessionDeltas × List (ServerMessage E H O) × Option ℕ
  loop ms pending generation =
      prepare_external_messages projection sessions now ms pending generation

  abbrev Leaves : List (ServerMessage E H O) → PendingSessionDeltas → Option ℕ → Type 0
  Leaves ms pending generation =
      Armed (loop ms pending generation).0 (spawn_timer (loop ms pending generation).2 timers)

  no_delta-Armed :
      (ms : List (ServerMessage E H O)) (pending : PendingSessionDeltas) (generation : Option ℕ)
      → no_delta ms ≡ true
      → Armed pending (spawn_timer generation timers)
      → Leaves ms pending generation
  unfolding prepare_external_messages drain
  no_delta-Armed [] pending generation h a = a
  no_delta-Armed (session_delta id d ∷ ms) pending generation h a = absurd (cc)
  no_delta-Armed (session_snapshot id p ∷ ms) pending generation h a =
      no_delta-Armed ms (drain {O = O} projection pending sessions).0 generation h
        (inl (refl, refl))
  no_delta-Armed (other m ∷ ms) pending generation h a =
      no_delta-Armed ms (drain {O = O} projection pending sessions).0 generation h
        (inl (refl, refl))

  deltas_then-Armed :
      (ms : List (ServerMessage E H O)) (pending : PendingSessionDeltas) (generation : Option ℕ)
      → deltas_then ms ≡ true
      → pending.flush_scheduled ≡ true
      → has_timer pending.flush_generation (spawn_timer generation timers) ≡ true
      → Leaves ms pending generation
  unfolding prepare_external_messages drain
  deltas_then-Armed [] pending generation h on runs = inr (on, runs)
  deltas_then-Armed (session_delta id d ∷ ms) pending none h on runs =
      let batch = record_delta pending id d.transcript_replace_from in
      let (flag, number) = record_delta_schedule pending id d.transcript_replace_from in
      let (on', runs') = schedule_flush_runs batch now timers (λ _. rw number runs) in
      deltas_then-Armed ms (schedule_flush batch now).0 (schedule_flush batch now).1 h on' runs'
  deltas_then-Armed (session_delta id d ∷ ms) pending (some g) h on runs =
      let batch = record_delta pending id d.transcript_replace_from in
      let (flag, number) = record_delta_schedule pending id d.transcript_replace_from in
      deltas_then-Armed ms batch (some g) h (flag ∙ on) (rw number runs)
  deltas_then-Armed (session_snapshot id p ∷ ms) pending generation h on runs =
      no_delta-Armed ms (drain {O = O} projection pending sessions).0 generation h
        (inl (refl, refl))
  deltas_then-Armed (other m ∷ ms) pending generation h on runs =
      no_delta-Armed ms (drain {O = O} projection pending sessions).0 generation h
        (inl (refl, refl))

  pub in_one_run-Armed :
      (ms : List (ServerMessage E H O)) (pending : PendingSessionDeltas)
      → in_one_run ms ≡ true
      → Armed pending timers
      → Leaves ms pending none
  unfolding prepare_external_messages drain
  in_one_run-Armed [] pending h a = a
  in_one_run-Armed (session_delta id d ∷ ms) pending h a =
      let batch = record_delta pending id d.transcript_replace_from in
      let (flag, number) = record_delta_schedule pending id d.transcript_replace_from in
      let (on, runs) =
        schedule_flush_runs batch now timers
          (λ on. rw number (runs_of pending timers a (sym flag ∙ on))) in
      deltas_then-Armed ms (schedule_flush batch now).0 (schedule_flush batch now).1 h on runs
  in_one_run-Armed (session_snapshot id p ∷ ms) pending h a =
      in_one_run-Armed ms (drain {O = O} projection pending sessions).0 h (inl (refl, refl))
  in_one_run-Armed (other m ∷ ms) pending h a =
      in_one_run-Armed ms (drain {O = O} projection pending sessions).0 h (inl (refl, refl))
