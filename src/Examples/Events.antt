-- ===== src/Examples/Events.antt =====
-- The coordinator of src/state.rs on sessions that are lists of numbers.
use fura.Base.{
  ℕ, All, String, ◌≡◌, refl, ap, Option, none, some, List, [], ◌∷◌, ◌++◌, inl, inr, length, take,
}
use fura.Base.Positions.{contains}
use fura.Base.Table.{Table, lookup, insert}
use fura.Events.Message.{
  SessionProjection, SessionProjectionDelta, ServerMessage, session_snapshot, other, seq_of,
}
use fura.Events.Pending.{empty, flush_due, record_delta, drain, schedule_flush}
use fura.Events.Coordinator.{
  mutate_session_delta, mutate_session_snapshot, mutate_session_and_emit, mutate_sessions_and_emit,
  emit_many, emit_sessions_snapshot, World, flush_pending_deltas_for_timer,
}
use fura.Events.Client.{Roster, keeps_session, receive, shown}
use fura.Events.Client.Replication.{
  Call, delta, snapshot, session_changed, sessions_changed, sessions_list, resync, emitted, timer,
  serve, TruthfulRun, Follows, run, run-Follows,
}
use fura.Events.Armed.{Arms, IsArmed, run-IsArmed}
use fura.Events.Timer.{after_run, after_timer, run-converges}
use fura.Events.Stranded.{after, emit_many_strands}

abbrev pub projection : List ℕ → SessionProjection ℕ ℕ
projection entries = record { header = length entries; transcript = entries; seq = 0 }

-- A message is a list of the sessions, by their ids, or a notice.
abbrev pub Notice : Type 0
Notice = Option (List String)

instance abbrev notice_roster : Roster Notice
notice_roster = record { session_ids = λ m. m }

abbrev pub ids : {A : Type 0} → Table A → List String
ids [] = []
ids ((id, a) ∷ rest) = id ∷ ids rest

abbrev list_sessions : {A : Type 0} → Table A → Notice
list_sessions sessions = some (ids sessions)

abbrev pub world : World (List ℕ)
world = record {
  sessions = ("s", 1 ∷ 2 ∷ []) ∷ ("t", []) ∷ [];
  pending = empty;
  session_seqs = ("s", 5) ∷ [];
  timers = [];
}

abbrev pub replica : Option (SessionProjection ℕ ℕ)
replica = some (record { header = 2; transcript = 1 ∷ 2 ∷ []; seq = 5 })

-- Appends an entry, and says from where the transcript changed.
abbrev append_entry : ℕ → List ℕ → List ℕ × Option ℕ
append_entry entry entries = (entries ++ entry ∷ [], some (length entries))

-- Adds a session, and tells of it and of the first.
abbrev add_session : Table (List ℕ) → Table (List ℕ) × List (ServerMessage ℕ ℕ Notice)
add_session sessions = (
  insert "u" [] sessions,
  other (some ("t" ∷ "s" ∷ "u" ∷ [])) ∷ session_snapshot "u" (projection []) ∷ [],
)

abbrev calls : List (Call (List ℕ) ℕ ℕ Notice)
calls =
    sessions_list
    ∷ delta 10 "s" (append_entry 3)
    ∷ delta 20 "t" (append_entry 9)
    ∷ emitted 30 (other none ∷ [])
    ∷ snapshot "t" (λ entries. [])
    ∷ session_changed "s"
        (λ entries. (7 ∷ entries, some (session_snapshot "s" (projection (7 ∷ entries)))))
    ∷ sessions_changed add_session
    ∷ delta 40 "s" (append_entry 4)
    ∷ timer 1
    ∷ resync "t"
    ∷ delta 50 "s" (append_entry 5)
    ∷ []

append_entry_keeps :
    (entry : ℕ) (entries : List ℕ)
    → take (length entries) (entries ++ entry ∷ []) ≡ take (length entries) entries
append_entry_keeps entry [] = refl
append_entry_keeps entry (e ∷ entries) = ap (◌∷◌ e) (append_entry_keeps entry entries)

calls-Truthful : TruthfulRun projection list_sessions "s" world calls
unfolding run serve mutate_session_delta mutate_session_snapshot mutate_session_and_emit
    mutate_sessions_and_emit emit_many lookup insert keeps_session contains emit_sessions_snapshot
    flush_due record_delta drain schedule_flush
calls-Truthful = (
  refl,
  (
    (λ r known. append_entry_keeps 3 r),
    (
      (λ r known. append_entry_keeps 9 r),
      (
        (λ r known. (refl, tt)),
        (
          tt,
          (
            (λ r known r' known'. (7 ∷ r, refl, ((inr refl, tt), inr refl))),
            (
              (λ r known. (r, known, ((refl, (inl refl, tt)), inl refl))),
              (
                (λ r known. append_entry_keeps 4 r),
                (tt, (tt, ((λ r known. append_entry_keeps 5 r), tt))),
              ),
            ),
          ),
        ),
      ),
    ),
  ),
)

calls-Arms : All Arms calls
calls-Arms = (tt, (tt, (tt, (refl, (tt, (tt, (tt, (tt, (tt, (tt, (tt, tt)))))))))))

world-Follows : Follows Notice projection "s" world replica
unfolding lookup seq_of
world-Follows =
    (1 ∷ 2 ∷ [], record { known = refl; queued = λ d batched. absurd (cc); agrees = refl })

run-IsArmed_example : IsArmed (run projection list_sessions world calls).0
run-IsArmed_example =
    run-IsArmed Notice projection list_sessions calls world calls-Arms (inl (refl, refl))

run-converges_example :
    let w = after_run Notice projection list_sessions world calls in
    let c = receive "s" replica (run projection list_sessions world calls).1 in
    (r : List ℕ) × (lookup "s" w.sessions ≡ some r)
    × (receive "s" c (after_timer Notice projection list_sessions w).1
        ≡ some (
            shown
              (projection r)
              (seq_of "s" (after_timer Notice projection list_sessions w).0.session_seqs)))
run-converges_example =
    run-converges Notice projection list_sessions "s" calls world replica calls-Truthful calls-Arms
      (inl (refl, refl)) world-Follows

run-Follows_example :
    Follows Notice projection "s"
      (run projection list_sessions world calls).0
      (receive "s" replica (run projection list_sessions world calls).1)
run-Follows_example =
    run-Follows Notice projection list_sessions "s" calls world replica calls-Truthful world-Follows

abbrev appended : ℕ → SessionProjectionDelta ℕ ℕ
appended entry = record {
  header = 3;
  transcript_replace_from = 2;
  transcript_append = entry ∷ [];
  base_seq = 0;
  seq = 0;
}

emit_many_strands_example :
    (lookup "t"
        (after {O = ℕ} projection world 10 "s" "t" (appended 3) (appended 4) 7).pending.sessions
      ≡ some (record { min_replace_from = 2 }))
    × (flush_pending_deltas_for_timer {O = ℕ} projection
          (after {O = ℕ} projection world 10 "s" "t" (appended 3) (appended 4) 7)
          1
        ≡ (after {O = ℕ} projection world 10 "s" "t" (appended 3) (appended 4) 7, []))
emit_many_strands_example =
    emit_many_strands projection world 10 "s" "t" (appended 3) (appended 4) 7 refl 1
