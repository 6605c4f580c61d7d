-- ===== src/Examples/Web.antt =====
-- src/web.rs behind src/state.rs, on sessions that are lists of numbers: a mobile connection that finds
-- two snapshots of a session in one group.
use mathlib.Core.Path.{subst}
use fura.Base.Positions.{contains}
use fura.Base.{ℕ, String, All, ◌≡◌, refl, none, some, List, [], ◌∷◌, inl}
use fura.Base.Table.{Table, lookup, insert}
use fura.Base.Sort.{sort_by_key}
use fura.Events.Pending.{drain, delta_messages}
use fura.Events.Message.{session_snapshot, other, seq_of, send_all, stamp_session_seq}
use fura.Events.Client.{Roster, keeps_session, receive, shown}
use fura.Events.Client.Replication.{Call, snapshot, sessions_list, TruthfulRun, Follows, run, serve}
use fura.Events.Coordinator.{
  mutate_session_snapshot, emit_sessions_snapshot, flush_pending_deltas_for_timer,
}
use fura.Events.Timer.{after_run, after_timer}
use fura.Web.Outbound.{
  Notice, sessions_snapshot, Outgoing, send_broadcasts, conflate_and_delta,
  conflate_server_messages, uses_conflation, key_of, put, same_key,
}
use fura.Web.Outbound.Kept.{latest}
use fura.Web.Outbound.Latest.{conflate_server_messages-latest}
use fura.Web.Outbound.Replica.{Retains, rounds_of, taken}
use fura.Web.Outbound.Converges.{broadcasts, send_broadcasts-converges}
use fura.Examples.Events.{projection, ids, world, replica}

-- A list of the sessions is one of their ids.
abbrev Message : Type 0
Message = Notice (List String) ℕ

instance abbrev roster : Roster Message
roster = record {
  session_ids = λ m. elim m [ sessions_snapshot listed_ids ↦ some listed_ids | _ ↦ none ];
}

abbrev listed : {A : Type 0} → Table A → Message
listed sessions = sessions_snapshot (ids sessions)

abbrev calls : List (Call (List ℕ) ℕ ℕ Message)
calls = snapshot "s" (λ r. 3 ∷ r) ∷ sessions_list ∷ snapshot "s" (λ r. 4 ∷ r) ∷ []

abbrev groups : List (Outgoing ℕ ℕ (List String) ℕ × List (Outgoing ℕ ℕ (List String) ℕ))
groups =
    (
      session_snapshot "s" (record { header = 3; transcript = 3 ∷ 1 ∷ 2 ∷ []; seq = 6 }),
      other (sessions_snapshot ("s" ∷ "t" ∷ []))
          ∷ session_snapshot "s" (record { header = 4; transcript = 4 ∷ 3 ∷ 1 ∷ 2 ∷ []; seq = 7 })
          ∷ [],
    )
    ∷ []

groups-taken :
    taken conflate_and_delta groups ≡ broadcasts (List String) ℕ projection listed world calls
unfolding taken run serve mutate_session_snapshot lookup send_all drain delta_messages
    stamp_session_seq emit_sessions_snapshot uses_conflation seq_of insert
    flush_pending_deltas_for_timer
groups-taken = refl

calls-Truthful : TruthfulRun projection listed "s" world calls
unfolding serve mutate_session_snapshot lookup insert keeps_session contains
calls-Truthful = (tt, (refl, (tt, tt)))

broadcasts-Retain : All (Retains "s") (broadcasts (List String) ℕ projection listed world calls)
unfolding keeps_session contains taken uses_conflation
broadcasts-Retain = subst (All (Retains "s")) groups-taken (tt, (refl, (tt, tt)))

first_dropped :
    send_broadcasts 1 conflate_and_delta (rounds_of groups) 0
    ≡ other (sessions_snapshot ("s" ∷ "t" ∷ []))
      ∷ session_snapshot "s" (record { header = 4; transcript = 4 ∷ 3 ∷ 1 ∷ 2 ∷ []; seq = 7 })
      ∷ []
unfolding send_broadcasts uses_conflation key_of sort_by_key put same_key
first_dropped = refl

in_step : Follows Message projection "s" world replica
unfolding lookup seq_of
in_step = (1 ∷ 2 ∷ [], record { known = refl; queued = λ d batched. absurd (cc); agrees = refl })

send_broadcasts-converges_example :
    let w = after_run Message projection listed world calls in
    (r : List ℕ) × (lookup "s" w.sessions ≡ some r)
    × (receive "s" replica (send_broadcasts 1 conflate_and_delta (rounds_of groups) 0)
        ≡ some (
            shown
              (projection r)
              (seq_of "s" (after_timer Message projection listed w).0.session_seqs)))
send_broadcasts-converges_example =
    send_broadcasts-converges (List String) ℕ projection listed "s" calls world replica 1 0
      conflate_and_delta groups calls-Truthful (tt, (tt, (tt, tt))) (inl (refl, refl)) in_step
      broadcasts-Retain groups-taken

abbrev group : List (Outgoing ℕ ℕ ℕ ℕ)
group =
    session_snapshot "s" (record { header = 1; transcript = 3 ∷ []; seq = 6 })
    ∷ other (sessions_snapshot 2)
    ∷ session_snapshot "s" (record { header = 2; transcript = 4 ∷ 3 ∷ []; seq = 7 })
    ∷ []

conflate_server_messages-latest_example : conflate_server_messages group ≡ latest group
conflate_server_messages-latest_example = conflate_server_messages-latest group
