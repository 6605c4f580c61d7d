-- ===== src/Runtime/Transport/Removal.antt =====
-- src/state.rs, `remove_transport`: what it takes out, what it leaves, and what its caller gets.
use fura.Base.{false, not, none, some, String, str_eq, refl, ap, ◌≡◌, eq_refl}
use fura.Base.Table.{
  Table, lookup, remove, retain, values, Distinct, AllValues, remove_each-matching,
  take_each-matching, AllValues-retain-not, lookup-remove,
}
use fura.Runtime.State.{Payloads, SessionRuntimeState, RpcSessionHandle, RemovedRpcTransport}
use fura.Runtime.Transport.Defs.{
  has_id, page_of, fork_of, btw_of, rewind_of, skills_of, insight_of, remove_transport,
  remove_registered, take_session_skills_for_transport, target_session_id_for_transport,
}

module _ (T : Payloads) where
  -- A hash map has each key once.
  pub record IsKeyed (s : SessionRuntimeState T) : Type 0 where
    pub forks : Distinct s.pending_session_forks
    pub btws : Distinct s.btw_requests
    pub rewinds : Distinct s.pending_rewind_rpcs
    pub skills : Distinct s.pending_session_skills

  -- Nothing of the transport is left in the registries that the removal clears.
  pub record IsPurged (t session_id : String) (s : SessionRuntimeState T) : Type 0 where
    pub handle : lookup t s.rpc_sessions ≡ none
    pub target : lookup t s.rpc_session_targets ≡ none
    pub version : lookup t s.rpc_protocol_versions ≡ none
    pub pages : AllValues (λ v. page_of T t v ≡ false) s.pending_rpc_message_pages
    pub forks : AllValues (λ v. fork_of T t v ≡ false) s.pending_session_forks
    pub btws : AllValues (λ v. btw_of T t v ≡ false) s.btw_requests
    pub rewinds : AllValues (λ v. rewind_of T t v ≡ false) s.pending_rewind_rpcs
    pub skills : AllValues (λ v. skills_of T t v ≡ false) s.pending_session_skills
    pub insights : AllValues (λ v. insight_of T t v ≡ false) s.pending_session_insights
    pub compactions : AllValues (λ v. str_eq v session_id ≡ false) s.pending_compaction_commands

  -- The caller gets exactly the requests of the transport.
  pub record HandsOver (t : String) (s : SessionRuntimeState T) (handle : RpcSessionHandle T)
      (r : RemovedRpcTransport T) : Type 0 where
    pub handle_of : r.handle ≡ handle
    pub forks : r.session_forks ≡ values (retain (λ _ v. fork_of T t v) s.pending_session_forks)
    pub btws : r.btw_requests ≡ retain (λ _ v. btw_of T t v) s.btw_requests
    pub rewinds : r.rewind_requests ≡ values (retain (λ _ v. rewind_of T t v) s.pending_rewind_rpcs)
    pub skills :
        r.session_skills ≡ values (retain (λ _ v. skills_of T t v) s.pending_session_skills)

  -- The other transports' requests stay, and so do the lines of stderr, the pending creations and the
  -- pending names, those of the removed transport too; no command of a removed side question stays.
  pub record Spares (t : String) (s s' : SessionRuntimeState T) : Type 0 where
    pub stderr : s'.recent_rpc_stderr ≡ s.recent_rpc_stderr
    pub creations : s'.pending_created_sessions ≡ s.pending_created_sessions
    pub names : s'.pending_new_session_names ≡ s.pending_new_session_names
    pub commands :
        AllValues
          (λ command. has_id command.btw_id (retain (λ _ v. btw_of T t v) s.btw_requests) ≡ false)
          s'.pending_btw_commands
    pub forks :
        s'.pending_session_forks ≡ retain (λ _ v. not (fork_of T t v)) s.pending_session_forks
    pub btws : s'.btw_requests ≡ retain (λ _ v. not (btw_of T t v)) s.btw_requests
    pub rewinds :
        s'.pending_rewind_rpcs ≡ retain (λ _ v. not (rewind_of T t v)) s.pending_rewind_rpcs
    pub skills :
        s'.pending_session_skills ≡ retain (λ _ v. not (skills_of T t v)) s.pending_session_skills

  removed_at {ℓ} : {A : Type ℓ} (t : String) (m : Table A) → lookup t (remove t m) ≡ none
  removed_at t m = rw lookup-remove (rw eq_refl refl)

  remove_registered-IsPurged :
      (s : SessionRuntimeState T) (t : String) (handle : RpcSessionHandle T)
      → IsKeyed s
      → IsPurged t (target_session_id_for_transport T s t) (remove_registered T s t handle).0
  unfolding remove_registered take_session_skills_for_transport target_session_id_for_transport
  remove_registered-IsPurged s t handle k = record {
    handle = removed_at t s.rpc_sessions;
    target = removed_at t s.rpc_session_targets;
    version = removed_at t s.rpc_protocol_versions;
    pages = AllValues-retain-not (page_of T t) s.pending_rpc_message_pages;
    forks =
        rw (remove_each-matching (fork_of T t) s.pending_session_forks k.forks)
          (AllValues-retain-not (fork_of T t) s.pending_session_forks);
    btws =
        rw (remove_each-matching (btw_of T t) s.btw_requests k.btws)
          (AllValues-retain-not (btw_of T t) s.btw_requests);
    rewinds =
        rw (remove_each-matching (rewind_of T t) s.pending_rewind_rpcs k.rewinds)
          (AllValues-retain-not (rewind_of T t) s.pending_rewind_rpcs);
    skills =
        rw (remove_each-matching (skills_of T t) s.pending_session_skills k.skills)
          (AllValues-retain-not (skills_of T t) s.pending_session_skills);
    insights = AllValues-retain-not (insight_of T t) s.pending_session_insights;
    compactions =
        AllValues-retain-not (λ v. str_eq v (target_session_id_for_transport T s t))
          s.pending_compaction_commands;
  }

  remove_registered-HandsOver :
      (s : SessionRuntimeState T) (t : String) (handle : RpcSessionHandle T)
      → IsKeyed s
      → HandsOver t s handle (remove_registered T s t handle).1
  unfolding remove_registered take_session_skills_for_transport
  remove_registered-HandsOver s t handle k = record {
    handle_of = refl;
    forks = ap values (take_each-matching (fork_of T t) s.pending_session_forks k.forks);
    btws = take_each-matching (btw_of T t) s.btw_requests k.btws;
    rewinds = ap values (take_each-matching (rewind_of T t) s.pending_rewind_rpcs k.rewinds);
    skills = ap values (take_each-matching (skills_of T t) s.pending_session_skills k.skills);
  }

  remove_registered-Spares :
      (s : SessionRuntimeState T) (t : String) (handle : RpcSessionHandle T)
      → IsKeyed s
      → Spares t s (remove_registered T s t handle).0
  unfolding remove_registered take_session_skills_for_transport
  remove_registered-Spares s t handle k = record {
    stderr = refl;
    creations = refl;
    names = refl;
    commands = rw (take_each-matching (btw_of T t) s.btw_requests k.btws) (
        AllValues-retain-not
          (λ command. has_id command.btw_id (retain (λ _ v. btw_of T t v) s.btw_requests))
          s.pending_btw_commands);
    forks = remove_each-matching (fork_of T t) s.pending_session_forks k.forks;
    btws = remove_each-matching (btw_of T t) s.btw_requests k.btws;
    rewinds = remove_each-matching (rewind_of T t) s.pending_rewind_rpcs k.rewinds;
    skills = remove_each-matching (skills_of T t) s.pending_session_skills k.skills;
  }

  -- Where the registries of forks, side questions, rewinds and skill requests have each key once:
  -- removing a registered transport leaves nothing of it among the handles, the session targets, the
  -- protocol versions, the message pages, the forks, the side questions, the rewinds, the skill
  -- requests and the insight requests, no command of a removed side question and no compaction
  -- command of the session that it served; it hands over the handle and exactly its pending forks,
  -- side questions, rewinds and skill requests; those of the other transports stay; and the lines of
  -- stderr, the pending creations and the pending names stay as they were, those of the removed
  -- transport too.
  pub remove_transport_lem :
      (s : SessionRuntimeState T) (t : String) (handle : RpcSessionHandle T)
      → IsKeyed s
      → lookup t s.rpc_sessions ≡ some handle
      → IsPurged t (target_session_id_for_transport T s t) (remove_transport T s t).0
        × Spares t s (remove_transport T s t).0
        × ((r : RemovedRpcTransport T) × ((remove_transport T s t).1 ≡ some r)
            × HandsOver t s handle r)
  unfolding remove_transport
  remove_transport_lem s t handle k known = rw known (
    remove_registered-IsPurged s t handle k,
    remove_registered-Spares s t handle k,
    ((remove_registered T s t handle).1, refl, remove_registered-HandsOver s t handle k),
  )
