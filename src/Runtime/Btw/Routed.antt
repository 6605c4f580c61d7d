-- ===== src/Runtime/Btw/Routed.antt =====
-- Pending commands and their side questions, along the calls of src/state.rs.
use fura.Base.{
  Bool-cases, Option-cases, inl, inr, arith, none, List, [], ◌∷◌, refl, Bool, true, false, not,
  String, str_eq, ◌≡◌,
}
use fura.Base.Table.{
  Table, lookup, contains_key, insert, retain, AllValues, AllValues-retain, AllValues-retain-not,
  AllValues-zip, contains_key-remove, contains_key-insert, AllValues-weaken, AllValues-remove,
  Distinct, Distinct-insert, Distinct-remove, Distinct-retain, lookup-retain, remove_each-matching,
  take_each-matching,
}
use fura.Runtime.State.{Payloads, SessionRuntimeState, RpcSessionHandle, BtwRequestRoute}
use fura.Runtime.Transport.{
  has_id, btw_of, remove_transport, remove_registered, take_session_skills_for_transport,
}
use fura.Runtime.Btw.Defs.{insert_btw_request, remove_btw_request, take_pending_btw_command}

has_id_lem {ℓ} : {A : Type ℓ} (id : String) (m : Table A) → has_id id m ≡ false → lookup id m ≡ none
unfolding has_id lookup
has_id_lem id [] h = refl
has_id_lem id ((j, a) ∷ m) h = ground (arith, has_id_lem id m)

module _ (T : Payloads) where
  abbrev State : Type 0
  State = SessionRuntimeState T

  -- Every pending command is for a side question that is still registered.
  abbrev pub IsRouted : State → Type 0
  IsRouted s = AllValues (λ c. contains_key c.btw_id s.btw_requests ≡ true) s.pending_btw_commands

  remove_btw_request-IsRouted :
      (s : State) (btw_id : String) → IsRouted s → IsRouted (remove_btw_request T s btw_id).0
  unfolding remove_btw_request
  remove_btw_request-IsRouted s btw_id routed =
      AllValues-zip (λ c. contains_key c.btw_id s.btw_requests ≡ true)
        (λ c. str_eq c.btw_id btw_id ≡ false) _
        (λ c. contains_key-remove btw_id c.btw_id s.btw_requests)
        (retain (λ _ command. not (str_eq command.btw_id btw_id)) s.pending_btw_commands)
        (AllValues-retain (λ c. contains_key c.btw_id s.btw_requests ≡ true)
          (λ _ command. not (str_eq command.btw_id btw_id)) s.pending_btw_commands routed)
        (AllValues-retain-not (λ c. str_eq c.btw_id btw_id) s.pending_btw_commands)

  insert_btw_request-IsRouted :
      (s : State) (btw_id : String) (r : BtwRequestRoute)
      → IsRouted s
      → IsRouted (insert_btw_request T s btw_id r).0
  unfolding insert_btw_request
  insert_btw_request-IsRouted s btw_id r routed =
      elim (Bool-cases (contains_key btw_id s.btw_requests)) [
        | inl known ↦ rw known routed
        | inr new ↦ rw new (
            AllValues-weaken (λ c. contains_key c.btw_id s.btw_requests ≡ true)
              (λ c. contains_key c.btw_id (insert btw_id r s.btw_requests) ≡ true)
              (λ c. contains_key-insert btw_id c.btw_id r s.btw_requests) s.pending_btw_commands
              routed)
      ]

  -- A question that a transport's removal leaves is still there.
  spared :
      (f : BtwRequestRoute → Bool) (j : String) (m : Table BtwRequestRoute)
      → Distinct m
      → contains_key j m ≡ true
      → has_id j (retain (λ _ v. f v) m) ≡ false
      → contains_key j (retain (λ _ v. not (f v)) m) ≡ true
  unfolding contains_key
  spared f j m d there gone = ground (
    arith,
    lookup-retain (λ _ v. f v) j m d,
    lookup-retain (λ _ v. not (f v)) j m d,
    has_id_lem j (retain (λ _ v. f v) m) gone,
  )

  remove_registered-IsRouted :
      (s : State) (t : String) (handle : RpcSessionHandle T)
      → Distinct s.btw_requests
      → IsRouted s
      → IsRouted (remove_registered T s t handle).0
  unfolding remove_registered take_session_skills_for_transport
  remove_registered-IsRouted s t handle d routed =
      rw (remove_each-matching (btw_of T t) s.btw_requests d) (
        rw (take_each-matching (btw_of T t) s.btw_requests d) (
          AllValues-zip (λ c. contains_key c.btw_id s.btw_requests ≡ true)
            (λ c. has_id c.btw_id (retain (λ _ v. btw_of T t v) s.btw_requests) ≡ false) _
            (λ c. spared (btw_of T t) c.btw_id s.btw_requests d)
            (retain
              (λ _ command.
                not (has_id command.btw_id (retain (λ _ v. btw_of T t v) s.btw_requests)))
              s.pending_btw_commands)
            (AllValues-retain (λ c. contains_key c.btw_id s.btw_requests ≡ true)
              (λ _ command.
                not (has_id command.btw_id (retain (λ _ v. btw_of T t v) s.btw_requests)))
              s.pending_btw_commands routed)
            (AllValues-retain-not
              (λ c. has_id c.btw_id (retain (λ _ v. btw_of T t v) s.btw_requests))
              s.pending_btw_commands)))

  remove_transport-Distinct :
      (s : State) (t : String)
      → Distinct s.btw_requests
      → Distinct (remove_transport T s t).0.btw_requests
  unfolding remove_transport remove_registered take_session_skills_for_transport
  remove_transport-Distinct s t d = elim (Option-cases (lookup t s.rpc_sessions)) [
    | inl unknown ↦ rw unknown d
    | inr (handle, known) ↦ rw known (
        rw (remove_each-matching (btw_of T t) s.btw_requests d)
          (Distinct-retain (λ _ v. not (btw_of T t v)) s.btw_requests d))
  ]

  remove_transport-IsRouted :
      (s : State) (t : String)
      → Distinct s.btw_requests
      → IsRouted s
      → IsRouted (remove_transport T s t).0
  unfolding remove_transport
  remove_transport-IsRouted s t d routed = elim (Option-cases (lookup t s.rpc_sessions)) [
    | inl unknown ↦ rw unknown routed
    | inr (handle, known) ↦ rw known (remove_registered-IsRouted s t handle d routed)
  ]

  insert_btw_request-Distinct :
      (s : State) (btw_id : String) (r : BtwRequestRoute)
      → Distinct s.btw_requests
      → Distinct (insert_btw_request T s btw_id r).0.btw_requests
  unfolding insert_btw_request
  insert_btw_request-Distinct s btw_id r d =
      elim (Bool-cases (contains_key btw_id s.btw_requests)) [
        | inl known ↦ rw known d
        | inr new ↦ rw new (Distinct-insert btw_id r s.btw_requests d)
      ]

  -- The calls that take out or add questions, take out commands, or remove a transport.
  pub data BtwCall : Type 0 where
    insert_question : String → BtwRequestRoute → BtwCall
    remove_question : String → BtwCall
    take_command : String → BtwCall
    drop_transport : String → BtwCall

  unfoldable pub apply_btw : State → BtwCall → State
  unfolding insert_btw_request remove_btw_request take_pending_btw_command remove_transport
  apply_btw s (insert_question btw_id r) = (insert_btw_request T s btw_id r).0
  apply_btw s (remove_question btw_id) = (remove_btw_request T s btw_id).0
  apply_btw s (take_command command_id) = (take_pending_btw_command T s command_id).0
  apply_btw s (drop_transport t) = (remove_transport T s t).0

  unfoldable pub apply_btws : State → List BtwCall → State
  unfolding apply_btw
  apply_btws s [] = s
  apply_btws s (call ∷ calls) = apply_btws (apply_btw s call) calls

  apply_btw-IsRouted :
      (s : State) (call : BtwCall)
      → Distinct s.btw_requests
      → IsRouted s
      → Distinct (apply_btw s call).btw_requests × IsRouted (apply_btw s call)
  unfolding apply_btw insert_btw_request remove_btw_request take_pending_btw_command
  apply_btw-IsRouted s (insert_question btw_id r) d routed =
      (insert_btw_request-Distinct s btw_id r d, insert_btw_request-IsRouted s btw_id r routed)
  apply_btw-IsRouted s (remove_question btw_id) d routed =
      (Distinct-remove btw_id s.btw_requests d, remove_btw_request-IsRouted s btw_id routed)
  apply_btw-IsRouted s (take_command command_id) d routed = (
    d,
    AllValues-remove (λ c. contains_key c.btw_id s.btw_requests ≡ true) command_id
        s.pending_btw_commands routed,
  )
  apply_btw-IsRouted s (drop_transport t) d routed =
      (remove_transport-Distinct s t d, remove_transport-IsRouted s t d routed)

  -- If the side questions have each key once and every pending command is for a registered question,
  -- then so it is after any calls that insert or remove questions, take commands or remove
  -- transports: no command is left without its question.
  pub calls-IsRouted :
      (calls : List BtwCall) (s : State)
      → Distinct s.btw_requests
      → IsRouted s
      → IsRouted (apply_btws s calls)
  unfolding apply_btws
  calls-IsRouted [] s d routed = routed
  calls-IsRouted (call ∷ calls) s d routed =
      let (d', routed') = apply_btw-IsRouted s call d routed in
      calls-IsRouted calls (apply_btw s call) d' routed'
