-- ===== src/Runtime/Rewind/Exclusive.antt =====
-- At most one rewind that changes a transport's conversation is pending on it.
use fura.Base.{
  ℕ, true, false, ◌||◌, Option, none, some, List, [], ◌∷◌, String, str_eq, ◌≡◌, refl, sym, ◌∙◌,
  arith, eq_iff, Bool-cases, inl, inr,
}
use fura.Base.Table.{
  lookup, contains_key, any_value, any_value-false, AllValues-lookup, Exclusive, Exclusive-insert,
  Exclusive-remove, Exclusive-map_values, Exclusive-move, remove_each, matching,
  Exclusive-remove_each,
}
use fura.Runtime.State.{
  Payloads, SessionRuntimeState, RpcSessionHandle, RewindRoute, RewindOutcome, PendingRewindRpc,
  list, branch, branch_get_state,
}
use fura.Runtime.Transport.{
  route, remove_transport, remove_registered, take_session_skills_for_transport,
}
use fura.Runtime.Rewind.Defs.{
  Rewinds, is_mutation, blocks, insert_pending_rewind_list, insert_pending_rewind_branch,
  take_pending_rewind_rpc, refresh_after, transition_rewind_branch_to_get_state, detach_route,
  detach_rewind, detach_rewind_connection,
}

module _ (T : Payloads) where
  -- Two mutations of one transport.
  abbrev pub BothMutate : PendingRewindRpc T → PendingRewindRpc T → Type 0
  BothMutate v w =
      (is_mutation T v ≡ true)
      × (is_mutation T w ≡ true)
      × ((route T v).transport_session_id ≡ (route T w).transport_session_id)

  -- The calls that change the registry, and the part of `remove_transport` that does.
  pub data RewindCall : Type 0 where
    insert_list : String → RewindRoute → RewindCall
    insert_branch : String → RewindRoute → RewindCall
    take_rewind : String → RewindCall
    transition : String → String → RewindOutcome T → RewindCall
    detach : ℕ → RewindCall
    transport_removed : String → RewindCall

  unfoldable pub apply : Rewinds T → RewindCall → Rewinds T
  apply m (insert_list id r) = (insert_pending_rewind_list T m id r).0
  apply m (insert_branch id r) = (insert_pending_rewind_branch T m id r).0
  apply m (take_rewind id) = (take_pending_rewind_rpc T m id).0
  apply m (transition id id' outcome) = (transition_rewind_branch_to_get_state T m id id' outcome).0
  apply m (detach connection_id) = detach_rewind_connection T m connection_id
  apply m (transport_removed t) =
      remove_each (matching (λ v. str_eq (route T v).transport_session_id t) m) m

  unfoldable pub apply_all : Rewinds T → List RewindCall → Rewinds T
  apply_all m [] = m
  apply_all m (call ∷ calls) = apply_all (apply m call) calls

  -- What the guard of an insertion has ruled out.
  unblocked :
      (m : Rewinds T) (r : RewindRoute) (id : String) (j : String) (w : PendingRewindRpc T)
      → (contains_key id m || any_value (blocks T r) m) ≡ false
      → lookup j m ≡ some w
      → is_mutation T w ≡ true
      → (route T w).transport_session_id ≡ r.transport_session_id
      → ⊥
  unblocked m r id j w free found mutates same = cc (
    AllValues-lookup (λ v. blocks T r v ≡ false) j m (any_value-false (blocks T r) m (ground arith))
        found,
    mutates,
    (eq_iff (route T w).transport_session_id r.transport_session_id).1 same,
  )

  insert_list-Exclusive :
      (m : Rewinds T) (id : String) (r : RewindRoute)
      → Exclusive BothMutate m
      → Exclusive BothMutate (insert_pending_rewind_list T m id r).0
  unfolding insert_pending_rewind_list
  insert_list-Exclusive m id r x =
      elim (Bool-cases (contains_key id m || any_value (blocks T r) m)) [
        | inl refused ↦ rw refused x
        | inr free ↦ rw free (
            Exclusive-insert BothMutate id (list r) m (λ j w found clash. cc (clash.0))
              (λ j w found clash. cc (clash.1)) x)
      ]

  insert_branch-Exclusive :
      (m : Rewinds T) (id : String) (r : RewindRoute)
      → Exclusive BothMutate m
      → Exclusive BothMutate (insert_pending_rewind_branch T m id r).0
  unfolding insert_pending_rewind_branch
  insert_branch-Exclusive m id r x =
      elim (Bool-cases (contains_key id m || any_value (blocks T r) m)) [
        | inl refused ↦ rw refused x
        | inr free ↦ rw free (
            Exclusive-insert BothMutate id (branch r) m
              (λ j w found clash. unblocked m r id j w free found clash.1 (sym clash.2))
              (λ j w found clash. unblocked m r id j w free found clash.0 clash.2) x)
      ]

  refresh_after-Exclusive :
      (m : Rewinds T) (id id' : String) (outcome : RewindOutcome T)
      (o : Option (PendingRewindRpc T))
      → lookup id m ≡ o
      → Exclusive BothMutate m
      → Exclusive BothMutate (refresh_after T m id id' outcome o).0
  unfolding refresh_after
  refresh_after-Exclusive m id id' outcome none found x = x
  refresh_after-Exclusive m id id' outcome (some (list r)) found x = x
  refresh_after-Exclusive m id id' outcome (some (branch r)) found x =
      Exclusive-move BothMutate id id' (branch r) (branch_get_state r outcome) m found (λ w h. h)
        (λ w h. h) x
  refresh_after-Exclusive m id id' outcome (some (branch_get_state r o)) found x = x

  transition-Exclusive :
      (m : Rewinds T) (id id' : String) (outcome : RewindOutcome T)
      → Exclusive BothMutate m
      → Exclusive BothMutate (transition_rewind_branch_to_get_state T m id id' outcome).0
  unfolding transition_rewind_branch_to_get_state
  transition-Exclusive m id id' outcome x = elim (Bool-cases (contains_key id' m)) [
    | inl taken ↦ rw taken x
    | inr free ↦ rw free (refresh_after-Exclusive m id id' outcome (lookup id m) refl x)
  ]

  detach_route_transport :
      (c : ℕ) (r : RewindRoute) → (detach_route c r).transport_session_id ≡ r.transport_session_id
  unfolding detach_route
  detach_route_transport c r = ground arith

  detach_rewind_keeps :
      (c : ℕ) (v : PendingRewindRpc T)
      → (is_mutation T (detach_rewind T c v) ≡ is_mutation T v)
        × ((route T (detach_rewind T c v)).transport_session_id ≡ (route T v).transport_session_id)
  unfolding detach_rewind
  detach_rewind_keeps c (list r) = (refl, detach_route_transport c r)
  detach_rewind_keeps c (branch r) = (refl, detach_route_transport c r)
  detach_rewind_keeps c (branch_get_state r o) = (refl, detach_route_transport c r)

  detach_rewind_back :
      (c : ℕ) (v w : PendingRewindRpc T)
      → BothMutate (detach_rewind T c v) (detach_rewind T c w)
      → BothMutate v w
  detach_rewind_back c v w h =
      let (mv, tv) = detach_rewind_keeps c v in
      let (mw, tw) = detach_rewind_keeps c w in (sym mv ∙ h.0, sym mw ∙ h.1, sym tv ∙ h.2 ∙ tw)

  apply-Exclusive :
      (m : Rewinds T) (call : RewindCall)
      → Exclusive BothMutate m
      → Exclusive BothMutate (apply m call)
  unfolding apply take_pending_rewind_rpc detach_rewind_connection
  apply-Exclusive m (insert_list id r) x = insert_list-Exclusive m id r x
  apply-Exclusive m (insert_branch id r) x = insert_branch-Exclusive m id r x
  apply-Exclusive m (take_rewind id) x = Exclusive-remove BothMutate id m x
  apply-Exclusive m (transition id id' outcome) x = transition-Exclusive m id id' outcome x
  apply-Exclusive m (detach c) x =
      Exclusive-map_values BothMutate (detach_rewind T c) m (detach_rewind_back c) x
  apply-Exclusive m (transport_removed t) x =
      Exclusive-remove_each BothMutate (matching (λ v. str_eq (route T v).transport_session_id t) m)
        m x

  -- `remove_transport` of a registered transport changes the registry so.
  remove_transport-rewinds :
      (s : SessionRuntimeState T) (t : String) (handle : RpcSessionHandle T)
      → lookup t s.rpc_sessions ≡ some handle
      → (remove_transport T s t).0.pending_rewind_rpcs
        ≡ apply s.pending_rewind_rpcs (transport_removed t)
  unfolding remove_transport remove_registered take_session_skills_for_transport apply
  remove_transport-rewinds s t handle known = rw known refl

  apply_all_from :
      (calls : List RewindCall) (m : Rewinds T)
      → Exclusive BothMutate m
      → Exclusive BothMutate (apply_all m calls)
  unfolding apply_all
  apply_all_from [] m x = x
  apply_all_from (call ∷ calls) m x = apply_all_from calls (apply m call) (apply-Exclusive m call x)

  -- From an empty registry, along any insertions, removals by command, transitions, detachments of
  -- connections and removals of transports, no two pending rewinds that change the conversation are
  -- on one transport.
  pub rewinds-Exclusive :
      (calls : List RewindCall) (i j : String) (v w : PendingRewindRpc T)
      → lookup i (apply_all [] calls) ≡ some v
      → lookup j (apply_all [] calls) ≡ some w
      → is_mutation T v ≡ true
      → is_mutation T w ≡ true
      → (route T v).transport_session_id ≡ (route T w).transport_session_id
      → i ≡ j
  unfolding lookup
  rewinds-Exclusive calls i j v w hi hj mv mw same =
      apply_all_from calls [] (λ i j v w h. absurd (cc)) i j v w hi hj (mv, mw, same)
