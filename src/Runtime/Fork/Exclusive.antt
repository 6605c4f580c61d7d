-- ===== src/Runtime/Fork/Exclusive.antt =====
-- At most one session fork is pending on a transport.
use fura.Base.{
  ℕ, true, false, ◌||◌, some, List, [], ◌∷◌, String, str_eq, ◌≡◌, refl, sym, ◌∙◌, arith, eq_iff,
  Bool-cases, Option-cases, inl, inr,
}
use fura.Base.Table.{
  lookup, contains_key, any_value, any_value-false, AllValues-lookup, Exclusive, Exclusive-insert,
  Exclusive-remove, Exclusive-map_values, Exclusive-move, remove_each, matching,
  Exclusive-remove_each,
}
use fura.Runtime.State.{PendingSessionFork, Payloads, SessionRuntimeState, RpcSessionHandle}
use fura.Runtime.Transport.{remove_transport, remove_registered, take_session_skills_for_transport}
use fura.Runtime.Fork.Defs.{
  Forks, insert_pending_session_fork, take_pending_session_fork, await_state,
  transition_session_fork_to_get_state, detach_fork, detach_session_fork_connection,
}

-- Two forks of one transport.
abbrev pub SameTransport : PendingSessionFork → PendingSessionFork → Type 0
SameTransport f g = f.transport_session_id ≡ g.transport_session_id

-- The calls that change the registry, and the part of `remove_transport` that does.
pub data ForkCall : Type 0 where
  insert_fork : String → PendingSessionFork → ForkCall
  take_fork : String → ForkCall
  transition : String → String → ForkCall
  detach : ℕ → ForkCall
  transport_removed : String → ForkCall

unfoldable pub apply : Forks → ForkCall → Forks
apply m (insert_fork id fork) = (insert_pending_session_fork m id fork).0
apply m (take_fork id) = (take_pending_session_fork m id).0
apply m (transition id id') = (transition_session_fork_to_get_state m id id').0
apply m (detach connection_id) = detach_session_fork_connection m connection_id
apply m (transport_removed t) = remove_each (matching (λ f. str_eq f.transport_session_id t) m) m

unfoldable pub apply_all : Forks → List ForkCall → Forks
apply_all m [] = m
apply_all m (call ∷ calls) = apply_all (apply m call) calls

insert-Exclusive :
    (m : Forks) (id : String) (fork : PendingSessionFork)
    → Exclusive SameTransport m
    → Exclusive SameTransport (insert_pending_session_fork m id fork).0
unfolding insert_pending_session_fork
insert-Exclusive m id fork x =
    let busy =
      λ (f : PendingSessionFork). str_eq f.transport_session_id fork.transport_session_id in
    elim (Bool-cases (contains_key id m || any_value busy m)) [
      | inl refused ↦ rw refused x
      | inr free ↦
          let others = any_value-false busy m (ground arith) in
          let apart : (j : String) (g : PendingSessionFork)
              → lookup j m ≡ some g
              → ¬ SameTransport g fork =
            λ j g found same. cc (
              AllValues-lookup (λ f. busy f ≡ false) j m others found,
              (eq_iff g.transport_session_id fork.transport_session_id).1 same,
            ) in
          rw free (
            Exclusive-insert SameTransport id fork m (λ j g found same. apart j g found (sym same))
              apart x)
    ]

transition-Exclusive :
    (m : Forks) (id id' : String)
    → Exclusive SameTransport m
    → Exclusive SameTransport (transition_session_fork_to_get_state m id id').0
unfolding transition_session_fork_to_get_state await_state
transition-Exclusive m id id' x = elim (Bool-cases (contains_key id' m)) [
  | inl taken ↦ rw taken x
  | inr free ↦ rw free (elim (Option-cases (lookup id m)) [
    | inl gone ↦ rw gone x
    | inr (fork, found) ↦ rw found (
        Exclusive-move SameTransport id id' fork (record fork { awaiting_state = true }) m found
          (λ w h. h) (λ w h. h) x)
  ])
]

detach_fork_transport :
    (c : ℕ) (fork : PendingSessionFork)
    → (detach_fork c fork).transport_session_id ≡ fork.transport_session_id
unfolding detach_fork
detach_fork_transport c fork = ground arith

apply-Exclusive :
    (m : Forks) (call : ForkCall)
    → Exclusive SameTransport m
    → Exclusive SameTransport (apply m call)
unfolding apply take_pending_session_fork detach_session_fork_connection
apply-Exclusive m (insert_fork id fork) x = insert-Exclusive m id fork x
apply-Exclusive m (take_fork id) x = Exclusive-remove SameTransport id m x
apply-Exclusive m (transition id id') x = transition-Exclusive m id id' x
apply-Exclusive m (detach c) x =
    Exclusive-map_values SameTransport (detach_fork c) m
      (λ v w h. sym (detach_fork_transport c v) ∙ h ∙ detach_fork_transport c w) x
apply-Exclusive m (transport_removed t) x =
    Exclusive-remove_each SameTransport (matching (λ f. str_eq f.transport_session_id t) m) m x

-- `remove_transport` of a registered transport changes the registry so.
remove_transport-forks :
    (T : Payloads) (s : SessionRuntimeState T) (t : String) (handle : RpcSessionHandle T)
    → lookup t s.rpc_sessions ≡ some handle
    → (remove_transport T s t).0.pending_session_forks
      ≡ apply s.pending_session_forks (transport_removed t)
unfolding remove_transport remove_registered take_session_skills_for_transport apply
remove_transport-forks T s t handle known = rw known refl

apply_all_from :
    (calls : List ForkCall) (m : Forks)
    → Exclusive SameTransport m
    → Exclusive SameTransport (apply_all m calls)
unfolding apply_all
apply_all_from [] m x = x
apply_all_from (call ∷ calls) m x = apply_all_from calls (apply m call) (apply-Exclusive m call x)

-- From an empty registry, along any insertions, removals by command, transitions, detachments of
-- connections and removals of transports, no two pending forks are on one transport.
pub forks-Exclusive :
    (calls : List ForkCall) (i j : String) (f g : PendingSessionFork)
    → lookup i (apply_all [] calls) ≡ some f
    → lookup j (apply_all [] calls) ≡ some g
    → f.transport_session_id ≡ g.transport_session_id
    → i ≡ j
unfolding lookup
forks-Exclusive calls = apply_all_from calls [] (λ i j f g h. absurd (cc))
