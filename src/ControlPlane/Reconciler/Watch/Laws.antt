-- ===== src/ControlPlane/Reconciler/Watch/Laws.antt =====
-- `_apply_runtime_transitions` of control_plane/services/reconciler.py against the table of
-- transitions.
use jenkins_qemu_provisioner.Prelude.{
  ◌+◌, String, ◌≡◌, refl, Bool, true, false, some, List, [], ◌∷◌, arith, string_eq, subst, sym, ◌≢◌,
  inl, inr, Bool-cases, row-write, row-key, eq_iff, ◌==◌,
}
use jenkins_qemu_provisioner.Json.{str}
use jenkins_qemu_provisioner.ControlPlane.Models.{LeaseState, booting, connected, running, Lease}
use jenkins_qemu_provisioner.ControlPlane.World.{
  NodeRuntimeStatus, Result, ok, Outside, World, Action, get_lease, save_lease, for_each,
  write_event,
}
use jenkins_qemu_provisioner.ControlPlane.StateMachine.{can_transition, same_state, state_eq}
use jenkins_qemu_provisioner.ControlPlane.StateMachine.Paths.{Chain, here, next}
use jenkins_qemu_provisioner.ControlPlane.Reconciler.Watch.{
  target, write_transition, apply_runtime_transitions,
}

connects : Chain booting connected
unfolding can_transition
connects = next here refl

runs : Chain connected running
unfolding can_transition
runs = next here refl

connects_and_runs : Chain booting running
unfolding can_transition
connects_and_runs = next connects refl

unmoved :
    (status : NodeRuntimeStatus) (s : LeaseState)
    → same_state s booting ≡ false
    → same_state s connected ≡ false
    → (target status s).0 ≡ s
unfolding target
unmoved status booting h k = ground arith
unmoved status connected h k = ground arith
unmoved status s h k = ground arith

-- The state that the runtime status of a node moves a lease to is reached by transitions that the
-- table allows, from any state.
pub target-Chain : (status : NodeRuntimeStatus) (s : LeaseState) → Chain s (target status s).0
unfolding target
target-Chain status booting = go status.connected status.busy
  where
    go : (c b : Bool) → Chain booting (target (record { connected = c; busy = b }) booting).0
    go true true = connects_and_runs
    go true false = connects
    go false b = here
target-Chain status connected = go status.connected status.busy
  where
    go : (c b : Bool) → Chain connected (target (record { connected = c; busy = b }) connected).0
    go true true = runs
    go true false = here
    go false b = here
target-Chain status s = subst (Chain s) (sym (unmoved status s refl refl)) here

-- A lease moves only when its node is connected, and it runs only when the node is busy as well.
pub target_needs :
    (status : NodeRuntimeStatus) (s : LeaseState)
    → (target status s).0 ≢ s
    → (status.connected ≡ true) × ((target status s).0 ≡ running → status.busy ≡ true)
unfolding target
target_needs status s h = ground arith

module _ (o : Outside) where
  events_written :
      (event : String → Action (Unit {0})) (events : List String) (w : World)
      → ((e : String) (v : World) → ((event e v).0 ≡ ok tt) × ((event e v).1.leases ≡ v.leases))
      → ((for_each events event w).0 ≡ ok tt) × ((for_each events event w).1.leases ≡ w.leases)
  unfolding for_each
  events_written event [] w h = (refl, refl)
  events_written event (e ∷ events) w h =
      let (fine, kept) = h e w in
      let ih = events_written event events (event e w).1 h in ground arith

  -- What `_apply_runtime_transitions` leaves of a lease and of its row.
  Moves : Lease → Lease → LeaseState → Result Lease × World → Type 0
  Moves l row s after =
      (after.0 ≡ ok (record l { state = s }))
      × (row' : Lease) × (get_lease l.lease_id after.1 ≡ some row')
      × (row'.state ≡ s)

  written :
      (l row : Lease) (s : LeaseState) (events : List String) (w : World)
      → get_lease l.lease_id w ≡ some row
      → Moves l row s (write_transition o l s events (some row) w)
  unfolding write_transition Moves
  written l row s events w h =
      let key = row-key (λ (x : Lease). x.lease_id) l.lease_id row w.leases h in
      let row' = record row { state = s; updated_at = o.clock w.readings } in
      let event : String → Action (Unit {0}) =
        λ e. write_event e (("jenkins_node", str l.jenkins_node) ∷ []) (some l.lease_id) in
      let saved : World = (save_lease row' (record w { readings = w.readings + 1 })).1 in
      let done = events_written event events saved (λ e v. (refl, refl)) in
      let stored = row-write (λ (x : Lease). x.lease_id) l.lease_id row' w.leases in
      (ground arith, row', ground (arith, eq_iff row.lease_id l.lease_id), refl)

  -- What the theorem below says of a lease, of its row, and of a result.
  IsChained : Lease → Lease → Result Lease × World → Type 0
  IsChained l row after =
      (l' row' : Lease) × (after.0 ≡ ok l')
      × (get_lease l.lease_id after.1 ≡ some row')
      × (row'.state ≡ l'.state)
      × Chain row.state row'.state

  moved :
      (l row : Lease) (s : LeaseState) (after : Result Lease × World)
      → Chain row.state s
      → Moves l row s after
      → IsChained l row after
  unfolding Moves IsChained
  moved l row s after chain (answer, row', stored, state) = (
    record l { state = s },
    row',
    answer,
    stored,
    state,
    subst (Chain row.state) (sym state) chain,
  )

  -- Where the row of a lease is in the state of the copy that is watched,
  -- `_apply_runtime_transitions` raises nothing, and leaves the copy and the row in one state, which
  -- transitions that the table allows lead to.
  pub apply_runtime_transitions-Chain :
      (l : Lease) (status : NodeRuntimeStatus) (w : World) (row : Lease)
      → get_lease l.lease_id w ≡ some row
      → row.state ≡ l.state
      → let after = apply_runtime_transitions o l status w in
        (l' row' : Lease) × (after.0 ≡ ok l')
        × (get_lease l.lease_id after.1 ≡ some row')
        × (row'.state ≡ l'.state)
        × Chain row.state row'.state
  unfolding apply_runtime_transitions IsChained
  apply_runtime_transitions-Chain l status w row h same =
      let (s, events) = target status l.state in
      elim (Bool-cases (s == l.state)) [
        | inl still ↦ subst (IsChained l row) (sym (by_still still)) (l, row, refl, h, same, here)
        | inr moves ↦ subst (IsChained l row) (sym (by_move moves)) (
            moved l row s (write_transition o l s events (some row) w)
              (subst (λ x. Chain x s) (sym same) (target-Chain status l.state))
              (written l row s events w h))
      ]
    where
      by_still :
          ((target status l.state).0 == l.state) ≡ true
          → apply_runtime_transitions o l status w ≡ (ok l, w)
      by_still still = ground arith

      by_move :
          ((target status l.state).0 == l.state) ≡ false
          → apply_runtime_transitions o l status w
            ≡ write_transition o l (target status l.state).0 (target status l.state).1 (some row) w
      by_move moves = ground (arith, h)
