-- ===== src/ControlPlane/Reconciler/Laws.antt =====
-- How `terminate_lease` of control_plane/services/reconciler.py ends, and a tick of the reconciler.
use jenkins_qemu_provisioner.Prelude.{
  String, ◌≡◌, refl, some, List, [], ◌∷◌, row, row-write, row-key, arith, eq_iff, string_eq, filter,
  not, ◌==◌, ◌+◌, Option, none, Option-cases, inl, inr, subst, sym,
}
use jenkins_qemu_provisioner.ControlPlane.StateMachine.{state_eq}
use jenkins_qemu_provisioner.ControlPlane.Models.{terminated, Settings, Time, Lease}
use jenkins_qemu_provisioner.ControlPlane.World.{
  Result, ok, raised, Outside, World, get_lease, for_each,
}
use jenkins_qemu_provisioner.ControlPlane.Reconciler.{
  reconcile_with_agent, reconcile_lease, reconcile_once,
}
use jenkins_qemu_provisioner.ControlPlane.Reconciler.Terminate.{
  host_of, terminate_lease, terminated_row, retried_row,
}

module _ (o : Outside) where
  module _ (host_id : String) (l : Lease) (reason : String) where
    -- What the row of the lease becomes, by the node agent's answer to the request to delete the VM.
    abbrev pub end_row : Result (Unit {0}) → Time → Lease → Lease
    end_row (ok _) now row = terminated_row o host_id l reason now row
    end_row (raised e) now row = retried_row o host_id l reason (o.str_exn e) now row

    -- The same where the lease may have no row: then it gets none.
    abbrev pub end_found : Result (Unit {0}) → Time → Option Lease → Option Lease
    end_found answer now none = none
    end_found answer now (some row) = some (end_row answer now row)

    IsEnded : World → Option Lease → Type 0
    IsEnded w found =
        ((terminate_lease o host_id l reason w).0 ≡ ok tt)
        × (get_lease l.lease_id (terminate_lease o host_id l reason w).1
            ≡ end_found (o.delete_vm w.calls host_id l.vm_id reason) (o.clock w.readings) found)

    without_row : (w : World) → get_lease l.lease_id w ≡ none → IsEnded w none
    unfolding terminate_lease IsEnded
    without_row w h = ground arith

    with_row : (w : World) (old : Lease) → get_lease l.lease_id w ≡ some old → IsEnded w (some old)
    unfolding terminate_lease IsEnded
    with_row w old h =
        let k = row-key (λ (x : Lease). x.lease_id) l.lease_id old w.leases h in
        ground (
          arith,
          row-write (λ (x : Lease). x.lease_id) l.lease_id
              (end_row (o.delete_vm w.calls host_id l.vm_id reason) (o.clock w.readings) old)
              w.leases,
          eq_iff old.lease_id l.lease_id,
        )

    -- Terminating a lease never raises, whether it has a row or not. Its row, if it has one, is
    -- TERMINATED if the node agent has confirmed that the VM is deleted, and TERMINATING with the
    -- error if it has not, whatever Jenkins answers; a lease without a row gets none.
    pub terminate_lease_settles :
        (w : World)
        → ((terminate_lease o host_id l reason w).0 ≡ ok tt)
          × (get_lease l.lease_id (terminate_lease o host_id l reason w).1
              ≡ end_found
                  (o.delete_vm w.calls host_id l.vm_id reason)
                  (o.clock w.readings)
                  (get_lease l.lease_id w))
    unfolding IsEnded
    terminate_lease_settles w = elim (Option-cases (get_lease l.lease_id w)) [
      | inl missing ↦ subst (IsEnded w) (sym missing) (without_row w missing)
      | inr (old, stored) ↦ subst (IsEnded w) (sym stored) (with_row w old stored)
    ]

  module _ (s : Settings) where
    -- The world after each of the leases was handled, one after the other.
    abbrev pub handle_all : Time → List Lease → World → World
    handle_all now [] w = w
    handle_all now (l ∷ ls) w = handle_all now ls (reconcile_lease o s now l w).1

    module _ (makes : (host_id : String) → o.node_agent_factory host_id ≡ ok tt) where
      reconcile_lease_ok :
          (now : Time) (l : Lease) (w : World) → (reconcile_lease o s now l w).0 ≡ ok tt
      unfolding reconcile_lease reconcile_with_agent
      reconcile_lease_ok now l w = ground (arith, makes (host_of l))

      all_ok :
          (now : Time) (ls : List Lease) (w : World)
          → for_each ls (reconcile_lease o s now) w ≡ (ok tt, handle_all now ls w)
      unfolding for_each
      all_ok now [] w = refl
      all_ok now (l ∷ ls) w =
          ground (arith, reconcile_lease_ok now l w, all_ok now ls (reconcile_lease o s now l w).1)

      -- A tick of the reconciler comes to the end of its leases, where a client of the node agent can be
      -- made for every host: it raises nothing, and each lease that is not TERMINATED is handled in its
      -- turn, whatever Jenkins or a node agent answers or raises for those before it.
      pub reconcile_once_ends :
          (w : World)
          → let leases = filter (λ (l : Lease). not (l.state == terminated)) w.leases in
            reconcile_once o s w ≡ (
              ok tt,
              handle_all (o.clock w.readings) leases (record w { readings = w.readings + 1 }),
            )
      unfolding reconcile_once
      reconcile_once_ends w =
          all_ok (o.clock w.readings) (filter (λ (l : Lease). not (l.state == terminated)) w.leases)
            (record w { readings = w.readings + 1 })
