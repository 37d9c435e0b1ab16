-- ===== src/ControlPlane/Api/Laws.antt =====
-- What the endpoint for a manual termination does to a lease.
use jenkins_qemu_provisioner.Prelude.{
  String, ◌≡◌, ◌≢◌, some, row-write, row-key, arith, eq_iff, string_eq,
}
use jenkins_qemu_provisioner.ControlPlane.Models.{Lease, terminated}
use jenkins_qemu_provisioner.ControlPlane.World.{Outside, World, ok, get_lease}
use jenkins_qemu_provisioner.ControlPlane.StateMachine.{same_state_iff}
use jenkins_qemu_provisioner.ControlPlane.Api.{terminate_lease, to_terminate}

-- A manual termination of a lease that has a row succeeds. The lease stays as it is if it is
-- TERMINATED, and else it is TERMINATING with the reason, for the reconciler to end.
pub terminate_lease_marks :
    (o : Outside) (lease_id reason : String) (w : World) (l : Lease)
    → get_lease lease_id w ≡ some l
    → let (r, w') = terminate_lease o lease_id reason w in
      (r ≡ ok tt)
      × (l.state ≡ terminated → get_lease lease_id w' ≡ some l)
      × (l.state ≢ terminated
          → get_lease lease_id w' ≡ some (to_terminate o reason (o.clock w.readings) l))
unfolding terminate_lease
terminate_lease_marks o lease_id reason w l h =
    let k = row-key (λ (x : Lease). x.lease_id) lease_id l w.leases h in
    ground (
      arith,
      same_state_iff l.state terminated,
      row-write (λ (x : Lease). x.lease_id) lease_id (to_terminate o reason (o.clock w.readings) l)
          w.leases,
      eq_iff l.lease_id lease_id,
    )
