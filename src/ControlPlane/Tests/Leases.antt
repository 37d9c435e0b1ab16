-- ===== src/ControlPlane/Tests/Leases.antt =====
-- The theorems on leases and hosts, at a lease that is booting on a host.
use jenkins_qemu_provisioner.Prelude.{◌≡◌, refl, true, [], ◌∷◌, none, some, row}
use jenkins_qemu_provisioner.ControlPlane.Models.{booting, Lease}
use jenkins_qemu_provisioner.ControlPlane.World.{ok, get_lease}
use jenkins_qemu_provisioner.ControlPlane.StateMachine.Paths.{Chain}
use jenkins_qemu_provisioner.ControlPlane.Repositories.{update_host_heartbeat}
use jenkins_qemu_provisioner.ControlPlane.Repositories.Capacity.{
  HasCapacity, update_host_heartbeat-HasCapacity,
}
use jenkins_qemu_provisioner.ControlPlane.Reconciler.{reconcile_once}
use jenkins_qemu_provisioner.ControlPlane.Reconciler.Terminate.{terminate_lease, retried_row}
use jenkins_qemu_provisioner.ControlPlane.Reconciler.Laws.{
  terminate_lease_settles, handle_all, reconcile_once_ends,
}
use jenkins_qemu_provisioner.ControlPlane.Reconciler.Watch.{apply_runtime_transitions}
use jenkins_qemu_provisioner.ControlPlane.Reconciler.Watch.Laws.{apply_runtime_transitions-Chain}
use jenkins_qemu_provisioner.ControlPlane.Tests.{services, settings, host, lease, world}

update_host_heartbeat-HasCapacity_example :
    HasCapacity (update_host_heartbeat host (some 4) none (some 6) none 20 20000 1 100000000)
update_host_heartbeat-HasCapacity_example =
    update_host_heartbeat-HasCapacity host (some 4) none (some 6) none 20 20000 1 100000000

terminate_lease_settles_example :
    ((terminate_lease services "host-1" lease "ttl_expired" world).0 ≡ ok tt)
    × (get_lease "lease-1" (terminate_lease services "host-1" lease "ttl_expired" world).1
        ≡ some (retried_row services "host-1" lease "ttl_expired" "boom" 100000000 lease))
unfolding row
terminate_lease_settles_example =
    terminate_lease_settles services "host-1" lease "ttl_expired" world

reconcile_once_ends_example :
    reconcile_once services settings world
    ≡ (ok tt, handle_all services settings 100000000 (lease ∷ []) (record world { readings = 1 }))
reconcile_once_ends_example = reconcile_once_ends services settings (λ host_id. refl) world

apply_runtime_transitions-Chain_example :
    let after =
      apply_runtime_transitions services lease (record { connected = true; busy = true }) world in
    (l' row' : Lease) × (after.0 ≡ ok l')
    × (get_lease "lease-1" after.1 ≡ some row')
    × (row'.state ≡ l'.state)
    × Chain booting row'.state
unfolding row
apply_runtime_transitions-Chain_example =
    apply_runtime_transitions-Chain services lease (record { connected = true; busy = true }) world
      lease refl refl
