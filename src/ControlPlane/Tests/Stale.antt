-- ===== src/ControlPlane/Tests/Stale.antt =====
-- The theorems on stale hosts, at a host that was seen ten seconds ago and one that was seen long ago.
use jenkins_qemu_provisioner.Prelude.{◌≡◌, some, [], ◌∷◌, ◌==◌, string_eq}
use jenkins_qemu_provisioner.ControlPlane.Models.{Host}
use jenkins_qemu_provisioner.ControlPlane.World.{ok, World}
use jenkins_qemu_provisioner.ControlPlane.Scaler.Eligibility.{host_schedulable}
use jenkins_qemu_provisioner.ControlPlane.Gc.{host_availability, gc_hosts_once}
use jenkins_qemu_provisioner.ControlPlane.Gc.Laws.{
  stale_event, host_availability-host_schedulable, gc_hosts_once_reports,
}
use jenkins_qemu_provisioner.ControlPlane.Tests.{services, settings, host, world}

abbrev old_host : Host
old_host = record host { host_id = "host-0"; last_seen = some 1000000 }

abbrev old_world : World
old_world = record world { hosts = old_host ∷ host ∷ [] }

host_availability-host_schedulable_example :
    (host_availability settings 100000000 host == "AVAILABLE")
    ≡ (host_schedulable services settings 0 host).0
host_availability-host_schedulable_example =
    host_availability-host_schedulable services settings 0 host

gc_hosts_once_reports_example : gc_hosts_once services settings old_world ≡ (
  ok tt,
  record old_world { readings = 1; events = stale_event services settings old_host ∷ [] },
)
unfolding host_availability
gc_hosts_once_reports_example = gc_hosts_once_reports services settings old_world
