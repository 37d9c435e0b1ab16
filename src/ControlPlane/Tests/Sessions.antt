-- ===== src/ControlPlane/Tests/Sessions.antt =====
-- The theorems on the endpoints, at a host that registers and a lease that is booting.
use jenkins_qemu_provisioner.Prelude.{◌≡◌, ◌≢◌, refl, true, none, some, [], ◌∷◌, row, arith}
use jenkins_qemu_provisioner.ControlPlane.Models.{Host}
use jenkins_qemu_provisioner.ControlPlane.World.{ok, World}
use jenkins_qemu_provisioner.ControlPlane.Api.Auth.{
  bearer_token, secure_compare_token, new_session_token,
}
use jenkins_qemu_provisioner.ControlPlane.Api.Hosts.{
  RegisterHostRequest, RegisterHostResponse, HeartbeatRequest, register_host, heartbeat,
  disable_host, enable_host,
}
use jenkins_qemu_provisioner.ControlPlane.Api.Sessions.{
  IsAuthorised, heartbeat-IsAuthorised, disable_host_closes, heartbeat_after_register,
}
use jenkins_qemu_provisioner.ControlPlane.Tests.{services, settings, host, world}

abbrev open_host : Host
open_host = record host { session_token_hash = some "token"; session_expires_at = some 200000000 }

abbrev open_world : World
open_world = record world { hosts = open_host ∷ [] }

abbrev report : HeartbeatRequest
report = record {
  cpu_total = none;
  ram_total_mb = none;
  cpu_allocatable = none;
  ram_allocatable_mb = none;
  cpu_free = 4;
  ram_free_mb = 8192;
  io_pressure = 1;
  running_vm_ids = [];
  available_images = [];
  os_family = none;
  os_flavor = none;
  os_version = none;
  cpu_arch = none;
  qemu_binary = none;
  supported_accels = "kvm" ∷ [];
  selected_accel = some "kvm";
}

abbrev request : RegisterHostRequest
request = record {
  agent_version = "1";
  qemu_version = "9";
  cpu_total = 8;
  ram_total_mb = 16384;
  cpu_allocatable = some 6;
  ram_allocatable_mb = none;
  base_image_ids = "debian" ∷ [];
  available_images = [];
  addr = "http://host-2:9000";
  os_family = none;
  os_flavor = none;
  os_version = none;
  cpu_arch = none;
  qemu_binary = none;
  supported_accels = "kvm" ∷ [];
  selected_accel = some "kvm";
}

abbrev response : RegisterHostResponse
response = record {
  host_id = "host-2";
  enabled = true;
  session_token = "token";
  session_expires_at = 3700000000;
  heartbeat_interval_sec = 5;
}

heartbeat-IsAuthorised_example :
    IsAuthorised services "host-1" report (some "bearer token") open_world
unfolding heartbeat row bearer_token secure_compare_token
heartbeat-IsAuthorised_example =
    heartbeat-IsAuthorised services "host-1" report (some "bearer token") open_world refl

disable_host_closes_example :
    let w' = (disable_host "host-1" open_world).1 in
    let w'' = (enable_host "host-1" w').1 in
    ((heartbeat services "host-1" report (some "bearer token") w').0 ≢ ok tt)
    × ((heartbeat services "host-1" report (some "bearer token") w'').0 ≢ ok tt)
disable_host_closes_example =
    disable_host_closes services "host-1" report (some "bearer token") open_world

heartbeat_after_register_example :
    (heartbeat services "host-2" report
      (some "bearer token")
      (register_host services settings "host-2" request (some "bearer boot") world).1).0
    ≡ ok tt
unfolding register_host row bearer_token secure_compare_token new_session_token
heartbeat_after_register_example =
    heartbeat_after_register services settings "host-2" request (some "bearer boot")
      (some "bearer token") report world response refl refl refl refl (ground arith)
