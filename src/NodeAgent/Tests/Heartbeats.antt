-- ===== src/NodeAgent/Tests/Heartbeats.antt =====
-- The theorems on the agent's settings, reports and loop, at an agent whose host the control plane
-- does not know yet, and at one whose host is disabled.
use Prim.Native.String.{String}
use jenkins_qemu_provisioner.Prelude.{
  ℕ, ◌-◌, ◌≡◌, refl, true, concat, none, some, [], ◌∷◌, row, arith, string_eq,
}
use jenkins_qemu_provisioner.ControlPlane.Models.{Host}
use jenkins_qemu_provisioner.ControlPlane.World.{Exn, http_exception, Outside, World, get_host}
use jenkins_qemu_provisioner.ControlPlane.Api.Auth.{
  bearer_token, secure_compare_token, new_session_token,
}
use jenkins_qemu_provisioner.ControlPlane.Api.Hosts.{
  RegisterHostRequest, RegisterHostResponse, HeartbeatRequest, register_host, disable_host,
}
use jenkins_qemu_provisioner.ControlPlane.Api.Schemas.{is_valid_register, is_valid_heartbeat}
use jenkins_qemu_provisioner.ControlPlane.Tests as Plane
use jenkins_qemu_provisioner.NodeAgent.Config.{
  AgentSettings, Platform, completed_settings, get_agent_settings, is_valid_platform,
  detect_supported_accels, detect_family, resolve_accel,
}
use jenkins_qemu_provisioner.NodeAgent.Heartbeat.{register_payload, heartbeat_payload}
use jenkins_qemu_provisioner.NodeAgent.Heartbeat.Capacity.{Machine, current_capacity_snapshot}
use jenkins_qemu_provisioner.NodeAgent.Heartbeat.Laws.{
  taken, current_capacity_snapshot_counts, payloads-IsValid,
}
use jenkins_qemu_provisioner.NodeAgent.Heartbeat.Worker.{
  Server, Loop, beat, status_error, new_session, pass, heartbeat_worker,
}
use jenkins_qemu_provisioner.NodeAgent.Heartbeat.Worker.Sessions.{InOrder}
use jenkins_qemu_provisioner.NodeAgent.Heartbeat.Worker.Laws.{heartbeat_worker-InOrder}
use jenkins_qemu_provisioner.NodeAgent.Heartbeat.Composed.{control_plane, Shows, pass-Shows}
use jenkins_qemu_provisioner.NodeAgent.Heartbeat.Disabled.{disable_host_silences}
use jenkins_qemu_provisioner.NodeAgent.Tests.{settings, vm}

abbrev platform : Platform
platform = record {
  system = "linux";
  release = "6.1";
  machine = "x86_64";
  accel_help = some "kvm\ntcg\n";
}

abbrev started : AgentSettings
started = completed_settings platform (some "nvmm") settings

starts : get_agent_settings platform (some "nvmm") settings ≡ some started
unfolding get_agent_settings completed_settings detect_family detect_supported_accels resolve_accel
    is_valid_platform
starts = refl

-- The header's scheme in lower case.
abbrev services : Outside
services = record Plane.services { lower = λ _. "bearer token" }

-- What FastAPI answers for an exception.
abbrev error_response : Exn → ℕ × String
error_response (http_exception status detail) =
    (status, concat ("{\"detail\":\"" ∷ detail ∷ "\"}" ∷ []))
error_response _ = (500, "Internal Server Error")

abbrev plane : Server
plane = control_plane services Plane.settings "host-2" error_response "" (λ t. some t)

abbrev host_machine : Machine
host_machine = record { cpu_count = some 8; pages = some (4096, 4194304) }

abbrev report : RegisterHostRequest
report = register_payload started host_machine (vm ∷ []) []

abbrev payload : HeartbeatRequest
payload = heartbeat_payload started host_machine (vm ∷ []) [] 0

abbrev before : Loop World
before = record { session = new_session; server = Plane.world; readings = 0; requests = [] }

abbrev lower : String → String
lower s = s

abbrev clock : ℕ → ℕ
clock _ = 100000000

current_capacity_snapshot_counts_example :
    let c = current_capacity_snapshot settings host_machine (vm ∷ []) in
    (c.cpu_free ≡ c.cpu_allocatable - taken (λ v. v.vcpu) (vm ∷ []))
    × (c.ram_free_mb ≡ c.ram_allocatable_mb - taken (λ v. v.ram_mb) (vm ∷ []))
current_capacity_snapshot_counts_example =
    current_capacity_snapshot_counts settings host_machine (vm ∷ [])

payloads-IsValid_example : (is_valid_register report ≡ true) × (is_valid_heartbeat payload ≡ true)
payloads-IsValid_example = payloads-IsValid started host_machine (vm ∷ []) [] 0 refl

heartbeat_worker-InOrder_example :
    InOrder clock
      (heartbeat_worker lower clock "bootstrap" plane (λ _. (report, payload)) 3 before).requests
heartbeat_worker-InOrder_example =
    heartbeat_worker-InOrder lower clock "bootstrap" plane (λ _. (report, payload)) 3 Plane.world

abbrev response : RegisterHostResponse
response = record {
  host_id = "host-2";
  enabled = true;
  session_token = "token";
  session_expires_at = 3700000000;
  heartbeat_interval_sec = 5;
}

pass-Shows_example :
    let l' = pass lower clock started.bootstrap_token plane report payload before in
    (l'.session.session_token ≡ some "token")
    × (h : Host) × (get_host "host-2" l'.server ≡ some h)
    × Shows (current_capacity_snapshot started host_machine (vm ∷ [])) h
unfolding register_host row bearer_token secure_compare_token new_session_token completed_settings
pass-Shows_example =
    pass-Shows services Plane.settings "host-2" error_response "" (λ t. some t) lower clock platform
      (some "nvmm") settings started starts host_machine (vm ∷ []) [] 0 before response refl refl
      refl refl refl refl refl refl (ground arith) (ground arith)

abbrev open_host : Host
open_host = record Plane.host {
  session_token_hash = some "token";
  session_expires_at = some 200000000;
}

abbrev open_world : World
open_world = record Plane.world { hosts = open_host ∷ [] }

abbrev stopped : Loop World
stopped = record {
  session = record {
    session_token = some "token";
    session_expires_at = some 200000000;
    register_disabled_until = none;
  };
  server = (disable_host "host-1" open_world).1;
  readings = 0;
  requests = [];
}

abbrev plane_1 : Server
plane_1 = control_plane services Plane.settings "host-1" error_response "" (λ t. some t)

disable_host_silences_example :
    (heartbeat_worker lower clock "bootstrap" plane_1
      (λ _. (report, payload))
      5
      (pass lower clock "bootstrap" plane_1 report payload stopped)).requests
    ≡ beat "token" 1 (status_error 403 "{\"detail\":\"host disabled\"}") ∷ []
unfolding row bearer_token is_valid_heartbeat
disable_host_silences_example =
    disable_host_silences services Plane.settings "host-1" error_response "" (λ t. some t) lower
      clock "bootstrap" (λ _. (report, payload)) "{\"detail\":\"host disabled\"}" refl refl report
      payload 5 stopped open_world open_host "token" 200000000 refl refl
      (payloads-IsValid started host_machine (vm ∷ []) [] 0 refl).1 refl refl refl refl refl
      (ground arith) (λ i h. ground arith)
