-- ===== src/NodeAgent/Tests.antt =====
-- The theorems on the sweeps, at a machine past its lease and one whose process is there; its
-- children are on the other parts of the agent.
pub mod Images
pub mod Machines
pub mod Orphans
pub mod Heartbeats
use Prim.Native.String.{◌++◌}
use jenkins_qemu_provisioner.Prelude.{
  ◌≢◌, ℕ, List, ◌≡◌, ◌≢◌, refl, false, none, some, [], ◌∷◌, In, inl, ◌⊎◌, row, arith,
}
use jenkins_qemu_provisioner.NodeAgent.Config.{AgentSettings}
use jenkins_qemu_provisioner.NodeAgent.State.{Vm, get_vm}
use jenkins_qemu_provisioner.NodeAgent.World.{
  permission_error, System, Node, answered, completed, ok,
}
use jenkins_qemu_provisioner.NodeAgent.Safety.{
  is_expired, enforce_ttl_once, is_missing, reconcile_once,
}
use jenkins_qemu_provisioner.NodeAgent.Safety.Laws.{
  enforce_ttl_once_clears, enforce_ttl_once_keeps, enforce_ttl_once_ends, reconcile_once_keeps,
}

abbrev pub system : System
system = record {
  parent = λ p. "/run/vm";
  join_path = λ d p. d ++ "/" ++ p;
  is_below = λ d p. false;
  fromisoformat = λ t. some 100;
  now_iso = λ k. "2026-01-01T00:00:00";
  probe = λ pid. answered;
  kill = λ past pid. answered;
  which = λ tool. some ("/usr/bin/" ++ tool);
  run = λ before command. completed;
  popen = λ before command. ok 4242;
  b64_decode = λ text. ok text;
  download = λ before url. ok "image";
  sha256 = λ contents. "abc";
  strip = λ text. text;
  str_int = λ k. "2";
  py_str = λ j. "json";
}

abbrev pub settings : AgentSettings
settings = record {
  host_id = "host-1";
  bootstrap_token = "bootstrap";
  bind_address = "0.0.0.0:9000";
  advertise_addr = some "10.0.0.1:9000";
  allocatable_vcpu = some 4;
  allocatable_ram_mb = none;
  base_image_dir = "/images";
  overlay_dir = "/overlays";
  cloud_init_dir = "/run/vms";
  os_family = "linux";
  os_flavor = "linux";
  os_version = "6.1";
  cpu_arch = "x86_64";
  qemu_binary = "qemu-system-x86_64";
  qemu_accel = "kvm";
  supported_accels = "kvm" ∷ "tcg" ∷ [];
  qemu_machine = "q35";
  qemu_cpu = "host";
  network_backend = "user";
  network_interface = "";
  disk_interface = "virtio";
  dry_run = false;
  debug_artifact_retention_sec = 0;
}

abbrev pub vm : Vm
vm = record {
  vm_id = "vm-1";
  state = "RUNNING";
  host_id = some "host-1";
  lease_id = some "lease-1";
  vcpu = some 2;
  ram_mb = some 4096;
  qemu_pid = some 4242;
  overlay_path = some "/var/lib/jenkins-qemu/vm-1.qcow2";
  cloud_init_iso = some "/run/vm/seed.iso";
  serial_log_path = some "/run/vm/serial.log";
  created_at = "2026-01-01T00:00:00";
  updated_at = "2026-01-01T00:00:00";
  connect_deadline = none;
  lease_expires_at = some "2026-01-01T02:00:00";
  reason = none;
}

abbrev pub node : Node
node = record {
  vms = vm ∷ [];
  files = ("/var/lib/jenkins-qemu/vm-1.qcow2", "") ∷ [];
  metadata = [];
  dirs = "/run/vm" ∷ [];
  ended = [];
  commands = [];
  downloads = [];
  reports = [];
  readings = 0;
}

may_end : (past : List ℕ) (pid : ℕ) → system.kill past pid ≢ permission_error
may_end past pid h = absurd (ground arith)

enforce_ttl_once_clears_example :
    get_vm "vm-1" (enforce_ttl_once system settings 101 "now" node).1.vms ≡ none
unfolding is_expired
enforce_ttl_once_clears_example =
    (enforce_ttl_once_clears system settings 101 "now" may_end node vm (inl refl) refl).1

enforce_ttl_once_ends_example : In 4242 (enforce_ttl_once system settings 101 "now" node).1.ended
unfolding is_expired
enforce_ttl_once_ends_example =
    enforce_ttl_once_ends system settings 101 "now" may_end node vm (inl refl) refl refl
      (ground arith)
