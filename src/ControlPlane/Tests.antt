-- ===== src/ControlPlane/Tests.antt =====
-- Concrete data for the tests: one host, one lease, settings, and services whose answers are fixed.
-- The children apply the theorems to it.
pub mod Loops
pub mod Leases
pub mod Scaling
pub mod Texts
pub mod Retries
pub mod Sessions
pub mod Queue
pub mod Stale
use jenkins_qemu_provisioner.Prelude.{ℕ, ◌*◌, String, true, false, Option, none, some, [], ◌∷◌}
use jenkins_qemu_provisioner.Json.{Json, null}
use jenkins_qemu_provisioner.ControlPlane.Models.{
  Settings, booting, connected, running, Lease, Host,
}
use jenkins_qemu_provisioner.ControlPlane.World.{
  Exn, error, Result, ok, raised, QueueSnapshot, NodeRuntimeStatus, Outside, World,
}
use jenkins_qemu_provisioner.ControlPlane.GuestImages.{
  small, remote_cache, prefer_warm, LabelPolicy, ImageCatalogEntry, ResolvedImageSelection, Config,
}
use jenkins_qemu_provisioner.ControlPlane.GuestImages.Resolution.{selection}

-- Every service answers, but the node agents refuse to delete a machine; the clock stands at 100 s.
abbrev pub services : Outside
services = record {
  clock = λ _. 100000000;
  uuid_hex = λ _. "0123456789abcdef";
  str_int = λ _. "1";
  str_exn = λ _. "boom";
  queue_snapshot = λ _. ok (record { queued_by_label = ("linux", 3) ∷ []; queued_by_node = [] });
  create_ephemeral_node = λ _ _ _ _. ok tt;
  get_inbound_secret = λ _ _. ok "secret";
  delete_node = λ _ _. ok tt;
  node_runtime_status = λ _ _. ok (record { connected = true; busy = true });
  node_current_build_url = λ _ _. ok (some "http://jenkins/job/1/");
  is_build_running = λ _ _. ok true;
  ensure_vm = λ _ _ _. ok tt;
  node_agent_factory = λ host_id. ok tt;
  delete_vm = λ _ _ _ _. raised (error "refused");
  base_url = λ h. h;
  b64_encode = λ s. s;
  cloud_init_document = λ s. s;
  isoformat = λ _. "1970-01-01T00:01:40";
  json_loads = λ _. none;
  json_dumps = λ _. "{}";
  py_str = λ _. "None";
  lower = λ s. s;
  hash_token = λ s. s;
  token_urlsafe = λ _. "token";
}

abbrev pub settings : Settings
settings = record {
  jenkins_url = "http://jenkins";
  jenkins_agent_transport = "websocket";
  jenkins_agent_tmpdir = "/tmp";
  loop_interval_sec = 5;
  global_max_vms = 10;
  label_max_inflight = 5;
  label_burst = 2;
  connect_deadline_sec = 240;
  disconnected_grace_sec = 60;
  vm_ttl_sec = 7200;
  host_stale_timeout_sec = 30;
  retry_attempts = 3;
  retry_sleep_sec = 1;
  allow_unknown_host_registration = true;
  node_agent_url = "http://agent";
  guest_image_compat_mode = true;
}

abbrev pub entry : ImageCatalogEntry
entry = record {
  guest_image = "debian";
  base_image_id = "debian-12";
  os_family = "linux";
  os_flavor = "debian";
  os_version = "12";
  cpu_arch = "x86_64";
  source_kind = remote_cache;
  source_url = some "http://images/debian-12";
  source_digest = some "sha256:00";
  format = "qcow2";
  cache_policy = prefer_warm;
}

abbrev pub policy : LabelPolicy
policy = record {
  guest_image = "debian";
  profile = small;
  required_accel = some "kvm";
  required_cpu_arch = none;
}

abbrev pub image : ResolvedImageSelection
image = selection "debian" small (some "kvm") none entry

abbrev pub config : Config
config = record {
  settings = settings;
  label_policies = ("linux", policy) ∷ [];
  image_catalog = ("debian", entry) ∷ [];
}

-- seen ten seconds before the clock
abbrev pub host : Host
host = record {
  host_id = "host-1";
  enabled = true;
  bootstrap_token_hash = none;
  session_token_hash = none;
  session_expires_at = none;
  os_family = none;
  os_flavor = none;
  os_version = none;
  cpu_arch = some "x86_64";
  addr = none;
  qemu_binary = none;
  supported_accels = none;
  selected_accel = some "kvm";
  available_images_json = none;
  cpu_total = 8;
  cpu_allocatable = 8;
  cpu_free = 8;
  ram_total_mb = 16384;
  ram_allocatable_mb = 16384;
  ram_free_mb = 16384;
  io_pressure = 0;
  last_seen = some 90000000;
}

abbrev pub lease : Lease
lease = record {
  lease_id = "lease-1";
  vm_id = "vm-lease-1";
  label = "linux";
  jenkins_node = "ephemeral-lease-1";
  state = booting;
  host_id = some "host-1";
  created_at = 50000000;
  updated_at = 50000000;
  connect_deadline = 290000000;
  ttl_deadline = 7250000000;
  disconnected_at = none;
  guest_image = some "debian";
  base_image_id = some "debian-12";
  bound_build_url = none;
  last_heartbeat = none;
  last_error = none;
}

abbrev pub world : World
world = record {
  hosts = host ∷ [];
  leases = lease ∷ [];
  events = [];
  counters = [];
  cooldowns = [];
  diag_throttle = [];
  readings = 0;
  drawn = 0;
  calls = [];
}
