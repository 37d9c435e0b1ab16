-- ===== src/ControlPlane/Models.antt =====
-- control_plane/models.py and the fields of control_plane/config.py that the services read.
-- A datetime is its number of microseconds since a fixed moment. `io_pressure` is a float that the
-- program only compares and copies: a natural number stands for its place in the order.
use jenkins_qemu_provisioner.Prelude.{
  ℕ, ◌*◌, String, ◌≡◌, Bool, Option, Dict, arith, eq_iff, if◌then◌else◌, ◌==◌, string_eq,
}
use jenkins_qemu_provisioner.Json.{Json}

abbrev pub Time : Type 0
Time = ℕ

-- `timedelta(seconds=n)`
abbrev pub seconds : ℕ → Time
seconds n = n * 1000000

-- The column holds any text: `other s` is a text that is none of the nine values.
pub data LeaseState : Type 0 where
  requested provisioning booting connected running terminating terminated failed orphaned :
      LeaseState
  other : String → LeaseState

-- The text of a state, `LeaseState.X.value`.
pub value : LeaseState → String
value requested = "REQUESTED"
value provisioning = "PROVISIONING"
value booting = "BOOTING"
value connected = "CONNECTED"
value running = "RUNNING"
value terminating = "TERMINATING"
value terminated = "TERMINATED"
value failed = "FAILED"
value orphaned = "ORPHANED"
value (other s) = s

-- The state that a text in the column stands for.
pub of_value : String → LeaseState
of_value s =
    if s == "REQUESTED"
    then requested
    else if s == "PROVISIONING"
    then provisioning
    else if s == "BOOTING"
    then booting
    else if s == "CONNECTED"
    then connected
    else if s == "RUNNING"
    then running
    else if s == "TERMINATING"
    then terminating
    else if s == "TERMINATED"
    then terminated
    else if s == "FAILED"
    then failed
    else if s == "ORPHANED"
    then orphaned
    else other s

pub record Lease : Type 0 where
  pub lease_id : String
  pub vm_id : String
  pub label : String
  pub jenkins_node : String
  pub state : LeaseState
  pub host_id : Option String
  pub created_at : Time
  pub updated_at : Time
  pub connect_deadline : Time
  pub ttl_deadline : Time
  pub disconnected_at : Option Time
  pub guest_image : Option String
  pub base_image_id : Option String
  pub bound_build_url : Option String
  pub last_heartbeat : Option Time
  pub last_error : Option String

pub record Host : Type 0 where
  pub host_id : String
  pub enabled : Bool
  pub bootstrap_token_hash : Option String
  pub session_token_hash : Option String
  pub session_expires_at : Option Time
  pub os_family : Option String
  pub os_flavor : Option String
  pub os_version : Option String
  pub cpu_arch : Option String
  pub addr : Option String
  pub qemu_binary : Option String
  pub supported_accels : Option String
  pub selected_accel : Option String
  pub available_images_json : Option String
  pub cpu_total : ℕ
  pub cpu_allocatable : ℕ
  pub cpu_free : ℕ
  pub ram_total_mb : ℕ
  pub ram_allocatable_mb : ℕ
  pub ram_free_mb : ℕ
  pub io_pressure : ℕ
  pub last_seen : Option Time

-- The key and the timestamp are filled in by the database.
pub record Event : Type 0 where
  pub lease_id : Option String
  pub event_type : String
  pub payload : Dict Json

pub record Settings : Type 0 where
  pub jenkins_url : String
  pub jenkins_agent_transport : String
  pub jenkins_agent_tmpdir : String
  pub loop_interval_sec : ℕ
  pub global_max_vms : ℕ
  pub label_max_inflight : ℕ
  pub label_burst : ℕ
  pub connect_deadline_sec : ℕ
  pub disconnected_grace_sec : ℕ
  pub vm_ttl_sec : ℕ
  pub host_stale_timeout_sec : ℕ
  pub retry_attempts : ℕ
  pub retry_sleep_sec : ℕ
  pub allow_unknown_host_registration : Bool
  pub node_agent_url : String
  pub guest_image_compat_mode : Bool

-- The text in the column and the state name each other: reading back what was written is the text.
pub value-of_value : (s : String) → value (of_value s) ≡ s
unfolding value of_value
value-of_value s = ground (
  arith,
  eq_iff s "REQUESTED",
  eq_iff s "PROVISIONING",
  eq_iff s "BOOTING",
  eq_iff s "CONNECTED",
  eq_iff s "RUNNING",
  eq_iff s "TERMINATING",
  eq_iff s "TERMINATED",
  eq_iff s "FAILED",
  eq_iff s "ORPHANED",
)
