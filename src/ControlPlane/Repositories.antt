-- ===== src/ControlPlane/Repositories.antt =====
-- control_plane/repositories.py: hosts and leases in the database.
-- The requests are checked to hold no negative numbers, so capacities are natural numbers.
pub mod Capacity
pub mod Cas
use jenkins_qemu_provisioner.Prelude.{
  ℕ, min, String, Bool, true, false, not, ◌&&◌, Option, none, some, List, [], ◌∷◌, ◌++◌, filter,
  sort, int_or, truthy, ltb, ◌==◌, string_eq, if◌then◌else◌,
}
use jenkins_qemu_provisioner.ControlPlane.Models.{Time, LeaseState, Lease, Host, value}
use jenkins_qemu_provisioner.ControlPlane.StateMachine.{can_transition, state_eq}
use jenkins_qemu_provisioner.ControlPlane.World.{
  Outside, World, Action, pure, gets, modify, now_utc, get_host, save_host, ◌>>=◌, ◌>>◌,
}

-- `Host(host_id=..., ...)`: the other columns are null, and `io_pressure` is 0.
abbrev pub new_host : String → ℕ → ℕ → ℕ → ℕ → Option String → Host
new_host host_id cpu_total cpu_allocatable ram_total_mb ram_allocatable_mb token_hash = record {
  host_id = host_id;
  enabled = true;
  bootstrap_token_hash = token_hash;
  session_token_hash = none;
  session_expires_at = none;
  os_family = none;
  os_flavor = none;
  os_version = none;
  cpu_arch = none;
  addr = none;
  qemu_binary = none;
  supported_accels = none;
  selected_accel = none;
  available_images_json = none;
  cpu_total = cpu_total;
  cpu_allocatable = cpu_allocatable;
  cpu_free = cpu_allocatable;
  ram_total_mb = ram_total_mb;
  ram_allocatable_mb = ram_allocatable_mb;
  ram_free_mb = ram_allocatable_mb;
  io_pressure = 0;
  last_seen = none;
}

-- `session.add(host)`
abbrev pub add_host : Host → World → World
add_host h w = record w { hosts = w.hosts ++ h ∷ [] }

-- `upsert_host`, up to the row that it returns, at the reading `now`.
pub upsert_row : Option Host → String → ℕ → ℕ → Option ℕ → Option ℕ → Option String → Time → Host
upsert_row found host_id cpu_total ram_total_mb cpu_allocatable ram_allocatable_mb token_hash now =
    let cpu = min (int_or cpu_allocatable cpu_total) cpu_total in
    let ram = min (int_or ram_allocatable_mb ram_total_mb) ram_total_mb in
    elim found [
      | none ↦
          let h = new_host host_id cpu_total cpu ram_total_mb ram token_hash in
          record h { last_seen = some now }
      | some h ↦ record h {
        cpu_total = cpu_total;
        cpu_allocatable = cpu;
        ram_total_mb = ram_total_mb;
        ram_allocatable_mb = ram;
        last_seen = some now;
      }
    ]

pub upsert_host : Outside → String → ℕ → ℕ → Option ℕ → Option ℕ → Option String → Action Host
unfolding upsert_row
upsert_host o host_id cpu_total ram_total_mb cpu_allocatable ram_allocatable_mb token_hash = do
  found ← gets (get_host host_id)
  now ← now_utc o
  let h =
      upsert_row found host_id cpu_total ram_total_mb cpu_allocatable ram_allocatable_mb token_hash
        now
  elim found [ none ↦ modify (add_host h) | some _ ↦ save_host h ]
  pure h

-- `update_host_heartbeat` on the row of the host, at the reading `now`.
unfoldable pub update_host_heartbeat :
    Host → Option ℕ → Option ℕ → Option ℕ → Option ℕ → ℕ → ℕ → ℕ → Time → Host
update_host_heartbeat host cpu_total ram_total_mb cpu_allocatable ram_allocatable_mb cpu_free
      ram_free_mb io_pressure now =
    let total = int_or cpu_total host.cpu_total in
    let ram_total = int_or ram_total_mb host.ram_total_mb in
    let allocatable =
      min (int_or cpu_allocatable (int_or (some host.cpu_allocatable) total)) total in
    let ram_allocatable =
      min (int_or ram_allocatable_mb (int_or (some host.ram_allocatable_mb) ram_total)) ram_total in
    record host {
      cpu_total = total;
      ram_total_mb = ram_total;
      cpu_allocatable = allocatable;
      ram_allocatable_mb = ram_allocatable;
      cpu_free = min cpu_free allocatable;
      ram_free_mb = min ram_free_mb ram_allocatable;
      io_pressure = io_pressure;
      last_seen = some now;
    }

-- `if filter: query = query.where(column == filter)`
abbrev matches : Option String → Option String → Bool
matches none column = true
matches (some wanted) column =
    if truthy wanted then elim column [ none ↦ false | some s ↦ s == wanted ] else true

-- `list_leases`: the newest first.
unfoldable pub list_leases : Option String → Option String → Option String → List Lease → List Lease
list_leases label state host_id leases =
    sort (λ a b. ltb b.created_at a.created_at)
      (filter (λ l. matches host_id l.host_id)
        (filter (λ l. matches state (some (value l.state)))
          (filter (λ l. matches label (some l.label)) leases)))

-- `cas_lease_state` on the row of the lease, at the reading `now`: `none` for `return False`, and
-- else the changed row.
unfoldable pub cas_lease_state :
    Lease → LeaseState → LeaseState → Option String → Time → Option Lease
cas_lease_state lease expected target last_error now =
    if not (lease.state == expected)
    then none
    else if not (can_transition expected target)
    then none
    else some (record lease {
      state = target;
      updated_at = now;
      last_error = elim last_error [
        | none ↦ lease.last_error
        | some e ↦ if truthy e then some e else lease.last_error
      ];
    })
