-- ===== src/NodeAgent/Heartbeat/Capacity.antt =====
-- The capacity of the host in node_agent/heartbeat.py: what it has, what may be given away, and what
-- the machines of the table leave free.
use jenkins_qemu_provisioner.Prelude.{
  ℕ, ◌+◌, ◌-◌, ◌*◌, ◌/◌, min, max, String, Bool, ◌||◌, ◌&&◌, Option, none, some, List, [], ◌∷◌, map,
  filter, truthy, int_or, ltb, ◌==◌, string_eq, if◌then◌else◌,
}
use jenkins_qemu_provisioner.NodeAgent.Config.{AgentSettings}
use jenkins_qemu_provisioner.NodeAgent.State.{Vm, list_vms}

-- What the operating system says of the host: the processors, if it knows, and the size and number of
-- the pages of memory, if `os.sysconf` answers with numbers.
pub record Machine : Type 0 where
  pub cpu_count : Option ℕ
  pub pages : Option (ℕ × ℕ)

pub record CapacitySnapshot : Type 0 where
  pub cpu_total : ℕ
  pub ram_total_mb : ℕ
  pub cpu_allocatable : ℕ
  pub ram_allocatable_mb : ℕ
  pub cpu_free : ℕ
  pub ram_free_mb : ℕ
  pub running_vm_ids : List String

-- `state in ACTIVE_VM_STATES`
abbrev pub is_active : String → Bool
is_active state = state == "RUNNING" || state == "BOOTING" || state == "PROVISIONING"

-- `_detect_total_ram_mb`
abbrev pub detect_total_ram_mb : Option (ℕ × ℕ) → ℕ
detect_total_ram_mb none = 1024
detect_total_ram_mb (some (size, count)) =
    let total = (size * count) / (1024 * 1024) in if ltb 0 total then total else 1024

-- `_physical_capacity`
unfoldable pub physical_capacity : Machine → ℕ × ℕ
physical_capacity m = (int_or m.cpu_count 1, max (detect_total_ram_mb m.pages) 256)

-- `_allocatable_capacity`
unfoldable pub allocatable_capacity : AgentSettings → ℕ → ℕ → ℕ × ℕ
allocatable_capacity s cpu_total ram_total_mb = (
  max (min (int_or s.allocatable_vcpu cpu_total) cpu_total) 1,
  max (min (int_or s.allocatable_ram_mb ram_total_mb) ram_total_mb) 256,
)

-- `_coerce_nonnegative_int`, of a column of numbers
abbrev pub coerce_nonnegative_int : Option ℕ → ℕ
coerce_nonnegative_int none = 0
coerce_nonnegative_int (some n) = n

-- The loop of `_reserved_capacity`, with what is reserved so far.
unfoldable pub reserve_each : ℕ → ℕ → List Vm → ℕ × ℕ
reserve_each cpu ram [] = (cpu, ram)
reserve_each cpu ram (v ∷ rows) =
    let reserved =
      reserve_each (cpu + coerce_nonnegative_int v.vcpu) (ram + coerce_nonnegative_int v.ram_mb)
        rows in
    let skipped = reserve_each cpu ram rows in if is_active v.state then reserved else skipped

-- `_reserved_capacity`
unfoldable pub reserved_capacity : List Vm → ℕ × ℕ
unfolding reserve_each
reserved_capacity rows = reserve_each 0 0 rows

-- `current_capacity_snapshot`
unfoldable pub current_capacity_snapshot : AgentSettings → Machine → List Vm → CapacitySnapshot
unfolding physical_capacity allocatable_capacity reserved_capacity
current_capacity_snapshot s m vms =
    let (cpu_total, ram_total_mb) = physical_capacity m in
    let (cpu_allocatable, ram_allocatable_mb) = allocatable_capacity s cpu_total ram_total_mb in
    let rows = list_vms vms in
    let (reserved_cpu, reserved_ram_mb) = reserved_capacity rows in
    record {
      cpu_total = cpu_total;
      ram_total_mb = ram_total_mb;
      cpu_allocatable = cpu_allocatable;
      ram_allocatable_mb = ram_allocatable_mb;
      cpu_free = cpu_allocatable - reserved_cpu;
      ram_free_mb = ram_allocatable_mb - reserved_ram_mb;
      running_vm_ids =
          map (λ (v : Vm). v.vm_id) (filter (λ (v : Vm). is_active v.state && truthy v.vm_id) rows);
    }
