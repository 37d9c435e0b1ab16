-- ===== src/NodeAgent/Heartbeat/Laws.antt =====
-- The reports of the agent pass the validators of the control plane, and count the machines of the
-- table once each.
use jenkins_qemu_provisioner.Prelude.{
  ℕ, ◌+◌, ◌-◌, ◌≤◌, min, max, ◌≡◌, refl, true, List, [], ◌∷◌, sum_by, sum_by-sort, int_or, leb,
  if◌then◌else◌, string_eq, arith, Option,
}
use Prim.Native.String.{compare}
use text.Mathlib.Text.{is_lt}
use jenkins_qemu_provisioner.ControlPlane.GuestImages.{AvailableImage}
use jenkins_qemu_provisioner.ControlPlane.Api.Schemas.{
  are_valid_images, is_valid_register, is_valid_heartbeat,
}
use jenkins_qemu_provisioner.NodeAgent.Config.{AgentSettings}
use jenkins_qemu_provisioner.NodeAgent.State.{Vm, list_vms}
use jenkins_qemu_provisioner.NodeAgent.Heartbeat.{register_payload, heartbeat_payload}
use jenkins_qemu_provisioner.NodeAgent.Heartbeat.Capacity.{
  Machine, is_active, coerce_nonnegative_int, reserve_each, reserved_capacity, detect_total_ram_mb,
  current_capacity_snapshot,
}

-- What the active machines of a table take, by a column.
abbrev pub taken : (Vm → Option ℕ) → List Vm → ℕ
taken column vms =
    sum_by (λ v. if is_active v.state then coerce_nonnegative_int (column v) else 0) vms

reserve_each_lem :
    (cpu ram : ℕ) (rows : List Vm)
    → reserve_each cpu ram rows ≡ (cpu + taken (λ v. v.vcpu) rows, ram + taken (λ v. v.ram_mb) rows)
unfolding reserve_each
reserve_each_lem cpu ram [] = ground arith
reserve_each_lem cpu ram (v ∷ rows) =
    let a = reserve_each_lem cpu ram rows in
    let b =
      reserve_each_lem (cpu + coerce_nonnegative_int v.vcpu) (ram + coerce_nonnegative_int v.ram_mb)
        rows in
    ground arith

taken-list_vms :
    (column : Vm → Option ℕ) (vms : List Vm) → taken column (list_vms vms) ≡ taken column vms
unfolding list_vms
taken-list_vms column vms =
    sum_by-sort (λ a b. is_lt (compare b.updated_at a.updated_at))
      (λ v. if is_active v.state then coerce_nonnegative_int (column v) else 0) vms

reserved_capacity_lem :
    (rows : List Vm)
    → reserved_capacity rows ≡ (taken (λ v. v.vcpu) rows, taken (λ v. v.ram_mb) rows)
unfolding reserved_capacity
reserved_capacity_lem rows = ground (arith, reserve_each_lem 0 0 rows)

clamped :
    (n total low : ℕ)
    → low ≤ total
    → (low ≤ max (min n total) low) × (max (min n total) low ≤ total)
clamped n total low h = ground arith

int_or_positive : (o : Option ℕ) → 1 ≤ int_or o 1
int_or_positive o = ground arith

leb_of : (a b : ℕ) → a ≤ b → leb a b ≡ true
leb_of a b h = ground arith

module _ (s : AgentSettings) (m : Machine) (vms : List Vm) where
  -- What a report says is free is what may be given away less what the active machines of the table
  -- take, each counted once whatever the order of the rows, and nothing where they take more.
  pub current_capacity_snapshot_counts :
      let c = current_capacity_snapshot s m vms in
      (c.cpu_free ≡ c.cpu_allocatable - taken (λ v. v.vcpu) vms)
      × (c.ram_free_mb ≡ c.ram_allocatable_mb - taken (λ v. v.ram_mb) vms)
  unfolding current_capacity_snapshot
  current_capacity_snapshot_counts =
      rw
        (
          reserved_capacity_lem (list_vms vms),
          taken-list_vms (λ v. v.vcpu) vms,
          taken-list_vms (λ v. v.ram_mb) vms,
        )
        (refl, refl)

  -- The bounds of a report.
  pub current_capacity_snapshot_bounded :
      let c = current_capacity_snapshot s m vms in
      (1 ≤ c.cpu_allocatable)
      × (c.cpu_allocatable ≤ c.cpu_total)
      × (256 ≤ c.ram_allocatable_mb)
      × (c.ram_allocatable_mb ≤ c.ram_total_mb)
  unfolding current_capacity_snapshot
  current_capacity_snapshot_bounded =
      let a =
        clamped (int_or s.allocatable_vcpu (int_or m.cpu_count 1)) (int_or m.cpu_count 1) 1
          (int_or_positive m.cpu_count) in
      let ram = max (detect_total_ram_mb m.pages) 256 in
      let b = clamped (int_or s.allocatable_ram_mb ram) ram 256 (omega arith) in
      (a.0, a.1, b.0, b.1)

  -- Whatever the settings, the host and its machines are, the registration and the heartbeats of an
  -- agent pass the validators of the control plane's schemas, where each image that they list has an
  -- identifier and a guest image that are not empty.
  pub payloads-IsValid :
      (images : List AvailableImage) (io_pressure : ℕ)
      → are_valid_images images ≡ true
      → (is_valid_register (register_payload s m vms images) ≡ true)
        × (is_valid_heartbeat (heartbeat_payload s m vms images io_pressure) ≡ true)
  unfolding is_valid_register is_valid_heartbeat register_payload heartbeat_payload
  payloads-IsValid images io_pressure named =
      let b = current_capacity_snapshot_bounded in
      let c = current_capacity_snapshot s m vms in
      let (one, cpu, least, ram) = b in
      rw
        (
          leb_of 1 c.cpu_total (omega arith),
          leb_of 256 c.ram_total_mb (omega arith),
          leb_of 1 c.cpu_allocatable one,
          leb_of 256 c.ram_allocatable_mb least,
          leb_of c.cpu_allocatable c.cpu_total cpu,
          leb_of c.ram_allocatable_mb c.ram_total_mb ram,
          leb_of 0 c.cpu_free (omega arith),
          leb_of 0 c.ram_free_mb (omega arith),
          leb_of 0 io_pressure (omega arith),
          named,
        )
        (refl, refl)
