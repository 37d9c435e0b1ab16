-- ===== src/NodeAgent/Heartbeat.antt =====
-- node_agent/heartbeat.py: what the agent reports of its host, and its session with the control plane.
-- The reports have the types of control_plane/schemas.py, which they are parsed to.
pub mod Capacity
pub mod Composed
pub mod Disabled
pub mod Laws
pub mod Worker
use jenkins_qemu_provisioner.Prelude.{
  ℕ, String, Option, none, some, List, map, or_none, or_else, max,
}
use jenkins_qemu_provisioner.ControlPlane.GuestImages.{AvailableImage}
use jenkins_qemu_provisioner.ControlPlane.Api.Hosts.{RegisterHostRequest, HeartbeatRequest}
use jenkins_qemu_provisioner.NodeAgent.Config.{AgentSettings}
use jenkins_qemu_provisioner.NodeAgent.State.{Vm}
use jenkins_qemu_provisioner.NodeAgent.Heartbeat.Capacity.{
  Machine, CapacitySnapshot, current_capacity_snapshot,
}

-- `settings.advertise_addr or f"{settings.bind_host}:{settings.bind_port}"`
abbrev advertised_addr : AgentSettings → String
advertised_addr s = elim (or_none s.advertise_addr) [ none ↦ s.bind_address | some a ↦ a ]

module _ (s : AgentSettings) (m : Machine) (vms : List Vm) (images : List AvailableImage) where
  -- the payload of `register_host`
  unfoldable pub register_payload : RegisterHostRequest
  unfolding current_capacity_snapshot
  register_payload =
      let c = current_capacity_snapshot s m vms in
      record {
        agent_version = "0.1.0";
        qemu_version = "unknown";
        cpu_total = c.cpu_total;
        ram_total_mb = c.ram_total_mb;
        cpu_allocatable = some c.cpu_allocatable;
        ram_allocatable_mb = some c.ram_allocatable_mb;
        base_image_ids = map (λ (i : AvailableImage). i.base_image_id) images;
        available_images = images;
        addr = advertised_addr s;
        os_family = some s.os_family;
        os_flavor = some s.os_flavor;
        os_version = some s.os_version;
        cpu_arch = some s.cpu_arch;
        qemu_binary = some s.qemu_binary;
        supported_accels = s.supported_accels;
        selected_accel = some s.qemu_accel;
      }

  -- the payload of `send_heartbeat`, at the pressure that the service of host statistics gives
  unfoldable pub heartbeat_payload : ℕ → HeartbeatRequest
  unfolding current_capacity_snapshot
  heartbeat_payload io_pressure =
      let c = current_capacity_snapshot s m vms in
      record {
        cpu_total = some c.cpu_total;
        ram_total_mb = some c.ram_total_mb;
        cpu_allocatable = some c.cpu_allocatable;
        ram_allocatable_mb = some c.ram_allocatable_mb;
        cpu_free = c.cpu_free;
        ram_free_mb = c.ram_free_mb;
        io_pressure = io_pressure;
        running_vm_ids = c.running_vm_ids;
        available_images = images;
        os_family = some s.os_family;
        os_flavor = some s.os_flavor;
        os_version = some s.os_version;
        cpu_arch = some s.cpu_arch;
        qemu_binary = some s.qemu_binary;
        supported_accels = s.supported_accels;
        selected_accel = some s.qemu_accel;
      }
