-- ===== src/ControlPlane/Repositories/Capacity.antt =====
-- The capacities of a host stay within one another.
use jenkins_qemu_provisioner.Prelude.{ℕ, ◌≤◌, Option, none, String, arith}
use jenkins_qemu_provisioner.ControlPlane.Models.{Time, Host}
use jenkins_qemu_provisioner.ControlPlane.Repositories.{update_host_heartbeat, upsert_row}

-- What may be given out is within the machine, and what is free is within that.
pub record HasCapacity (h : Host) : Type 0 where
  pub cpu_within : h.cpu_allocatable ≤ h.cpu_total
  pub cpu_free_within : h.cpu_free ≤ h.cpu_allocatable
  pub ram_within : h.ram_allocatable_mb ≤ h.ram_total_mb
  pub ram_free_within : h.ram_free_mb ≤ h.ram_allocatable_mb

-- Whatever a heartbeat reports, and whatever the row held before, afterwards what may be given out
-- is within the total and what is free is within that.
pub update_host_heartbeat-HasCapacity :
    (h : Host) (cpu ram cpu_a ram_a : Option ℕ) (cpu_free ram_free io : ℕ) (now : Time)
    → HasCapacity (update_host_heartbeat h cpu ram cpu_a ram_a cpu_free ram_free io now)
unfolding update_host_heartbeat
update_host_heartbeat-HasCapacity h cpu ram cpu_a ram_a cpu_free ram_free io now = record {
  cpu_within = omega arith;
  cpu_free_within = omega arith;
  ram_within = omega arith;
  ram_free_within = omega arith;
}

-- A heartbeat never makes more free than the host reported.
pub free_at_most_reported :
    (h : Host) (cpu ram cpu_a ram_a : Option ℕ) (cpu_free ram_free io : ℕ) (now : Time)
    → let h' = update_host_heartbeat h cpu ram cpu_a ram_a cpu_free ram_free io now in
      (h'.cpu_free ≤ cpu_free) × (h'.ram_free_mb ≤ ram_free)
unfolding update_host_heartbeat
free_at_most_reported h cpu ram cpu_a ram_a cpu_free ram_free io now = (omega arith, omega arith)

-- A host that `upsert_host` adds is within its capacities, whatever was asked for.
pub upsert_row-HasCapacity :
    (id : String) (cpu ram : ℕ) (cpu_a ram_a : Option ℕ) (token : Option String) (now : Time)
    → HasCapacity (upsert_row none id cpu ram cpu_a ram_a token now)
unfolding upsert_row
upsert_row-HasCapacity id cpu ram cpu_a ram_a token now = record {
  cpu_within = omega arith;
  cpu_free_within = omega arith;
  ram_within = omega arith;
  ram_free_within = omega arith;
}
