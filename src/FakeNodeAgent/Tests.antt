-- ===== src/FakeNodeAgent/Tests.antt =====
-- The theorem on the stand-in for a node agent, at three requests.
use jenkins_qemu_provisioner.Prelude.{◌≡◌, List, [], ◌∷◌, map, true, false}
use jenkins_qemu_provisioner.NodeAgent.Api.Machines.{Command, want, drop, is_machine}
use jenkins_qemu_provisioner.NodeAgent.Tests.Machines.{machine}
use jenkins_qemu_provisioner.FakeNodeAgent.{FakeSettings}
use jenkins_qemu_provisioner.FakeNodeAgent.Laws.{is_known, fake_all, fake_all-is_machine}

abbrev settings : FakeSettings
settings = record {
  host_id = "fake-1";
  effective_cpu_allocatable = 4;
  effective_ram_allocatable_mb = 8192;
}

abbrev commands : List Command
commands = drop "vm-1" "requested" false ∷ want "vm-2" machine ∷ want "vm-1" machine ∷ []

fake_all-is_machine_example :
    is_known "vm-2" (fake_all settings "2026-01-01T00:00:00" [] commands)
    ≡ is_machine "vm-2" (map (λ c. (c, true)) commands)
fake_all-is_machine_example = fake_all-is_machine settings "2026-01-01T00:00:00" [] commands "vm-2"
