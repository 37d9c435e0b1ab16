-- ===== src/NodeAgent/Tests/Machines.antt =====
-- The theorems on the endpoints of machines, at a machine that is created, asked for again, and ended.
use jenkins_qemu_provisioner.Prelude.{
  ◌≡◌, refl, false, none, some, List, [], ◌∷◌, lookup, row, starts_with, insert,
}
use jenkins_qemu_provisioner.NodeAgent.State.{get_vm, upsert_vm}
use jenkins_qemu_provisioner.NodeAgent.World.{Node, ok}
use jenkins_qemu_provisioner.NodeAgent.World.Hoare.{After}
use jenkins_qemu_provisioner.NodeAgent.Qemu.{create_overlay, write_cloud_init_files, launch_qemu}
use jenkins_qemu_provisioner.NodeAgent.BaseImages.{ensure_base_image, normalized_digest}
use jenkins_qemu_provisioner.NodeAgent.Api.{
  VmEnsureRequest, VmStateResponse, ensure_vm, terminate_vm,
}
use jenkins_qemu_provisioner.NodeAgent.Api.Laws.{
  IsSettled, Fails, ensure_vm_settles, ensure_vm_again,
}
use jenkins_qemu_provisioner.NodeAgent.Api.Machines.{
  Command, want, drop, serve_all, is_there, is_machine, serve_all-is_machine,
}
use jenkins_qemu_provisioner.NodeAgent.Api.Terminate.{terminate_vm_removes}
use jenkins_qemu_provisioner.NodeAgent.Tests.{system, settings, node}
use jenkins_qemu_provisioner.NodeAgent.Tests.Images.{request}

abbrev pub machine : VmEnsureRequest
machine = record {
  base_image = request;
  overlay_path = "";
  vcpu = 2;
  ram_mb = 4096;
  lease_expires_at = "2026-01-01T02:00:00";
  connect_deadline = "2026-01-01T00:10:00";
  jenkins_url = "https://jenkins";
  jenkins_node_name = "ephemeral-1";
  jnlp_secret = "secret";
  cloud_init_user_data_b64 = "I2Nsb3VkLWNvbmZpZw==";
  metadata = ("lease_id", some "lease-2") ∷ [];
}

abbrev answer : VmStateResponse
answer = record {
  vm_id = "vm-2";
  state = "RUNNING";
  last_transition_at = "2026-01-01T00:00:00";
  reason = none;
  lease_expires_at = some "2026-01-01T02:00:00";
  serial_log_path = some "/run/vms/vm-2/serial.log";
}

abbrev created : Node
created = (ensure_vm system settings "vm-2" machine node).1

ensure_vm_settles_example :
    After
      (IsSettled system settings "vm-2" machine node.vms)
      (Fails system settings "vm-2" machine node.vms)
      (ensure_vm system settings "vm-2" machine node)
ensure_vm_settles_example = ensure_vm_settles system settings "vm-2" machine node

run_answers : ensure_vm system settings "vm-2" machine node ≡ (ok answer, created)
unfolding ensure_vm ensure_base_image normalized_digest starts_with lookup row insert
    write_cloud_init_files create_overlay launch_qemu upsert_vm
run_answers = refl

ensure_vm_again_example : (ensure_vm system settings "vm-2" machine created).1.vms ≡ created.vms
ensure_vm_again_example =
    (ensure_vm_again system settings "vm-2" machine machine node created answer run_answers).1

terminate_vm_removes_example :
    get_vm "vm-1" (terminate_vm system settings "vm-1" "requested" false node).1.vms ≡ none
unfolding row
terminate_vm_removes_example =
    (terminate_vm_removes system settings "vm-1" "requested" false node "vm-1").1

abbrev empty_node : Node
empty_node = record node { vms = [] }

abbrev commands : List Command
commands = drop "vm-1" "requested" false ∷ want "vm-2" machine ∷ want "vm-1" machine ∷ []

serve_all-is_machine_example :
    let (before, n') = serve_all system settings commands empty_node in
    is_there "vm-2" n'.vms ≡ is_machine "vm-2" before
serve_all-is_machine_example = serve_all-is_machine system settings commands empty_node "vm-2" refl
