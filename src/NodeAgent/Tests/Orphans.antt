-- ===== src/NodeAgent/Tests/Orphans.antt =====
-- The theorems on the sweep of orphan files, at the overlay of a machine and one that is left over.
use jenkins_qemu_provisioner.Prelude.{
  String, ◌≡◌, refl, Bool, false, ◌||◌, some, none, ◌∷◌, lookup, inl, ◌==◌, string_eq, sort,
}
use jenkins_qemu_provisioner.NodeAgent.World.{Node}
use jenkins_qemu_provisioner.NodeAgent.State.{list_vms}
use jenkins_qemu_provisioner.NodeAgent.Safety.Orphans.{cleanup_orphan_files_once, known_overlays}
use jenkins_qemu_provisioner.NodeAgent.Safety.Orphans.Laws.{
  cleanup_orphan_files_once_keeps, cleanup_orphan_files_once_removes,
}
use jenkins_qemu_provisioner.NodeAgent.Tests.{system, settings, vm, node}

abbrev is_overlay : String → Bool
is_overlay path =
    path == "/var/lib/jenkins-qemu/vm-1.qcow2" || path == "/var/lib/jenkins-qemu/vm-0.qcow2"

abbrev is_entry : String → Bool
is_entry path = path == "/run/vm"

abbrev littered : Node
littered = record node { files = ("/var/lib/jenkins-qemu/vm-0.qcow2", "disk") ∷ node.files }

cleanup_orphan_files_once_keeps_example :
    lookup "/var/lib/jenkins-qemu/vm-1.qcow2"
      (cleanup_orphan_files_once system settings is_overlay is_entry (λ _ _. false) littered).files
    ≡ some ""
unfolding lookup
cleanup_orphan_files_once_keeps_example =
    cleanup_orphan_files_once_keeps system settings is_overlay is_entry (λ _ _. false) littered vm
      "/var/lib/jenkins-qemu/vm-1.qcow2" (inl refl) refl (λ d e. refl)

cleanup_orphan_files_once_removes_example :
    lookup "/var/lib/jenkins-qemu/vm-0.qcow2"
      (cleanup_orphan_files_once system settings is_overlay is_entry (λ _ _. false) littered).files
    ≡ none
unfolding known_overlays list_vms sort
cleanup_orphan_files_once_removes_example =
    cleanup_orphan_files_once_removes system settings is_overlay is_entry (λ _ _. false) littered
      "/var/lib/jenkins-qemu/vm-0.qcow2" refl refl refl
