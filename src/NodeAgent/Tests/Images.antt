-- ===== src/NodeAgent/Tests/Images.antt =====
-- The theorem on base images, at an image that is fetched.
use jenkins_qemu_provisioner.Prelude.{◌≡◌, refl, some, lookup, starts_with, arith}
use jenkins_qemu_provisioner.ControlPlane.GuestImages.{remote_cache}
use jenkins_qemu_provisioner.NodeAgent.World.{Node, ok}
use jenkins_qemu_provisioner.NodeAgent.BaseImages.{
  BaseImageRequest, ensure_base_image, recorded_digest, normalized_digest,
}
use jenkins_qemu_provisioner.NodeAgent.BaseImages.Laws.{Holds, IsVerified, ensure_base_image-Holds}
use jenkins_qemu_provisioner.NodeAgent.Tests.{system, settings, node}

abbrev pub request : BaseImageRequest
request = record {
  guest_image = "debian";
  base_image_id = "debian-12";
  source_kind = remote_cache;
  source_url = some "https://images/debian.qcow2";
  source_digest = some "sha256:abc";
  format = "qcow2";
}

abbrev fetched_node : Node
fetched_node = (ensure_base_image system settings request node).1

nothing_recorded : IsVerified system settings "debian-12" node
unfolding recorded_digest lookup
nothing_recorded digest contents recorded there = ground arith

fetch_answers :
    ensure_base_image system settings request node ≡ (ok "/images/debian-12.qcow2", fetched_node)
unfolding ensure_base_image normalized_digest starts_with lookup
fetch_answers = refl

ensure_base_image-Holds_example :
    Holds system settings request "sha256:abc" fetched_node
    × IsVerified system settings "debian-12" fetched_node
ensure_base_image-Holds_example =
    ensure_base_image-Holds system settings request "sha256:abc" refl refl refl node fetched_node
      "/images/debian-12.qcow2" refl nothing_recorded fetch_answers
