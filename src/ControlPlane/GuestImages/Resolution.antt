-- ===== src/ControlPlane/GuestImages/Resolution.antt =====
-- The image for a label: `resolve_image_selection` of control_plane/guest_images.py.
use jenkins_qemu_provisioner.Prelude.{String, Option, none, some, lookup, has_part, if◌then◌else◌}
use jenkins_qemu_provisioner.ControlPlane.World.{Outside}
use jenkins_qemu_provisioner.ControlPlane.GuestImages.{
  ProfileName, small, medium, large, LabelPolicy, ImageCatalogEntry, ResolvedImageSelection, Config,
}

abbrev pub resolve_label_policy : Config → String → Option LabelPolicy
resolve_label_policy c label = lookup label c.label_policies

abbrev pub resolve_image_catalog_entry : Config → String → Option ImageCatalogEntry
resolve_image_catalog_entry c guest_image = lookup guest_image c.image_catalog

-- `ResolvedImageSelection(guest_image=..., profile=..., ..., base_image_id=catalog_entry.base_image_id, ...)`
abbrev pub selection :
    String
    → ProfileName
    → Option String
    → Option String
    → ImageCatalogEntry
    → ResolvedImageSelection
selection guest_image profile accel arch e = record {
  guest_image = guest_image;
  profile = profile;
  required_accel = accel;
  required_cpu_arch = arch;
  base_image_id = e.base_image_id;
  os_family = e.os_family;
  os_flavor = e.os_flavor;
  os_version = e.os_version;
  cpu_arch = e.cpu_arch;
  source_kind = e.source_kind;
  source_url = e.source_url;
  source_digest = e.source_digest;
  format = e.format;
  cache_policy = e.cache_policy;
}

-- The profile and the accelerator that an unmapped label asks for by its text.
legacy_profile : String → ProfileName
legacy_profile lowered =
    if has_part "large" lowered then large else if has_part "medium" lowered then medium else small

legacy_accel : String → Option String
legacy_accel lowered =
    if has_part "nvmm" lowered
    then some "nvmm"
    else if has_part "kvm" lowered
    then some "kvm"
    else none

-- The branch of `resolve_image_selection` for a label with no policy.
unfoldable pub compat_selection : Outside → Config → String → Option ResolvedImageSelection
unfolding legacy_profile legacy_accel
compat_selection o c label =
    if c.settings.guest_image_compat_mode
    then elim (resolve_image_catalog_entry c "default") [
      | none ↦ none
      | some e ↦
          let lowered = o.lower label in
          some (selection e.guest_image (legacy_profile lowered) (legacy_accel lowered) none e)
    ]
    else none

-- The branch for a label with a policy.
unfoldable pub policy_selection : Config → LabelPolicy → Option ResolvedImageSelection
policy_selection c p = elim (resolve_image_catalog_entry c p.guest_image) [
  | none ↦ none
  | some e ↦ some (selection p.guest_image p.profile p.required_accel p.required_cpu_arch e)
]

unfoldable pub resolve_image_selection : Outside → Config → String → Option ResolvedImageSelection
unfolding compat_selection policy_selection
resolve_image_selection o c label = elim (resolve_label_policy c label) [
  | none ↦ compat_selection o c label
  | some p ↦ policy_selection c p
]
