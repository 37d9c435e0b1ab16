-- ===== src/ControlPlane/GuestImages/Validation.antt =====
-- The checks that pydantic makes on parsed JSON for the models of control_plane/guest_images.py, and
-- the loading of the two configuration files. A value that the models do not name is ignored.
use jenkins_qemu_provisioner.Prelude.{
  String, Bool, true, false, Option, none, some, [], ◌∷◌, Dict, lookup, insert, truthy, ◌==◌,
  string_eq, if◌then◌else◌,
}
use jenkins_qemu_provisioner.Json.{Json, null, str, obj, to_dict}
use jenkins_qemu_provisioner.ControlPlane.World.{error, Result, ok, raised}
use jenkins_qemu_provisioner.ControlPlane.GuestImages.{
  ProfileName, small, medium, large, CachePolicy, prefer_warm, require_warm, SourceKind,
  manual_local, remote_cache, LabelPolicy, ImageCatalogEntry, AvailableImage,
}

-- Field checks of pydantic: `none` when the value is refused.
abbrev pub ◌>>=?◌ {ℓ κ} : {A : Type ℓ} {B : Type κ} → Option A → (A → Option B) → Option B
◌>>=?◌ none f = none
◌>>=?◌ (some a) f = f a

infixl 5 ◌>>=?◌
-- `str = Field(min_length=1)`
required_text : Dict Json → String → Option String
required_text d k = elim (lookup k d) [
  | some (str s) ↦ if truthy s then some s else none
  | _ ↦ none
]

-- `str | None = None`
optional_text : Dict Json → String → Option (Option String)
optional_text d k = elim (lookup k d) [
  | none ↦ some none
  | some null ↦ some none
  | some (str s) ↦ some (some s)
  | _ ↦ none
]

-- `str = Field(default=..., min_length=1)`
defaulted_text : Dict Json → String → String → Option String
defaulted_text d k default = elim (lookup k d) [
  | none ↦ some default
  | some (str s) ↦ if truthy s then some s else none
  | _ ↦ none
]

-- `str = Field(default=...)`
plain_text : Dict Json → String → String → Option String
plain_text d k default = elim (lookup k d) [
  | none ↦ some default
  | some (str s) ↦ some s
  | _ ↦ none
]

profile_of : String → Option ProfileName
profile_of s =
    if s == "small"
    then some small
    else if s == "medium"
    then some medium
    else if s == "large"
    then some large
    else none

source_kind_of : String → Option SourceKind
source_kind_of s =
    if s == "manual_local"
    then some manual_local
    else if s == "remote_cache"
    then some remote_cache
    else none

cache_policy_of : String → Option CachePolicy
cache_policy_of s =
    if s == "prefer_warm"
    then some prefer_warm
    else if s == "require_warm"
    then some require_warm
    else none

-- `LabelPolicy.model_validate`
pub label_policy : Json → Option LabelPolicy
unfolding required_text optional_text profile_of
label_policy (obj fs) =
    let d = to_dict fs in
    required_text d "guest_image" >>=? λ guest_image. required_text d "profile" >>=? λ name.
    profile_of name >>=? λ profile. optional_text d "required_accel" >>=? λ accel.
    optional_text d "required_cpu_arch" >>=? λ arch. some (record {
      guest_image = guest_image;
      profile = profile;
      required_accel = accel;
      required_cpu_arch = arch;
    })
label_policy _ = none

-- The test of `validate_source_fields`.
abbrev pub source_fields_valid : SourceKind → Option String → Option String → Bool
source_fields_valid manual_local url digest = true
source_fields_valid remote_cache (some url) (some digest) =
    if truthy url then truthy digest else false
source_fields_valid remote_cache _ _ = false

validate_source_fields : ImageCatalogEntry → Option ImageCatalogEntry
validate_source_fields e =
    if source_fields_valid e.source_kind e.source_url e.source_digest then some e else none

-- The fields of an `ImageCatalogEntry`, each by itself.
unfoldable pub entry_fields : Dict Json → Option ImageCatalogEntry
unfolding required_text optional_text defaulted_text source_kind_of cache_policy_of
entry_fields d = required_text d "guest_image" >>=? λ guest_image.
    required_text d "base_image_id" >>=? λ base_image_id.
    required_text d "os_family" >>=? λ os_family. required_text d "os_flavor" >>=? λ os_flavor.
    required_text d "os_version" >>=? λ os_version. required_text d "cpu_arch" >>=? λ cpu_arch.
    required_text d "source_kind" >>=? λ kind. source_kind_of kind >>=? λ source_kind.
    optional_text d "source_url" >>=? λ url. optional_text d "source_digest" >>=? λ digest.
    defaulted_text d "format" "qcow2" >>=? λ format.
    defaulted_text d "cache_policy" "require_warm" >>=? λ policy.
    cache_policy_of policy >>=? λ cache_policy. some (record {
      guest_image = guest_image;
      base_image_id = base_image_id;
      os_family = os_family;
      os_flavor = os_flavor;
      os_version = os_version;
      cpu_arch = cpu_arch;
      source_kind = source_kind;
      source_url = url;
      source_digest = digest;
      format = format;
      cache_policy = cache_policy;
    })

-- `ImageCatalogEntry.model_validate`
unfoldable pub catalog_entry : Dict Json → Option ImageCatalogEntry
unfolding validate_source_fields
catalog_entry d = entry_fields d >>=? validate_source_fields

-- `AvailableImage.model_validate`
unfoldable pub available_image : Json → Option AvailableImage
unfolding required_text optional_text plain_text
available_image (obj fs) =
    let d = to_dict fs in
    required_text d "guest_image" >>=? λ guest_image.
    required_text d "base_image_id" >>=? λ base_image_id.
    optional_text d "source_digest" >>=? λ digest. optional_text d "cpu_arch" >>=? λ arch.
    plain_text d "state" "READY" >>=? λ state. some (record {
      guest_image = guest_image;
      base_image_id = base_image_id;
      source_digest = digest;
      cpu_arch = arch;
      state = state;
    })
available_image _ = none

-- `{"guest_image": guest_image, **entry}`
unfoldable pub merge : Dict Json → Dict Json → Dict Json
merge d [] = d
merge d ((k, v) ∷ more) = merge (insert k v d) more

load_policies : Dict Json → Result (Dict LabelPolicy)
load_policies [] = ok []
load_policies ((label, policy) ∷ raw) = elim (label_policy policy) [
  | none ↦ raised (error "invalid label policy")
  | some p ↦ elim (load_policies raw) [ ok ps ↦ ok ((label, p) ∷ ps) | raised e ↦ raised e ]
]

-- `_load_label_policies_cached`, on the parsed file, if there is one.
unfoldable pub load_label_policies : Option Json → Result (Dict LabelPolicy)
unfolding load_policies
load_label_policies none = ok []
load_label_policies (some (obj raw)) = load_policies (to_dict raw)
load_label_policies (some _) = raised (error "label policy file must contain a JSON object")

-- One entry of the catalog file; an entry that is no object cannot be merged.
unfoldable pub named_entry : String → Json → Option ImageCatalogEntry
unfolding merge
named_entry guest_image (obj entry) =
    catalog_entry (merge (("guest_image", str guest_image) ∷ []) (to_dict entry))
named_entry guest_image _ = none

unfoldable pub load_entries : Dict Json → Result (Dict ImageCatalogEntry)
unfolding named_entry
load_entries [] = ok []
load_entries ((guest_image, entry) ∷ raw) = elim (named_entry guest_image entry) [
  | none ↦ raised (error "invalid image catalog entry")
  | some e ↦ elim (load_entries raw) [
    | ok es ↦ ok ((guest_image, e) ∷ es)
    | raised exn ↦ raised exn
  ]
]

-- `_load_image_catalog_cached`, on the parsed file, if there is one.
unfoldable pub load_image_catalog : Option Json → Result (Dict ImageCatalogEntry)
unfolding load_entries
load_image_catalog none = ok []
load_image_catalog (some (obj raw)) = load_entries (to_dict raw)
load_image_catalog (some _) = raised (error "image catalog file must contain a JSON object")
