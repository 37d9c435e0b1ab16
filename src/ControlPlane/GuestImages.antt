-- ===== src/ControlPlane/GuestImages.antt =====
-- control_plane/guest_images.py: label policies, the image catalog, and the image for a label.
-- The two files are parsed once: `label_policies` and `image_catalog` are what `json.loads` gave.
-- The cache by path and modification time is not modelled: it returns what parsing again would.
pub mod Validation
pub mod Resolution
pub mod Laws
use jenkins_qemu_provisioner.Prelude.{String, Option, Dict}
use jenkins_qemu_provisioner.ControlPlane.Models.{Settings}

pub data ProfileName : Type 0 where
  small medium large : ProfileName

pub data CachePolicy : Type 0 where
  prefer_warm require_warm : CachePolicy

pub data SourceKind : Type 0 where
  manual_local remote_cache : SourceKind

pub record LabelPolicy : Type 0 where
  pub guest_image : String
  pub profile : ProfileName
  pub required_accel : Option String
  pub required_cpu_arch : Option String

pub record ImageCatalogEntry : Type 0 where
  pub guest_image : String
  pub base_image_id : String
  pub os_family : String
  pub os_flavor : String
  pub os_version : String
  pub cpu_arch : String
  pub source_kind : SourceKind
  pub source_url : Option String
  pub source_digest : Option String
  pub format : String
  pub cache_policy : CachePolicy

pub record AvailableImage : Type 0 where
  pub guest_image : String
  pub base_image_id : String
  pub source_digest : Option String
  pub cpu_arch : Option String
  pub state : String

pub record ResolvedImageSelection : Type 0 where
  pub guest_image : String
  pub profile : ProfileName
  pub required_accel : Option String
  pub required_cpu_arch : Option String
  pub base_image_id : String
  pub os_family : String
  pub os_flavor : String
  pub os_version : String
  pub cpu_arch : String
  pub source_kind : SourceKind
  pub source_url : Option String
  pub source_digest : Option String
  pub format : String
  pub cache_policy : CachePolicy

-- What a service reads of its configuration: the settings and the two parsed files.
pub record Config : Type 0 where
  pub settings : Settings
  pub label_policies : Dict LabelPolicy
  pub image_catalog : Dict ImageCatalogEntry
