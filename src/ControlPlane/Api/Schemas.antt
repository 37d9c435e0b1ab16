-- ===== src/ControlPlane/Api/Schemas.antt =====
-- The validators of control_plane/schemas.py on the reports of a host.
use jenkins_qemu_provisioner.Prelude.{
  ℕ, Bool, true, ◌&&◌, Option, none, some, List, [], ◌∷◌, leb, truthy, string_eq,
}
use jenkins_qemu_provisioner.ControlPlane.GuestImages.{AvailableImage}
use jenkins_qemu_provisioner.ControlPlane.Api.Hosts.{RegisterHostRequest, HeartbeatRequest}

-- `Field(default=None, ge=n)`
abbrev at_least : ℕ → Option ℕ → Bool
at_least n none = true
at_least n (some k) = leb n k

-- A field is not greater than another, where both are given.
abbrev within : Option ℕ → Option ℕ → Bool
within none total = true
within (some n) none = true
within (some n) (some total) = leb n total

-- The constraints of the nested `AvailableImage` of control_plane/guest_images.py.
abbrev pub is_valid_image : AvailableImage → Bool
is_valid_image a = truthy a.guest_image && truthy a.base_image_id

abbrev pub are_valid_images : List AvailableImage → Bool
are_valid_images [] = true
are_valid_images (a ∷ rest) = is_valid_image a && are_valid_images rest

unfoldable pub is_valid_register : RegisterHostRequest → Bool
is_valid_register r =
    leb 1 r.cpu_total
    && leb 256 r.ram_total_mb
    && at_least 1 r.cpu_allocatable
    && at_least 256 r.ram_allocatable_mb
    && are_valid_images r.available_images
    && within r.cpu_allocatable (some r.cpu_total)
    && within r.ram_allocatable_mb (some r.ram_total_mb)

unfoldable pub is_valid_heartbeat : HeartbeatRequest → Bool
is_valid_heartbeat r =
    at_least 1 r.cpu_total
    && at_least 256 r.ram_total_mb
    && at_least 1 r.cpu_allocatable
    && at_least 256 r.ram_allocatable_mb
    && leb 0 r.cpu_free
    && leb 0 r.ram_free_mb
    && leb 0 r.io_pressure
    && are_valid_images r.available_images
    && within r.cpu_allocatable r.cpu_total
    && within r.ram_allocatable_mb r.ram_total_mb
