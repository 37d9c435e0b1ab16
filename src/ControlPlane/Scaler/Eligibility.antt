-- ===== src/ControlPlane/Scaler/Eligibility.antt =====
-- Which hosts are eligible for an image, and in which order: the functions of
-- control_plane/services/scaler.py above `scale_once`. The clock is read for each host that is
-- enabled and was seen, so the functions that read it take and return the number of readings.
use Prim.Native.String.{compare}
use text.Mathlib.Text.{is_lt}
use jenkins_qemu_provisioner.Prelude.{
  ℕ, ◌+◌, String, Bool, true, false, not, ◌&&◌, ◌||◌, Option, none, some, List, [], ◌∷◌, ◌++◌, Dict,
  add_count, contains, sort, or_none, truthy, ltb, leb, ◌==◌, nat_eq, string_eq, if◌then◌else◌,
}
use jenkins_qemu_provisioner.Json.{Json, str, arr, to_list}
use jenkins_qemu_provisioner.ControlPlane.Models.{Settings, Time, seconds, Host}
use jenkins_qemu_provisioner.ControlPlane.World.{Outside}
use jenkins_qemu_provisioner.ControlPlane.GuestImages.{
  AvailableImage, ResolvedImageSelection, SourceKind, remote_cache, CachePolicy, prefer_warm,
}
use jenkins_qemu_provisioner.ControlPlane.GuestImages.Validation.{available_image}
use jenkins_qemu_provisioner.ControlPlane.Provisioning.{node_profile}

-- `now - host.last_seen <= timedelta(seconds=settings.host_stale_timeout_sec)`
unfoldable pub is_fresh : Settings → Time → Time → Bool
is_fresh s now seen = leb now (seen + seconds s.host_stale_timeout_sec)

-- The answer, and the number of clock readings after it.
unfoldable pub host_schedulable : Outside → Settings → ℕ → Host → Bool × ℕ
host_schedulable o s reading h = if not h.enabled then (false, reading) else elim h.last_seen [
  | none ↦ (false, reading)
  | some seen ↦ (is_fresh s (o.clock reading) seen, reading + 1)
]

-- the loop over the parsed list: an item that is no `AvailableImage` is skipped
valid_images : List Json → List AvailableImage
valid_images [] = []
valid_images (j ∷ js) =
    let rest = valid_images js in elim (available_image j) [ none ↦ rest | some a ↦ a ∷ rest ]

images_of : Option Json → List AvailableImage
images_of (some (arr xs)) = valid_images (to_list xs)
images_of _ = []

unfoldable pub host_available_images : Outside → Host → List AvailableImage
unfolding images_of valid_images
host_available_images o h = elim (or_none h.available_images_json) [
  | none ↦ []
  | some text ↦ images_of (o.json_loads text)
]

-- the test of the loop in `_host_image_bucket`
abbrev pub is_ready : ResolvedImageSelection → AvailableImage → Bool
is_ready image a =
    a.state == "READY"
    && a.guest_image == image.guest_image
    && a.base_image_id == image.base_image_id

abbrev pub any_ready : ResolvedImageSelection → List AvailableImage → Bool
any_ready image [] = false
any_ready image (a ∷ rest) = is_ready image a || any_ready image rest

abbrev pub may_fetch : SourceKind → CachePolicy → Bool
may_fetch remote_cache prefer_warm = true
may_fetch _ _ = false

unfoldable pub host_image_bucket : Outside → Host → ResolvedImageSelection → ℕ × String
host_image_bucket o h image =
    if any_ready image (host_available_images o h)
    then (0, "warm_ready")
    else if may_fetch image.source_kind image.cache_policy
    then (1, "cold_fetch_ok")
    else (2, "image_not_ready")

-- `[str(x) for x in parsed]`
abbrev py_texts : Outside → List Json → List String
py_texts o [] = []
py_texts o (str s ∷ js) = s ∷ py_texts o js
py_texts o (j ∷ js) = o.py_str j ∷ py_texts o js

listed_texts : Outside → Option Json → List String
listed_texts o (some (arr xs)) = py_texts o (to_list xs)
listed_texts o _ = []

-- `supported`, in `_host_meets_capability` and in `_host_capability_reason`
unfoldable pub supported_accels_of : Outside → Host → List String
unfolding listed_texts
supported_accels_of o h = elim (or_none h.supported_accels) [
  | none ↦ []
  | some text ↦ listed_texts o (o.json_loads text)
]

abbrev is_empty : List String → Bool
is_empty [] = true
is_empty (_ ∷ _) = false

-- `host.selected_accel and supported and host.selected_accel not in supported`
abbrev pub accel_unsupported : List String → Option String → Bool
accel_unsupported supported none = false
accel_unsupported supported (some accel) =
    truthy accel && not (is_empty supported) && not (contains supported accel)

-- `image.required_accel and host.selected_accel != image.required_accel`
abbrev pub accel_differs : Option String → Option String → Bool
accel_differs none selected = false
accel_differs (some wanted) none = truthy wanted
accel_differs (some wanted) (some accel) = truthy wanted && not (accel == wanted)

-- `image.required_cpu_arch and host.cpu_arch and host.cpu_arch != image.required_cpu_arch`
abbrev pub arch_differs : Option String → Option String → Bool
arch_differs (some wanted) (some arch) = truthy wanted && truthy arch && not (arch == wanted)
arch_differs _ _ = false

-- `host.cpu_arch and host.cpu_arch != image.cpu_arch`
abbrev pub image_arch_differs : String → Option String → Bool
image_arch_differs wanted none = false
image_arch_differs wanted (some arch) = truthy arch && not (arch == wanted)

module _ (o : Outside) where
  unfoldable pub host_meets_capability : Host → ResolvedImageSelection → Bool
  host_meets_capability h image =
      let supported = supported_accels_of o h in
      if accel_unsupported supported h.selected_accel
      then false
      else if accel_differs image.required_accel h.selected_accel
      then false
      else if arch_differs image.required_cpu_arch h.cpu_arch
      then false
      else if image_arch_differs image.cpu_arch h.cpu_arch
      then false
      else if leb 2 (host_image_bucket o h image).0
      then false
      else true

  unfoldable pub host_capability_reason : Host → ResolvedImageSelection → Option String
  host_capability_reason h image =
      let supported = supported_accels_of o h in
      if accel_unsupported supported h.selected_accel
      then some "accel_invalid"
      else if accel_differs image.required_accel h.selected_accel
      then some "accel_mismatch"
      else if arch_differs image.required_cpu_arch h.cpu_arch
      then some "cpu_arch_mismatch"
      else if image_arch_differs image.cpu_arch h.cpu_arch
      then some "image_cpu_arch_mismatch"
      else let (bucket, reason) = host_image_bucket o h image in
        if leb 2 bucket then some reason else none

  -- The order of the sort keys `(bucket, reason, io_pressure, -cpu_free, -ram_free_mb)`.
  unfoldable pub before : ResolvedImageSelection → Host → Host → Bool
  before image a b =
      let (bucket_a, reason_a) = host_image_bucket o a image in
      let (bucket_b, reason_b) = host_image_bucket o b image in
      if not (bucket_a == bucket_b)
      then ltb bucket_a bucket_b
      else if not (reason_a == reason_b)
      then is_lt (compare reason_a reason_b)
      else if not (a.io_pressure == b.io_pressure)
      then ltb a.io_pressure b.io_pressure
      else if not (a.cpu_free == b.cpu_free)
      then ltb b.cpu_free a.cpu_free
      else ltb b.ram_free_mb a.ram_free_mb

  module _ (s : Settings) (image : ResolvedImageSelection) where
    abbrev pub fits : Host → Bool
    fits h =
        leb (node_profile image.profile).vcpu h.cpu_free
        && leb (node_profile image.profile).ram_mb h.ram_free_mb

    -- the comprehension of `_eligible_hosts`, from a number of clock readings
    unfoldable pub eligible_from : ℕ → List Host → List Host × ℕ
    eligible_from reading [] = ([], reading)
    eligible_from reading (h ∷ hosts) =
        let (schedulable, reading') = host_schedulable o s reading h in
        let (rest, reading'') = eligible_from reading' hosts in
        (
          if schedulable && host_meets_capability h image && fits h then h ∷ rest else rest,
          reading'',
        )

    unfoldable pub eligible_hosts : ℕ → List Host → List Host × ℕ
    unfolding eligible_from
    eligible_hosts reading hosts =
        let (eligible, reading') = eligible_from reading hosts in
        (sort (before image) eligible, reading')

    -- the last tests in the loop of `_eligible_hosts_with_reasons`, for a host that is fresh
    unfoldable pub fit_reason : Host → Option String
    fit_reason h = elim (host_capability_reason h image) [
      | some reason ↦ some reason
      | none ↦
          if ltb h.cpu_free (node_profile image.profile).vcpu
          then some "cpu_insufficient"
          else if ltb h.ram_free_mb (node_profile image.profile).ram_mb
          then some "ram_insufficient"
          else none
    ]

    -- the `reason` of that loop
    unfoldable pub reject_reason : Time → Host → Option String
    reject_reason now h = if not h.enabled then some "disabled" else elim h.last_seen [
      | none ↦ some "stale"
      | some seen ↦ if not (is_fresh s now seen) then some "stale" else fit_reason h
    ]

    -- the body of the loop, on `eligible` and `reasons`
    unfoldable pub sift_host : Time → Host → List Host × Dict ℕ → List Host × Dict ℕ
    sift_host now h (eligible, reasons) = elim (reject_reason now h) [
      | some reason ↦
          if truthy reason
          then (eligible, add_count reason 1 reasons)
          else (eligible ++ h ∷ [], reasons)
      | none ↦ (eligible ++ h ∷ [], reasons)
    ]

    unfoldable pub sift : Time → List Host → List Host × Dict ℕ → List Host × Dict ℕ
    sift now [] found = found
    sift now (h ∷ hosts) found = sift now hosts (sift_host now h found)

    unfoldable pub eligible_hosts_with_reasons : Time → List Host → List Host × Dict ℕ
    unfolding sift sift_host
    eligible_hosts_with_reasons now hosts =
        let (eligible, reasons) = sift now hosts ([], []) in (sort (before image) eligible, reasons)
