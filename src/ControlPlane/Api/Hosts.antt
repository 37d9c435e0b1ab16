-- ===== src/ControlPlane/Api/Hosts.antt =====
-- The endpoints on hosts of control_plane/api.py: registration, heartbeat, disabling and enabling.
use jenkins_qemu_provisioner.Prelude.{
  ℕ, min, String, Bool, true, false, not, ◌&&◌, Option, none, some, List, [], ◌∷◌, map, contains,
  truthy, or_else, int_or, ltb, string_eq, if◌then◌else◌,
}
use jenkins_qemu_provisioner.Json.{Json, str, obj, arr, items, fields, optional_str}
use jenkins_qemu_provisioner.ControlPlane.Models.{Settings, Time, Host}
use jenkins_qemu_provisioner.ControlPlane.World.{
  http_exception, Outside, Action, pure, raise, gets, modify, now_utc, write_event, get_host,
  save_host, ◌>>=◌, ◌>>◌,
}
use jenkins_qemu_provisioner.ControlPlane.GuestImages.{AvailableImage}
use jenkins_qemu_provisioner.ControlPlane.Repositories.{new_host, add_host, update_host_heartbeat}
use jenkins_qemu_provisioner.ControlPlane.Api.Auth.{
  secure_compare_token, new_session_token, require_token,
}

pub record RegisterHostRequest : Type 0 where
  pub agent_version : String
  pub qemu_version : String
  pub cpu_total : ℕ
  pub ram_total_mb : ℕ
  pub cpu_allocatable : Option ℕ
  pub ram_allocatable_mb : Option ℕ
  pub base_image_ids : List String
  pub available_images : List AvailableImage
  pub addr : String
  pub os_family : Option String
  pub os_flavor : Option String
  pub os_version : Option String
  pub cpu_arch : Option String
  pub qemu_binary : Option String
  pub supported_accels : List String
  pub selected_accel : Option String

pub record RegisterHostResponse : Type 0 where
  pub host_id : String
  pub enabled : Bool
  pub session_token : String
  pub session_expires_at : Time
  pub heartbeat_interval_sec : ℕ

pub record HeartbeatRequest : Type 0 where
  pub cpu_total : Option ℕ
  pub ram_total_mb : Option ℕ
  pub cpu_allocatable : Option ℕ
  pub ram_allocatable_mb : Option ℕ
  pub cpu_free : ℕ
  pub ram_free_mb : ℕ
  pub io_pressure : ℕ
  pub running_vm_ids : List String
  pub available_images : List AvailableImage
  pub os_family : Option String
  pub os_flavor : Option String
  pub os_version : Option String
  pub cpu_arch : Option String
  pub qemu_binary : Option String
  pub supported_accels : List String
  pub selected_accel : Option String

-- `_resolved_allocatable`
abbrev pub resolved_allocatable : ℕ → Option ℕ → ℕ
resolved_allocatable total allocatable = min (int_or allocatable total) total

-- `image.model_dump()`, with its keys sorted
abbrev dumped : AvailableImage → Json
dumped a = obj (
    fields (
      ("base_image_id", str a.base_image_id)
      ∷ ("cpu_arch", optional_str a.cpu_arch)
      ∷ ("guest_image", str a.guest_image)
      ∷ ("source_digest", optional_str a.source_digest)
      ∷ ("state", str a.state)
      ∷ []))

abbrev ready_image : String → AvailableImage
ready_image image_id = record {
  guest_image = image_id;
  base_image_id = image_id;
  source_digest = none;
  cpu_arch = none;
  state = "READY";
}

abbrev text_list : List String → Json
text_list xs = arr (items (map str xs))

module _ (o : Outside) where
  -- `_available_images_json`
  available_images_json : List AvailableImage → List String → String
  available_images_json [] base_image_ids =
      o.json_dumps (arr (items (map (λ id. dumped (ready_image id)) base_image_ids)))
  available_images_json (a ∷ images) base_image_ids =
      o.json_dumps (arr (items (map dumped (a ∷ images))))

  module _ (s : Settings) (host_id : String) (req : RegisterHostRequest) where
    abbrev pub new_row : String → Host
    new_row token =
        new_host host_id req.cpu_total (resolved_allocatable req.cpu_total req.cpu_allocatable)
          req.ram_total_mb (resolved_allocatable req.ram_total_mb req.ram_allocatable_mb)
          (some (o.hash_token token))

    -- what registration writes on the row
    unfoldable pub registered : String → Time → Time → Host → Host
    unfolding available_images_json
    registered session_token expires now h = record h {
      session_token_hash = some (o.hash_token session_token);
      session_expires_at = some expires;
      cpu_total = req.cpu_total;
      cpu_allocatable = resolved_allocatable req.cpu_total req.cpu_allocatable;
      cpu_free = resolved_allocatable req.cpu_total req.cpu_allocatable;
      ram_total_mb = req.ram_total_mb;
      ram_allocatable_mb = resolved_allocatable req.ram_total_mb req.ram_allocatable_mb;
      ram_free_mb = resolved_allocatable req.ram_total_mb req.ram_allocatable_mb;
      os_family = req.os_family;
      os_flavor = req.os_flavor;
      os_version = req.os_version;
      cpu_arch = req.cpu_arch;
      addr = some req.addr;
      qemu_binary = req.qemu_binary;
      supported_accels = some (o.json_dumps (text_list req.supported_accels));
      selected_accel = req.selected_accel;
      available_images_json = some (available_images_json req.available_images req.base_image_ids);
      last_seen = some now;
    }

    -- from the test `if not host.enabled` on; `store` writes the row
    unfoldable pub register_row :
        String → (Host → Action (Unit {0})) → Host → Action RegisterHostResponse
    unfolding registered
    register_row token store h =
        if not h.enabled
        then raise (http_exception 403 "host disabled")
        else if not (secure_compare_token o token h.bootstrap_token_hash)
        then raise (http_exception 401 "invalid bootstrap token")
        else new_session_token o 1 >>= λ session. now_utc o >>= λ now.
            store (registered session.0 session.1 now h)
            >> write_event "host.registered"
                (("host_id", str host_id) ∷ ("agent_version", str req.agent_version) ∷ []) none
            >> pure (record {
              host_id = h.host_id;
              enabled = h.enabled;
              session_token = session.0;
              session_expires_at = session.1;
              heartbeat_interval_sec = 5;
            })

    unfoldable pub register_found : String → Option Host → Action RegisterHostResponse
    unfolding register_row
    register_found token none =
        if not s.allow_unknown_host_registration
        then raise (http_exception 404 "unknown host")
        else register_row token (λ h. modify (add_host h)) (new_row token)
    register_found token (some h) = register_row token save_host h

    unfoldable pub register_host : Option String → Action RegisterHostResponse
    unfolding register_found
    register_host authorization = do
      token ← require_token o authorization
      found ← gets (get_host host_id)
      register_found token found

  -- `req.selected_accel and req.supported_accels and req.selected_accel not in req.supported_accels`
  abbrev pub accel_refused : Option String → List String → Bool
  accel_refused none supported = false
  accel_refused (some accel) [] = false
  accel_refused (some accel) (s ∷ supported) = truthy accel && not (contains (s ∷ supported) accel)

  new_accels : List String → Option String → Option String
  new_accels [] old = old
  new_accels (s ∷ supported) old = some (o.json_dumps (text_list (s ∷ supported)))

  new_images : List AvailableImage → Option String → Option String
  unfolding available_images_json
  new_images [] old = old
  new_images (a ∷ images) old = some (available_images_json (a ∷ images) [])

  module _ (host_id : String) (req : HeartbeatRequest) where
    -- what a heartbeat writes on the row
    unfoldable pub beaten : Time → Host → Host
    unfolding new_accels new_images update_host_heartbeat
    beaten now old =
        let h =
          update_host_heartbeat old req.cpu_total req.ram_total_mb req.cpu_allocatable
            req.ram_allocatable_mb req.cpu_free req.ram_free_mb req.io_pressure now in
        record h {
          os_family = or_else req.os_family h.os_family;
          os_flavor = or_else req.os_flavor h.os_flavor;
          os_version = or_else req.os_version h.os_version;
          cpu_arch = or_else req.cpu_arch h.cpu_arch;
          qemu_binary = or_else req.qemu_binary h.qemu_binary;
          selected_accel = or_else req.selected_accel h.selected_accel;
          supported_accels = new_accels req.supported_accels h.supported_accels;
          available_images_json = new_images req.available_images h.available_images_json;
        }

    -- from the test of the session's end on
    unfoldable pub beat_in_session : String → Host → Time → Action (Unit {0})
    unfolding beaten
    beat_in_session token h expires = now_utc o >>= λ now.
        if ltb expires now
        then raise (http_exception 401 "session expired")
        else if not (secure_compare_token o token h.session_token_hash)
        then raise (http_exception 401 "invalid session token")
        else if accel_refused req.selected_accel req.supported_accels
        then raise (http_exception 400 "selected_accel not supported by host")
        else now_utc o >>= λ seen.
            save_host (beaten seen h)
            >> write_event "host.heartbeat"
                (("host_id", str host_id) ∷ ("running_vm_ids", text_list req.running_vm_ids) ∷ [])
                none

    unfoldable pub beat_known : String → Option Host → Action (Unit {0})
    unfolding beat_in_session
    beat_known token none = raise (http_exception 404 "unknown host")
    beat_known token (some h) =
        if not h.enabled
        then raise (http_exception 403 "host disabled")
        else elim h.session_expires_at [
          | none ↦ raise (http_exception 401 "session expired")
          | some expires ↦ beat_in_session token h expires
        ]

    unfoldable pub heartbeat : Option String → Action (Unit {0})
    unfolding beat_known
    heartbeat authorization = do
      token ← require_token o authorization
      found ← gets (get_host host_id)
      beat_known token found

abbrev pub disabled : Host → Host
disabled h = record h { enabled = false; session_token_hash = none; session_expires_at = none }

abbrev pub enabled_again : Host → Host
enabled_again h = record h { enabled = true }

disable_found : String → Option Host → Action (Unit {0})
disable_found host_id none = raise (http_exception 404 "unknown host")
disable_found host_id (some h) = do
  save_host (disabled h)
  write_event "host.disabled" (("host_id", str host_id) ∷ []) none

unfoldable pub disable_host : String → Action (Unit {0})
unfolding disable_found
disable_host host_id = do found ← gets (get_host host_id); disable_found host_id found

enable_found : String → Option Host → Action (Unit {0})
enable_found host_id none = raise (http_exception 404 "unknown host")
enable_found host_id (some h) = do
  save_host (enabled_again h)
  write_event "host.enabled" (("host_id", str host_id) ∷ []) none

unfoldable pub enable_host : String → Action (Unit {0})
unfolding enable_found
enable_host host_id = do found ← gets (get_host host_id); enable_found host_id found
