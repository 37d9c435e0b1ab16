-- ===== src/ControlPlane/Provisioning.antt =====
-- control_plane/services/provisioning.py: leases are created, provisioned on a host, and failed.
pub mod Labels
pub mod Quoting
pub mod Outcome
pub mod Calls
use jenkins_qemu_provisioner.Prelude.{
  not, ◌&&◌, ◌||◌, ℕ, ◌+◌, String, Bool, true, false, Option, none, some, List, [], ◌∷◌, ◌++◌, row,
  write, has_part, concat, first_chars, truthy, ◌==◌, string_eq, if◌then◌else◌,
}
use jenkins_qemu_provisioner.Json.{str}
use jenkins_qemu_provisioner.ControlPlane.Models.{
  Settings, Time, seconds, LeaseState, requested, booting, connected, running, terminating,
  terminated, failed, Lease,
}
use jenkins_qemu_provisioner.ControlPlane.World.{
  Exn, provisioning_error, error, Result, ok, raised, VmPayload, create_ephemeral_node,
  get_inbound_secret, delete_node, ensure_vm, Outside, World, Action, pure, raise, gets, call,
  modify, catch, now_utc, write_event, get_lease, save_lease, ◌>>=◌, ◌>>◌,
}
use jenkins_qemu_provisioner.ControlPlane.GuestImages.{
  ProfileName, small, medium, large, SourceKind, manual_local, remote_cache, Config,
  ResolvedImageSelection,
}
use jenkins_qemu_provisioner.ControlPlane.GuestImages.Resolution.{resolve_image_selection}
use Labels.{normalize_node_label}
use Quoting.{env_file}

-- `NODE_PROFILES`
pub record NodeProfile : Type 0 where
  pub vcpu : ℕ
  pub ram_mb : ℕ
  pub disk_gb : ℕ

abbrev pub node_profile : ProfileName → NodeProfile
node_profile small = record { vcpu = 2; ram_mb = 4096; disk_gb = 40 }
node_profile medium = record { vcpu = 4; ram_mb = 8192; disk_gb = 80 }
node_profile large = record { vcpu = 8; ram_mb = 16384; disk_gb = 120 }

pub choose_profile : String → String
choose_profile label =
    if has_part "large" label
    then "large"
    else if has_part "medium" label
    then "medium"
    else "small"

abbrev source_kind_text : SourceKind → String
source_kind_text manual_local = "manual_local"
source_kind_text remote_cache = "remote_cache"

abbrev pub vm_id_of : String → String
vm_id_of lease_id = concat ("vm-" ∷ first_chars 12 lease_id ∷ [])

abbrev pub node_of : String → String
node_of lease_id = concat ("ephemeral-" ∷ first_chars 12 lease_id ∷ [])

-- The `Lease(...)` of `create_lease`, with a fresh identifier, at a reading of the clock.
abbrev pub new_lease : Settings → String → String → Time → Lease
new_lease s label lease_id now = record {
  lease_id = lease_id;
  vm_id = vm_id_of lease_id;
  label = label;
  jenkins_node = node_of lease_id;
  state = requested;
  host_id = none;
  created_at = now;
  updated_at = now;
  connect_deadline = now + seconds s.connect_deadline_sec;
  ttl_deadline = now + seconds s.vm_ttl_sec;
  disconnected_at = none;
  guest_image = none;
  base_image_id = none;
  bound_build_url = none;
  last_heartbeat = none;
  last_error = none;
}

pub create_lease : Outside → Settings → String → Action Lease
create_lease o s label = do
  now ← now_utc o
  lease_id ← gets (λ w. o.uuid_hex w.drawn)
  modify (λ w. record w { drawn = w.drawn + 1 })
  pure (new_lease s label lease_id now)

-- `if lease_id: lease.lease_id = lease_id; ...`
abbrev rename : Option String → Lease → Lease
rename none l = l
rename (some id) l =
    if truthy id
    then record l { lease_id = id; vm_id = vm_id_of id; jenkins_node = node_of id }
    else l

-- The states of a lease that is already past its provisioning.
abbrev is_provisioned : LeaseState → Bool
is_provisioned booting = true
is_provisioned connected = true
is_provisioned running = true
is_provisioned terminating = true
is_provisioned terminated = true
is_provisioned _ = false

-- What `session.merge(lease)` writes over a row: the columns that the new lease was given.
abbrev merged : Lease → Lease → Lease
merged l row = record l {
  disconnected_at = row.disconnected_at;
  bound_build_url = row.bound_build_url;
  last_heartbeat = row.last_heartbeat;
  last_error = row.last_error;
}

-- Another row has the `vm_id` or the `jenkins_node` of the lease, which are unique.
abbrev pub is_taken : Lease → List Lease → Bool
is_taken l [] = false
is_taken l (other ∷ rest) =
    (not (other.lease_id == l.lease_id)
      && (other.vm_id == l.vm_id || other.jenkins_node == l.jenkins_node))
    || is_taken l rest

unfoldable pub write_lease : Lease → Option Lease → Action (Unit {0})
write_lease l none = modify (λ w. record w { leases = w.leases ++ l ∷ [] })
write_lease l (some row) = save_lease (merged l row)

-- `session.merge(lease)` and `session.flush()`
unfoldable pub merge_lease : Lease → Option Lease → Action (Unit {0})
unfolding write_lease
merge_lease l found w =
    if is_taken l w.leases
    then (raised (error "IntegrityError: UNIQUE constraint failed"), w)
    else write_lease l found w

module _ (o : Outside) (c : Config) (label host_id : String) (image : ResolvedImageSelection) where
  -- the event "lease.created"
  abbrev pub write_created : Lease → Action (Unit {0})
  write_created l =
      write_event "lease.created"
        (("label", str label)
          ∷ ("host_id", str host_id)
          ∷ ("guest_image", str image.guest_image)
          ∷ ("base_image_id", str image.base_image_id)
          ∷ [])
        (some l.lease_id)

  -- `lease.host_id = host_id` and the images, the merge and the event
  persist : Lease → Option Lease → Action (Unit {0})
  unfolding merge_lease
  persist l found = merge_lease l found >> write_created l

  -- The body of `PUT /v1/vms/{vm_id}`.
  abbrev pub payload : Lease → String → VmPayload
  payload l secret = record {
    vm_id = l.vm_id;
    label = label;
    guest_image = image.guest_image;
    base_image_id = image.base_image_id;
    source_kind = source_kind_text image.source_kind;
    source_url = image.source_url;
    source_digest = image.source_digest;
    format = image.format;
    overlay_path = concat ("/var/lib/jenkins-qemu/" ∷ l.vm_id ∷ ".qcow2" ∷ []);
    vcpu = (node_profile image.profile).vcpu;
    ram_mb = (node_profile image.profile).ram_mb;
    disk_gb = (node_profile image.profile).disk_gb;
    lease_expires_at = o.isoformat l.ttl_deadline;
    connect_deadline = o.isoformat l.connect_deadline;
    jenkins_url = c.settings.jenkins_url;
    jenkins_node_name = l.jenkins_node;
    jnlp_secret = secret;
    cloud_init_user_data_b64 = o.b64_encode (
        o.cloud_init_document (
          env_file c.settings.jenkins_url l.jenkins_node secret c.settings.jenkins_agent_transport
            c.settings.jenkins_agent_tmpdir));
    lease_id = l.lease_id;
  }

  -- `db_lease` as the successful end of `provision_one` writes it
  abbrev pub booted : Time → Lease → Lease
  booted now l = record l {
    state = booting;
    guest_image = some image.guest_image;
    base_image_id = some image.base_image_id;
    updated_at = now;
  }

  mark_booting : String → Option Lease → Action (Unit {0})
  mark_booting lease_id none = pure tt
  mark_booting lease_id (some row) = do
    now ← now_utc o
    save_lease (booted now row)
    write_event "lease.booting"
        (("host_id", str host_id)
          ∷ ("guest_image", str image.guest_image)
          ∷ ("base_image_id", str image.base_image_id)
          ∷ [])
        (some lease_id)

  -- the `try` block
  launch : Lease → Action String
  unfolding mark_booting normalize_node_label
  launch l = do
    call
        (create_ephemeral_node l.jenkins_node (normalize_node_label label)
          (c.settings.jenkins_agent_transport == "websocket"))
        (λ past.
          o.create_ephemeral_node past l.jenkins_node (normalize_node_label label)
            (c.settings.jenkins_agent_transport == "websocket"))
    secret ←
        call (get_inbound_secret l.jenkins_node) (λ past. o.get_inbound_secret past l.jenkins_node)
    call (ensure_vm host_id (payload l secret))
        (λ past. o.ensure_vm past host_id (payload l secret))
    row ← gets (get_lease l.lease_id)
    mark_booting l.lease_id row
    pure l.lease_id

  -- `db_lease` as the `except` block of `provision_one` writes it
  abbrev pub failed_lease : Time → Exn → Lease → Lease
  failed_lease now exc l = record l {
    state = failed;
    guest_image = some image.guest_image;
    base_image_id = some image.base_image_id;
    last_error = some (o.str_exn exc);
    updated_at = now;
  }

  mark_failed : String → Exn → Option Lease → Action (Unit {0})
  mark_failed lease_id exc none = pure tt
  mark_failed lease_id exc (some row) = do
    now ← now_utc o
    save_lease (failed_lease now exc row)
    write_event "lease.failed" (("error", str (o.str_exn exc)) ∷ []) (some lease_id)

  abbrev pub provisioning_failure : Lease → Exn → Exn
  provisioning_failure l exc = provisioning_error (record {
    lease_id = l.lease_id;
    vm_id = l.vm_id;
    host_id = host_id;
    label = label;
    stage = "ensure_vm";
    detail = o.str_exn exc;
  })

  -- the `except` block
  fail : Lease → Exn → Action String
  unfolding mark_failed
  fail l exc = do
    row ← gets (get_lease l.lease_id)
    mark_failed l.lease_id exc row
    catch (call (delete_node l.jenkins_node) (λ past. o.delete_node past l.jenkins_node))
        (λ _. pure tt)
    raise (provisioning_failure l exc)

  -- the rest of `provision_one` for a lease that is not past its provisioning
  provision_fresh : Lease → Option Lease → Action String
  provision_fresh l found = do persist l found; catch (launch l) (fail l)

  provision_lease : Lease → Option Lease → Action String
  unfolding provision_fresh
  provision_lease l none = provision_fresh l none
  provision_lease l (some row) =
      if is_provisioned row.state then pure row.lease_id else provision_fresh l (some row)

  -- `provision_one` for the image that was resolved
  provision_resolved : Option String → Action String
  unfolding provision_lease create_lease
  provision_resolved lease_id = do
    fresh ← create_lease o c.settings label
    let l = record (rename lease_id fresh) {
      host_id = some host_id;
      guest_image = some image.guest_image;
      base_image_id = some image.base_image_id;
    }
    found ← gets (get_lease l.lease_id)
    provision_lease l found

abbrev chosen_image :
    Outside → Config → String → Option ResolvedImageSelection → Option ResolvedImageSelection
chosen_image o c label none = resolve_image_selection o c label
chosen_image o c label (some image) = some image

pub provision_one :
    Outside
    → Config
    → String
    → String
    → Option ResolvedImageSelection
    → Option String
    → Action String
unfolding provision_resolved
provision_one o c label host_id image lease_id = elim (chosen_image o c label image) [
  | none ↦ raise (error (concat ("no guest image policy configured for label: " ∷ label ∷ [])))
  | some resolved ↦ provision_resolved o c label host_id resolved lease_id
]
