-- ===== src/ControlPlane/World.antt =====
-- The world that the control plane acts on, and its actions. The world holds the rows of the
-- database (control_plane/db.py, control_plane/models.py), the in-memory state of the services
-- (`_cooldowns` and `_diag_throttle` of control_plane/services/scaler.py, the counters of
-- control_plane/metrics.py), how often the clock was read, and the calls made to Jenkins and the
-- node agents, newest first.
-- What answers those calls is not part of the program: it is a value of `Outside`, whose answers
-- may depend on all the calls made before. A `session_scope` block commits what it writes, since the
-- database itself is taken not to fail, but for a lease whose machine or Jenkins node another lease
-- has; a raise keeps what earlier blocks have written.
use jenkins_qemu_provisioner.Prelude.{
  ℕ, ◌+◌, String, Bool, Option, List, [], ◌∷◌, ◌++◌, Dict, add_count, row, write,
}
use jenkins_qemu_provisioner.Json.{Json}
use jenkins_qemu_provisioner.ControlPlane.Models.{Time, Lease, Host, Event}

-- `RequestFailure` of control_plane/clients/http.py.
pub record RequestFailure : Type 0 where
  pub method : String
  pub url : String
  pub attempts : ℕ
  pub error_type : String
  pub detail : String
  pub status_code : Option ℕ
  pub response_text : Option String

-- `ProvisioningError` of control_plane/services/provisioning.py.
pub record ProvisioningError : Type 0 where
  pub lease_id : String
  pub vm_id : String
  pub host_id : String
  pub label : String
  pub stage : String
  pub detail : String

-- The exceptions that the program tells apart; `error s` is any other, with its text.
pub data Exn : Type 0 where
  request_failure : RequestFailure → Exn
  provisioning_error : ProvisioningError → Exn
  http_exception : ℕ → String → Exn
  error : String → Exn

pub data Result (A : Type 0) : Type 0 where
  ok : A → Result A
  raised : Exn → Result A

-- The body of `PUT /v1/vms/{vm_id}`.
pub record VmPayload : Type 0 where
  pub vm_id : String
  pub label : String
  pub guest_image : String
  pub base_image_id : String
  pub source_kind : String
  pub source_url : Option String
  pub source_digest : Option String
  pub format : String
  pub overlay_path : String
  pub vcpu : ℕ
  pub ram_mb : ℕ
  pub disk_gb : ℕ
  pub lease_expires_at : String
  pub connect_deadline : String
  pub jenkins_url : String
  pub jenkins_node_name : String
  pub jnlp_secret : String
  pub cloud_init_user_data_b64 : String
  pub lease_id : String

-- A method call on the Jenkins client, or on the node agent client of a host.
pub data Call : Type 0 where
  queue_snapshot : Call
  create_ephemeral_node : String → String → Bool → Call
  get_inbound_secret delete_node node_runtime_status node_current_build_url is_build_running :
      String → Call
  ensure_vm : String → VmPayload → Call
  delete_vm : String → String → String → Call

-- `QueueSnapshot` and `NodeRuntimeStatus` of control_plane/clients/jenkins.py.
pub record QueueSnapshot : Type 0 where
  pub queued_by_label : Dict ℕ
  pub queued_by_node : Dict ℕ

pub record NodeRuntimeStatus : Type 0 where
  pub connected : Bool
  pub busy : Bool

-- The answers of Jenkins and of the node agents, after the calls made so far; the clock, by the
-- number of the reading; fresh texts, `uuid.uuid4().hex` and `secrets.token_urlsafe(48)`, by how
-- many were drawn; whether httpx takes the address of the node agent of a host when its client is
-- made, `node_agent_factory`; and the functions of Python's libraries that the services call: the text of a
-- number, of an exception and of a time, JSON, lower case, base64, SHA-256. `cloud_init_document` is
-- the fixed text that `build_jenkins_cloud_init_user_data` puts around the environment file.
pub record Outside : Type 0 where
  pub clock : ℕ → Time
  pub uuid_hex : ℕ → String
  pub str_int : ℕ → String
  pub str_exn : Exn → String
  pub queue_snapshot : List Call → Result QueueSnapshot
  pub create_ephemeral_node : List Call → String → String → Bool → Result (Unit {0})
  pub get_inbound_secret : List Call → String → Result String
  pub delete_node : List Call → String → Result (Unit {0})
  pub node_runtime_status : List Call → String → Result NodeRuntimeStatus
  pub node_current_build_url : List Call → String → Result (Option String)
  pub is_build_running : List Call → String → Result Bool
  pub ensure_vm : List Call → String → VmPayload → Result (Unit {0})
  pub delete_vm : List Call → String → String → String → Result (Unit {0})
  pub node_agent_factory : String → Result (Unit {0})
  pub base_url : String → String
  pub b64_encode : String → String
  pub cloud_init_document : String → String
  pub isoformat : Time → String
  pub json_loads : String → Option Json
  pub json_dumps : Json → String
  pub py_str : Json → String
  pub lower : String → String
  pub hash_token : String → String
  pub token_urlsafe : ℕ → String

pub record World : Type 0 where
  pub hosts : List Host
  pub leases : List Lease
  pub events : List Event
  pub counters : Dict ℕ
  pub cooldowns : Dict Time
  pub diag_throttle : Dict Time
  pub readings : ℕ
  pub drawn : ℕ
  pub calls : List Call

-- An action may change the world and then return or raise.
abbrev pub Action : Type 0 → Type 0
Action A = World → Result A × World

module _ {A : Type 0} where
  abbrev pub pure : A → Action A
  pure a w = (ok a, w)

  abbrev pub raise : Exn → Action A
  raise e w = (raised e, w)

  abbrev pub gets : (World → A) → Action A
  gets f w = (ok (f w), w)

  -- A call of a client: it is added to the calls, and its answer is returned or raised.
  abbrev pub call : Call → (List Call → Result A) → Action A
  call c answer w = (answer w.calls, record w { calls = c ∷ w.calls })

abbrev pub modify : (World → World) → Action (Unit {0})
modify f w = (ok tt, f w)

infixl 5 ◌>>=◌ ◌>>◌
abbrev pub ◌>>=◌ : {A B : Type 0} → Action A → (A → Action B) → Action B
◌>>=◌ m f w = let (r, w') = m w in elim r [ ok a ↦ f a w' | raised e ↦ (raised e, w') ]

abbrev pub ◌>>◌ : {B : Type 0} → Action (Unit {0}) → Action B → Action B
m >> k = m >>= λ _. k

-- `try: m except Exception as exc: handler(exc)`
abbrev pub catch : {A : Type 0} → Action A → (Exn → Action A) → Action A
catch m handler w = let (r, w') = m w in elim r [ ok a ↦ (ok a, w') | raised e ↦ handler e w' ]

-- `for x in xs: body(x)`
unfoldable pub for_each : {A : Type 0} → List A → (A → Action (Unit {0})) → Action (Unit {0})
for_each [] body w = (ok tt, w)
for_each (x ∷ xs) body w =
    let (r, w') = body x w in
    let rest = for_each xs body w' in elim r [ ok _ ↦ rest | raised e ↦ (raised e, w') ]

-- `node_agent_factory(host_id)`
abbrev pub node_agent_factory : Outside → String → Action (Unit {0})
node_agent_factory o host_id w = (o.node_agent_factory host_id, w)

-- `datetime.now(UTC)`, `now_utc()`
abbrev pub now_utc : Outside → Action Time
now_utc o w = (ok (o.clock w.readings), record w { readings = w.readings + 1 })

-- `write_event(session, event_type, payload, lease_id)`
abbrev pub write_event : String → Dict Json → Option String → Action (Unit {0})
write_event event_type payload lease_id w = (
  ok tt,
  record w {
    events =
        w.events
        ++ (record { lease_id = lease_id; event_type = event_type; payload = payload }) ∷ [];
  },
)

-- `metrics.inc(key, amount)`
abbrev pub inc : String → ℕ → Action (Unit {0})
inc key amount w = (ok tt, record w { counters = add_count key amount w.counters })

-- `session.get(Lease, lease_id)`, `session.get(Host, host_id)`
abbrev pub get_lease : String → World → Option Lease
get_lease lease_id w = row (λ (l : Lease). l.lease_id) lease_id w.leases

abbrev pub get_host : String → World → Option Host
get_host host_id w = row (λ (h : Host). h.host_id) host_id w.hosts

-- What the session writes back for a row that it has changed.
abbrev pub save_lease : Lease → Action (Unit {0})
save_lease l w = (ok tt, record w { leases = write (λ (x : Lease). x.lease_id) l w.leases })

abbrev pub save_host : Host → Action (Unit {0})
save_host h w = (ok tt, record w { hosts = write (λ (x : Host). x.host_id) h w.hosts })
