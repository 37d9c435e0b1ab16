-- ===== src/NodeAgent/Heartbeat/Composed.antt =====
-- The agent and the control plane together: `heartbeat_worker` of node_agent/heartbeat.py against the
-- endpoints of control_plane/api.py. What FastAPI makes of an exception and of a body that the schema
-- refuses is a parameter, and so is the time that the agent reads in a response.
use jenkins_qemu_provisioner.Prelude.{
  ℕ, ◌+◌, ◌≤◌, ◌<◌, min, int_or, String, ◌≡◌, refl, true, false, Option, none, some, List, [], ◌∷◌,
  concat, truthy, row-write, row-key, arith, eq_iff, string_eq, if◌then◌else◌,
}
use jenkins_qemu_provisioner.ControlPlane.Models.{Settings, Time, Host}
use jenkins_qemu_provisioner.ControlPlane.World.{Exn, Result, ok, raised, Outside, World, get_host}
use jenkins_qemu_provisioner.ControlPlane.GuestImages.{AvailableImage}
use jenkins_qemu_provisioner.ControlPlane.Repositories.{update_host_heartbeat}
use jenkins_qemu_provisioner.ControlPlane.Api.Auth.{bearer_token}
use jenkins_qemu_provisioner.ControlPlane.Api.Hosts.{
  HeartbeatRequest, RegisterHostRequest, RegisterHostResponse, register_host, heartbeat, beaten,
  accel_refused, beat_known, beat_in_session,
}
use jenkins_qemu_provisioner.ControlPlane.Api.Schemas.{
  are_valid_images, is_valid_register, is_valid_heartbeat,
}
use jenkins_qemu_provisioner.ControlPlane.Api.Sessions.{
  has_token, known, HasSession, register-HasSession, heartbeat_after_register,
}
use jenkins_qemu_provisioner.NodeAgent.Config.{AgentSettings, Platform, get_agent_settings}
use jenkins_qemu_provisioner.NodeAgent.Config.Laws.{get_agent_settings_supported}
use jenkins_qemu_provisioner.NodeAgent.State.{Vm}
use jenkins_qemu_provisioner.NodeAgent.Heartbeat.{register_payload, heartbeat_payload}
use jenkins_qemu_provisioner.NodeAgent.Heartbeat.Capacity.{
  Machine, CapacitySnapshot, current_capacity_snapshot,
}
use jenkins_qemu_provisioner.NodeAgent.Heartbeat.Laws.{
  payloads-IsValid, current_capacity_snapshot_bounded,
}
use jenkins_qemu_provisioner.NodeAgent.Heartbeat.Worker.{
  Reply, answered, status_error, Registration, Server, Request, registration, beat, Loop,
  ControlPlaneSession, base_headers, pass, attempt, handle, join_and_beat, beat_or_expire,
  send_heartbeat, finished,
}
use jenkins_qemu_provisioner.NodeAgent.Heartbeat.Worker as W

abbrev pub header : String → Option String
header token = some (concat ("Bearer " ∷ token ∷ []))

abbrev pub replied : {A B : Type 0} → (Exn → ℕ × String) → (A → B) → Result A → Reply B
replied error_response f (ok a) = answered (f a)
replied error_response f (raised e) =
    let (status, text) = error_response e in status_error status text

module _ (o : Outside) (cs : Settings) (host_id : String) (error_response : Exn → ℕ × String)
    (refused_body : String) (read_time : Time → Option Time) where
  -- the fields that the agent reads of a response
  abbrev pub registration_of : RegisterHostResponse → Registration
  registration_of resp = record {
    session_token = resp.session_token;
    session_expires_at = read_time resp.session_expires_at;
  }

  abbrev pub serve_register :
      Option String → RegisterHostRequest → World → Reply Registration × World
  serve_register authorization req w =
      if is_valid_register req
      then (let (r, w') = register_host o cs host_id req authorization w in
          (replied error_response registration_of r, w'))
      else (status_error 422 refused_body, w)

  abbrev pub serve_heartbeat : Option String → HeartbeatRequest → World → Reply (Unit {0}) × World
  serve_heartbeat authorization req w =
      if is_valid_heartbeat req
      then (let (r, w') = heartbeat o host_id req authorization w in
          (replied error_response (λ u. u) r, w'))
      else (status_error 422 refused_body, w)

  -- The endpoints of one host, as the server of its agent.
  abbrev pub control_plane : Server
  control_plane = record {
    W = World;
    post_register = serve_register;
    post_heartbeat = serve_heartbeat;
  }

  served_register :
      (authorization : Option String) (req : RegisterHostRequest) (w : World)
      (resp : RegisterHostResponse)
      → is_valid_register req ≡ true
      → (register_host o cs host_id req authorization w).0 ≡ ok resp
      → read_time resp.session_expires_at ≡ some resp.session_expires_at
      → serve_register authorization req w ≡ (
        answered (record {
          session_token = resp.session_token;
          session_expires_at = some resp.session_expires_at;
        }),
        (register_host o cs host_id req authorization w).1,
      )
  served_register authorization req w resp valid e read = ground arith

  served_heartbeat :
      (authorization : Option String) (req : HeartbeatRequest) (w : World)
      → is_valid_heartbeat req ≡ true
      → (heartbeat o host_id req authorization w).0 ≡ ok tt
      → serve_heartbeat authorization req w
        ≡ (answered tt, (heartbeat o host_id req authorization w).1)
  served_heartbeat authorization req w valid e = ground arith

-- A pass that registers and sends a heartbeat, on any server that answers both.
pass_joins :
    (lower : String → String) (clock : ℕ → Time) (bootstrap_token : String) (server : Server)
    (report : RegisterHostRequest) (payload : HeartbeatRequest) (l : Loop server.W) (token : String)
    (expires : Time) (w1 w2 : server.W)
    → l.session.session_token ≡ none
    → l.session.register_disabled_until ≡ none
    → server.post_register (header bootstrap_token) report l.server
      ≡ (answered (record { session_token = token; session_expires_at = some expires }), w1)
    → truthy token ≡ true
    → clock l.readings < expires
    → server.post_heartbeat (header token) payload w1 ≡ (answered tt, w2)
    → pass lower clock bootstrap_token server report payload l ≡ record {
      session = record {
        session_token = some token;
        session_expires_at = some expires;
        register_disabled_until = none;
      };
      server = w2;
      readings = l.readings + 1;
      requests =
          beat token (l.readings + 1) (answered tt)
          ∷ registration
              (answered (record { session_token = token; session_expires_at = some expires }))
          ∷ l.requests;
    }
unfolding pass attempt handle join_and_beat W.register_host beat_or_expire send_heartbeat
pass_joins lower clock bootstrap_token server report payload l token expires w1 w2 no_token
      not_barred registered full in_time beaten =
    ground arith

-- The row that an accepted heartbeat leaves.
beaten_row :
    (o : Outside) (host_id : String) (req : HeartbeatRequest) (authorization : Option String)
    (w : World) (h : Host)
    → get_host host_id w ≡ some h
    → (heartbeat o host_id req authorization w).0 ≡ ok tt
    → (seen : Time) × (get_host host_id (heartbeat o host_id req authorization w).1
        ≡ some (beaten o host_id req seen h))
unfolding heartbeat beat_known beat_in_session beaten
beaten_row o host_id req authorization w h stored e =
    let seen = o.clock (w.readings + 1) in
    let k = row-key (λ (x : Host). x.host_id) host_id h w.hosts stored in
    let a = row-write (λ (x : Host). x.host_id) host_id (beaten o host_id req seen h) w.hosts in
    let c = eq_iff h.host_id host_id in
    let (token, bearer) = has_token o host_id req authorization w e in
    let (enabled, expires, session, in_time, hashed) =
      known o host_id req token h w (ground arith) in
    (seen, ground arith)

-- The row shows the capacity of a snapshot.
pub record Shows (c : CapacitySnapshot) (h : Host) : Type 0 where
  pub cpu_total : h.cpu_total ≡ c.cpu_total
  pub ram_total_mb : h.ram_total_mb ≡ c.ram_total_mb
  pub cpu_allocatable : h.cpu_allocatable ≡ c.cpu_allocatable
  pub ram_allocatable_mb : h.ram_allocatable_mb ≡ c.ram_allocatable_mb
  pub cpu_free : h.cpu_free ≡ c.cpu_free
  pub ram_free_mb : h.ram_free_mb ≡ c.ram_free_mb

-- What a heartbeat writes of a total, of what may be given away, and of what is free.
totalled : (n d : ℕ) → 1 ≤ n → int_or (some n) d ≡ n
totalled n d h = ground arith

given : (n total d e : ℕ) → 1 ≤ n → n ≤ total → min (int_or (some n) d) (int_or (some total) e) ≡ n
given n total d e h k = ground arith

freed :
    (free n total d e : ℕ)
    → 1 ≤ n
    → n ≤ total
    → free ≤ n
    → min free (min (int_or (some n) d) (int_or (some total) e)) ≡ free
freed free n total d e h k f = ground arith

module _ (o : Outside) (s : AgentSettings) (m : Machine) (vms : List Vm)
    (images : List AvailableImage) (io_pressure : ℕ) where
  free_bounded :
      let c = current_capacity_snapshot s m vms in
      (c.cpu_free ≤ c.cpu_allocatable) × (c.ram_free_mb ≤ c.ram_allocatable_mb)
  unfolding current_capacity_snapshot
  free_bounded = (omega arith, omega arith)

  beaten-Shows :
      (host_id : String) (seen : Time) (h : Host)
      → Shows
          (current_capacity_snapshot s m vms)
          (beaten o host_id (heartbeat_payload s m vms images io_pressure) seen h)
  unfolding beaten update_host_heartbeat heartbeat_payload
  beaten-Shows host_id seen h =
      let (one, cpu, least, ram) = current_capacity_snapshot_bounded s m vms in
      let (free, free_ram) = free_bounded in
      let c = current_capacity_snapshot s m vms in
      let cpu_else = int_or (some h.cpu_allocatable) (int_or (some c.cpu_total) h.cpu_total) in
      let ram_else =
        int_or (some h.ram_allocatable_mb) (int_or (some c.ram_total_mb) h.ram_total_mb) in
      record {
        cpu_total = totalled c.cpu_total h.cpu_total (omega arith);
        ram_total_mb = totalled c.ram_total_mb h.ram_total_mb (omega arith);
        cpu_allocatable = given c.cpu_allocatable c.cpu_total cpu_else h.cpu_total one cpu;
        ram_allocatable_mb =
            given c.ram_allocatable_mb c.ram_total_mb ram_else h.ram_total_mb (omega arith) ram;
        cpu_free = freed c.cpu_free c.cpu_allocatable c.cpu_total cpu_else h.cpu_total one cpu free;
        ram_free_mb =
            freed c.ram_free_mb c.ram_allocatable_mb c.ram_total_mb ram_else h.ram_total_mb
              (omega arith) ram free_ram;
      }

module _ (o : Outside) (cs : Settings) (host_id : String) (error_response : Exn → ℕ × String)
    (refused_body : String) (read_time : Time → Option Time) (lower : String → String)
    (clock : ℕ → Time) (p : Platform) (configured : Option String) (base s : AgentSettings)
    (starts : get_agent_settings p configured base ≡ some s) (m : Machine) (vms : List Vm)
    (images : List AvailableImage) (io_pressure : ℕ) where
  abbrev plane : Server
  plane = control_plane o cs host_id error_response refused_body read_time

  payload_fits :
      let payload = heartbeat_payload s m vms images io_pressure in
      accel_refused o payload.selected_accel payload.supported_accels ≡ false
  unfolding heartbeat_payload
  payload_fits = (get_agent_settings_supported o p configured base s starts).1

  -- The agent and the control plane agree. Where a host without a session is not paused, the images
  -- that it lists have an identifier and a guest image that are not empty, its
  -- registration is accepted, the texts of the token and of its end are read as they were written, and
  -- the session has not ended on either clock, one pass of `heartbeat_worker` gets its heartbeat
  -- accepted too: it keeps the token, and the row of the host shows exactly the capacity of the
  -- agent's snapshot.
  pub pass-Shows :
      (l : Loop World) (resp : RegisterHostResponse)
      → let report = register_payload s m vms images in
        let payload = heartbeat_payload s m vms images io_pressure in
        let joined = register_host o cs host_id report (header s.bootstrap_token) l.server in
        l.session.session_token ≡ none
        → l.session.register_disabled_until ≡ none
        → are_valid_images images ≡ true
        → joined.0 ≡ ok resp
        → bearer_token o (header resp.session_token) ≡ ok resp.session_token
        → truthy resp.session_token ≡ true
        → truthy (o.hash_token resp.session_token) ≡ true
        → read_time resp.session_expires_at ≡ some resp.session_expires_at
        → clock l.readings < resp.session_expires_at
        → o.clock joined.1.readings ≤ resp.session_expires_at
        → let l' = pass lower clock s.bootstrap_token plane report payload l in
          (l'.session.session_token ≡ some resp.session_token)
          × (h : Host) × (get_host host_id l'.server ≡ some h)
          × Shows (current_capacity_snapshot s m vms) h
  unfolding HasSession
  pass-Shows l resp no_token not_barred named e bearer full hashed read early in_time =
      let report = register_payload s m vms images in
      let payload = heartbeat_payload s m vms images io_pressure in
      let joined = register_host o cs host_id report (header s.bootstrap_token) l.server in
      let (valid_report, valid_payload) = payloads-IsValid s m vms images io_pressure named in
      let accepted =
        heartbeat_after_register o cs host_id report (header s.bootstrap_token)
          (header resp.session_token) payload l.server resp e bearer hashed payload_fits in_time in
      let (h, stored, _, _, _) =
        register-HasSession o cs host_id report (header s.bootstrap_token) l.server resp e in
      let (seen, row) =
        beaten_row o host_id payload (header resp.session_token) joined.1 h stored accepted in
      let w2 = (heartbeat o host_id payload (header resp.session_token) joined.1).1 in
      let step =
        pass_joins lower clock s.bootstrap_token plane report payload l resp.session_token
          resp.session_expires_at joined.1 w2 no_token not_barred
          (served_register o cs host_id error_response refused_body read_time
            (header s.bootstrap_token) report l.server resp valid_report e read)
          full early
          (served_heartbeat o cs host_id error_response refused_body read_time
            (header resp.session_token) payload joined.1 valid_payload accepted) in
      rw step (
        refl,
        beaten o host_id payload seen h,
        row,
        beaten-Shows o s m vms images io_pressure host_id seen h,
      )
