-- ===== src/NodeAgent/Heartbeat/Disabled.antt =====
-- What the agent of node_agent/heartbeat.py does once its host is disabled in control_plane/api.py.
use jenkins_qemu_provisioner.Prelude.{
  ℕ, ◌+◌, ◌<◌, String, ◌≡◌, refl, sym, subst, true, Option, none, some, ◌∷◌, truthy, has_part,
  row-write, row-key, arith, eq_iff, string_eq,
}
use jenkins_qemu_provisioner.ControlPlane.Models.{Settings, Time, Host, seconds}
use jenkins_qemu_provisioner.ControlPlane.World.{
  Exn, ok, raised, http_exception, Outside, World, get_host,
}
use jenkins_qemu_provisioner.ControlPlane.Api.Auth.{bearer_token}
use jenkins_qemu_provisioner.ControlPlane.Api.Hosts.{
  HeartbeatRequest, RegisterHostRequest, heartbeat, beat_known, disable_host, disabled,
}
use jenkins_qemu_provisioner.ControlPlane.Api.Schemas.{is_valid_heartbeat}
use jenkins_qemu_provisioner.NodeAgent.Heartbeat.Composed.{header, control_plane}
use jenkins_qemu_provisioner.NodeAgent.Heartbeat.Worker.{
  Server, status_error, http_status_error, beat, Loop, pass, attempt, join_and_beat, beat_or_expire,
  send_heartbeat, heartbeat_worker,
}
use jenkins_qemu_provisioner.NodeAgent.Heartbeat.Worker.Laws.{heartbeat_worker_barred}

-- The answer of the control plane to a heartbeat of a host that has just been disabled.
disabled_heartbeat :
    (o : Outside) (host_id : String) (req : HeartbeatRequest) (authorization : Option String)
    (token : String) (w : World) (h : Host)
    → get_host host_id w ≡ some h
    → bearer_token o authorization ≡ ok token
    → let w' = (disable_host host_id w).1 in
      heartbeat o host_id req authorization w' ≡ (raised (http_exception 403 "host disabled"), w')
unfolding heartbeat beat_known disable_host
disabled_heartbeat o host_id req authorization token w h stored bearer =
    let k = row-key (λ (x : Host). x.host_id) host_id h w.hosts stored in
    let a = row-write (λ (x : Host). x.host_id) host_id (disabled h) w.hosts in
    let c = eq_iff h.host_id host_id in ground arith

-- A heartbeat that a server refuses with a status.
attempt_refused :
    (lower : String → String) (clock : ℕ → Time) (bootstrap_token : String) (server : Server)
    (report : RegisterHostRequest) (payload : HeartbeatRequest) (l : Loop server.W)
    (token text : String) (status : ℕ) (expires : Time) (w : server.W)
    → l.session.session_token ≡ some token
    → l.session.register_disabled_until ≡ none
    → l.session.session_expires_at ≡ some expires
    → truthy token ≡ true
    → clock l.readings < expires
    → server.post_heartbeat (header token) payload l.server ≡ (status_error status text, w)
    → attempt lower clock bootstrap_token server report payload l ≡ (
      http_status_error status text,
      record l {
        server = w;
        readings = l.readings + 1;
        requests = beat token (l.readings + 1) (status_error status text) ∷ l.requests;
      },
    )
unfolding attempt join_and_beat beat_or_expire send_heartbeat
attempt_refused lower clock bootstrap_token server report payload l token text status expires w has
      not_barred until full early refused =
    ground arith

module _ (o : Outside) (cs : Settings) (host_id : String) (error_response : Exn → ℕ × String)
    (refused_body : String) (read_time : Time → Option Time) (lower : String → String)
    (clock : ℕ → Time) (bootstrap_token : String)
    (reports : ℕ → RegisterHostRequest × HeartbeatRequest) (text : String)
    (forbids : error_response (http_exception 403 "host disabled") ≡ (403, text))
    (says : has_part "host disabled" (lower text) ≡ true) where
  abbrev plane : Server
  plane = control_plane o cs host_id error_response refused_body read_time

  -- An operator stops an agent. Where the response to an `HTTPException` has its status and a body that
  -- shows its detail, and an agent with a session, which is not paused and has not ended, sends a valid
  -- heartbeat after its host was disabled, that is its last request for a minute: it makes none in any
  -- number of passes whose readings of the clock are less than 60 seconds after the refusal.
  pub disable_host_silences :
      (report : RegisterHostRequest) (payload : HeartbeatRequest) (k : ℕ) (l : Loop World)
      (w : World) (h : Host) (token : String) (expires : Time)
      → get_host host_id w ≡ some h
      → l.server ≡ (disable_host host_id w).1
      → is_valid_heartbeat payload ≡ true
      → bearer_token o (header token) ≡ ok token
      → truthy token ≡ true
      → l.session.session_token ≡ some token
      → l.session.register_disabled_until ≡ none
      → l.session.session_expires_at ≡ some expires
      → clock l.readings < expires
      → ((i : ℕ) → i < k → clock (l.readings + 2 + i) < clock (l.readings + 1) + seconds 60)
      → (heartbeat_worker lower clock bootstrap_token plane reports k
          (pass lower clock bootstrap_token plane report payload l)).requests
        ≡ beat token (l.readings + 1) (status_error 403 text) ∷ l.requests
  disable_host_silences report payload k l w h token expires stored now_disabled valid bearer full
        has not_barred until early still =
      let answer =
        subst
          (λ x.
            heartbeat o host_id payload (header token) x
            ≡ (raised (http_exception 403 "host disabled"), x))
          (sym now_disabled)
          (disabled_heartbeat o host_id payload (header token) token w h stored bearer) in
      let barred : Loop World = record l {
        readings = l.readings + 1;
        requests = beat token (l.readings + 1) (status_error 403 text) ∷ l.requests;
      } in
      let refused : plane.post_heartbeat (header token) payload l.server
          ≡ (status_error 403 text, l.server) =
        rw (valid, answer, forbids) refl in
      let ends =
        attempt_refused lower clock bootstrap_token plane report payload l token text 403 expires
          l.server has not_barred until full early refused in
      heartbeat_worker_barred lower clock bootstrap_token plane reports report payload k 403 text l
        barred ends says
        (λ i q. subst (λ x. clock x < clock (l.readings + 1) + seconds 60) (shift i) (still i q))
    where
      shift : (i : ℕ) → l.readings + 2 + i ≡ l.readings + 1 + 1 + i
      shift i = omega arith
