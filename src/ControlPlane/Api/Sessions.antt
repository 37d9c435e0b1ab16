-- ===== src/ControlPlane/Api/Sessions.antt =====
-- The session of a host in control_plane/api.py: what a registration opens, what a heartbeat needs,
-- and what disabling the host closes.
use jenkins_qemu_provisioner.Prelude.{
  ◌≤◌, ◌*◌, ◌+◌, String, ◌≡◌, ◌≢◌, refl, sym, ap, subst, ◌∙◌, true, false, Option, none, some,
  row-write, row-key, row-append_self, Option-cases, inl, inr, ◌⊎◌, truthy, arith, eq_iff,
  string_eq,
}
use jenkins_qemu_provisioner.ControlPlane.Models.{Settings, Time, Host, seconds}
use jenkins_qemu_provisioner.ControlPlane.World.{Exn, Result, ok, raised, Outside, World, get_host}
use jenkins_qemu_provisioner.ControlPlane.Api.Auth.{
  secure_compare_token, bearer_token, new_session_token,
}
use jenkins_qemu_provisioner.ControlPlane.Api.Hosts.{
  HeartbeatRequest, RegisterHostRequest, RegisterHostResponse, beat_in_session, beat_known,
  heartbeat, accel_refused, disable_host, enable_host, disabled, enabled_again, register_host,
  register_found, registered, new_row,
}

Result-cases : {A : Type 0} (r : Result A) → ((a : A) × (r ≡ ok a)) ⊎ ((e : Exn) × (r ≡ raised e))
Result-cases (ok a) = inl (a, refl)
Result-cases (raised e) = inr (e, refl)

module _ (o : Outside) where
  compared :
      (token : String) (hash : Option String)
      → secure_compare_token o token hash ≡ true
      → hash ≡ some (o.hash_token token)
  unfolding secure_compare_token
  compared token none h = ground arith
  compared token (some x) h = ground (arith, eq_iff (o.hash_token token) x)

  module _ (host_id : String) (req : HeartbeatRequest) where
    -- What a heartbeat shows before its report is taken.
    pub record IsAuthorised (authorization : Option String) (w : World) : Type 0 where
      pub token : String
      pub bearer : bearer_token o authorization ≡ ok token
      pub host : Host
      pub stored : get_host host_id w ≡ some host
      pub is_enabled : host.enabled ≡ true
      pub expires : Time
      pub session : host.session_expires_at ≡ some expires
      pub in_time : o.clock w.readings ≤ expires
      pub hashed : host.session_token_hash ≡ some (o.hash_token token)

    in_session :
        (token : String) (h : Host) (expires : Time) (w : World)
        → (beat_in_session o host_id req token h expires w).0 ≡ ok tt
        → (o.clock w.readings ≤ expires)
          × (secure_compare_token o token h.session_token_hash ≡ true)
    unfolding beat_in_session
    in_session token h expires w e = ground arith

    pub known :
        (token : String) (h : Host) (w : World)
        → (beat_known o host_id req token (some h) w).0 ≡ ok tt
        → (h.enabled ≡ true)
          × (expires : Time) × (h.session_expires_at ≡ some expires)
          × (o.clock w.readings ≤ expires)
          × (secure_compare_token o token h.session_token_hash ≡ true)
    unfolding beat_known
    known token h w e = elim (Option-cases h.session_expires_at) [
      | inl closed ↦ absurd (shut closed)
      | inr (expires, open_till) ↦
          let k = in_session token h expires w in
          (ground arith, expires, open_till, ground arith, ground arith)
    ]
      where
        shut : h.session_expires_at ≡ none → ⊥
        shut closed = ground arith

    pub has_token :
        (authorization : Option String) (w : World)
        → (heartbeat o host_id req authorization w).0 ≡ ok tt
        → (token : String) × (bearer_token o authorization ≡ ok token)
    unfolding heartbeat
    has_token authorization w e = elim (Result-cases (bearer_token o authorization)) [
      | inl (token, b) ↦ (token, b)
      | inr (x, b) ↦ absurd (refused x b)
    ]
      where
        refused : (x : Exn) → bearer_token o authorization ≡ raised x → ⊥
        refused x b = ground arith

    has_host :
        (authorization : Option String) (w : World) (token : String)
        → bearer_token o authorization ≡ ok token
        → (heartbeat o host_id req authorization w).0 ≡ ok tt
        → (h : Host) × (get_host host_id w ≡ some h)
    unfolding heartbeat beat_known
    has_host authorization w token b e = elim (Option-cases (get_host host_id w)) [
      | inl missing ↦ absurd (refused missing)
      | inr (h, stored) ↦ (h, stored)
    ]
      where
        refused : get_host host_id w ≡ none → ⊥
        refused missing = ground arith

    -- A heartbeat is accepted only with the token of an open session of a host that is enabled: the
    -- token's hash is the one stored, and the session has not ended at the reading of the clock.
    pub heartbeat-IsAuthorised :
        (authorization : Option String) (w : World)
        → (heartbeat o host_id req authorization w).0 ≡ ok tt
        → IsAuthorised authorization w
    unfolding heartbeat
    heartbeat-IsAuthorised authorization w e =
        let (token, bearer) = has_token authorization w e in
        let (host, stored) = has_host authorization w token bearer e in
        let (is_enabled, expires, session, in_time, same) = known token host w (ground arith) in
        record {
          token = token;
          bearer = bearer;
          host = host;
          stored = stored;
          is_enabled = is_enabled;
          expires = expires;
          session = session;
          in_time = in_time;
          hashed = compared token host.session_token_hash same;
        }

    -- A heartbeat that is refused leaves the hosts and the events as they were.
    pub heartbeat_refused :
        (authorization : Option String) (w : World) (e : Exn)
        → (heartbeat o host_id req authorization w).0 ≡ raised e
        → let w' = (heartbeat o host_id req authorization w).1 in
          (w'.hosts ≡ w.hosts) × (w'.events ≡ w.events)
    unfolding heartbeat
    heartbeat_refused authorization w e h = ground arith

    -- Once a host is disabled, no heartbeat of it is accepted, and enabling it does not change that:
    -- its session is closed, and it has to register again.
    pub disable_host_closes :
        (authorization : Option String) (w : World)
        → let w' = (disable_host host_id w).1 in
          let w'' = (enable_host host_id w').1 in
          ((heartbeat o host_id req authorization w').0 ≢ ok tt)
          × ((heartbeat o host_id req authorization w'').0 ≢ ok tt)
    unfolding heartbeat disable_host enable_host
    disable_host_closes authorization w = elim (Option-cases (get_host host_id w)) [
      | inl missing ↦ (λ e. ground arith, λ e. ground arith)
      | inr (h, stored) ↦
          let k = row-key (λ (x : Host). x.host_id) host_id h w.hosts stored in
          let w' = (disable_host host_id w).1 in
          let a = row-write (λ (x : Host). x.host_id) host_id (disabled h) w.hosts in
          let b =
            row-write (λ (x : Host). x.host_id) host_id (enabled_again (disabled h)) w'.hosts in
          let c = eq_iff h.host_id host_id in (λ e. ground arith, λ e. ground arith)
    ]

  module _ (s : Settings) (host_id : String) (rr : RegisterHostRequest) where
    -- The row that a registration leaves: the session of the response is open on it.
    unfoldable pub HasSession : RegisterHostResponse → World → Type 0
    HasSession resp w =
        (h : Host) × (get_host host_id w ≡ some h)
        × (h.enabled ≡ true)
        × (h.session_expires_at ≡ some resp.session_expires_at)
        × (h.session_token_hash ≡ some (o.hash_token resp.session_token))

    found-HasSession :
        (token : String) (old : Host) (w : World) (resp : RegisterHostResponse)
        → get_host host_id w ≡ some old
        → (register_found o s host_id rr token (some old) w).0 ≡ ok resp
        → HasSession resp (register_found o s host_id rr token (some old) w).1
    unfolding HasSession register_found registered new_session_token
    found-HasSession token old w resp stored e =
        let h =
          registered o s host_id rr (o.token_urlsafe w.drawn)
            (o.clock w.readings + seconds (1 * 3600)) (o.clock (w.readings + 1)) old in
        let k = row-key (λ (x : Host). x.host_id) host_id old w.hosts stored in
        let a = row-write (λ (x : Host). x.host_id) host_id h w.hosts in
        let c = eq_iff old.host_id host_id in
        (h, ground arith, ground arith, ground arith, ground arith)

    new-HasSession :
        (token : String) (w : World) (resp : RegisterHostResponse)
        → get_host host_id w ≡ none
        → (register_found o s host_id rr token none w).0 ≡ ok resp
        → HasSession resp (register_found o s host_id rr token none w).1
    unfolding HasSession register_found registered new_session_token
    new-HasSession token w resp missing e =
        let h =
          registered o s host_id rr (o.token_urlsafe w.drawn)
            (o.clock w.readings + seconds (1 * 3600)) (o.clock (w.readings + 1))
            (new_row o s host_id rr token) in
        let a = row-append_self (λ (x : Host). x.host_id) h w.hosts missing in
        (h, ground arith, ground arith, ground arith, ground arith)

    register_steps :
        (authorization : Option String) (w : World) (token : String) (found : Option Host)
        → bearer_token o authorization ≡ ok token
        → get_host host_id w ≡ found
        → register_host o s host_id rr authorization w ≡ register_found o s host_id rr token found w
    unfolding register_host
    register_steps authorization w token found b f = ground arith

    pub register-HasSession :
        (authorization : Option String) (w : World) (resp : RegisterHostResponse)
        → (register_host o s host_id rr authorization w).0 ≡ ok resp
        → HasSession resp (register_host o s host_id rr authorization w).1
    unfolding register_host
    register-HasSession authorization w resp e =
        elim (Result-cases (bearer_token o authorization)) [
          | inr (x, b) ↦ absurd (refused x b)
          | inl (token, b) ↦ elim (Option-cases (get_host host_id w)) [
            | inl missing ↦
                let q = register_steps authorization w token none b missing in
                subst (λ p. HasSession resp p.1) (sym q)
                  (new-HasSession token w resp missing (sym (ap (λ p. p.0) q) ∙ e))
            | inr (old, stored) ↦
                let q = register_steps authorization w token (some old) b stored in
                subst (λ p. HasSession resp p.1) (sym q)
                  (found-HasSession token old w resp stored (sym (ap (λ p. p.0) q) ∙ e))
          ]
        ]
      where
        refused : (x : Exn) → bearer_token o authorization ≡ raised x → ⊥
        refused x b = ground arith

    -- The session that a registration opens is good: a heartbeat of the host that bears the token of
    -- the response is accepted while the session has not ended, if the accelerator that it selects is
    -- one that it supports and the hash of the token is not empty.
    pub heartbeat_after_register :
        (authorization header : Option String) (req : HeartbeatRequest) (w : World)
        (resp : RegisterHostResponse)
        → (register_host o s host_id rr authorization w).0 ≡ ok resp
        → bearer_token o header ≡ ok resp.session_token
        → truthy (o.hash_token resp.session_token) ≡ true
        → accel_refused o req.selected_accel req.supported_accels ≡ false
        → let w' = (register_host o s host_id rr authorization w).1 in
          o.clock w'.readings ≤ resp.session_expires_at
          → (heartbeat o host_id req header w').0 ≡ ok tt
    unfolding HasSession heartbeat beat_known secure_compare_token
    heartbeat_after_register authorization header req w resp e bearer hashed fits in_time =
        let (h, stored, is_enabled, open_till, hash) = register-HasSession authorization w resp e in
        let same = eq_iff (o.hash_token resp.session_token) (o.hash_token resp.session_token) in
        ground arith
