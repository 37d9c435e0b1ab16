-- ===== src/NodeAgent/Heartbeat/Worker/Laws.antt =====
-- The requests of a whole run of `heartbeat_worker`, and its silence while its host is disabled.
use jenkins_qemu_provisioner.Prelude.{
  ℕ, zero, suc, ◌+◌, ◌<◌, String, ◌≡◌, refl, sym, subst, ap, ◌∙◌, true, some, [], arith,
}
use jenkins_qemu_provisioner.ControlPlane.Models.{Time, seconds}
use jenkins_qemu_provisioner.ControlPlane.Api.Hosts.{RegisterHostRequest, HeartbeatRequest}
use jenkins_qemu_provisioner.NodeAgent.Heartbeat.Worker.{
  Server, Loop, http_status_error, is_barred, barred_until, without_token, attempt, handle, pass,
  heartbeat_worker, new_session,
}
use jenkins_qemu_provisioner.NodeAgent.Heartbeat.Worker.Sessions.{InOrder, Good, pass-Good}

module _ (lower : String → String) (clock : ℕ → Time) (bootstrap_token : String) (server : Server)
    (reports : ℕ → RegisterHostRequest × HeartbeatRequest) where
  abbrev worker : ℕ → Loop server.W → Loop server.W
  worker = heartbeat_worker lower clock bootstrap_token server reports

  worker-Good : (k : ℕ) (l : Loop server.W) → Good clock l → Good clock (worker k l)
  unfolding heartbeat_worker
  worker-Good zero l good = good
  worker-Good (suc k) l good =
      pass-Good lower clock bootstrap_token server (reports k).0 (reports k).1 (worker k l)
        (worker-Good k l good)

  -- However many passes `heartbeat_worker` makes, and whatever the control plane answers, each of its
  -- heartbeats is sent in an open session: it has the token that the last registration was answered
  -- with, every heartbeat since then was accepted, and the last reading of the clock before it was
  -- before the end that the registration named.
  pub heartbeat_worker-InOrder :
      (k : ℕ) (w : server.W)
      → InOrder clock
          (worker k
            (record { session = new_session; server = w; readings = 0; requests = [] })).requests
  heartbeat_worker-InOrder k w =
      (worker-Good k (record { session = new_session; server = w; readings = 0; requests = [] })
        (tt, tt)).0

  pass_early :
      (report : RegisterHostRequest) (payload : HeartbeatRequest) (l : Loop server.W) (until : Time)
      → l.session.register_disabled_until ≡ some until
      → clock l.readings < until
      → pass lower clock bootstrap_token server report payload l
        ≡ record l { readings = l.readings + 1 }
  unfolding pass attempt handle
  pass_early report payload l until h early = ground arith

  -- While a host is disabled: the clock has not come to the time that the session waits for.
  silent :
      (k : ℕ) (l : Loop server.W) (until : Time)
      → l.session.register_disabled_until ≡ some until
      → ((i : ℕ) → i < k → clock (l.readings + i) < until)
      → ((worker k l).requests ≡ l.requests)
        × ((worker k l).session ≡ l.session)
        × ((worker k l).readings ≡ l.readings + k)
  unfolding heartbeat_worker
  silent zero l until h early = (refl, refl, omega arith)
  silent (suc k) l until h early =
      let (r, q, n) = silent k l until h (λ i p. early i (omega arith)) in
      let still : (worker k l).session.register_disabled_until ≡ some until =
        ap (λ x. x.register_disabled_until) q ∙ h in
      let now : clock (worker k l).readings < until =
        subst (λ x. clock x < until) (sym n) (early k (omega arith)) in
      let step = pass_early (reports k).0 (reports k).1 (worker k l) until still now in
      rw step (r, q, omega arith)

  -- An agent whose host is disabled leaves the control plane alone. After a pass that ends in a status
  -- 403 with the text "host disabled", it makes no request in any number of passes whose readings of
  -- the clock are less than 60 seconds after the one at that end.
  pub heartbeat_worker_barred :
      (report : RegisterHostRequest) (payload : HeartbeatRequest) (k status : ℕ) (text : String)
      (l barred : Loop server.W)
      → attempt lower clock bootstrap_token server report payload l
        ≡ (http_status_error status text, barred)
      → is_barred lower status text ≡ true
      → ((i : ℕ) → i < k → clock (barred.readings + 1 + i) < clock barred.readings + seconds 60)
      → (worker k (pass lower clock bootstrap_token server report payload l)).requests
        ≡ barred.requests
  unfolding pass handle
  heartbeat_worker_barred report payload k status text l barred e b early =
      let bar = barred_until (clock barred.readings) barred in
      let closed = without_token bar in
      let step : pass lower clock bootstrap_token server report payload l ≡ closed = ground arith in
      let (r, q, n) = silent k closed (clock barred.readings + seconds 60) refl early in rw step r
