-- ===== src/NodeAgent/Heartbeat/Worker/Sessions.antt =====
-- The session that the requests of `heartbeat_worker` and their answers open, and that a pass of the
-- loop keeps to it.
use jenkins_qemu_provisioner.Prelude.{
  ℕ, suc, ◌<◌, ◌+◌, true, false, String, ◌≡◌, refl, sym, subst, Option, none, some, List, [], ◌∷◌,
  leb, ltb, truthy, concat, Bool-cases, inl, inr, arith,
}
use jenkins_qemu_provisioner.ControlPlane.Models.{Time}
use jenkins_qemu_provisioner.ControlPlane.Api.Hosts.{RegisterHostRequest, HeartbeatRequest}
use jenkins_qemu_provisioner.NodeAgent.Heartbeat.Worker.{
  Reply, answered, status_error, no_answer, Registration, Server, Request, registration, beat, Loop,
  Ending, finished, rests, again, http_status_error, other_error, joined, told, is_barred,
  then_beat, base_headers, register_host, send_heartbeat, beat_or_expire, join_and_beat, attempt,
  handle, pass,
}

-- The token and the end of the session that is open after some requests, newest first: the last
-- registration was answered with them, and all heartbeats since then were accepted.
abbrev pub session_after : List Request → Option (String × Time)
session_after [] = none
session_after (registration (answered r) ∷ before) = elim r.session_expires_at [
  | none ↦ none
  | some expires ↦ some (r.session_token, expires)
]
session_after (registration _ ∷ before) = none
session_after (beat t n (answered _) ∷ before) = session_after before
session_after (beat t n _ ∷ before) = none

module _ (clock : ℕ → Time) where
  -- A session is open for a token, and it had not ended at the last of a number of readings.
  abbrev pub IsOpen : String → ℕ → Option (String × Time) → Type 0
  IsOpen t n none = ⊥
  IsOpen t n (some (token, expires)) =
      (token ≡ t) × (last : ℕ) × (n ≡ suc last) × (clock last < expires)

  -- In a list of requests, newest first, each heartbeat is sent in an open session, with its token.
  abbrev pub InOrder : List Request → Type 0
  InOrder [] = Unit
  InOrder (registration _ ∷ before) = InOrder before
  InOrder (beat t n _ ∷ before) = IsOpen t n (session_after before) × InOrder before

  -- A token that the agent has is that of the open session, with its end.
  abbrev pub Knows : Option String → Option Time → List Request → Type 0
  Knows none expires requests = Unit
  Knows (some t) expires requests =
      (e : Time) × (expires ≡ some e) × (session_after requests ≡ some (t, e))

  module _ {W : Type 0} where
    abbrev pub Good : Loop W → Type 0
    Good l =
        InOrder l.requests × Knows l.session.session_token l.session.session_expires_at l.requests

    -- The same, where the body of the `try` ends in no exception.
    abbrev Ends : Ending × Loop W → Type 0
    Ends (finished, l) = Good l
    Ends (rests, l) = Good l
    Ends (again, l) = Good l
    Ends (http_status_error status text, l) = InOrder l.requests
    Ends (other_error, l) = InOrder l.requests

module _ (lower : String → String) (clock : ℕ → Time) (bootstrap_token : String) (server : Server)
    (report : RegisterHostRequest) (payload : HeartbeatRequest) where
  handle-Good :
      (p : Ending × Loop server.W)
      → Ends clock p
      → Good clock (handle lower clock bootstrap_token server report payload p)
  unfolding handle
  handle-Good (finished, l) h = h
  handle-Good (rests, l) h = h
  handle-Good (again, l) h = h
  handle-Good (http_status_error status text, l) h =
      elim (Bool-cases (is_barred lower status text)) [
        | inl barred ↦ rw barred (h, tt)
        | inr refused ↦ rw refused (h, tt)
      ]
  handle-Good (other_error, l) h = (h, tt)

  -- A heartbeat in an open session, by its answer.
  told-Ends :
      (t : String) (e until : Option Time) (n : ℕ) (requests : List Request)
      (reply : Reply (Unit {0})) (w : server.W) (end : Time)
      → InOrder clock requests
      → session_after requests ≡ some (t, end)
      → e ≡ some end
      → IsOpen clock t n (session_after requests)
      → Ends clock (
        told reply,
        record {
          session = record {
            session_token = some t;
            session_expires_at = e;
            register_disabled_until = until;
          };
          server = w;
          readings = n;
          requests = beat t n reply ∷ requests;
        },
      )
  told-Ends t e until n requests (answered _) w end h s q within = ((within, h), (end, q, s))
  told-Ends t e until n requests (status_error status text) w end h s q within = (within, h)
  told-Ends t e until n requests no_answer w end h s q within = (within, h)

  send-Ends :
      (t : String) (e until : Option Time) (w : server.W) (n : ℕ) (requests : List Request)
      (end : Time)
      → InOrder clock requests
      → session_after requests ≡ some (t, end)
      → e ≡ some end
      → IsOpen clock t n (session_after requests)
      → Ends clock (
          send_heartbeat lower clock bootstrap_token server report payload (record {
            session = record {
              session_token = some t;
              session_expires_at = e;
              register_disabled_until = until;
            };
            server = w;
            readings = n;
            requests = requests;
          }))
  unfolding send_heartbeat
  send-Ends t e until w n requests end h s q within = elim (Bool-cases (truthy t)) [
    | inl full ↦
        let (reply, w') = server.post_heartbeat (base_headers (some t)) payload w in
        subst (Ends clock) (sym (by_full full))
          (told-Ends t e until n requests reply w' end h s q within)
    | inr empty ↦ subst (Ends clock) (sym (by_empty empty)) h
  ]
    where
      l : Loop server.W
      l = record {
        session = record {
          session_token = some t;
          session_expires_at = e;
          register_disabled_until = until;
        };
        server = w;
        readings = n;
        requests = requests;
      }

      by_full :
          truthy t ≡ true
          → send_heartbeat lower clock bootstrap_token server report payload l ≡ (
              let (reply, w') = server.post_heartbeat (base_headers (some t)) payload w in
              (told reply, record l { server = w'; requests = beat t n reply ∷ requests }))
      by_full full = ground arith

      by_empty :
          truthy t ≡ false
          → send_heartbeat lower clock bootstrap_token server report payload l ≡ (other_error, l)
      by_empty empty = ground arith

  beat-Ends :
      (token : Option String) (e until : Option Time) (w : server.W) (n : ℕ)
      (requests : List Request)
      → InOrder clock requests
      → Knows clock token e requests
      → Ends clock (
          beat_or_expire lower clock bootstrap_token server report payload (record {
            session = record {
              session_token = token;
              session_expires_at = e;
              register_disabled_until = until;
            };
            server = w;
            readings = n;
            requests = requests;
          }))
  unfolding beat_or_expire send_heartbeat
  beat-Ends none none until w n requests h k = h
  beat-Ends none (some e) until w n requests h k = elim (Bool-cases (leb e (clock n))) [
    | inl over ↦ rw over (h, tt)
    | inr still ↦ rw still h
  ]
  beat-Ends (some t) none until w n requests h (e, q, s) = absurd (ground arith)
  beat-Ends (some t) (some e) until w n requests h (end, q, s) =
      elim (Bool-cases (leb e (clock n))) [
        | inl over ↦ rw over (h, tt)
        | inr still ↦ rw still (
            send-Ends t (some e) until w (n + 1) requests end h s q
              (subst (IsOpen clock t (n + 1)) (sym s) (refl, n, omega arith, ground arith)))
      ]

  registered-Ends :
      (t : String) (x e until : Option Time) (w : server.W) (n : ℕ) (requests : List Request)
      → InOrder clock requests
      → let reply : Reply Registration =
          answered (record { session_token = t; session_expires_at = x }) in
        Ends clock (
          then_beat lower clock bootstrap_token server report payload (
            joined reply (record {
              session = record {
                session_token = none;
                session_expires_at = e;
                register_disabled_until = until;
              };
              server = w;
              readings = n;
              requests = registration reply ∷ requests;
            })))
  registered-Ends t none e until w n requests h = h
  registered-Ends t (some x) e until w n requests h =
      beat-Ends (some t) (some x) none w n
        (registration (answered (record { session_token = t; session_expires_at = some x }))
          ∷ requests)
        h (x, refl, refl)

  joined-Ends :
      (reply : Reply Registration) (e until : Option Time) (w : server.W) (n : ℕ)
      (requests : List Request)
      → InOrder clock requests
      → Ends clock (
          then_beat lower clock bootstrap_token server report payload (
            joined reply (record {
              session = record {
                session_token = none;
                session_expires_at = e;
                register_disabled_until = until;
              };
              server = w;
              readings = n;
              requests = registration reply ∷ requests;
            })))
  joined-Ends (status_error status text) e until w n requests h = h
  joined-Ends no_answer e until w n requests h = h
  joined-Ends (answered r) e until w n requests h =
      registered-Ends r.session_token r.session_expires_at e until w n requests h

  join-Ends :
      (token : Option String) (e until : Option Time) (w : server.W) (n : ℕ)
      (requests : List Request)
      → InOrder clock requests
      → Knows clock token e requests
      → Ends clock (
          join_and_beat lower clock bootstrap_token server report payload (record {
            session = record {
              session_token = token;
              session_expires_at = e;
              register_disabled_until = until;
            };
            server = w;
            readings = n;
            requests = requests;
          }))
  unfolding join_and_beat register_host
  join-Ends (some t) e until w n requests h k = beat-Ends (some t) e until w n requests h k
  join-Ends none e until w n requests h k =
      let (reply, w') =
        server.post_register (some (concat ("Bearer " ∷ bootstrap_token ∷ []))) report w in
      joined-Ends reply e until w' n requests h

  attempt-Ends :
      (token : Option String) (e until : Option Time) (w : server.W) (n : ℕ)
      (requests : List Request)
      → InOrder clock requests
      → Knows clock token e requests
      → Ends clock (
          attempt lower clock bootstrap_token server report payload (record {
            session = record {
              session_token = token;
              session_expires_at = e;
              register_disabled_until = until;
            };
            server = w;
            readings = n;
            requests = requests;
          }))
  unfolding attempt
  attempt-Ends token e none w n requests h k = join-Ends token e none w n requests h k
  attempt-Ends token e (some until) w n requests h k = elim (Bool-cases (ltb (clock n) until)) [
    | inl early ↦ rw early (h, k)
    | inr late ↦ rw late (join-Ends token e (some until) w (n + 1) requests h k)
  ]

  -- A pass of the loop keeps to the session.
  pub pass-Good :
      (l : Loop server.W)
      → Good clock l
      → Good clock (pass lower clock bootstrap_token server report payload l)
  unfolding pass
  pass-Good l (h, k) = handle-Good (attempt lower clock bootstrap_token server report payload l) (
      attempt-Ends l.session.session_token l.session.session_expires_at
        l.session.register_disabled_until l.server l.readings l.requests h k)
