-- ===== src/NodeAgent/Heartbeat/Worker.antt =====
-- The loop of `heartbeat_worker` in node_agent/heartbeat.py. The control plane is a server, whose
-- answers may depend on what it was sent before. A pass of the loop reads the clock where the source
-- does, and reports the machines and the base images that are there then.
pub mod Laws
pub mod Sessions
use jenkins_qemu_provisioner.Prelude.{
  ℕ, zero, suc, ◌+◌, String, Bool, true, false, not, ◌&&◌, Option, none, some, List, [], ◌∷◌,
  concat, or_none, truthy, has_part, ltb, leb, nat_eq, ◌==◌, string_eq, if◌then◌else◌,
}
use jenkins_qemu_provisioner.ControlPlane.Models.{Time, seconds}
use jenkins_qemu_provisioner.ControlPlane.Api.Hosts.{RegisterHostRequest, HeartbeatRequest}

-- What a request comes to: a response that `raise_for_status` lets pass, one with another status and
-- its text, or another exception.
pub data Reply (A : Type 0) : Type 0 where
  answered : A → Reply A
  status_error : ℕ → String → Reply A
  no_answer : Reply A

-- The fields that `register_host` reads, with the time that its text names, if it names one.
pub record Registration : Type 0 where
  pub session_token : String
  pub session_expires_at : Option Time

-- The control plane, as the agent sees it: a state, and the answers to the two requests, each with
-- the header `Authorization`, if it has one.
pub record Server : Type 1 where
  pub W : Type 0
  pub post_register : Option String → RegisterHostRequest → W → Reply Registration × W
  pub post_heartbeat : Option String → HeartbeatRequest → W → Reply (Unit {0}) × W

pub record ControlPlaneSession : Type 0 where
  pub session_token : Option String
  pub session_expires_at : Option Time
  pub register_disabled_until : Option Time

-- The requests with their answers, and a heartbeat with its token and how often the clock had been
-- read before it.
pub data Request : Type 0 where
  registration : Reply Registration → Request
  beat : String → ℕ → Reply (Unit {0}) → Request

-- The loop: its session, the server, how often the clock was read, and the requests, newest first.
pub record Loop (W : Type 0) : Type 0 where
  pub session : ControlPlaneSession
  pub server : W
  pub readings : ℕ
  pub requests : List Request

-- What ends the body of the `try`: it runs to its end, `continue` after or without a wait, or an
-- exception: `HTTPStatusError` with its status and text, or another.
pub data Ending : Type 0 where
  finished rests again : Ending
  http_status_error : ℕ → String → Ending
  other_error : Ending

abbrev pub new_session : ControlPlaneSession
new_session = record {
  session_token = none;
  session_expires_at = none;
  register_disabled_until = none;
}

-- `_base_headers`
abbrev pub base_headers : Option String → Option String
base_headers token = elim (or_none token) [
  | none ↦ none
  | some t ↦ some (concat ("Bearer " ∷ t ∷ []))
]

module _ {W : Type 0} where
  -- what `register_host` does with the answer
  abbrev pub joined : Reply Registration → Loop W → Ending × Loop W
  joined (answered r) l = elim r.session_expires_at [
    | none ↦ (
      other_error,
      record l { session = record l.session { session_token = some r.session_token } },
    )
    | some expires ↦ (
      finished,
      record l {
        session = record {
          session_token = some r.session_token;
          session_expires_at = some expires;
          register_disabled_until = none;
        };
      },
    )
  ]
  joined (status_error status text) l = (http_status_error status text, l)
  joined no_answer l = (other_error, l)

  abbrev pub barred_until : Time → Loop W → Loop W
  barred_until now l = record l {
    session = record l.session { register_disabled_until = some (now + seconds 60) };
    readings = l.readings + 1;
  }

  abbrev pub read_clock : Loop W → Loop W
  read_clock l = record l { readings = l.readings + 1 }

  abbrev pub without_token : Loop W → Loop W
  without_token l = record l { session = record l.session { session_token = none } }

abbrev pub told : Reply (Unit {0}) → Ending
told (answered _) = finished
told (status_error status text) = http_status_error status text
told no_answer = other_error

-- `exc.response.status_code == 403 and "host disabled" in exc.response.text.lower()`
abbrev pub is_barred : (String → String) → ℕ → String → Bool
is_barred lower status text = (status == 403) && has_part "host disabled" (lower text)

module _ (lower : String → String) (clock : ℕ → Time) (bootstrap_token : String) (server : Server)
    (report : RegisterHostRequest) (payload : HeartbeatRequest) where
  unfoldable pub register_host : Loop server.W → Ending × Loop server.W
  register_host l =
      let (r, w) =
        server.post_register (some (concat ("Bearer " ∷ bootstrap_token ∷ []))) report l.server in
      joined r (record l { server = w; requests = registration r ∷ l.requests })

  unfoldable pub send_heartbeat : Loop server.W → Ending × Loop server.W
  send_heartbeat l = elim (or_none l.session.session_token) [
    | none ↦ (other_error, l)
    | some token ↦
        let (r, w) = server.post_heartbeat (base_headers (some token)) payload l.server in
        (told r, record l { server = w; requests = beat token l.readings r ∷ l.requests })
  ]

  -- from the test of the session's end on
  unfoldable pub beat_or_expire : Loop server.W → Ending × Loop server.W
  unfolding send_heartbeat
  beat_or_expire l = elim l.session.session_expires_at [
    | none ↦ send_heartbeat l
    | some expires ↦
        if leb expires (clock l.readings)
        then (again, without_token (read_clock l))
        else send_heartbeat (read_clock l)
  ]

  abbrev pub then_beat : Ending × Loop server.W → Ending × Loop server.W
  then_beat (finished, l) = beat_or_expire l
  then_beat (e, l) = (e, l)

  -- from the test of the token on
  unfoldable pub join_and_beat : Loop server.W → Ending × Loop server.W
  unfolding register_host beat_or_expire
  join_and_beat l = elim l.session.session_token [
    | none ↦ then_beat (register_host l)
    | some token ↦ beat_or_expire l
  ]

  -- the body of the `try`
  unfoldable pub attempt : Loop server.W → Ending × Loop server.W
  unfolding join_and_beat
  attempt l = elim l.session.register_disabled_until [
    | none ↦ join_and_beat l
    | some until ↦
        if ltb (clock l.readings) until then (rests, read_clock l) else join_and_beat (read_clock l)
  ]

  -- the `except` blocks
  unfoldable pub handle : Ending × Loop server.W → Loop server.W
  handle (finished, l) = l
  handle (rests, l) = l
  handle (again, l) = l
  handle (http_status_error status text, l) =
      without_token (if is_barred lower status text then barred_until (clock l.readings) l else l)
  handle (other_error, l) = without_token l

  -- A pass of the loop.
  unfoldable pub pass : Loop server.W → Loop server.W
  unfolding attempt handle
  pass l = handle (attempt l)

module _ (lower : String → String) (clock : ℕ → Time) (bootstrap_token : String) (server : Server)
    (reports : ℕ → RegisterHostRequest × HeartbeatRequest) where
  -- The loop after a number of passes, each with what is reported in it.
  unfoldable pub heartbeat_worker : ℕ → Loop server.W → Loop server.W
  heartbeat_worker zero l = l
  heartbeat_worker (suc k) l =
      let before = heartbeat_worker k l in
      pass lower clock bootstrap_token server (reports k).0 (reports k).1 before
