-- ===== src/ControlPlane/Gc.antt =====
-- `gc_hosts_once` of control_plane/services/gc.py, and `_host_availability` of control_plane/api.py.
pub mod Laws
use jenkins_qemu_provisioner.Prelude.{
  ◌+◌, String, Bool, false, not, Option, none, some, List, [], ◌∷◌, ltb, if◌then◌else◌,
}
use jenkins_qemu_provisioner.Json.{str}
use jenkins_qemu_provisioner.ControlPlane.Models.{Settings, Time, seconds, Host}
use jenkins_qemu_provisioner.ControlPlane.World.{
  Outside, Action, pure, gets, now_utc, write_event, for_each, ◌>>=◌,
}

module _ (s : Settings) (now : Time) where
  -- `host.last_seen < cutoff`
  abbrev is_before_cutoff : Time → Bool
  is_before_cutoff seen = ltb (seen + seconds s.host_stale_timeout_sec) now

  unfoldable pub host_availability : Host → String
  host_availability h = if not h.enabled then "DISABLED" else elim h.last_seen [
    | none ↦ "UNAVAILABLE"
    | some seen ↦ if is_before_cutoff seen then "STALE" else "AVAILABLE"
  ]

  module _ (o : Outside) where
    -- the event of a host that was last seen before the cutoff
    unfoldable pub report_seen : Host → Option Time → Action (Unit {0})
    report_seen h none = pure tt
    report_seen h (some seen) =
        if is_before_cutoff seen
        then write_event "host.stale"
            (("host_id", str h.host_id) ∷ ("last_seen", str (o.isoformat seen)) ∷ []) none
        else pure tt

    -- the body of the loop
    unfoldable pub report_stale : Host → Action (Unit {0})
    unfolding report_seen
    report_stale h = if not h.enabled then pure tt else report_seen h h.last_seen

unfoldable pub gc_hosts_once : Outside → Settings → Action (Unit {0})
unfolding report_stale for_each
gc_hosts_once o s = do
  now ← now_utc o
  hosts ← gets (λ w. w.hosts)
  for_each hosts (report_stale s now o)
