-- ===== src/ControlPlane/Reconciler.antt =====
-- `reconcile_once` and `teardown_on_terminal_build_result` of control_plane/services/reconciler.py.
pub mod Terminate
pub mod Watch
pub mod Laws
use jenkins_qemu_provisioner.Prelude.{
  ℕ, String, Bool, true, false, not, ◌&&◌, Option, none, some, List, [], ◌∷◌, contains, filter, ltb,
  ◌==◌, string_eq, if◌then◌else◌, or_none,
}
use jenkins_qemu_provisioner.Json.{num, str}
use jenkins_qemu_provisioner.ControlPlane.Models.{
  Settings, Time, LeaseState, requested, provisioning, booting, connected, running, terminating,
  terminated, Lease,
}
use jenkins_qemu_provisioner.ControlPlane.World.{
  node_agent_factory, node_runtime_status, is_build_running, NodeRuntimeStatus, Outside, World,
  Action, pure, gets, call, catch, for_each, now_utc, write_event, ◌>>=◌, ◌>>◌,
}
use jenkins_qemu_provisioner.ControlPlane.StateMachine.{same_state, state_eq}
use Terminate.{terminate_lease, host_of}
use Watch.{
  apply_runtime_transitions, mark_disconnect_detected, clear_disconnect_detected,
  disconnect_grace_expired, offline_for_seconds, ensure_bound_build_url,
  record_unexpected_reuse_if_needed, is_running,
}

-- the states of a lease whose node has not connected
abbrev pub is_unconnected : LeaseState → Bool
is_unconnected requested = true
is_unconnected provisioning = true
is_unconnected booting = true
is_unconnected _ = false

-- the states of a lease whose node is watched
abbrev pub is_watched : LeaseState → Bool
is_watched booting = true
is_watched connected = true
is_watched running = true
is_watched _ = false

module _ (o : Outside) (s : Settings) (now : Time) where
  terminate : Lease → String → Action (Unit {0})
  unfolding terminate_lease
  terminate l reason = terminate_lease o (host_of l) l reason

  -- from `_mark_disconnect_detected` on, with its answer
  after_mark : Bool × Lease → Action (Unit {0})
  unfolding disconnect_grace_expired terminate
  after_mark (marked, l) =
      if marked
      then pure tt
      else if not (disconnect_grace_expired l now s.disconnected_grace_sec)
      then pure tt
      else write_event "lease.disconnected_grace_expired"
          (("jenkins_node", str l.jenkins_node)
            ∷ ("offline_for_sec", num (offline_for_seconds l now))
            ∷ [])
          (some l.lease_id)
        >> terminate l "unexpected_disconnect"

  disconnected_node : Lease → Action (Unit {0})
  unfolding after_mark mark_disconnect_detected
  disconnected_node l = mark_disconnect_detected o l >>= after_mark

  after_build : Lease → String → Bool → Action (Unit {0})
  unfolding terminate
  after_build l bound true = pure tt
  after_build l bound false = do
    write_event "lease.job_terminal_detected"
        (("jenkins_node", str l.jenkins_node) ∷ ("bound_build_url", str bound) ∷ [])
        (some l.lease_id)
    terminate l "job_terminal"

  -- from `_ensure_bound_build_url` on, with `status.busy` and its answer
  after_bound : Lease → Bool → Option String → Action (Unit {0})
  unfolding after_build record_unexpected_reuse_if_needed
  after_bound l busy none = pure tt
  after_bound l true (some bound) = record_unexpected_reuse_if_needed o l bound
  after_bound l false (some bound) = do
    at_work ← call (is_build_running bound) (λ past. o.is_build_running past bound)
    after_build l bound at_work

  connected_node : Lease → Bool → Action (Unit {0})
  unfolding after_bound ensure_bound_build_url clear_disconnect_detected
  connected_node l busy = do
    cleared ← clear_disconnect_detected o l now
    bound ← ensure_bound_build_url o cleared
    after_bound cleared busy (or_none bound)

  -- from `_apply_runtime_transitions` on, with the lease that it leaves
  running_node : NodeRuntimeStatus → Lease → Action (Unit {0})
  unfolding connected_node disconnected_node
  running_node status l =
      if not (is_running l.state)
      then pure tt
      else if status.connected
      then connected_node l status.busy
      else disconnected_node l

  -- the `try` block
  watch : Lease → Action (Unit {0})
  unfolding running_node apply_runtime_transitions
  watch l = do
    status ←
        call (node_runtime_status l.jenkins_node)
          (λ past. o.node_runtime_status past l.jenkins_node)
    moved ← apply_runtime_transitions o l status
    running_node status moved

  -- the body of the loop, with a client of the node agent
  unfoldable pub reconcile_with_agent : Lease → Action (Unit {0})
  unfolding terminate watch
  reconcile_with_agent l =
      if l.state == terminating
      then terminate l "terminate_retry"
      else if ltb l.connect_deadline now && is_unconnected l.state
      then terminate l "never_connected"
      else if ltb l.ttl_deadline now
      then terminate l "ttl_expired"
      else if is_watched l.state
      then catch (watch l) (λ _. pure tt)
      else pure tt

  -- the body of the loop: where the client cannot be made, the tick ends
  unfoldable pub reconcile_lease : Lease → Action (Unit {0})
  unfolding reconcile_with_agent
  reconcile_lease l = node_agent_factory o (host_of l) >> reconcile_with_agent l

unfoldable pub reconcile_once : Outside → Settings → Action (Unit {0})
unfolding reconcile_lease for_each
reconcile_once o s = do
  now ← now_utc o
  leases ← gets (λ w. filter (λ (l : Lease). not (l.state == terminated)) w.leases)
  for_each leases (reconcile_lease o s now)

unfoldable pub teardown_on_terminal_build_result : Outside → List String → Action (Unit {0})
unfolding terminate_lease for_each
teardown_on_terminal_build_result o nodes = do
  leases ← gets (λ w. filter (λ (l : Lease). contains nodes l.jenkins_node) w.leases)
  for_each leases
      (λ l. node_agent_factory o (host_of l) >> terminate_lease o (host_of l) l "job_terminal")
