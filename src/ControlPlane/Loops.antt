-- ===== src/ControlPlane/Loops.antt =====
-- control_plane/loops.py: the address of the node agent of a host, and the two workers. A worker runs
-- until `stop_event` is set: here, a number of passes. The waits between them, and the log, are left
-- out; a tick of one worker stands as a whole before or after a tick of the other.
pub mod Laws
use jenkins_qemu_provisioner.Prelude.{
  ℕ, zero, suc, String, Option, none, some, List, ◌∷◌, [], concat, starts_with, truthy, ◌||◌, not,
  if◌then◌else◌, or_none, row,
}
use jenkins_qemu_provisioner.ControlPlane.Models.{Settings, Host}
use jenkins_qemu_provisioner.ControlPlane.World.{
  Outside, World, Action, Exn, pure, catch, for_each, ◌>>=◌, ◌>>◌,
}
use jenkins_qemu_provisioner.ControlPlane.GuestImages.{Config}
use jenkins_qemu_provisioner.ControlPlane.Scaler.Tick.{scale_once}
use jenkins_qemu_provisioner.ControlPlane.Reconciler.{reconcile_once}
use jenkins_qemu_provisioner.ControlPlane.Gc.{gc_hosts_once}

unfoldable pub normalize_node_agent_url : Option String → String → String
unfolding starts_with
normalize_node_agent_url none fallback_url = fallback_url
normalize_node_agent_url (some raw_addr) fallback_url =
    if not (truthy raw_addr)
    then fallback_url
    else if starts_with raw_addr "http://" || starts_with raw_addr "https://"
    then raw_addr
    else concat ("http://" ∷ raw_addr ∷ [])

-- the `base_url` that `_node_agent_factory` gives the client, from the rows of the hosts
unfoldable pub node_agent_base_url : Settings → List Host → String → String
unfolding normalize_node_agent_url row
node_agent_base_url s hosts host_id =
    if not (truthy host_id)
    then s.node_agent_url
    else elim (row (λ (h : Host). h.host_id) host_id hosts) [
      | none ↦ s.node_agent_url
      | some h ↦ normalize_node_agent_url h.addr s.node_agent_url
    ]

module _ (o : Outside) (c : Config) where
  -- a turn of `scaling_worker`: where the scaler raises, the reconciler waits for the next one
  unfoldable pub scaling_tick : Action (Unit {0})
  unfolding scale_once reconcile_once
  scaling_tick = catch (scale_once o c >> reconcile_once o c.settings) (λ _. pure tt)

  unfoldable pub scaling_worker : ℕ → Action (Unit {0})
  scaling_worker zero = pure tt
  scaling_worker (suc passes) = scaling_tick >> scaling_worker passes

  -- a turn of `gc_worker`
  unfoldable pub gc_tick : Action (Unit {0})
  unfolding gc_hosts_once
  gc_tick = catch (gc_hosts_once o c.settings) (λ _. pure tt)

  unfoldable pub gc_worker : ℕ → Action (Unit {0})
  gc_worker zero = pure tt
  gc_worker (suc passes) = gc_tick >> gc_worker passes
