-- ===== src/ControlPlane/Reconciler/Terminate.antt =====
-- `terminate_lease` of control_plane/services/reconciler.py. The node agent is the one of the host
-- with the given identifier, `node_agent_factory(lease.host_id or "")`.
use jenkins_qemu_provisioner.Prelude.{String, Option, none, some, [], ◌∷◌, concat}
use jenkins_qemu_provisioner.Json.{str}
use jenkins_qemu_provisioner.ControlPlane.Models.{Time, terminating, terminated, Lease}
use jenkins_qemu_provisioner.ControlPlane.World.{
  delete_vm, delete_node, Outside, Action, pure, gets, call, catch, now_utc, write_event, inc,
  get_lease, save_lease, ◌>>=◌, ◌>>◌,
}

-- `lease.host_id or ""`
abbrev pub host_of : Lease → String
host_of l = elim l.host_id [ none ↦ "" | some h ↦ h ]

module _ (o : Outside) (host_id : String) (l : Lease) (reason : String) where
  abbrev pub retried_row : String → Time → Lease → Lease
  retried_row problem now row = record row {
    state = terminating;
    updated_at = now;
    last_error = some (concat (reason ∷ ": delete_vm_failed: " ∷ problem ∷ []));
  }

  abbrev pub terminated_row : Time → Lease → Lease
  terminated_row now row = record row { state = terminated; updated_at = now }

  unfoldable pub retry_later : String → Option Lease → Action (Unit {0})
  retry_later problem none = pure tt
  retry_later problem (some row) = do
    now ← now_utc o
    save_lease (retried_row problem now row)
    write_event "lease.terminate_retry" (("reason", str reason) ∷ ("error", str problem) ∷ [])
        (some l.lease_id)

  unfoldable pub finish : Option Lease → Action (Unit {0})
  finish none = pure tt
  finish (some row) = do
    now ← now_utc o
    save_lease (terminated_row now row)
    write_event "lease.terminated" (("reason", str reason) ∷ []) (some l.lease_id)
    inc "leases_terminated_total" 1

  -- `delete_error` decides
  unfoldable pub after_delete : Option String → Action (Unit {0})
  unfolding retry_later finish
  after_delete (some problem) = do row ← gets (get_lease l.lease_id); retry_later problem row
  after_delete none = do
    catch (call (delete_node l.jenkins_node) (λ past. o.delete_node past l.jenkins_node))
        (λ _. pure tt)
    row ← gets (get_lease l.lease_id)
    finish row

  unfoldable pub terminate_lease : Action (Unit {0})
  unfolding after_delete
  terminate_lease = do
    delete_error ←
        catch
          (call (delete_vm host_id l.vm_id reason) (λ past. o.delete_vm past host_id l.vm_id reason)
            >> pure none)
          (λ e. pure (some (o.str_exn e)))
    after_delete delete_error
