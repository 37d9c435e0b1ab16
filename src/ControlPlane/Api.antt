-- ===== src/ControlPlane/Api.antt =====
-- The endpoints of control_plane/api.py that change state, and the requests of
-- control_plane/schemas.py after their validation. A session of the database is committed at the
-- end of an endpoint: one that raises leaves the rows as they were.
pub mod Auth
pub mod Hosts
pub mod Laws
pub mod Schemas
pub mod Sessions
use jenkins_qemu_provisioner.Prelude.{
  ℕ, ◌+◌, String, Bool, true, false, not, Option, none, some, List, [], ◌∷◌, truthy, ◌==◌,
  string_eq, if◌then◌else◌,
}
use jenkins_qemu_provisioner.Json.{str, optional_str}
use jenkins_qemu_provisioner.ControlPlane.Models.{
  LeaseState, value, of_value, terminating, terminated, Lease,
}
use jenkins_qemu_provisioner.ControlPlane.World.{
  http_exception, Outside, World, Action, pure, raise, gets, now_utc, write_event, get_lease,
  save_lease, ◌>>=◌, ◌>>◌,
}
use jenkins_qemu_provisioner.ControlPlane.StateMachine.{same_state, state_eq}

-- `db.query(Lease).filter(Lease.vm_id == vm_id).first()`
first_with_vm : String → List Lease → Option Lease
first_with_vm vm_id [] = none
first_with_vm vm_id (l ∷ ls) =
    let rest = first_with_vm vm_id ls in if l.vm_id == vm_id then some l else rest

-- `if req.reason: lease.last_error = req.reason`
new_error : Option String → Option String → Option String
new_error none old = old
new_error (some reason) old = if truthy reason then some reason else old

module _ (o : Outside) where
  report_state : String → String → Option String → Option Lease → Action (Unit {0})
  unfolding new_error
  report_state vm_id state reason none = raise (http_exception 404 "unknown vm")
  report_state vm_id state reason (some l) = do
    now ← now_utc o
    save_lease (record l {
      state = of_value state;
      updated_at = now;
      last_error = new_error reason l.last_error;
    })
    write_event "vm.status"
        (("vm_id", str vm_id) ∷ ("state", str state) ∷ ("reason", optional_str reason) ∷ [])
        (some l.lease_id)

  unfoldable pub vm_status : String → String → Option String → Action (Unit {0})
  unfolding first_with_vm report_state
  vm_status vm_id state reason = do
    found ← gets (λ w. first_with_vm vm_id w.leases)
    report_state vm_id state reason found

  -- the row that a manual termination leaves
  abbrev pub to_terminate : String → ℕ → Lease → Lease
  to_terminate reason now l = record l {
    state = terminating;
    updated_at = now;
    last_error = some reason;
  }

  terminate_row : String → String → Option Lease → Action (Unit {0})
  terminate_row lease_id reason none = raise (http_exception 404 "unknown lease")
  terminate_row lease_id reason (some l) =
      if l.state == terminated
      then pure tt
      else now_utc o >>= λ now.
          save_lease (to_terminate reason now l)
          >> write_event "lease.manual_terminate" (("reason", str reason) ∷ []) (some lease_id)

  unfoldable pub terminate_lease : String → String → Action (Unit {0})
  unfolding terminate_row
  terminate_lease lease_id reason = do
    found ← gets (get_lease lease_id)
    terminate_row lease_id reason found
