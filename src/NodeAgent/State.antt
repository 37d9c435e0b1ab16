-- ===== src/NodeAgent/State.antt =====
-- node_agent/state.py: the table `vms`, whose primary key is `vm_id`. The text `now_iso()` is given where the source calls it.
pub mod Laws
use Prim.Native.String.{compare}
use text.Mathlib.Text.{is_lt}
use jenkins_qemu_provisioner.Prelude.{
  ℕ, String, not, Option, none, some, List, [], ◌∷◌, ◌++◌, filter, row, write, sort, ◌==◌,
  string_eq, if◌then◌else◌,
}

pub record Vm : Type 0 where
  pub vm_id : String
  pub state : String
  pub host_id : Option String
  pub lease_id : Option String
  pub vcpu : Option ℕ
  pub ram_mb : Option ℕ
  pub qemu_pid : Option ℕ
  pub overlay_path : Option String
  pub cloud_init_iso : Option String
  pub serial_log_path : Option String
  pub created_at : String
  pub updated_at : String
  pub connect_deadline : Option String
  pub lease_expires_at : Option String
  pub reason : Option String

-- `get_vm`
abbrev pub get_vm : String → List Vm → Option Vm
get_vm vm_id vms = row (λ (v : Vm). v.vm_id) vm_id vms

-- `upsert_vm`: the row given, with the time of its creation if the machine is known
unfoldable pub upsert_vm : Vm → List Vm → List Vm
upsert_vm v vms = elim (get_vm v.vm_id vms) [
  | none ↦ vms ++ v ∷ []
  | some old ↦ write (λ (x : Vm). x.vm_id) (record v { created_at = old.created_at }) vms
]

-- `if qemu_pid is None`: the column stays as it is
abbrev set_pid : Option ℕ → Option ℕ → Option ℕ
set_pid none old = old
set_pid (some pid) old = some pid

-- `update_vm_state`
unfoldable pub update_vm_state :
    String → String → Option String → Option ℕ → String → List Vm → List Vm
update_vm_state vm_id state reason qemu_pid now [] = []
update_vm_state vm_id state reason qemu_pid now (v ∷ vms) =
    let rest = update_vm_state vm_id state reason qemu_pid now vms in
    if v.vm_id == vm_id
    then record v {
      state = state;
      updated_at = now;
      reason = reason;
      qemu_pid = set_pid qemu_pid v.qemu_pid;
    }
      ∷ rest
    else v ∷ rest

-- `list_vms`: the text of `updated_at` decides the order, the greatest first
unfoldable pub list_vms : List Vm → List Vm
list_vms vms = sort (λ a b. is_lt (compare b.updated_at a.updated_at)) vms

-- `delete_vm`
unfoldable pub delete_vm : String → List Vm → List Vm
delete_vm vm_id vms = filter (λ v. not (v.vm_id == vm_id)) vms
