-- ===== src/FakeNodeAgent.antt =====
-- fake_node_agent/app.py, the stand-in for a node agent: its dictionary of machines, the endpoints on
-- it, and the capacity that it reports. The text of the time is given where the source reads it.
pub mod Laws
pub mod Tests
use jenkins_qemu_provisioner.Prelude.{
  ℕ, ◌-◌, ◌*◌, String, Bool, true, false, not, Option, none, some, List, [], ◌∷◌, Dict, lookup,
  insert, filter, map, length, or_none, ◌==◌, string_eq, if◌then◌else◌,
}
use jenkins_qemu_provisioner.Json.{Json}

-- The record of a machine; what the payload gives for a key, if it has it, is any JSON value.
pub record FakeVm : Type 0 where
  pub vm_id : String
  pub state : String
  pub created_at : String
  pub updated_at : String
  pub lease_expires_at : Option Json
  pub reason : Option String
  pub label : Option Json
  pub host_id : String
  pub jenkins_node_name : Option Json

pub record FakeAnswer : Type 0 where
  pub vm_id : String
  pub state : String
  pub last_transition_at : String
  pub reason : Option String
  pub lease_expires_at : Option Json

pub record FakeSettings : Type 0 where
  pub host_id : String
  pub effective_cpu_allocatable : ℕ
  pub effective_ram_allocatable_mb : ℕ

abbrev answer_of : FakeVm → FakeAnswer
answer_of v = record {
  vm_id = v.vm_id;
  state = v.state;
  last_transition_at = v.updated_at;
  reason = v.reason;
  lease_expires_at = v.lease_expires_at;
}

-- the record of a machine that is not known
abbrev pub new_vm : FakeSettings → String → String → Dict Json → FakeVm
new_vm s now vm_id payload = record {
  vm_id = vm_id;
  state = "RUNNING";
  created_at = now;
  updated_at = now;
  lease_expires_at = lookup "lease_expires_at" payload;
  reason = none;
  label = lookup "label" payload;
  host_id = s.host_id;
  jenkins_node_name = lookup "jenkins_node_name" payload;
}

-- `ensure_vm`
unfoldable pub fake_ensure_vm :
    FakeSettings → String → String → Dict Json → Dict FakeVm → FakeAnswer × Dict FakeVm
fake_ensure_vm s now vm_id payload vms = elim (lookup vm_id vms) [
  | some existing ↦ (answer_of existing, vms)
  | none ↦ (answer_of (new_vm s now vm_id payload), insert vm_id (new_vm s now vm_id payload) vms)
]

-- `vm_state`; `none` is the status 404
unfoldable pub fake_vm_state : String → Dict FakeVm → Option FakeAnswer
fake_vm_state vm_id vms = elim (lookup vm_id vms) [ none ↦ none | some v ↦ some (answer_of v) ]

abbrev values : Dict FakeVm → List FakeVm
values vms = map (λ (e : String × FakeVm). e.1) vms

abbrev with_column : Option String → (FakeVm → String) → List FakeVm → List FakeVm
with_column wanted column items = elim (or_none wanted) [
  | none ↦ items
  | some w ↦ filter (λ v. column v == w) items
]

-- `list_vms`
unfoldable pub fake_list_vms : Option String → Option String → Dict FakeVm → List FakeVm
fake_list_vms state host_id vms =
    with_column host_id (λ v. v.host_id) (with_column state (λ v. v.state) (values vms))

-- `delete_vm`, with the answer whether the machine was known
unfoldable pub fake_delete_vm : String → Dict FakeVm → Bool × Dict FakeVm
fake_delete_vm vm_id vms = elim (lookup vm_id vms) [
  | none ↦ (false, vms)
  | some _ ↦ (true, filter (λ (e : String × FakeVm). not (e.0 == vm_id)) vms)
]

-- `_running_vm_ids`
unfoldable pub running_vm_ids : Dict FakeVm → List String
running_vm_ids vms =
    map (λ (e : String × FakeVm). e.0)
      (filter (λ (e : String × FakeVm). e.1.state == "RUNNING") vms)

-- `cpu_free` and `ram_free_mb` of the heartbeats and of `capacity`
unfoldable pub fake_free : FakeSettings → Dict FakeVm → ℕ × ℕ
unfolding running_vm_ids
fake_free s vms =
    let running = length (running_vm_ids vms) in
    (s.effective_cpu_allocatable - running, s.effective_ram_allocatable_mb - (running * 1024))
