-- ===== src/NodeAgent/State/Laws.antt =====
-- What is looked up in the table of machines after `upsert_vm`.
use jenkins_qemu_provisioner.Prelude.{
  String, ◌≡◌, Option, none, some, List, [], ◌∷◌, row, row-write, row-append, Option-cases, inl,
  inr, arith, eq_iff, string_eq, ◌==◌, if◌then◌else◌,
}
use jenkins_qemu_provisioner.NodeAgent.State.{Vm, get_vm, upsert_vm}

-- The row that is given, with the time of its creation if it is known.
abbrev pub upserted : Vm → Option Vm → Vm
upserted v none = v
upserted v (some old) = record v { created_at = old.created_at }

pub row-upsert :
    (k : String) (v : Vm) (vms : List Vm)
    → get_vm k (upsert_vm v vms)
      ≡ (if v.vm_id == k then some (upserted v (get_vm v.vm_id vms)) else get_vm k vms)
unfolding upsert_vm row
row-upsert k v vms = elim (Option-cases (get_vm v.vm_id vms)) [
  | inl missing ↦
      let a = row-append (λ (x : Vm). x.vm_id) k vms (v ∷ []) in ground (arith, eq_iff v.vm_id k)
  | inr (old, found) ↦
      let r = record v { created_at = old.created_at } in
      let a = row-write (λ (x : Vm). x.vm_id) k r vms in ground (arith, eq_iff v.vm_id k)
]
