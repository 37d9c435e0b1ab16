-- ===== src/FakeNodeAgent/Laws.antt =====
-- fake_node_agent/app.py keeps the same set of machines as the node agent that it stands in for.
use jenkins_qemu_provisioner.Prelude.{
  String, ◌≡◌, refl, ap, ◌∙◌, Bool, true, false, not, ◌&&◌, ◌||◌, none, some, List, [], ◌∷◌, Dict,
  lookup, lookup-insert, lookup-without, map, Option-cases, inl, inr, arith, eq_iff, string_eq,
  ◌==◌,
}
use jenkins_qemu_provisioner.Json.{Json}
use jenkins_qemu_provisioner.NodeAgent.Api.Machines.{Command, want, drop, is_machine}
use jenkins_qemu_provisioner.FakeNodeAgent.{
  FakeSettings, FakeVm, new_vm, fake_ensure_vm, fake_delete_vm,
}

abbrev pub is_known : String → Dict FakeVm → Bool
is_known k vms = elim (lookup k vms) [ none ↦ false | some _ ↦ true ]

module _ (s : FakeSettings) (now : String) (payload : Dict Json) where
  -- The machines after requests, whose first is the last one made.
  abbrev pub fake_all : List Command → Dict FakeVm
  fake_all [] = []
  fake_all (want vm_id req ∷ commands) = (fake_ensure_vm s now vm_id payload (fake_all commands)).1
  fake_all (drop vm_id reason force ∷ commands) = (fake_delete_vm vm_id (fake_all commands)).1

  ensured :
      (vm_id k : String) (vms : Dict FakeVm)
      → is_known k (fake_ensure_vm s now vm_id payload vms).1 ≡ ((vm_id == k) || is_known k vms)
  unfolding fake_ensure_vm
  ensured vm_id k vms = elim (Option-cases (lookup vm_id vms)) [
    | inl missing ↦
        let a = lookup-insert vm_id k (new_vm s now vm_id payload) vms in
        ground (arith, eq_iff vm_id k)
    | inr (v, there) ↦ ground (arith, eq_iff vm_id k)
  ]

  deleted :
      (vm_id k : String) (vms : Dict FakeVm)
      → is_known k (fake_delete_vm vm_id vms).1 ≡ (not (vm_id == k) && is_known k vms)
  unfolding fake_delete_vm
  deleted vm_id k vms = elim (Option-cases (lookup vm_id vms)) [
    | inl missing ↦ ground (arith, eq_iff vm_id k)
    | inr (v, there) ↦
        let a = lookup-without k vm_id vms in ground (arith, eq_iff vm_id k, eq_iff k vm_id)
  ]

  -- The stand-in keeps the set of machines that the endpoints of the node agent keep where they answer
  -- every request: after any list of requests to ensure and to delete machines, it knows exactly those
  -- that were asked for and not deleted since.
  pub fake_all-is_machine :
      (commands : List Command) (k : String)
      → is_known k (fake_all commands) ≡ is_machine k (map (λ c. (c, true)) commands)
  unfolding lookup
  fake_all-is_machine [] k = refl
  fake_all-is_machine (want vm_id req ∷ commands) k =
      ensured vm_id k (fake_all commands)
      ∙ ap (λ x. (vm_id == k) || x) (fake_all-is_machine commands k)
  fake_all-is_machine (drop vm_id reason force ∷ commands) k =
      deleted vm_id k (fake_all commands)
      ∙ ap (λ x. not (vm_id == k) && x) (fake_all-is_machine commands k)
