-- ===== src/NodeAgent/Api/Terminate.antt =====
-- What `terminate_vm` of node_agent/api.py leaves of a machine.
use jenkins_qemu_provisioner.Prelude.{
  ℕ, String, ◌≡◌, refl, sym, subst, ◌∙◌, Bool, true, false, not, ◌+◌, ◌&&◌, ◌||◌, Option, none,
  some, List, ◌∷◌, Bool-cases, inl, inr, arith, eq_iff, nat_eq, string_eq, ◌==◌, if◌then◌else◌,
}
use jenkins_qemu_provisioner.NodeAgent.Config.{AgentSettings}
use jenkins_qemu_provisioner.NodeAgent.State.{Vm, get_vm, update_vm_state, delete_vm}
use jenkins_qemu_provisioner.NodeAgent.World.{
  Outcome, ok, raised, failed, Probe, permission_error, Node, System,
}
use jenkins_qemu_provisioner.NodeAgent.Qemu.{terminate_pid}
use jenkins_qemu_provisioner.NodeAgent.Safety.{cleanup_vm_artifacts, pid_of}
use jenkins_qemu_provisioner.NodeAgent.Safety.Laws.{
  row-delete, row-update, cleanup_vms, cleanup_ended,
}
use jenkins_qemu_provisioner.NodeAgent.Api.{
  deleted_overlay, terminate_row, terminate_found, terminate_vm,
}

abbrev pub is_answered : {A : Type 0} → Outcome A → Bool
is_answered (ok a) = true
is_answered (raised e) = false

module _ (os : System) (s : AgentSettings) (vm_id reason : String) (force : Bool) where
  -- The process of the machine is to be asked to end.
  abbrev pub has_to_end : Vm → Bool
  has_to_end v = not (pid_of v == 0 || (s.dry_run && not force))

  abbrev pub is_permission_error : Probe → Bool
  is_permission_error permission_error = true
  is_permission_error _ = false

  -- The process of the machine that was found is to be asked to end, and may not be.
  abbrev pub is_denied : Option Vm → List ℕ → Bool
  is_denied none ended = false
  is_denied (some v) ended = has_to_end v && is_permission_error (os.kill ended (pid_of v))

  -- The processes that were asked to end, after a machine is terminated.
  abbrev pub ended_after : Option Vm → List ℕ → List ℕ
  ended_after none ended = ended
  ended_after (some v) ended =
      if has_to_end v && not (is_permission_error (os.kill ended (pid_of v)))
      then pid_of v ∷ ended
      else ended

  -- What is shown of a world, from the row of the machine that was found before.
  IsGone : Option Vm → Node → String → Outcome Bool × Node → Type 0
  IsGone found n k after =
      (is_answered after.0 ≡ not (is_denied found n.ended))
      × (get_vm k after.1.vms
          ≡ (if not (is_denied found n.ended) && vm_id == k then none else get_vm k n.vms))
      × (after.1.ended ≡ ended_after found n.ended)

  updated-get :
      (now k : String) (vms : List Vm)
      → get_vm k
          (delete_vm vm_id (update_vm_state vm_id "TERMINATED" (some reason) (some 0) now vms))
        ≡ (if vm_id == k then none else get_vm k vms)
  updated-get now k vms =
      let d =
        row-delete vm_id k (update_vm_state vm_id "TERMINATED" (some reason) (some 0) now vms) in
      elim (Bool-cases (vm_id == k)) [
        | inl same ↦ ground arith
        | inr differs ↦
            let kept =
              row-update vm_id k "TERMINATED" now (some reason) (some 0) vms
                (λ e. ground (arith, eq_iff vm_id k)) in
            ground arith
      ]

  -- After the process was asked to end, in a world with the same table.
  abbrev rest : Vm → Node → Outcome Bool × Node
  rest v ending =
      let cleaned = cleanup_vm_artifacts os s v ending in
      (
        ok (deleted_overlay os s v ending),
        record cleaned {
          readings = cleaned.readings + 1;
          vms = delete_vm vm_id (
              update_vm_state vm_id "TERMINATED" (some reason) (some 0)
                (os.now_iso cleaned.readings) cleaned.vms);
        },
      )

  rest_row :
      (v : Vm) (ending : Node) (k : String)
      → get_vm k (rest v ending).1.vms ≡ (if vm_id == k then none else get_vm k ending.vms)
  rest_row v ending k =
      let cleaned = cleanup_vm_artifacts os s v ending in
      updated-get (os.now_iso cleaned.readings) k cleaned.vms ∙ rw (cleanup_vms os s v ending) refl

  rest_ended : (v : Vm) (ending : Node) → (rest v ending).1.ended ≡ ending.ended
  rest_ended v ending = cleanup_ended os s v ending

  then_rest : Vm → Outcome (Unit {0}) × Node → Outcome Bool × Node
  then_rest v (ok _, ending) = rest v ending
  then_rest v (raised e, ending) = (raised e, ending)

  asked :
      (v : Vm) (n : Node)
      → terminate_found os s vm_id reason force (some v) n
        ≡ then_rest v (terminate_pid os (pid_of v) (s.dry_run && not force) n)
  unfolding terminate_found terminate_row then_rest
  asked v n = go (terminate_pid os (pid_of v) (s.dry_run && not force) n)
    where
      go :
          (p : Outcome (Unit {0}) × Node)
          → elim p.0 as (λ _. Outcome Bool × Node) [
            | ok a ↦ rest v p.1
            | raised e ↦ (raised e, p.1)
          ]
            ≡ then_rest v p
      go (ok a, ending) = refl
      go (raised e, ending) = refl

  found-IsGone :
      (found : Option Vm) (n : Node) (k : String)
      → get_vm vm_id n.vms ≡ found
      → IsGone found n k (terminate_found os s vm_id reason force found n)
  unfolding IsGone terminate_found then_rest terminate_pid
  found-IsGone none n k h = (refl, ground (arith, eq_iff vm_id k), refl)
  found-IsGone (some v) n k h =
      let ending = record n { ended = pid_of v ∷ n.ended } in
      elim (Bool-cases (has_to_end v)) [
        | inr spared ↦
            subst (IsGone (some v) n k) (sym (asked v n ∙ by_spared spared))
              (ground arith, rest_row v n k ∙ ground arith, rest_ended v n ∙ ground arith)
        | inl asks ↦ elim (Bool-cases (is_permission_error (os.kill n.ended (pid_of v)))) [
          | inl denied ↦
              subst (IsGone (some v) n k) (sym (asked v n ∙ by_denied asks denied))
                (ground arith, ground arith, ground arith)
          | inr allowed ↦
              subst (IsGone (some v) n k) (sym (asked v n ∙ by_allowed asks allowed)) (
                ground arith,
                rest_row v ending k ∙ ground arith,
                rest_ended v ending ∙ ground arith,
              )
        ]
      ]
    where
      by_spared :
          has_to_end v ≡ false
          → then_rest v (terminate_pid os (pid_of v) (s.dry_run && not force) n) ≡ rest v n
      by_spared spared = ground arith

      by_denied :
          has_to_end v ≡ true
          → is_permission_error (os.kill n.ended (pid_of v)) ≡ true
          → then_rest v (terminate_pid os (pid_of v) (s.dry_run && not force) n)
            ≡ (raised (failed "[Errno 1] Operation not permitted"), n)
      by_denied asks denied = ground arith

      by_allowed :
          has_to_end v ≡ true
          → is_permission_error (os.kill n.ended (pid_of v)) ≡ false
          → then_rest v (terminate_pid os (pid_of v) (s.dry_run && not force) n)
            ≡ rest v (record n { ended = pid_of v ∷ n.ended })
      by_allowed asks allowed = ground arith

  -- A machine is gone once its termination is answered. Where the agent can remove its own files and
  -- write the table, `terminate_vm` raises only where the machine
  -- has a process that is to be asked to end, outside a dry run or forced, and may not be: then the
  -- table is as it was. Otherwise it answers, the machine is not in the table and every other one is
  -- as it was, and its process, if it has one that is to end, was asked to.
  pub terminate_vm_removes :
      (n : Node) (k : String)
      → let after = terminate_vm os s vm_id reason force n in
        let denied = is_denied (get_vm vm_id n.vms) n.ended in
        (is_answered after.0 ≡ not denied)
        × (get_vm k after.1.vms ≡ (if not denied && vm_id == k then none else get_vm k n.vms))
        × (after.1.ended ≡ ended_after (get_vm vm_id n.vms) n.ended)
  unfolding terminate_vm IsGone
  terminate_vm_removes n k = found-IsGone (get_vm vm_id n.vms) n k refl
