-- ===== src/NodeAgent/Safety.antt =====
-- The sweeps of node_agent/safety.py over the table of machines: machines past their lease, and
-- machines whose process is gone.
pub mod Laws
pub mod Orphans
use jenkins_qemu_provisioner.Prelude.{
  ℕ, String, Bool, true, false, not, ◌||◌, Option, none, some, List, [], ◌∷◌, filter, contains, ltb,
  or_none, ◌==◌, string_eq, nat_eq, if◌then◌else◌, int_or,
}
use jenkins_qemu_provisioner.NodeAgent.Config.{AgentSettings}
use jenkins_qemu_provisioner.NodeAgent.Qemu.{terminate_pid}
use jenkins_qemu_provisioner.NodeAgent.World.{
  ok, raised, Act, pure, modify, ◌>>◌, Node, System, unlink, rmtree, answered, process_lookup_error,
  permission_error,
}
use jenkins_qemu_provisioner.NodeAgent.State.{Vm, update_vm_state, list_vms, delete_vm}

-- `_unlink_if_exists`
unlink_if_exists : Option String → Node → Node
unlink_if_exists path n = elim (or_none path) [ none ↦ n | some p ↦ unlink p n ]

-- `int(vm.get("qemu_pid") or 0)`
abbrev pub pid_of : Vm → ℕ
pid_of v = int_or v.qemu_pid 0

module _ (os : System) (s : AgentSettings) where
  -- `_parse_dt`
  abbrev pub parse_dt : Option String → Option ℕ
  parse_dt value = elim (or_none value) [ none ↦ none | some text ↦ os.fromisoformat text ]

  -- `_runtime_dir_path`
  unfoldable pub runtime_dir_path : Vm → Option String
  runtime_dir_path v = elim (or_none v.serial_log_path) [
    | some log ↦ some (os.parent log)
    | none ↦ elim (or_none v.cloud_init_iso) [ some iso ↦ some (os.parent iso) | none ↦ none ]
  ]

  -- `_remove_vm_runtime_dir`
  remove_vm_runtime_dir : Vm → Node → Node
  unfolding runtime_dir_path
  remove_vm_runtime_dir v n = elim (runtime_dir_path v) [
    | none ↦ n
    | some d ↦ if not (contains n.dirs d) then n else rmtree os d n
  ]

  unfoldable pub cleanup_vm_artifacts : Vm → Node → Node
  unfolding unlink_if_exists remove_vm_runtime_dir
  cleanup_vm_artifacts v n =
      if ltb 0 s.debug_artifact_retention_sec
      then n
      else remove_vm_runtime_dir v
          (unlink_if_exists v.cloud_init_iso (unlink_if_exists v.overlay_path n))

  -- what both sweeps do with a machine that has to go
  unfoldable pub drop_vm : String → String → String → Vm → Node → Node
  unfolding cleanup_vm_artifacts
  drop_vm state reason now v n =
      let n' =
        cleanup_vm_artifacts v
          (record n { vms = update_vm_state v.vm_id state (some reason) (some 0) now n.vms }) in
      record n' { vms = delete_vm v.vm_id n'.vms }

  -- `ttl and now > ttl`
  unfoldable pub is_expired : ℕ → Vm → Bool
  is_expired now v = elim (parse_dt v.lease_expires_at) [ none ↦ false | some ttl ↦ ltb ttl now ]

  module _ (now : ℕ) (now_iso : String) where
    -- the body of the loop
    unfoldable pub expire : Vm → Act (Unit {0})
    unfolding terminate_pid drop_vm is_expired
    expire v =
        if is_expired now v
        then terminate_pid os (pid_of v) s.dry_run
          >> modify (drop_vm "TERMINATED" "ttl_expired" now_iso v)
        else pure tt

    unfoldable pub expire_each : List Vm → Act (Unit {0})
    unfolding expire
    expire_each [] n = (ok tt, n)
    expire_each (v ∷ vms) n =
        let (r, n') = expire v n in
        let rest = expire_each vms n' in elim r [ ok _ ↦ rest | raised e ↦ (raised e, n') ]

    unfoldable pub enforce_ttl_once : Act (Unit {0})
    unfolding expire_each list_vms
    enforce_ttl_once n = expire_each (list_vms n.vms) n

  -- `alive`
  abbrev pub is_alive : ℕ → Bool
  is_alive pid = s.dry_run || (elim (os.probe pid) [ process_lookup_error ↦ false | _ ↦ true ])

  unfoldable pub is_missing : Vm → Bool
  is_missing v = if pid_of v == 0 then false else not (is_alive (pid_of v))

  module _ (now_iso : String) where
    unfoldable pub reconcile_each : List Vm → Node → Node
    unfolding drop_vm is_missing
    reconcile_each [] n = n
    reconcile_each (v ∷ vms) n =
        reconcile_each vms
          (if is_missing v then drop_vm "FAILED" "missing_process" now_iso v n else n)

    unfoldable pub reconcile_once : Node → Node
    unfolding reconcile_each list_vms
    reconcile_once n = reconcile_each (list_vms n.vms) n
