-- ===== src/NodeAgent/Safety/Laws.antt =====
-- What the sweeps of node_agent/safety.py leave in the table of machines.
use Prim.Native.String.{compare}
use text.Mathlib.Text.{is_lt}
use jenkins_qemu_provisioner.Prelude.{
  ℕ, String, ◌≡◌, ◌≢◌, refl, sym, ap, ◌∙◌, ◌||◌, nat_eq, Bool, true, false, ◌&&◌, Option, none,
  some, List, [], ◌∷◌, In, inl, inr, subst, ◌⊎◌, row, Bool-cases, In-sort, sort-In, arith, eq_iff,
  string_eq, ◌==◌, if◌then◌else◌,
}
use jenkins_qemu_provisioner.NodeAgent.Config.{AgentSettings}
use jenkins_qemu_provisioner.NodeAgent.World.{ok, permission_error, Node, System}
use jenkins_qemu_provisioner.NodeAgent.Qemu.{terminate_pid}
use jenkins_qemu_provisioner.NodeAgent.State.{Vm, get_vm, update_vm_state, delete_vm, list_vms}
use jenkins_qemu_provisioner.NodeAgent.Safety.{
  cleanup_vm_artifacts, drop_vm, pid_of, is_expired, expire, expire_each, enforce_ttl_once,
  is_missing, reconcile_each, reconcile_once,
}

pub row-delete :
    (k id : String) (vms : List Vm)
    → get_vm id (delete_vm k vms) ≡ (if k == id then none else get_vm id vms)
unfolding delete_vm row
row-delete k id [] = ground arith
row-delete k id (v ∷ vms) =
    ground (arith, row-delete k id vms, eq_iff k id, eq_iff v.vm_id k, eq_iff v.vm_id id)

pub row-update :
    (k id state now : String) (reason : Option String) (pid : Option ℕ) (vms : List Vm)
    → k ≢ id
    → get_vm id (update_vm_state k state reason pid now vms) ≡ get_vm id vms
unfolding update_vm_state row
row-update k id state now reason pid [] h = refl
row-update k id state now reason pid (v ∷ vms) h =
    ground (arith, row-update k id state now reason pid vms h, eq_iff v.vm_id k, eq_iff v.vm_id id)

list-In : (v : Vm) (vms : List Vm) → In v (list_vms vms) → In v vms
unfolding list_vms
list-In v vms = In-sort (λ a b. is_lt (compare b.updated_at a.updated_at)) v vms

module _ (os : System) (s : AgentSettings) where
  pub cleanup_vms : (v : Vm) (n : Node) → (cleanup_vm_artifacts os s v n).vms ≡ n.vms
  unfolding cleanup_vm_artifacts
  cleanup_vms v n = ground arith

  pub cleanup_ended : (v : Vm) (n : Node) → (cleanup_vm_artifacts os s v n).ended ≡ n.ended
  unfolding cleanup_vm_artifacts
  cleanup_ended v n = ground arith

  drop-get :
      (state reason now id : String) (v : Vm) (n : Node)
      → get_vm id (drop_vm os s state reason now v n).vms
        ≡ (if v.vm_id == id then none else get_vm id n.vms)
  unfolding drop_vm
  drop-get state reason now id v n =
      let n' = record n { vms = update_vm_state v.vm_id state (some reason) (some 0) now n.vms } in
      let cleaned = cleanup_vms v n' in
      let deleted = row-delete v.vm_id id (cleanup_vm_artifacts os s v n').vms in
      let others = row-update v.vm_id id state now (some reason) (some 0) n.vms in
      elim (Bool-cases (v.vm_id == id)) [
        | inl same ↦ deleted ∙ ground arith
        | inr different ↦
            let kept = others (λ e. ground (arith, eq_iff v.vm_id id)) in
            deleted ∙ rw cleaned (ground arith)
      ]

  -- the world after `terminate_pid`, where the process may be ended
  end_pid : ℕ → Bool → Node → Node
  end_pid pid dry_run n = if pid == 0 || dry_run then n else record n { ended = pid ∷ n.ended }

  module _ (now : ℕ) (now_iso : String) where
    -- one turn of the loop, where the process may be ended
    turn : Vm → Node → Node
    turn v n =
        if is_expired os s now v
        then drop_vm os s "TERMINATED" "ttl_expired" now_iso v (end_pid (pid_of v) s.dry_run n)
        else n

    terminate_vms : (pid : ℕ) (n : Node) → (end_pid pid s.dry_run n).vms ≡ n.vms
    unfolding end_pid
    terminate_vms pid n = ground arith

    turn-get :
        (id : String) (v : Vm) (n : Node)
        → get_vm id (turn v n).vms
          ≡ (if is_expired os s now v && v.vm_id == id then none else get_vm id n.vms)
    unfolding turn
    turn-get id v n =
        let d = drop-get "TERMINATED" "ttl_expired" now_iso id v (end_pid (pid_of v) s.dry_run n) in
        let k = terminate_vms (pid_of v) n in ground arith

    -- the loop
    sweep : List Vm → Node → Node
    unfolding turn
    sweep [] n = n
    sweep (v ∷ vms) n = sweep vms (turn v n)

    expire_none :
        (id : String) (vms : List Vm) (n : Node)
        → get_vm id n.vms ≡ none
        → get_vm id (sweep vms n).vms ≡ none
    unfolding sweep turn
    expire_none id [] n h = h
    expire_none id (v ∷ vms) n h = expire_none id vms (turn v n) (turn-get id v n ∙ ground arith)

    expire_clears :
        (v : Vm) (vms : List Vm) (n : Node)
        → In v vms
        → is_expired os s now v ≡ true
        → get_vm v.vm_id (sweep vms n).vms ≡ none
    unfolding sweep turn
    expire_clears v [] n m e = absurd m
    expire_clears v (x ∷ vms) n (inr m) e = expire_clears v vms (turn x n) m e
    expire_clears v (x ∷ vms) n (inl same) e =
        expire_none v.vm_id vms (turn x n)
          (turn-get v.vm_id x n ∙ ground (arith, eq_iff x.vm_id v.vm_id))

    expire_keeps :
        (id : String) (vms : List Vm) (n : Node)
        → ((v : Vm) → In v vms → v.vm_id ≡ id → is_expired os s now v ≡ false)
        → get_vm id (sweep vms n).vms ≡ get_vm id n.vms
    unfolding sweep turn
    expire_keeps id [] n h = refl
    expire_keeps id (v ∷ vms) n h =
        expire_keeps id vms (turn v n) (λ x m. h x (inr m))
        ∙ turn-get id v n
        ∙ ground (arith, eq_iff v.vm_id id, h v (inl refl))

    drop_ended :
        (v : Vm) (n : Node) → (drop_vm os s "TERMINATED" "ttl_expired" now_iso v n).ended ≡ n.ended
    unfolding drop_vm
    drop_ended v n = cleanup_ended v _

    turn-In : (p : ℕ) (v : Vm) (n : Node) → In p n.ended → In p (turn v n).ended
    unfolding turn end_pid
    turn-In p v n m = let d = drop_ended v (end_pid (pid_of v) s.dry_run n) in ground arith

    turn_ends :
        (v : Vm) (n : Node)
        → is_expired os s now v ≡ true
        → s.dry_run ≡ false
        → pid_of v ≢ 0
        → In (pid_of v) (turn v n).ended
    unfolding turn end_pid
    turn_ends v n e live has_pid =
        let d = drop_ended v (end_pid (pid_of v) s.dry_run n) in ground arith

    expire-In : (p : ℕ) (vms : List Vm) (n : Node) → In p n.ended → In p (sweep vms n).ended
    unfolding sweep turn
    expire-In p [] n m = m
    expire-In p (v ∷ vms) n m = expire-In p vms (turn v n) (turn-In p v n m)

    expire_ends :
        (v : Vm) (vms : List Vm) (n : Node)
        → In v vms
        → is_expired os s now v ≡ true
        → s.dry_run ≡ false
        → pid_of v ≢ 0
        → In (pid_of v) (sweep vms n).ended
    unfolding sweep turn
    expire_ends v [] n m e live has_pid = absurd m
    expire_ends v (x ∷ vms) n (inr m) e live has_pid = expire_ends v vms (turn x n) m e live has_pid
    expire_ends v (x ∷ vms) n (inl same) e live has_pid =
        expire-In (pid_of v) vms (turn x n)
          (subst (λ y. In (pid_of v) (turn y n).ended) (sym same) (turn_ends v n e live has_pid))

    -- No process of the agent may not be ended.
    module _ (may_end : (past : List ℕ) (pid : ℕ) → os.kill past pid ≢ permission_error) where
      ended_lem :
          (pid : ℕ) (n : Node) → terminate_pid os pid s.dry_run n ≡ (ok tt, end_pid pid s.dry_run n)
      unfolding terminate_pid end_pid
      ended_lem pid n = ground (arith, may_end n.ended pid)

      expire_lem : (v : Vm) (n : Node) → expire os s now now_iso v n ≡ (ok tt, turn v n)
      unfolding expire turn
      expire_lem v n = let e = ended_lem (pid_of v) n in ground arith

      expire_each_lem :
          (vms : List Vm) (n : Node) → expire_each os s now now_iso vms n ≡ (ok tt, sweep vms n)
      unfolding expire_each sweep
      expire_each_lem [] n = refl
      expire_each_lem (v ∷ vms) n =
          let e = expire_lem v n in let rest = expire_each_lem vms (turn v n) in ground arith

      -- Where the agent may end its processes, the sweep raises nothing, and after it no machine past
      -- its lease is in the table.
      pub enforce_ttl_once_clears :
          (n : Node) (v : Vm)
          → In v n.vms
          → is_expired os s now v ≡ true
          → let after = enforce_ttl_once os s now now_iso n in
            (after.0 ≡ ok tt) × (get_vm v.vm_id after.1.vms ≡ none)
      unfolding enforce_ttl_once list_vms
      enforce_ttl_once_clears n v m e =
          let same = expire_each_lem (list_vms n.vms) n in
          (
            ap (λ x. x.0) same,
            ap (λ x. get_vm v.vm_id x.1.vms) same
                ∙ expire_clears v (list_vms n.vms) n (sort-In _ v n.vms m) e,
          )

      -- A machine is looked up after the sweep as before it, where no row with its identifier is past
      -- its lease.
      pub enforce_ttl_once_keeps :
          (n : Node) (id : String)
          → ((v : Vm) → In v n.vms → v.vm_id ≡ id → is_expired os s now v ≡ false)
          → get_vm id (enforce_ttl_once os s now now_iso n).1.vms ≡ get_vm id n.vms
      unfolding enforce_ttl_once list_vms
      enforce_ttl_once_keeps n id h =
          ap (λ x. get_vm id x.1.vms) (expire_each_lem (list_vms n.vms) n)
          ∙ expire_keeps id (list_vms n.vms) n (λ v m. h v (list-In v n.vms m))

      -- Where the agent may end its processes, outside a dry run, the sweep asks the process of each
      -- machine past its lease to end.
      pub enforce_ttl_once_ends :
          (n : Node) (v : Vm)
          → In v n.vms
          → is_expired os s now v ≡ true
          → s.dry_run ≡ false
          → pid_of v ≢ 0
          → In (pid_of v) (enforce_ttl_once os s now now_iso n).1.ended
      unfolding enforce_ttl_once list_vms
      enforce_ttl_once_ends n v m e live has_pid =
          subst (λ x. In (pid_of v) x.1.ended) (sym (expire_each_lem (list_vms n.vms) n))
            (expire_ends v (list_vms n.vms) n (sort-In _ v n.vms m) e live has_pid)

  module _ (now_iso : String) where
    missing_turn-get :
        (id : String) (v : Vm) (n : Node)
        → is_missing os s v ≡ false ⊎ (v.vm_id ≢ id)
        → get_vm id
            (if is_missing os s v
              then drop_vm os s "FAILED" "missing_process" now_iso v n
              else n).vms
          ≡ get_vm id n.vms
    missing_turn-get id v n h =
        let d = drop-get "FAILED" "missing_process" now_iso id v n in
        ground (arith, eq_iff v.vm_id id)

    reconcile_keeps :
        (id : String) (vms : List Vm) (n : Node)
        → ((v : Vm) → In v vms → is_missing os s v ≡ false ⊎ (v.vm_id ≢ id))
        → get_vm id (reconcile_each os s now_iso vms n).vms ≡ get_vm id n.vms
    unfolding reconcile_each
    reconcile_keeps id [] n h = refl
    reconcile_keeps id (v ∷ vms) n h =
        reconcile_keeps id vms _ (λ x m. h x (inr m)) ∙ missing_turn-get id v n (h v (inl refl))

    -- The agent's reconciliation keeps a machine whose process is there: it is looked up as before,
    -- where no row with its identifier has a process that is gone.
    pub reconcile_once_keeps :
        (n : Node) (id : String)
        → ((v : Vm) → In v n.vms → is_missing os s v ≡ false ⊎ (v.vm_id ≢ id))
        → get_vm id (reconcile_once os s now_iso n).vms ≡ get_vm id n.vms
    unfolding reconcile_once list_vms
    reconcile_once_keeps n id h =
        reconcile_keeps id (list_vms n.vms) n (λ v m. h v (list-In v n.vms m))
