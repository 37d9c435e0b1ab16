-- ===== src/ControlPlane/Reconciler/Watch.antt =====
-- What the reconciler does with a lease whose node may be at work: the functions of
-- control_plane/services/reconciler.py below `reconcile_once`. A lease is a copy that the tick has
-- read; a function that changes the copy returns it. `_ensure_bound_build_url` also sets
-- `bound_build_url` of the copy, which nothing reads afterwards.
pub mod Laws
use jenkins_qemu_provisioner.Prelude.{
  ℕ, ◌+◌, ◌-◌, ◌/◌, String, Bool, true, false, not, ◌&&◌, Option, none, some, List, [], ◌∷◌, ◌++◌,
  leb, ◌==◌, string_eq, if◌then◌else◌, or_none,
}
use jenkins_qemu_provisioner.Json.{num, str}
use jenkins_qemu_provisioner.ControlPlane.Models.{
  Time, seconds, LeaseState, booting, connected, running, Lease,
}
use jenkins_qemu_provisioner.ControlPlane.World.{
  node_runtime_status, node_current_build_url, is_build_running, NodeRuntimeStatus, Outside, World,
  Action, pure, gets, call, for_each, now_utc, write_event, get_lease, save_lease, ◌>>=◌, ◌>>◌,
}
use jenkins_qemu_provisioner.ControlPlane.StateMachine.{same_state, state_eq}
use jenkins_qemu_provisioner.ControlPlane.Reconciler.Terminate.{terminate_lease, host_of}

-- The first `if` of `_apply_runtime_transitions`, on `target_state` and `events`.
abbrev pub connect_step : NodeRuntimeStatus → LeaseState → LeaseState × List String
connect_step status s =
    if status.connected && s == booting then (connected, "lease.connected" ∷ []) else (s, [])

-- The second one.
abbrev pub run_step : NodeRuntimeStatus → LeaseState × List String → LeaseState × List String
run_step status (booting, events) =
    if status.connected && status.busy
    then (running, events ++ "lease.connected" ∷ "lease.running" ∷ [])
    else (booting, events)
run_step status (connected, events) =
    if status.connected && status.busy
    then (running, events ++ "lease.running" ∷ [])
    else (connected, events)
run_step status (s, events) = (s, events)

unfoldable pub target : NodeRuntimeStatus → LeaseState → LeaseState × List String
target status s = run_step status (connect_step status s)

-- `_offline_for_seconds`: a difference that is negative in Python counts as 0
abbrev pub offline_for_seconds : Lease → Time → ℕ
offline_for_seconds l now = elim l.disconnected_at [ none ↦ 0 | some at ↦ (now - at) / 1000000 ]

unfoldable pub disconnect_grace_expired : Lease → Time → ℕ → Bool
disconnect_grace_expired l now grace_sec = elim l.disconnected_at [
  | none ↦ false
  | some at ↦ leb (at + seconds grace_sec) now
]

abbrev pub is_running : LeaseState → Bool
is_running running = true
is_running _ = false

module _ (o : Outside) where
  write_transition : Lease → LeaseState → List String → Option Lease → Action Lease
  write_transition l s events none = pure l
  write_transition l s events (some row) = do
    now ← now_utc o
    save_lease (record row { state = s; updated_at = now })
    for_each events
        (λ event. write_event event (("jenkins_node", str l.jenkins_node) ∷ []) (some l.lease_id))
    pure (record l { state = s })

  unfoldable pub apply_runtime_transitions : Lease → NodeRuntimeStatus → Action Lease
  unfolding write_transition target
  apply_runtime_transitions l status =
      let (s, events) = target status l.state in
      if s == l.state then pure l else gets (get_lease l.lease_id) >>= write_transition l s events

  write_disconnected : Lease → Time → Option Lease → Action (Bool × Lease)
  write_disconnected l at none = pure (false, l)
  write_disconnected l at (some row) = elim row.disconnected_at [
    | some _ ↦ pure (false, l)
    | none ↦ do
      save_lease (record row { disconnected_at = some at; updated_at = at })
      write_event "lease.disconnected_detected" (("jenkins_node", str l.jenkins_node) ∷ [])
          (some l.lease_id)
      pure (true, record l { disconnected_at = some at })
  ]

  unfoldable pub mark_disconnect_detected : Lease → Action (Bool × Lease)
  unfolding write_disconnected
  mark_disconnect_detected l = elim l.disconnected_at [
    | some _ ↦ pure (false, l)
    | none ↦ do at ← now_utc o; row ← gets (get_lease l.lease_id); write_disconnected l at row
  ]

  write_recovered : Lease → ℕ → Time → Option Lease → Action Lease
  write_recovered l offline at none = pure l
  write_recovered l offline at (some row) = do
    save_lease (record row { disconnected_at = none; updated_at = at })
    write_event "lease.disconnected_recovered"
        (("jenkins_node", str l.jenkins_node) ∷ ("offline_for_sec", num offline) ∷ [])
        (some l.lease_id)
    pure (record l { disconnected_at = none })

  unfoldable pub clear_disconnect_detected : Lease → Time → Action Lease
  unfolding write_recovered
  clear_disconnect_detected l now = elim l.disconnected_at [
    | none ↦ pure l
    | some _ ↦ do
      at ← now_utc o
      row ← gets (get_lease l.lease_id)
      write_recovered l (offline_for_seconds l now) at row
  ]

  write_bound : Lease → String → Time → Option Lease → Action (Option String)
  write_bound l url at none = pure none
  write_bound l url at (some row) = elim (or_none row.bound_build_url) [
    | some bound ↦ pure (some bound)
    | none ↦ do
      save_lease (record row { bound_build_url = some url; updated_at = at })
      write_event "lease.job_bound"
          (("jenkins_node", str l.jenkins_node) ∷ ("build_url", str url) ∷ []) (some l.lease_id)
      pure (some url)
  ]

  bind_found : Lease → Option String → Action (Option String)
  unfolding write_bound
  bind_found l none = pure none
  bind_found l (some url) = do
    at ← now_utc o
    row ← gets (get_lease l.lease_id)
    write_bound l url at row

  abbrev pub current_build_url : Lease → Action (Option String)
  current_build_url l =
      call (node_current_build_url l.jenkins_node)
        (λ past. o.node_current_build_url past l.jenkins_node)

  unfoldable pub ensure_bound_build_url : Lease → Action (Option String)
  unfolding bind_found
  ensure_bound_build_url l = elim (or_none l.bound_build_url) [
    | some bound ↦ pure (some bound)
    | none ↦ do found ← current_build_url l; bind_found l (or_none found)
  ]

  write_reuse : Lease → String → Option String → Action (Unit {0})
  write_reuse l bound none = pure tt
  write_reuse l bound (some url) =
      if url == bound
      then pure tt
      else write_event "lease.unexpected_reuse"
          (("jenkins_node", str l.jenkins_node)
            ∷ ("bound_build_url", str bound)
            ∷ ("current_build_url", str url)
            ∷ [])
          (some l.lease_id)

  unfoldable pub record_unexpected_reuse_if_needed : Lease → String → Action (Unit {0})
  unfolding write_reuse
  record_unexpected_reuse_if_needed l bound = do
    found ← current_build_url l
    write_reuse l bound (or_none found)
