-- ===== src/ControlPlane/Scaler/Tick.antt =====
-- One tick of the scaler: `scale_once` of control_plane/services/scaler.py. `queued` and `inflight`
-- are counts, so the difference `raw_deficit` stops at 0 where Python's is negative: both skip.
pub mod Limits
use jenkins_qemu_provisioner.Prelude.{
  ℕ, ◌+◌, ◌-◌, ◌*◌, min, String, Bool, true, false, Option, none, some, List, [], ◌∷◌, ◌++◌, Dict,
  lookup_or, insert, filter, length, concat, map, ltb, leb, if◌then◌else◌,
}
use jenkins_qemu_provisioner.Json.{Json, num, str, obj, fields}
use jenkins_qemu_provisioner.ControlPlane.Models.{Settings, Time, seconds, Lease, Host}
use jenkins_qemu_provisioner.ControlPlane.World.{
  queue_snapshot, QueueSnapshot, Outside, World, Action, pure, gets, call, modify, for_each,
  now_utc, inc, ◌>>=◌, ◌>>◌,
}
use jenkins_qemu_provisioner.ControlPlane.GuestImages.{ResolvedImageSelection, Config}
use jenkins_qemu_provisioner.ControlPlane.Scaler.Eligibility.{eligible_hosts_with_reasons}
use jenkins_qemu_provisioner.ControlPlane.Scaler.Demand.{
  is_active, inflight_by_label, active_by_node, note, map_nodes, image_of,
}
use jenkins_qemu_provisioner.ControlPlane.Scaler.Launch.{launch_loop}

-- `reject_reasons` as JSON
reasons_json : Dict ℕ → Dict Json
reasons_json [] = []
reasons_json ((reason, count) ∷ rest) = (reason, num count) ∷ reasons_json rest

module _ (o : Outside) (c : Config) (now : Time) (inflight active_global : ℕ) (label : String)
    (queued : ℕ) where
  abbrev pub raw_deficit : ℕ
  raw_deficit = queued - inflight

  abbrev pub remaining_global : ℕ
  remaining_global = c.settings.global_max_vms - active_global

  abbrev pub launchable : ℕ
  launchable = min raw_deficit (min c.settings.label_burst remaining_global)

  note_no_hosts : ResolvedImageSelection → List Host → Dict ℕ → Action (Unit {0})
  unfolding reasons_json
  note_no_hosts image hosts reasons =
      note o "scale.no_eligible_hosts"
        (("label", str label)
          ∷ ("guest_image", str image.guest_image)
          ∷ ("base_image_id", str image.base_image_id)
          ∷ ("queued", num queued)
          ∷ ("inflight", num inflight)
          ∷ ("host_count", num (length hosts))
          ∷ ("reject_reasons", obj (fields (reasons_json reasons)))
          ∷ [])
        now

  count_reasons : Dict ℕ → Action (Unit {0})
  count_reasons reasons =
      for_each reasons
        (λ (reason, count). inc (concat ("scale_reject_" ∷ reason ∷ "_total" ∷ [])) count)

  -- the branch with no candidates
  no_candidates : ResolvedImageSelection → List Host → Dict ℕ → Action (List Host)
  unfolding count_reasons note_no_hosts
  no_candidates image hosts reasons =
      inc "scale_no_eligible_hosts_total" 1
      >> count_reasons reasons
      >> note_no_hosts image hosts reasons
      >> pure hosts

  start_cooldown : Action (Unit {0})
  start_cooldown = modify (λ w. record w {
    cooldowns = insert label (now + seconds (c.settings.loop_interval_sec * 3)) w.cooldowns;
  })

  -- the launches, on the hosts in memory, for the candidates and the reasons found
  launch_from : ResolvedImageSelection → List Host → List Host × Dict ℕ → Action (List Host)
  unfolding no_candidates start_cooldown launch_loop
  launch_from image hosts ([], reasons) = no_candidates image hosts reasons
  launch_from image hosts (host ∷ rest, reasons) = do
    left ← launch_loop o c label image launchable (host ∷ rest) hosts
    start_cooldown
    pure left

  unfoldable pub launch_label : ResolvedImageSelection → List Host → Action (List Host)
  unfolding launch_from
  launch_label image hosts = do
    checked ← now_utc o
    launch_from image hosts (eligible_hosts_with_reasons o c.settings image checked hosts)

  inflight_limit : Action (Unit {0})
  unfolding note
  inflight_limit = do
    inc "scale_inflight_limit_skip_total" 1
    note o "scale.inflight_limit"
        (("label", str label)
          ∷ ("queued", num queued)
          ∷ ("inflight", num inflight)
          ∷ ("max_inflight", num c.settings.label_max_inflight)
          ∷ [])
        now

  global_limit : Action (Unit {0})
  unfolding note
  global_limit = do
    inc "scale_global_limit_skip_total" 1
    note o "scale.global_limit"
        (("label", str label)
          ∷ ("queued", num queued)
          ∷ ("raw_deficit", num raw_deficit)
          ∷ ("remaining_global", num remaining_global)
          ∷ [])
        now

  cooling : Action (Unit {0})
  unfolding note
  cooling = do
    inc "scale_cooldown_skip_total" 1
    note o "scale.cooldown_active" (("label", str label) ∷ ("queued", num queued) ∷ []) now

  -- the limits, in their order
  unfoldable pub within_limits : ResolvedImageSelection → List Host → Action (List Host)
  unfolding launch_label inflight_limit global_limit
  within_limits image hosts =
      if leb raw_deficit 0
      then pure hosts
      else if leb c.settings.label_max_inflight inflight
      then inflight_limit >> pure hosts
      else if leb launchable 0
      then global_limit >> pure hosts
      else launch_label image hosts

  -- the cooldown, then the limits
  unfoldable pub scale_image : List Host → Option ResolvedImageSelection → Action (List Host)
  unfolding within_limits cooling
  scale_image hosts none = pure hosts
  scale_image hosts (some image) = do
    until ← gets (λ w. lookup_or label now w.cooldowns)
    if ltb now until then cooling >> pure hosts else within_limits image hosts

  -- the body of the loop over the labels
  unfoldable pub scale_label : List Host → Action (List Host)
  unfolding scale_image image_of
  scale_label hosts =
      if leb queued 0 then pure hosts else image_of o c now label queued >>= scale_image hosts

module _ (o : Outside) (c : Config) (now : Time) (inflight : Dict ℕ) (active_global : ℕ) where
  unfoldable pub scale_labels : Dict ℕ → List Host → Action (Unit {0})
  unfolding scale_label
  scale_labels [] hosts = pure tt
  scale_labels ((label, queued) ∷ rest) hosts = do
    left ← scale_label o c now (lookup_or label 0 inflight) active_global label queued hosts
    scale_labels rest left

note_empty : Dict ℕ → Action (Unit {0})
note_empty [] = inc "scale_no_queue_labels_total" 1
note_empty (_ ∷ _) = pure tt

unfoldable pub scale_once : Outside → Config → Action (Unit {0})
unfolding scale_labels map_nodes is_active inflight_by_label active_by_node note_empty
scale_once o c = do
  snapshot ← call queue_snapshot o.queue_snapshot
  now ← now_utc o
  hosts ← gets (λ w. w.hosts)
  active ← gets (λ w. filter (λ (l : Lease). is_active l.state) w.leases)
  queue ←
      map_nodes o now (active_by_node active []) snapshot.queued_by_node snapshot.queued_by_label
  note_empty queue
  scale_labels o c now (inflight_by_label active []) (length active) queue hosts
