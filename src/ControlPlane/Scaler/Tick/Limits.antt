-- ===== src/ControlPlane/Scaler/Tick/Limits.antt =====
-- How many Jenkins nodes a tick of control_plane/services/scaler.py asks for.
use jenkins_qemu_provisioner.Prelude.{
  ℕ, zero, suc, ◌+◌, ◌-◌, ◌≤◌, min, String, Bool, Option, none, some, List, [], ◌∷◌, Dict, arith,
  write, concat,
}
use jenkins_qemu_provisioner.ControlPlane.Models.{Time, Host}
use jenkins_qemu_provisioner.ControlPlane.World.{
  node_agent_factory, Action, Outside, World, pure, for_each, inc, ◌>>=◌,
}
use jenkins_qemu_provisioner.ControlPlane.GuestImages.{ResolvedImageSelection, Config}
use jenkins_qemu_provisioner.ControlPlane.Provisioning.Calls.{
  creates, AtMost, bind-AtMost, provision_one-AtMost,
}
use jenkins_qemu_provisioner.ControlPlane.Scaler.Demand.{
  emit, throttled_diag_event, note, image_of, image_of_policy, image_without_policy,
}
use jenkins_qemu_provisioner.ControlPlane.Scaler.Launch.{launch_on, launch_loop, choose, reserved}
use jenkins_qemu_provisioner.Json.{Json}
use jenkins_qemu_provisioner.ControlPlane.Scaler.Tick.{
  count_reasons, note_no_hosts, launch_from, no_candidates, start_cooldown, inflight_limit,
  global_limit, cooling, launch_label, within_limits, scale_image, scale_label, launchable,
}

module _ (o : Outside) (c : Config) (label : String) (image : ResolvedImageSelection) where
  launch_on-AtMost : (host_id : String) → AtMost 1 (launch_on o c label image host_id)
  unfolding launch_on
  launch_on-AtMost host_id w =
      let h = provision_one-AtMost o c label host_id (some image) none w in ground arith

  loop-AtMost :
      (n : ℕ) (candidates hosts : List Host) (w : World)
      → creates (launch_loop o c label image n candidates hosts w).1.calls ≤ creates w.calls + n
  unfolding launch_loop
  loop-AtMost zero candidates hosts w = omega arith
  loop-AtMost (suc n) [] hosts w = omega arith
  loop-AtMost (suc n) (host ∷ rest) hosts w =
      let left = write (λ (h : Host). h.host_id) (reserved o c label image host) hosts in
      let turn : Unit {0} → Action (List Host) = λ _.
        launch_on o c label image host.host_id >>= λ _.
        choose o c label image left >>= λ found. launch_loop o c label image n found left in
      let h =
        bind-AtMost 0 (1 + n) (node_agent_factory o host.host_id) turn (λ w. omega arith)
          (λ _ w.
            bind-AtMost 1 n (launch_on o c label image host.host_id)
              (λ _.
                choose o c label image left >>= λ found. launch_loop o c label image n found left)
              (launch_on-AtMost host.host_id) (λ _ w. loop-AtMost n _ left _) w)
          w in
      omega arith

emit-AtMost :
    (o : Outside) (b : Bool) (key t : String) (p : Dict Json) (now : Time)
    → AtMost 0 (emit o b key t p now)
unfolding emit
emit-AtMost o b key t p now w = ground arith

note-AtMost : (o : Outside) (t : String) (p : Dict Json) (now : Time) → AtMost 0 (note o t p now)
unfolding note throttled_diag_event
note-AtMost o t p now w =
    bind-AtMost 0 0 (throttled_diag_event o t p now) (λ _. pure tt)
      (λ w. emit-AtMost o _ _ t p now w) (λ _ w. omega arith) w

incs-AtMost : (f : String × ℕ → String) (ds : Dict ℕ) → AtMost 0 (for_each ds (λ d. inc (f d) d.1))
unfolding for_each
incs-AtMost f [] w = omega arith
incs-AtMost f (d ∷ ds) w = incs-AtMost f ds _

module _ (o : Outside) (c : Config) (now : Time) (inflight active_global : ℕ) (label : String)
    (queued : ℕ) where
  image_of-AtMost : AtMost 0 (image_of o c now label queued)
  unfolding image_of image_of_policy image_without_policy
  image_of-AtMost w = ground (
    arith,
    note-AtMost o "scale.image_catalog_missing",
    note-AtMost o "scale.label_policy_missing",
    note-AtMost o "scale.label_policy_compat",
  )

  reasons-AtMost :
      (reasons : Dict ℕ)
      → AtMost 0 (count_reasons o c now inflight active_global label queued reasons)
  unfolding count_reasons
  reasons-AtMost = incs-AtMost (λ d. concat ("scale_reject_" ∷ d.0 ∷ "_total" ∷ []))

  inflight_limit-AtMost : AtMost 0 (inflight_limit o c now inflight active_global label queued)
  unfolding inflight_limit
  inflight_limit-AtMost w = note-AtMost o "scale.inflight_limit" _ now _

  global_limit-AtMost : AtMost 0 (global_limit o c now inflight active_global label queued)
  unfolding global_limit
  global_limit-AtMost w = note-AtMost o "scale.global_limit" _ now _

  cooling-AtMost : AtMost 0 (cooling o c now inflight active_global label queued)
  unfolding cooling
  cooling-AtMost w = note-AtMost o "scale.cooldown_active" _ now _

  module _ (image : ResolvedImageSelection) (hosts : List Host) where
    no_hosts-AtMost :
        (reasons : Dict ℕ)
        → AtMost 0 (note_no_hosts o c now inflight active_global label queued image hosts reasons)
    unfolding note_no_hosts
    no_hosts-AtMost reasons = note-AtMost o "scale.no_eligible_hosts" _ now

    no_candidates-AtMost :
        (reasons : Dict ℕ)
        → AtMost 0 (no_candidates o c now inflight active_global label queued image hosts reasons)
    unfolding no_candidates
    no_candidates-AtMost reasons w =
        let (_, w') = inc "scale_no_eligible_hosts_total" 1 w in
        let h = reasons-AtMost reasons w' in
        let k =
          no_hosts-AtMost reasons
            (count_reasons o c now inflight active_global label queued reasons w').1 in
        ground arith

    launch_from-AtMost :
        (found : List Host × Dict ℕ)
        → AtMost
            (launchable o c now inflight active_global label queued)
            (launch_from o c now inflight active_global label queued image hosts found)
    unfolding launch_from start_cooldown
    launch_from-AtMost ([], reasons) w = let h = no_candidates-AtMost reasons w in omega arith
    launch_from-AtMost (host ∷ rest, reasons) w =
        let h =
          loop-AtMost o c label image (launchable o c now inflight active_global label queued)
            (host ∷ rest) hosts w in
        ground arith

    launch_label-AtMost :
        AtMost
          (launchable o c now inflight active_global label queued)
          (launch_label o c now inflight active_global label queued image hosts)
    unfolding launch_label
    launch_label-AtMost w = launch_from-AtMost _ _

    within_limits-AtMost :
        AtMost
          (launchable o c now inflight active_global label queued)
          (within_limits o c now inflight active_global label queued image hosts)
    unfolding within_limits
    within_limits-AtMost w =
        let h = launch_label-AtMost w in
        let k = inflight_limit-AtMost w in let l = global_limit-AtMost w in ground arith

    resolved-AtMost :
        AtMost
          (launchable o c now inflight active_global label queued)
          (scale_image o c now inflight active_global label queued hosts (some image))
    unfolding scale_image
    resolved-AtMost w = let h = within_limits-AtMost w in let k = cooling-AtMost w in ground arith

  scale_image-AtMost :
      (hosts : List Host) (found : Option ResolvedImageSelection)
      → AtMost
          (launchable o c now inflight active_global label queued)
          (scale_image o c now inflight active_global label queued hosts found)
  unfolding scale_image
  scale_image-AtMost hosts none w = omega arith
  scale_image-AtMost hosts (some image) w = resolved-AtMost image hosts w

  -- However a label is scaled, Jenkins is asked for at most as many new nodes as are queued and not
  -- in flight, as the burst of a label allows, and as the global limit leaves beside the leases that
  -- were active when the tick began.
  pub scale_label_launches :
      (hosts : List Host) (w : World)
      → creates (scale_label o c now inflight active_global label queued hosts w).1.calls
        ≤ creates w.calls
          + min
              (queued - inflight)
              (min c.settings.label_burst (c.settings.global_max_vms - active_global))
  unfolding scale_label
  scale_label_launches hosts w =
      let h =
        bind-AtMost 0 (launchable o c now inflight active_global label queued)
          (image_of o c now label queued)
          (scale_image o c now inflight active_global label queued hosts) image_of-AtMost
          (scale_image-AtMost hosts) w in
      ground arith
