-- ===== src/ControlPlane/Tests/Scaling.antt =====
-- The theorems on provisioning and scaling, at one host and one label.
use jenkins_qemu_provisioner.Prelude.{
  ◌+◌, ◌-◌, ◌≤◌, min, ◌≡◌, refl, none, some, [], ◌∷◌, length, In, inl, total, sort, ◌↔◌, String,
  lookup_or, sum_by,
}
use jenkins_qemu_provisioner.ControlPlane.Models.{Host}
use jenkins_qemu_provisioner.ControlPlane.Provisioning.{provision_one}
use jenkins_qemu_provisioner.ControlPlane.Provisioning.Outcome.{
  Settled, lease_for, provision_one_settles,
}
use jenkins_qemu_provisioner.ControlPlane.Provisioning.Calls.{creates}
use jenkins_qemu_provisioner.ControlPlane.Scaler.Eligibility.{
  host_schedulable, is_fresh, host_meets_capability, host_image_bucket, host_available_images,
  supported_accels_of, reject_reason, eligible_hosts, eligible_hosts_with_reasons,
}
use jenkins_qemu_provisioner.ControlPlane.Scaler.Order.{IsRanked, eligible_hosts-IsRanked}
use jenkins_qemu_provisioner.ControlPlane.Scaler.Reasons.{
  rejected_for, eligible_hosts_agree, every_host_counted,
}
use jenkins_qemu_provisioner.ControlPlane.Scaler.Chosen.{EligibleBetween, eligible_hosts_sound}
use jenkins_qemu_provisioner.ControlPlane.Scaler.Tick.{scale_label}
use jenkins_qemu_provisioner.ControlPlane.Scaler.Tick.Limits.{scale_label_launches}
use jenkins_qemu_provisioner.ControlPlane.Tests.{services, settings, config, image, host, world}

provision_one_settles_example :
    Settled services config "linux" "host-1" image
      (lease_for services config "linux" "host-1" image none world)
      (provision_one services config "linux" "host-1" (some image) none world)
provision_one_settles_example =
    provision_one_settles services config "linux" "host-1" image none world refl

eligible_hosts_sound_example :
    In host (host ∷ []) × EligibleBetween services settings image 0 1 host
unfolding eligible_hosts host_schedulable is_fresh host_meets_capability host_image_bucket
    host_available_images supported_accels_of sort
eligible_hosts_sound_example =
    eligible_hosts_sound services settings image 0 (host ∷ []) host (inl refl)

eligible_hosts-IsRanked_example :
    IsRanked services image (eligible_hosts services settings image 0 (host ∷ host ∷ [])).0
eligible_hosts-IsRanked_example =
    eligible_hosts-IsRanked services image settings 0 (host ∷ host ∷ [])

eligible_hosts_agree_example :
    (eligible_hosts services settings image 0 (host ∷ [])).0
    ≡ (eligible_hosts_with_reasons services settings image 100000000 (host ∷ [])).0
eligible_hosts_agree_example =
    eligible_hosts_agree services settings image 100000000 0 (host ∷ []) (λ n h m. refl)

every_host_counted_example :
    let (eligible, reasons) =
      eligible_hosts_with_reasons services settings image 100000000 (host ∷ host ∷ []) in
    ((h : Host)
      → In h eligible
        ↔ (In h (host ∷ host ∷ []) × (reject_reason services settings image 100000000 h ≡ none)))
    × ((reason : String)
        → lookup_or reason 0 reasons
          ≡ sum_by (rejected_for services settings image 100000000 reason) (host ∷ host ∷ []))
    × (length eligible + total reasons ≡ 2)
every_host_counted_example = every_host_counted services settings image 100000000 (host ∷ host ∷ [])

scale_label_launches_example :
    creates (scale_label services config 100000000 1 4 "linux" 5 (host ∷ []) world).1.calls
    ≤ 0 + min (5 - 1) (min 2 (10 - 4))
unfolding creates
scale_label_launches_example =
    scale_label_launches services config 100000000 1 4 "linux" 5 (host ∷ []) world
