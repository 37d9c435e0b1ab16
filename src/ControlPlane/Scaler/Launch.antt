-- ===== src/ControlPlane/Scaler/Launch.antt =====
-- The launch loop of `scale_once` in control_plane/services/scaler.py. The hosts are the copies that
-- the tick read: a launch lowers the free capacity of its host in memory only, for the choices that
-- follow in the same tick.
use jenkins_qemu_provisioner.Prelude.{
  ℕ, zero, suc, ◌-◌, String, Option, none, some, List, [], ◌∷◌, ◌++◌, Dict, write,
}
use jenkins_qemu_provisioner.Json.{Json, null, num, str, optional_str}
use jenkins_qemu_provisioner.ControlPlane.Models.{Host}
use jenkins_qemu_provisioner.ControlPlane.World.{
  node_agent_factory, Exn, request_failure, provisioning_error, ok, Outside, Action, pure, catch,
  write_event, inc, ◌>>=◌, ◌>>◌,
}
use jenkins_qemu_provisioner.ControlPlane.GuestImages.{ResolvedImageSelection, Config}
use jenkins_qemu_provisioner.ControlPlane.Provisioning.{node_profile, provision_one}
use jenkins_qemu_provisioner.ControlPlane.Scaler.Eligibility.{eligible_hosts}

optional_num : Option ℕ → Json
optional_num none = null
optional_num (some n) = num n

-- The fields that the kind of exception adds to `error_payload`.
exn_fields : Exn → Dict Json
unfolding optional_num
exn_fields (request_failure e) =
    ("error_type", str e.error_type)
    ∷ ("error_detail", str e.detail)
    ∷ ("status_code", optional_num e.status_code)
    ∷ ("response_text", optional_str e.response_text)
    ∷ ("request_url", str e.url)
    ∷ []
exn_fields (provisioning_error e) =
    ("lease_id", str e.lease_id)
    ∷ ("vm_id", str e.vm_id)
    ∷ ("stage", str e.stage)
    ∷ ("provision_detail", str e.detail)
    ∷ []
exn_fields _ = []

module _ (o : Outside) (c : Config) (label : String) (image : ResolvedImageSelection) where
  -- `host.cpu_free = max(host.cpu_free - profile["vcpu"], 0)`, and the same for the memory
  abbrev pub reserved : Host → Host
  reserved h = record h {
    cpu_free = h.cpu_free - (node_profile image.profile).vcpu;
    ram_free_mb = h.ram_free_mb - (node_profile image.profile).ram_mb;
  }

  launched_payload : String → Dict Json
  launched_payload host_id =
      ("label", str label)
      ∷ ("host_id", str host_id)
      ∷ ("guest_image", str image.guest_image)
      ∷ ("base_image_id", str image.base_image_id)
      ∷ []

  -- the `except` block of the loop
  record_failure : String → Exn → Action (Unit {0})
  unfolding exn_fields launched_payload
  record_failure host_id exc = do
    inc "scale_launch_failed_total" 1
    write_event "scale.launch_failed"
        (launched_payload host_id
          ++ (("node_agent_url", str (o.base_url host_id))
              ∷ ("error", str (o.str_exn exc))
              ∷ exn_fields exc))
        none

  -- the `try` statement of the loop
  unfoldable pub launch_on : String → Action (Unit {0})
  unfolding record_failure launched_payload
  launch_on host_id =
      catch
        (provision_one o c label host_id (some image) none >>= λ _.
          inc "launch_attempts_total" 1
          >> write_event "scale.launch" (launched_payload host_id) none)
        (record_failure host_id)

  -- `candidates = _eligible_hosts(image, hosts)`
  abbrev pub choose : List Host → Action (List Host)
  choose hosts w =
      let (found, readings) = eligible_hosts o c.settings image w.readings hosts in
      (ok found, record w { readings = readings })

  -- The loop, from the candidates and the hosts; it returns the hosts as it leaves them.
  unfoldable pub launch_loop : ℕ → List Host → List Host → Action (List Host)
  unfolding launch_on
  launch_loop zero candidates hosts = pure hosts
  launch_loop (suc n) [] hosts = pure hosts
  launch_loop (suc n) (host ∷ _) hosts = do
    node_agent_factory o host.host_id
    launch_on host.host_id
    let left = write (λ (h : Host). h.host_id) (reserved host) hosts
    candidates ← choose left
    launch_loop n candidates left
