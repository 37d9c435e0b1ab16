-- ===== src/ControlPlane/Scaler/Chosen.antt =====
-- What the hosts satisfy that `_eligible_hosts` of control_plane/services/scaler.py chooses.
use jenkins_qemu_provisioner.Prelude.{
  ℕ, ◌+◌, ◌≤◌, ◌<◌, ◌≡◌, subst, ◌⊎◌, true, false, ◌&&◌, some, List, [], ◌∷◌, arith, Bool-cases,
  Option-cases, inl, inr, In, In-sort,
}
use jenkins_qemu_provisioner.ControlPlane.Models.{Settings, Time, seconds, Host}
use jenkins_qemu_provisioner.ControlPlane.World.{Outside}
use jenkins_qemu_provisioner.ControlPlane.GuestImages.{ResolvedImageSelection}
use jenkins_qemu_provisioner.ControlPlane.Provisioning.{node_profile}
use jenkins_qemu_provisioner.ControlPlane.Scaler.Eligibility.{
  host_image_bucket, host_schedulable, host_meets_capability, is_fresh, fits, before, eligible_from,
  eligible_hosts, accel_unsupported, accel_differs, arch_differs, image_arch_differs,
  supported_accels_of,
}

module _ (o : Outside) (s : Settings) (image : ResolvedImageSelection) where
  -- What an eligible host satisfies.
  pub record IsEligible (h : Host) : Type 0 where
    pub is_enabled : h.enabled ≡ true
    pub reading : ℕ
    pub seen_at : Time
    pub seen : h.last_seen ≡ some seen_at
    pub fresh : o.clock reading ≤ seen_at + seconds s.host_stale_timeout_sec
    pub accel_listed : accel_unsupported (supported_accels_of o h) h.selected_accel ≡ false
    pub accel_wanted : accel_differs image.required_accel h.selected_accel ≡ false
    pub arch_wanted : arch_differs image.required_cpu_arch h.cpu_arch ≡ false
    pub arch_of_image : image_arch_differs image.cpu_arch h.cpu_arch ≡ false
    pub has_image : (host_image_bucket o h image).0 ≤ 1
    pub has_cpu : (node_profile image.profile).vcpu ≤ h.cpu_free
    pub has_ram : (node_profile image.profile).ram_mb ≤ h.ram_free_mb

  -- It is so at a reading of the clock from one number of readings on and before another.
  abbrev pub EligibleBetween : ℕ → ℕ → Host → Type 0
  EligibleBetween first last h = (e : IsEligible h) × (first ≤ e.reading) × (e.reading < last)

  chosen-IsEligible :
      (reading : ℕ) (h : Host)
      → (host_schedulable o s reading h).0 ≡ true
      → host_meets_capability o h image ≡ true
      → fits o s image h ≡ true
      → EligibleBetween reading (host_schedulable o s reading h).1 h
  unfolding host_schedulable is_fresh host_meets_capability
  chosen-IsEligible reading h schedulable meets fit = elim (Option-cases h.last_seen) [
    | inl never ↦ absurd (ground arith)
    | inr (t, seen) ↦ (
      record {
        is_enabled = ground arith;
        reading = reading;
        seen_at = t;
        seen = seen;
        fresh = ground arith;
        accel_listed = ground arith;
        accel_wanted = ground arith;
        arch_wanted = ground arith;
        arch_of_image = ground arith;
        has_image = ground arith;
        has_cpu = ground arith;
        has_ram = ground arith;
      },
      omega arith,
      ground arith,
    )
  ]

  schedulable_later : (reading : ℕ) (h : Host) → reading ≤ (host_schedulable o s reading h).1
  unfolding host_schedulable
  schedulable_later reading h = ground arith

  eligible_later :
      (reading : ℕ) (hosts : List Host) → reading ≤ (eligible_from o s image reading hosts).1
  unfolding eligible_from
  eligible_later reading [] = omega arith
  eligible_later reading (h ∷ hosts) =
      omega (
        arith,
        schedulable_later reading h,
        eligible_later (host_schedulable o s reading h).1 hosts,
      )

  widen :
      {first first' last last' : ℕ} (h : Host)
      → first' ≤ first
      → last ≤ last'
      → EligibleBetween first last h
      → EligibleBetween first' last' h
  widen h early late (e, p, q) = (e, omega arith, omega arith)

  eligible_from_sound :
      (reading : ℕ) (hosts : List Host) (h : Host)
      → let (chosen, last) = eligible_from o s image reading hosts in
        In h chosen → In h hosts × EligibleBetween reading last h
  unfolding eligible_from
  eligible_from_sound reading [] h m = absurd m
  eligible_from_sound reading (x ∷ hosts) h m =
      let (schedulable, reading') = host_schedulable o s reading x in
      let ih = eligible_from_sound reading' hosts h in
      elim (Bool-cases (schedulable && host_meets_capability o x image && fits o s image x)) [
        | inl chosen ↦ either ih chosen (rw chosen at m)
        | inr passed ↦ let (stored, fine) = ih (rw passed at m) in (inr stored, later fine)
      ]
    where
      after : ℕ
      after = (host_schedulable o s reading x).1

      last : ℕ
      last = (eligible_from o s image after hosts).1

      later : EligibleBetween after last h → EligibleBetween reading last h
      later = widen h (schedulable_later reading x) (omega arith)

      either :
          (In h (eligible_from o s image after hosts).0 → In h hosts × EligibleBetween after last h)
          → ((host_schedulable o s reading x).0
              && host_meets_capability o x image
              && fits o s image x)
            ≡ true
          → (x ≡ h) ⊎ In h (eligible_from o s image (host_schedulable o s reading x).1 hosts).0
          → In h (x ∷ hosts) × EligibleBetween reading last h
      either ih chosen (inl same) = (
        inl same,
        subst (EligibleBetween reading last) same (
            widen x (omega arith) (eligible_later after hosts)
              (chosen-IsEligible reading x (ground arith) (ground arith) (ground arith))),
      )
      either ih chosen (inr m') = let (stored, fine) = ih m' in (inr stored, later fine)

  -- Every candidate of the scaler is one of the hosts, enabled, seen within the stale timeout at one
  -- of the readings of the clock that the selection makes, of the accelerator that the image asks
  -- for, of no other architecture than it asks for where the host names one, with the image warm or
  -- allowed to be fetched, and with the processors and memory of the profile free.
  pub eligible_hosts_sound :
      (reading : ℕ) (hosts : List Host) (h : Host)
      → let (chosen, last) = eligible_hosts o s image reading hosts in
        In h chosen → In h hosts × EligibleBetween reading last h
  unfolding eligible_hosts
  eligible_hosts_sound reading hosts h m =
      eligible_from_sound reading hosts h (In-sort (before o image) h _ m)
