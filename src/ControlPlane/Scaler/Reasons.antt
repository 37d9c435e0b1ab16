-- ===== src/ControlPlane/Scaler/Reasons.antt =====
-- The two ways in which control_plane/services/scaler.py selects hosts, and the reasons it counts.
use jenkins_qemu_provisioner.Prelude.{
  In, In-sort, sort-In, ℕ, ◌+◌, String, ◌≡◌, refl, sym, subst, lookup_or, lookup_or-add_count,
  sum_by, Option-cases, lookup, In-filter, filter-In, eq_iff, string_eq, ◌==◌, ap, ◌∙◌, ◌↔◌, Bool,
  true, false, not, ◌&&◌, Option, none, some, List, [], ◌∷◌, ◌++◌, Dict, total, total-add_count,
  total-empty, length-sort, filter, length, length-append, arith, Bool-cases, inl, inr, sort,
  truthy, ltb, if◌then◌else◌,
}
use mathlib.Core.List.{append_assoc, append-nil}
use jenkins_qemu_provisioner.ControlPlane.Models.{Settings, Time, Host}
use jenkins_qemu_provisioner.ControlPlane.World.{Outside}
use jenkins_qemu_provisioner.ControlPlane.GuestImages.{ResolvedImageSelection}
use jenkins_qemu_provisioner.ControlPlane.Provisioning.{node_profile}
use jenkins_qemu_provisioner.ControlPlane.Scaler.Eligibility.{
  any_ready, may_fetch, host_available_images, host_image_bucket, host_schedulable,
  host_meets_capability, host_capability_reason, is_fresh, fits, before, eligible_from,
  eligible_hosts, fit_reason, reject_reason, sift_host, sift, eligible_hosts_with_reasons,
}

module _ (o : Outside) (s : Settings) (image : ResolvedImageSelection) where
  -- A host meets the capabilities of an image exactly when no reason speaks against it.
  pub host_capability_reason_iff :
      (h : Host)
      → (host_meets_capability o h image ≡ true) ↔ (host_capability_reason o h image ≡ none)
  unfolding host_meets_capability host_capability_reason
  host_capability_reason_iff h = (λ e. ground arith, λ e. ground arith)

  -- A reason, if there is one, is a text that is not empty, so the test `if reason:` finds it.
  abbrev IsReason : Option String → Type 0
  IsReason none = Unit
  IsReason (some r) = truthy r ≡ true

  bucket-IsReason : (h : Host) → truthy (host_image_bucket o h image).1 ≡ true
  unfolding host_image_bucket
  bucket-IsReason h = elim (Bool-cases (any_ready image (host_available_images o h))) [
    | inl ready ↦ rw ready
    | inr cold ↦ rw cold (elim (Bool-cases (may_fetch image.source_kind image.cache_policy)) [
      | inl fetch ↦ rw fetch
      | inr stay ↦ rw stay
    ])
  ]

  host_capability_reason-IsReason : (h : Host) → IsReason (host_capability_reason o h image)
  unfolding host_capability_reason
  host_capability_reason-IsReason h = ground (arith, bucket-IsReason h)

  fit_reason-IsReason : (h : Host) → IsReason (fit_reason o s image h)
  unfolding fit_reason
  fit_reason-IsReason h =
      go (host_capability_reason o h image) (host_capability_reason-IsReason h)
        (ltb h.cpu_free (node_profile image.profile).vcpu)
        (ltb h.ram_free_mb (node_profile image.profile).ram_mb)
    where
      go :
          (r : Option String)
          → IsReason r
          → (few little : Bool)
          → IsReason (elim r [
            | some reason ↦ some reason
            | none ↦
                if few
                then some "cpu_insufficient"
                else if little
                then some "ram_insufficient"
                else none
          ])
      go (some r) p few little = p
      go none p true little = refl
      go none p false true = refl
      go none p false false = tt

  reject_reason-IsReason : (now : Time) (h : Host) → IsReason (reject_reason o s image now h)
  unfolding reject_reason
  reject_reason-IsReason now h = ground (arith, fit_reason-IsReason h)

  -- The hosts that `_eligible_hosts` keeps, at one time for all.
  abbrev eligible_at : Time → Host → Bool
  eligible_at now h = elim h.last_seen [
    | none ↦ false
    | some seen ↦
        h.enabled && is_fresh s now seen && host_meets_capability o h image && fits o s image h
  ]

  fit_reason_lem :
      (h : Host)
      → (host_meets_capability o h image && fits o s image h)
        ≡ elim (fit_reason o s image h) [ none ↦ true | some r ↦ not (truthy r) ]
  unfolding fit_reason
  fit_reason_lem h = ground (
    arith,
    host_capability_reason_iff h,
    host_capability_reason-IsReason h,
    fit_reason-IsReason h,
  )

  reject_reason_lem :
      (now : Time) (h : Host)
      → eligible_at now h
        ≡ elim (reject_reason o s image now h) [ none ↦ true | some r ↦ not (truthy r) ]
  unfolding reject_reason
  reject_reason_lem now h = ground (arith, fit_reason_lem h, fit_reason-IsReason h)

  -- The host was seen within the stale timeout before a time.
  abbrev pub fresh_at : Time → Host → Bool
  fresh_at now h = elim h.last_seen [ none ↦ false | some seen ↦ is_fresh s now seen ]

  -- At every reading of the clock the same of the hosts are fresh as at a time.
  abbrev pub Steady : Time → List Host → Type 0
  Steady now hosts = (n : ℕ) (h : Host) → In h hosts → fresh_at (o.clock n) h ≡ fresh_at now h

  eligible_from-filter :
      (now : Time) (reading : ℕ) (hosts : List Host)
      → Steady now hosts
      → (eligible_from o s image reading hosts).0 ≡ filter (eligible_at now) hosts
  unfolding eligible_from host_schedulable
  eligible_from-filter now reading [] steady = refl
  eligible_from-filter now reading (h ∷ hosts) steady =
      let steady' : Steady now hosts = λ n x m. steady n x (inr m) in
      let same = steady reading h (inl refl) in
      ground (
        arith,
        same,
        eligible_from-filter now reading hosts steady',
        eligible_from-filter now (reading + 1) hosts steady',
      )

  sift_host-filter :
      (now : Time) (h : Host) (found : List Host × Dict ℕ)
      → (sift_host o s image now h found).0
        ≡ (if eligible_at now h then found.0 ++ h ∷ [] else found.0)
  unfolding sift_host
  sift_host-filter now h (eligible, reasons) =
      ground (arith, reject_reason_lem now h, reject_reason-IsReason now h)

  sift-filter :
      (now : Time) (hosts : List Host) (found : List Host × Dict ℕ)
      → (sift o s image now hosts found).0 ≡ found.0 ++ filter (eligible_at now) hosts
  unfolding sift
  sift-filter now [] found = sym (append-nil found.0)
  sift-filter now (h ∷ hosts) found =
      sift-filter now hosts (sift_host o s image now h found)
      ∙ rw (sift_host-filter now h found) (elim (Bool-cases (eligible_at now h)) [
        | inl chosen ↦ rw chosen (append_assoc found.0 (h ∷ []) (filter (eligible_at now) hosts))
        | inr refused ↦ rw refused
      ])

  -- Where no host goes stale or becomes fresh between the readings of the clock, the selection with
  -- reasons and the one without choose the same hosts in the same order.
  pub eligible_hosts_agree :
      (now : Time) (reading : ℕ) (hosts : List Host)
      → Steady now hosts
      → (eligible_hosts o s image reading hosts).0
        ≡ (eligible_hosts_with_reasons o s image now hosts).0
  unfolding eligible_hosts eligible_hosts_with_reasons
  eligible_hosts_agree now reading hosts steady =
      ap (sort (before o image))
        (eligible_from-filter now reading hosts steady ∙ sym (sift-filter now hosts ([], [])))

  sift_host_counts :
      (now : Time) (h : Host) (found : List Host × Dict ℕ)
      → let found' = sift_host o s image now h found in
        length found'.0 + total found'.1 ≡ length found.0 + total found.1 + 1
  unfolding sift_host
  sift_host_counts now h (eligible, reasons) =
      grind (arith, total-add_count, length-append eligible (h ∷ []))

  sift_counts :
      (now : Time) (hosts : List Host) (found : List Host × Dict ℕ)
      → let found' = sift o s image now hosts found in
        length found'.0 + total found'.1 ≡ length found.0 + total found.1 + length hosts
  unfolding sift
  sift_counts now [] found = omega arith
  sift_counts now (h ∷ hosts) found =
      omega (
        arith,
        sift_counts now hosts (sift_host o s image now h found),
        sift_host_counts now h found,
      )

  -- No reason speaks against the host.
  abbrev pub is_accepted : Time → Host → Bool
  is_accepted now h = elim (reject_reason o s image now h) [ none ↦ true | some r ↦ false ]

  -- 1 for a host that is rejected for a reason, and 0 for any other.
  abbrev pub rejected_for : Time → String → Host → ℕ
  rejected_for now reason h = elim (reject_reason o s image now h) [
    | none ↦ 0
    | some r ↦ if r == reason then 1 else 0
  ]

  accepted_lem : (now : Time) (h : Host) → eligible_at now h ≡ is_accepted now h
  accepted_lem now h = ground (arith, reject_reason_lem now h, reject_reason-IsReason now h)

  filter-accepted :
      (now : Time) (hosts : List Host)
      → filter (eligible_at now) hosts ≡ filter (is_accepted now) hosts
  filter-accepted now [] = refl
  filter-accepted now (h ∷ hosts) =
      rw (accepted_lem now h) (ground (arith, filter-accepted now hosts))

  sift_host_rejects :
      (now : Time) (reason : String) (h : Host) (found : List Host × Dict ℕ)
      → lookup_or reason 0 (sift_host o s image now h found).1
        ≡ lookup_or reason 0 found.1 + rejected_for now reason h
  unfolding sift_host
  sift_host_rejects now reason h (eligible, reasons) =
      elim (Option-cases (reject_reason o s image now h)) [
        | inl accepted ↦ ground arith
        | inr (r, refused) ↦
            let full : IsReason (some r) = subst IsReason refused (reject_reason-IsReason now h) in
            let count = lookup_or-add_count r reason 1 reasons in ground (arith, eq_iff r reason)
      ]

  none_counted : (reason : String) → lookup_or {V = ℕ} reason 0 [] ≡ 0
  unfolding lookup_or lookup
  none_counted reason = refl

  sift_rejects :
      (now : Time) (reason : String) (hosts : List Host) (found : List Host × Dict ℕ)
      → lookup_or reason 0 (sift o s image now hosts found).1
        ≡ lookup_or reason 0 found.1 + sum_by (rejected_for now reason) hosts
  unfolding sift
  sift_rejects now reason [] found = omega arith
  sift_rejects now reason (h ∷ hosts) found = omega (
    arith,
    sift_rejects now reason hosts (sift_host o s image now h found),
    sift_host_rejects now reason h found,
  )

  In-accepted :
      (now : Time) (h : Host) (hosts : List Host)
      → In h (filter (is_accepted now) hosts)
      → In h hosts × (reject_reason o s image now h ≡ none)
  In-accepted now h hosts m =
      let (stored, accepted) = In-filter (is_accepted now) h hosts m in (stored, ground arith)

  accepted-In :
      (now : Time) (h : Host) (hosts : List Host)
      → In h hosts
      → reject_reason o s image now h ≡ none
      → In h (filter (is_accepted now) hosts)
  accepted-In now h hosts m e = filter-In (is_accepted now) h hosts m (ground arith)

  -- Every host is either eligible or counted under exactly one reason: the eligible ones are the hosts
  -- that no reason speaks against, the number under a reason is the number of hosts that are rejected
  -- for it, and together they are as many as the hosts.
  pub every_host_counted :
      (now : Time) (hosts : List Host)
      → let (eligible, reasons) = eligible_hosts_with_reasons o s image now hosts in
        ((h : Host) → In h eligible ↔ (In h hosts × (reject_reason o s image now h ≡ none)))
        × ((reason : String) → lookup_or reason 0 reasons ≡ sum_by (rejected_for now reason) hosts)
        × (length eligible + total reasons ≡ length hosts)
  unfolding eligible_hosts_with_reasons
  every_host_counted now hosts = (
    λ h. (
      λ m. In-accepted now h hosts (subst (In h) (chosen hosts) (In-sort (before o image) h _ m)),
      λ (m, accepted).
          sort-In (before o image) h _
            (subst (In h) (sym (chosen hosts)) (accepted-In now h hosts m accepted)),
    ),
    λ reason. omega (arith, sift_rejects now reason hosts ([], []), none_counted reason),
    omega (
      arith,
      length-sort (before o image) (sift o s image now hosts ([], [])).0,
      sift_counts now hosts ([], []),
      total-empty,
    ),
  )
    where
      chosen :
          (hosts : List Host)
          → (sift o s image now hosts ([], [])).0 ≡ filter (is_accepted now) hosts
      chosen hosts = sift-filter now hosts ([], []) ∙ filter-accepted now hosts
