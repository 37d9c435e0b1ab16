-- ===== src/ControlPlane/Repositories/Cas.antt =====
-- What `cas_lease_state` and `list_leases` promise.
use jenkins_qemu_provisioner.Prelude.{
  ◌≡◌, ◌≢◌, refl, ◌↔◌, true, Option, none, some, List, String, arith, eq_iff, In, truthy, ltb,
  IsSorted, sort-IsSorted, sort-In, In-sort, In-filter, filter-In, string_eq,
}
use jenkins_qemu_provisioner.ControlPlane.Models.{Time, LeaseState, Lease, value}
use jenkins_qemu_provisioner.ControlPlane.StateMachine.{can_transition, same_state_iff}
use jenkins_qemu_provisioner.ControlPlane.Repositories.{cas_lease_state, list_leases, matches}

module _ (l : Lease) (expected target : LeaseState) (error : Option String) (now : Time) where
  -- The compare-and-set succeeds exactly when the lease is in the expected state and the table
  -- allows the step.
  pub cas_lease_state_iff :
      (cas_lease_state l expected target error now ≢ none)
      ↔ ((l.state ≡ expected) × (can_transition expected target ≡ true))
  unfolding cas_lease_state
  cas_lease_state_iff = (
    λ e. ground (arith, same_state_iff l.state expected),
    λ h. ground (arith, same_state_iff l.state expected),
  )

-- A lease passes the filters of `list_leases`: an absent or empty filter asks for nothing.
abbrev pub Wanted : Option String → Option String → Type 0
Wanted none column = Unit
Wanted (some s) column = (truthy s ≡ true) → (column ≡ some s)

matches→Wanted : (f column : Option String) → matches f column ≡ true → Wanted f column
matches→Wanted none column h = tt
matches→Wanted (some s) none h = λ t. ground arith
matches→Wanted (some s) (some c) h = λ t. ground (arith, eq_iff c s)

Wanted→matches : (f column : Option String) → Wanted f column → matches f column ≡ true
Wanted→matches none column h = refl
Wanted→matches (some s) none h = ground arith
Wanted→matches (some s) (some c) h = ground (arith, eq_iff c s)

module _ (label state host_id : Option String) (leases : List Lease) where
  -- `list_leases` answers exactly the leases that pass the three filters.
  pub In-list_leases :
      (l : Lease)
      → In l (list_leases label state host_id leases) ↔ (
          In l leases
          × Wanted label (some l.label)
          × Wanted state (some (value l.state))
          × Wanted host_id l.host_id)
  unfolding list_leases
  In-list_leases l = (
    λ h.
        let (by_state, of_host) = In-filter _ l _ (In-sort _ l _ h) in
        let (by_label, of_state) = In-filter _ l _ by_state in
        let (stored, of_label) = In-filter _ l _ by_label in
        (
          stored,
          matches→Wanted label _ of_label,
          matches→Wanted state _ of_state,
          matches→Wanted host_id _ of_host,
        ),
    λ (stored, of_label, of_state, of_host).
        let by_label = filter-In _ l leases stored (Wanted→matches label _ of_label) in
        let by_state = filter-In _ l _ by_label (Wanted→matches state _ of_state) in
        sort-In _ l _ (filter-In _ l _ by_state (Wanted→matches host_id _ of_host)),
  )

  -- and it answers them from the newest to the oldest.
  pub list_leases-IsSorted :
      IsSorted (λ a b. ltb b.created_at a.created_at) (list_leases label state host_id leases)
  unfolding list_leases
  list_leases-IsSorted = sort-IsSorted _ (λ a b h. ground arith) (λ a b c p q. ground arith) _
