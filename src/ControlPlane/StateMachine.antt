-- ===== src/ControlPlane/StateMachine.antt =====
-- control_plane/state_machine.py: the table of allowed transitions of a lease.
pub mod Paths
use jenkins_qemu_provisioner.Prelude.{
  ℕ, ◌≡◌, ◌↔◌, Bool, true, false, ◌||◌, List, [], ◌∷◌, arith, eq_iff, Comparable, ◌==◌, nat_eq,
  string_eq, contains, if◌then◌else◌,
}
use jenkins_qemu_provisioner.ControlPlane.Models.{
  LeaseState, requested, provisioning, booting, connected, running, terminating, terminated, failed,
  orphaned, other,
}

abbrev place : LeaseState → ℕ
place requested = 0
place provisioning = 1
place booting = 2
place connected = 3
place running = 4
place terminating = 5
place terminated = 6
place failed = 7
place orphaned = 8
place (other s) = 9

-- The states are texts in the source: two are equal when they are the same text.
abbrev pub same_state : LeaseState → LeaseState → Bool
same_state (other s) (other t) = s == t
same_state a b = place a == place b

pub same_state_iff : (a b : LeaseState) → (same_state a b ≡ true) ↔ (a ≡ b)
same_state_iff (other s) (other t) = ground (arith, eq_iff s t)
same_state_iff a b = ground arith

instance abbrev pub state_eq : Comparable LeaseState
state_eq = record { same = same_state; same_iff = same_state_iff }

-- `ALLOWED_TRANSITIONS.get(current, set())`
abbrev pub allowed_transitions : LeaseState → List LeaseState
allowed_transitions requested = provisioning ∷ failed ∷ []
allowed_transitions provisioning = booting ∷ failed ∷ []
allowed_transitions booting = connected ∷ terminating ∷ failed ∷ []
allowed_transitions connected = running ∷ terminating ∷ failed ∷ []
allowed_transitions running = terminating ∷ failed ∷ []
allowed_transitions terminating = terminated ∷ failed ∷ []
allowed_transitions terminated = []
allowed_transitions failed = terminating ∷ terminated ∷ []
allowed_transitions orphaned = terminating ∷ terminated ∷ []
allowed_transitions (other s) = []

unfoldable pub can_transition : LeaseState → LeaseState → Bool
can_transition current target =
    if current == target then true else contains (allowed_transitions current) target
