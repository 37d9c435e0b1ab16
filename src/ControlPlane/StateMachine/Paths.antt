-- ===== src/ControlPlane/StateMachine/Paths.antt =====
-- What the table of transitions allows over several steps.
use jenkins_qemu_provisioner.Prelude.{◌≡◌, refl, true, arith}
use jenkins_qemu_provisioner.ControlPlane.Models.{
  LeaseState, requested, provisioning, booting, connected, running, terminating, terminated, failed,
  orphaned, other,
}
use jenkins_qemu_provisioner.ControlPlane.StateMachine.{can_transition}

-- A chain of transitions that the table allows.
pub data Chain (s : LeaseState) : LeaseState → Type 0 where
  here : Chain s s
  next : {t u : LeaseState} → Chain s t → can_transition t u ≡ true → Chain s u

step_from_terminated : (u : LeaseState) → can_transition terminated u ≡ true → u ≡ terminated
unfolding can_transition
step_from_terminated (other s) h = ground arith
step_from_terminated u h = ground arith

-- No chain leaves TERMINATED.
pub terminated_final : {u : LeaseState} → Chain terminated u → u ≡ terminated
terminated_final here = refl
terminated_final (next {t} {u} c h) = ground (arith, terminated_final c, step_from_terminated u)

-- One of the nine states of `LeaseState`.
pub data IsNamed : LeaseState → Type 0 where
  named_requested : IsNamed requested
  named_provisioning : IsNamed provisioning
  named_booting : IsNamed booting
  named_connected : IsNamed connected
  named_running : IsNamed running
  named_terminating : IsNamed terminating
  named_terminated : IsNamed terminated
  named_failed : IsNamed failed
  named_orphaned : IsNamed orphaned

-- Every one of the nine states has a chain of allowed transitions to TERMINATED.
pub Chain-terminated : {s : LeaseState} → IsNamed s → Chain s terminated
unfolding can_transition
Chain-terminated named_requested = next {t = failed} (next here refl) refl
Chain-terminated named_provisioning = next {t = failed} (next here refl) refl
Chain-terminated named_booting = next {t = failed} (next here refl) refl
Chain-terminated named_connected = next {t = failed} (next here refl) refl
Chain-terminated named_running = next {t = failed} (next here refl) refl
Chain-terminated named_terminating = next here refl
Chain-terminated named_terminated = here
Chain-terminated named_failed = next here refl
Chain-terminated named_orphaned = next here refl
