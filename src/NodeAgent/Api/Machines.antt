-- ===== src/NodeAgent/Api/Machines.antt =====
-- What the endpoints of node_agent/api.py promise a client, without processes, files and rows: a set of
-- machines, to which an answered request adds one and from which a termination takes one.
use jenkins_qemu_provisioner.Prelude.{
  String, ◌≡◌, refl, sym, subst, ap, ◌∙◌, Bool, true, false, not, ◌&&◌, ◌||◌, Option, none, some,
  List, [], ◌∷◌, row, Bool-cases, inl, inr, arith, eq_iff, string_eq, ◌==◌, if◌then◌else◌,
}
use jenkins_qemu_provisioner.NodeAgent.Config.{AgentSettings}
use jenkins_qemu_provisioner.NodeAgent.State.{Vm, get_vm}
use jenkins_qemu_provisioner.NodeAgent.World.{Outcome, ok, raised, Node, System}
use jenkins_qemu_provisioner.NodeAgent.World.Hoare.{After}
use jenkins_qemu_provisioner.NodeAgent.Api.{
  VmEnsureRequest, VmStateResponse, is_up, ensure_vm, terminate_vm,
}
use jenkins_qemu_provisioner.NodeAgent.Api.Laws.{IsSettled, Fails, ensure_vm_settles}
use jenkins_qemu_provisioner.NodeAgent.Api.Terminate.{is_answered, is_denied, terminate_vm_removes}

-- A request of a client: a machine is wanted, or is to go, with the reason and whether it is forced.
pub data Command : Type 0 where
  want : String → VmEnsureRequest → Command
  drop : String → String → Bool → Command

-- The machine is one of the set, after requests, newest first, each with whether it was answered.
abbrev pub is_machine : String → List (Command × Bool) → Bool
is_machine k [] = false
is_machine k ((want v req, true) ∷ before) = (v == k) || is_machine k before
is_machine k ((want v req, false) ∷ before) = is_machine k before
is_machine k ((drop v reason force, true) ∷ before) = not (v == k) && is_machine k before
is_machine k ((drop v reason force, false) ∷ before) = is_machine k before

abbrev pub is_up_row : Option Vm → Bool
is_up_row none = false
is_up_row (some v) = is_up v.state

-- The machine has a row of the table, and is up.
abbrev pub is_there : String → List Vm → Bool
is_there k vms = is_up_row (get_vm k vms)

is_up_row_if :
    (b : Bool) (o : Option Vm) → is_up_row (if b then none else o) ≡ (not b && is_up_row o)
is_up_row_if true o = refl
is_up_row_if false o = refl

is_machine_want :
    (v k : String) (req : VmEnsureRequest) (b : Bool) (before : List (Command × Bool))
    → (if b then (v == k) || is_machine k before else is_machine k before)
      ≡ is_machine k ((want v req, b) ∷ before)
is_machine_want v k req true before = refl
is_machine_want v k req false before = refl

is_machine_drop :
    (v k reason : String) (force b : Bool) (before : List (Command × Bool))
    → (not (b && v == k) && is_machine k before) ≡ is_machine k ((drop v reason force, b) ∷ before)
is_machine_drop v k reason force true before = refl
is_machine_drop v k reason force false before = refl

module _ (os : System) (s : AgentSettings) where
  abbrev pub serve : Command → Node → Bool × Node
  serve (want vm_id req) n = let (r, n') = ensure_vm os s vm_id req n in (is_answered r, n')
  serve (drop vm_id reason force) n =
      let (r, n') = terminate_vm os s vm_id reason force n in (is_answered r, n')

  -- All requests of a list, whose first is the last one made, and what came of each.
  abbrev pub serve_all : List Command → Node → List (Command × Bool) × Node
  serve_all [] n = ([], n)
  serve_all (c ∷ commands) n =
      let (before, n') = serve_all commands n in
      let (answered, n'') = serve c n' in ((c, answered) ∷ before, n'')

  wanted :
      (vm_id k : String) (req : VmEnsureRequest) (vms : List Vm)
      (p : Outcome VmStateResponse × Node)
      → After (IsSettled os s vm_id req vms) (Fails os s vm_id req vms) p
      → is_there k p.1.vms
        ≡ (if is_answered p.0 then (vm_id == k) || is_there k vms else is_there k vms)
  wanted vm_id k req vms (raised e, n) (kept, reported) = ap (λ x. is_there k x) kept
  wanted vm_id k req vms (ok resp, n) (v, there, up, state, others) =
      elim (Bool-cases (vm_id == k)) [
        | inl same ↦ rw same (
            subst (λ x. is_there x n.vms ≡ true) ((eq_iff vm_id k).0 same)
              (ap is_up_row there ∙ up))
        | inr differs ↦ rw differs (ap is_up_row (others k (λ e. ground (arith, eq_iff vm_id k))))
      ]

  dropped :
      (vm_id reason k : String) (force : Bool) (n : Node)
      → is_there k (terminate_vm os s vm_id reason force n).1.vms ≡ (
          not (is_answered (terminate_vm os s vm_id reason force n).0 && vm_id == k)
          && is_there k n.vms)
  dropped vm_id reason k force n =
      let (answered, gone, ended) = terminate_vm_removes os s vm_id reason force n k in
      let denied = is_denied os s vm_id reason force (get_vm vm_id n.vms) n.ended in
      ap is_up_row gone
      ∙ is_up_row_if (not denied && vm_id == k) (get_vm k n.vms)
      ∙ ap (λ b. not (b && vm_id == k) && is_there k n.vms) (sym answered)

  -- The endpoints keep a set of machines. From an empty table, after any list of requests to ensure and
  -- to terminate machines, whatever the requests ask for and the system answers, a machine is up in the
  -- table exactly if the set has it: if a request for it was answered and no termination of it since.
  pub serve_all-is_machine :
      (commands : List Command) (n : Node) (k : String)
      → n.vms ≡ []
      → let (before, n') = serve_all commands n in is_there k n'.vms ≡ is_machine k before
  unfolding row
  serve_all-is_machine [] n k empty = ap (λ x. is_there k x) empty
  serve_all-is_machine (want v req ∷ commands) n k empty =
      let (before, n') = serve_all commands n in
      let r = ensure_vm os s v req n' in
      wanted v k req n'.vms r (ensure_vm_settles os s v req n')
      ∙ ap (λ x. if is_answered r.0 then (v == k) || x else x)
          (serve_all-is_machine commands n k empty)
      ∙ is_machine_want v k req (is_answered r.0) before
  serve_all-is_machine (drop v reason force ∷ commands) n k empty =
      let (before, n') = serve_all commands n in
      dropped v reason k force n'
      ∙ ap (λ x. not (is_answered (terminate_vm os s v reason force n').0 && v == k) && x)
          (serve_all-is_machine commands n k empty)
      ∙ is_machine_drop v k reason force (is_answered (terminate_vm os s v reason force n').0)
          before
