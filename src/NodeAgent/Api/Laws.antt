-- ===== src/NodeAgent/Api/Laws.antt =====
-- What `ensure_vm` of node_agent/api.py leaves of the table of machines and of the reports.
use jenkins_qemu_provisioner.Prelude.{
  ℕ, String, ◌≡◌, ◌≢◌, refl, sym, subst, ap, ◌∙◌, Bool, true, false, not, Option, none, some, List,
  [], ◌∷◌, concat, Bool-cases, inl, inr, arith, eq_iff, nat_eq, ◌&&◌, string_eq, ◌==◌,
  if◌then◌else◌,
}
use jenkins_qemu_provisioner.NodeAgent.Config.{AgentSettings}
use jenkins_qemu_provisioner.NodeAgent.State.{Vm, get_vm}
use jenkins_qemu_provisioner.NodeAgent.State.Laws.{row-upsert, upserted}
use jenkins_qemu_provisioner.NodeAgent.World.{
  Error, file_not_found, http_error, launch_error, failed, ok, Report, Node, System, Act, catch,
  mkdir,
}
use jenkins_qemu_provisioner.NodeAgent.World.Hoare.{
  After, Ensures, bind-Ensures, catch-Ensures, Keeps, Keeps-Ensures,
}
use jenkins_qemu_provisioner.NodeAgent.Qemu.{
  RuntimePaths, write_cloud_init_files, build_qemu_command, create_overlay, launch_qemu,
}
use jenkins_qemu_provisioner.NodeAgent.Qemu.Keeps.{
  create_overlay-Keeps, launch_qemu-Keeps, write_cloud_init_files-Keeps,
}
use jenkins_qemu_provisioner.NodeAgent.BaseImages.{ensure_base_image}
use jenkins_qemu_provisioner.NodeAgent.BaseImages.Keeps.{ensure_base_image-Keeps}
use jenkins_qemu_provisioner.NodeAgent.Api.{
  VmEnsureRequest, VmStateResponse, is_up, report_vm_status, raise_launch_error, stage_failed,
  image_failed, prepare_overlay, touch, check_pid, launch_process, record_vm, write_command,
  start_vm, launch_vm, prepare_files, create_on, create_vm, ensure_found, ensure_vm, row_of,
  with_overlay, response_of, error_text,
}

module _ (os : System) (s : AgentSettings) (vm_id : String) (req : VmEnsureRequest)
    (vms : List Vm) where
  -- The table is as it was.
  abbrev pub IsKept : Node → Type 0
  IsKept n = n.vms ≡ vms

  -- The exception names the machine, its stage and its reason, and so does the last report.
  abbrev pub IsReported : Error → Node → Type 0
  IsReported e n =
      (status : ℕ) × (stage : String) × (reason : String) × (before : List Report) × (e
        ≡ launch_error status vm_id stage reason)
      × (n.reports
          ≡ (record {
            vm_id = vm_id;
            state = "FAILED";
            reason = some (concat (stage ∷ ": " ∷ reason ∷ []));
          })
            ∷ before)

  abbrev pub Fails : Error → Node → Type 0
  Fails e n = IsKept n × IsReported e n

  -- The machine is up, in the state that is answered, and the other rows are as they were.
  abbrev pub IsSettled : VmStateResponse → Node → Type 0
  IsSettled resp n =
      (v : Vm) × (get_vm vm_id n.vms ≡ some v)
      × (is_up v.state ≡ true)
      × (resp.state ≡ v.state)
      × ((k : String) → vm_id ≢ k → get_vm k n.vms ≡ get_vm k vms)

  raises :
      (A : Type 0) (Q : A → Node → Type 0) (stage : String) (status : ℕ) (reason : String)
      → Ensures IsKept (raise_launch_error os s vm_id req {A = A} stage status reason) Q Fails
  unfolding raise_launch_error
  raises A Q stage status reason n kept = (kept, (status, stage, reason, n.reports, refl, refl))

  stage_raises :
      (A : Type 0) (Q : A → Node → Type 0) (stage title : String) (e : Error)
      → Ensures IsKept (stage_failed os s vm_id req {A = A} stage title e) Q Fails
  unfolding stage_failed
  stage_raises A Q stage title e = raises A Q stage 500 (concat (title ∷ ": " ∷ error_text e ∷ []))

  image_raises :
      (Q : String → Node → Type 0) (e : Error)
      → Ensures IsKept (image_failed os s vm_id req e) Q Fails
  unfolding image_failed
  image_raises Q (file_not_found text) = raises String Q "base_image" 400 text
  image_raises Q (http_error status text) =
      stage_raises String Q "base_image" "base image prepare failed" (http_error status text)
  image_raises Q (launch_error status vm stage reason) =
      stage_raises String Q "base_image" "base image prepare failed"
        (launch_error status vm stage reason)
  image_raises Q (failed text) =
      stage_raises String Q "base_image" "base image prepare failed" (failed text)

  -- An action that keeps the table, with the exception of its stage.
  caught :
      {A : Type 0} (m : Act A) (handler : Error → Act A)
      → Keeps m
      → ((e : Error) → Ensures IsKept (handler e) (λ _. IsKept) Fails)
      → Ensures IsKept (catch m handler) (λ _. IsKept) Fails
  caught m handler keeps fails =
      catch-Ensures (λ _. IsKept) (λ _. IsKept) Fails IsKept m handler (Keeps-Ensures vms m keeps)
        fails

  touched :
      (overlay : String) (n : Node)
      → (touch os s vm_id req overlay (mkdir (os.parent overlay) n)).vms ≡ n.vms
  touched overlay n = ground arith

  overlay-Ensures :
      (base overlay : String)
      → Ensures IsKept (prepare_overlay os s vm_id req base overlay) (λ _. IsKept) Fails
  unfolding prepare_overlay
  overlay-Ensures base overlay n kept = elim (Bool-cases s.dry_run) [
    | inl dry ↦ rw (dry, prepare_overlay) (touched overlay n ∙ kept)
    | inr wet ↦
        rw (wet, prepare_overlay)
          (caught (create_overlay os base overlay)
            (stage_failed os s vm_id req "overlay" "overlay creation failed")
            (create_overlay-Keeps os base overlay)
            (stage_raises (Unit {0}) (λ _. IsKept) "overlay" "overlay creation failed") n kept)
  ]

  check-Ensures : (pid : ℕ) → Ensures IsKept (check_pid os s vm_id req pid) (λ _. IsKept) Fails
  unfolding check_pid
  check-Ensures pid n kept = elim (Bool-cases (pid == 0 && not s.dry_run)) [
    | inl missing ↦
        rw (missing, check_pid)
          (raises ℕ (λ _. IsKept) "qemu_launch" 500 "qemu launch failed: missing process pid" n
            kept)
    | inr there ↦ rw (there, check_pid) kept
  ]

  launch_process-Ensures :
      (cmd : List String) → Ensures IsKept (launch_process os s vm_id req cmd) (λ _. IsKept) Fails
  unfolding launch_process
  launch_process-Ensures cmd =
      bind-Ensures (λ _. IsKept) (λ _. IsKept) Fails IsKept
        (catch (launch_qemu os cmd s.dry_run)
          (stage_failed os s vm_id req "qemu_launch" "qemu launch failed"))
        (check_pid os s vm_id req)
        (caught (launch_qemu os cmd s.dry_run)
          (stage_failed os s vm_id req "qemu_launch" "qemu launch failed")
          (launch_qemu-Keeps os cmd s.dry_run)
          (stage_raises ℕ (λ _. IsKept) "qemu_launch" "qemu launch failed"))
        check-Ensures

  is_up_of : (dry : Bool) → is_up (if not dry then "RUNNING" else "BOOTING") ≡ true
  is_up_of true = refl
  is_up_of false = refl

  upserted_state : (v : Vm) (old : Option Vm) → (upserted v old).state ≡ v.state
  upserted_state v none = refl
  upserted_state v (some old) = refl

  record-Ensures :
      (paths : RuntimePaths) (pid : ℕ)
      → Ensures IsKept (record_vm os s vm_id req paths pid) IsSettled Fails
  unfolding record_vm
  record-Ensures paths pid n kept =
      let r = row_of os s vm_id req paths pid (os.now_iso n.readings) in
      let old = get_vm vm_id n.vms in
      (
        upserted r old,
        row-upsert vm_id r n.vms ∙ ground (arith, eq_iff vm_id vm_id),
        subst (λ x. is_up x ≡ true) (sym (upserted_state r old)) (is_up_of s.dry_run),
        sym (upserted_state r old),
        λ k other. row-upsert k r n.vms ∙ ground (arith, eq_iff vm_id k) ∙ ap (get_vm k) kept,
      )

  start_vm-Ensures :
      (paths : RuntimePaths) → Ensures IsKept (start_vm os s vm_id req paths) IsSettled Fails
  unfolding start_vm
  start_vm-Ensures paths n kept =
      let cmd = build_qemu_command os s vm_id paths req.vcpu req.ram_mb in
      bind-Ensures (λ _. IsKept) IsSettled Fails IsKept (launch_process os s vm_id req cmd)
        (record_vm os s vm_id req paths) (launch_process-Ensures cmd) (record-Ensures paths)
        (write_command os s vm_id req paths n) kept

  launch_vm-Ensures :
      (base : String) (paths : RuntimePaths)
      → Ensures IsKept (launch_vm os s vm_id req base paths) IsSettled Fails
  unfolding launch_vm
  launch_vm-Ensures base paths =
      bind-Ensures (λ _. IsKept) IsSettled Fails IsKept
        (prepare_overlay os s vm_id req base paths.overlay_path)
        (λ _. start_vm os s vm_id req paths) (overlay-Ensures base paths.overlay_path)
        (λ _. start_vm-Ensures paths)

  create_on-Ensures :
      (base : String) → Ensures IsKept (create_on os s vm_id req base) IsSettled Fails
  unfolding create_on prepare_files
  create_on-Ensures base =
      bind-Ensures (λ _. IsKept) IsSettled Fails IsKept (prepare_files os s vm_id req)
        (λ paths. launch_vm os s vm_id req base (with_overlay os s vm_id req paths))
        (caught
          (write_cloud_init_files os s vm_id req.cloud_init_user_data_b64 req.jenkins_node_name
            req.jenkins_url req.jnlp_secret)
          (stage_failed os s vm_id req "cloud_init" "cloud-init generation failed")
          (write_cloud_init_files-Keeps os s vm_id req.cloud_init_user_data_b64
            req.jenkins_node_name req.jenkins_url req.jnlp_secret)
          (stage_raises RuntimePaths (λ _. IsKept) "cloud_init" "cloud-init generation failed"))
        (λ paths. launch_vm-Ensures base (with_overlay os s vm_id req paths))

  create_vm-Ensures : Ensures IsKept (create_vm os s vm_id req) IsSettled Fails
  unfolding create_vm
  create_vm-Ensures =
      bind-Ensures (λ _. IsKept) IsSettled Fails IsKept
        (catch (ensure_base_image os s req.base_image) (image_failed os s vm_id req))
        (create_on os s vm_id req)
        (caught (ensure_base_image os s req.base_image) (image_failed os s vm_id req)
          (ensure_base_image-Keeps os s req.base_image) (image_raises (λ _. IsKept)))
        create_on-Ensures

  found-Ensures :
      (found : Option Vm)
      → get_vm vm_id vms ≡ found
      → Ensures IsKept (ensure_found os s vm_id req found) IsSettled Fails
  unfolding ensure_found
  found-Ensures none h n kept = create_vm-Ensures n kept
  found-Ensures (some v) h n kept = elim (Bool-cases (is_up v.state)) [
    | inl up ↦
        rw (up, ensure_found)
          (v, ap (get_vm vm_id) kept ∙ h, up, refl, λ k other. ap (get_vm k) kept)
    | inr down ↦ rw (down, ensure_found) (create_vm-Ensures n kept)
  ]

-- `ensure_vm` settles a machine or says why not. For any settings, system and table, and any request
-- whose numbers are natural and fit the columns of the table and whose metadata are texts or null,
-- where the agent can write its own files and the table: if it
-- answers, the machine has a row in the state that is answered, "RUNNING" or "BOOTING", and the other
-- rows are as they were; if it raises, the whole table is as it was, and the exception and the last
-- report to the control plane name the machine with the same stage and reason.
pub ensure_vm_settles :
    (os : System) (s : AgentSettings) (vm_id : String) (req : VmEnsureRequest) (n : Node)
    → After
        (IsSettled os s vm_id req n.vms)
        (Fails os s vm_id req n.vms)
        (ensure_vm os s vm_id req n)
unfolding ensure_vm
ensure_vm_settles os s vm_id req n =
    let reported = (report_vm_status vm_id "PROVISIONING" none n).1 in
    found-Ensures os s vm_id req n.vms (get_vm vm_id n.vms) refl reported refl

-- `ensure_vm` for a machine that is up.
up_found :
    (os : System) (s : AgentSettings) (vm_id : String) (req : VmEnsureRequest) (n : Node) (v : Vm)
    → get_vm vm_id n.vms ≡ some v
    → is_up v.state ≡ true
    → ensure_vm os s vm_id req n
      ≡ (ok (response_of v), (report_vm_status vm_id "PROVISIONING" none n).1)
unfolding ensure_vm ensure_found
up_found os s vm_id req n v there up = rw (there, ensure_vm) (rw (up, ensure_found) refl)

-- Ensuring a machine again does nothing to it: after `ensure_vm` has answered, a second request for the
-- machine, whatever it asks for, is answered with the same state, and the table, the files, the
-- commands and the downloads stay as they are.
pub ensure_vm_again :
    (os : System) (s : AgentSettings) (vm_id : String) (req other : VmEnsureRequest) (n n' : Node)
    (resp : VmStateResponse)
    → ensure_vm os s vm_id req n ≡ (ok resp, n')
    → let again = ensure_vm os s vm_id other n' in
      ((later : VmStateResponse) × (again.0 ≡ ok later) × (later.state ≡ resp.state))
      × (again.1.vms ≡ n'.vms)
      × (again.1.files ≡ n'.files)
      × (again.1.commands ≡ n'.commands)
      × (again.1.downloads ≡ n'.downloads)
ensure_vm_again os s vm_id req other n n' resp e =
    let (v, there, up, state, others) =
      subst (After (IsSettled os s vm_id req n.vms) (Fails os s vm_id req n.vms)) e
        (ensure_vm_settles os s vm_id req n) in
    let step = up_found os s vm_id other n' v there up in
    rw step ((response_of v, refl, sym state), refl, refl, refl, refl)
