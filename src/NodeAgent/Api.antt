-- ===== src/NodeAgent/Api.antt =====
-- The endpoints of node_agent/api.py on machines: `ensure_vm`, `vm_state`, `vm_list` and
-- `terminate_vm`. A status that is posted to the control plane is a report: a failure to post is
-- ignored by the source. The request is one that node_agent/schemas.py has validated.
pub mod Terminate
pub mod Machines
pub mod Laws
use jenkins_qemu_provisioner.Prelude.{
  ℕ, String, Bool, true, false, not, ◌&&◌, ◌||◌, Option, none, some, List, [], ◌∷◌, Dict, lookup,
  insert, filter, join, concat, truthy, or_none, ltb, ◌==◌, nat_eq, string_eq, if◌then◌else◌, ◌++◌,
}
use jenkins_qemu_provisioner.NodeAgent.Config.{AgentSettings}
use jenkins_qemu_provisioner.NodeAgent.State.{
  Vm, get_vm, upsert_vm, update_vm_state, list_vms, delete_vm,
}
use jenkins_qemu_provisioner.NodeAgent.World.{
  Error, file_not_found, http_error, launch_error, failed, Outcome, ok, raised, Report, Node,
  System, Act, pure, raise, gets, modify, catch, now_iso, write_file, mkdir, ◌>>=◌, ◌>>◌,
}
use jenkins_qemu_provisioner.NodeAgent.Qemu.{
  RuntimePaths, write_cloud_init_files, build_qemu_command, create_overlay, launch_qemu,
  terminate_pid,
}
use jenkins_qemu_provisioner.NodeAgent.BaseImages.{BaseImageRequest, ensure_base_image}
use jenkins_qemu_provisioner.NodeAgent.Safety.{cleanup_vm_artifacts, pid_of}

-- `VMEnsureRequest`; its times are texts, as `isoformat()` gives them, its numbers are not negative
-- and fit the columns of the table, and the values of its metadata are texts or null, as the control
-- plane sends them. The source also takes other numbers and values, which can fail in SQLite.
pub record VmEnsureRequest : Type 0 where
  pub base_image : BaseImageRequest
  pub overlay_path : String
  pub vcpu : ℕ
  pub ram_mb : ℕ
  pub lease_expires_at : String
  pub connect_deadline : String
  pub jenkins_url : String
  pub jenkins_node_name : String
  pub jnlp_secret : String
  pub cloud_init_user_data_b64 : String
  pub metadata : Dict (Option String)

pub record VmStateResponse : Type 0 where
  pub vm_id : String
  pub state : String
  pub last_transition_at : String
  pub reason : Option String
  pub lease_expires_at : Option String
  pub serial_log_path : Option String

-- The response for a row of the table.
abbrev pub response_of : Vm → VmStateResponse
response_of v = record {
  vm_id = v.vm_id;
  state = v.state;
  last_transition_at = v.updated_at;
  reason = v.reason;
  lease_expires_at = v.lease_expires_at;
  serial_log_path = v.serial_log_path;
}

-- `existing["state"] in {"RUNNING", "BOOTING"}`
abbrev pub is_up : String → Bool
is_up state = state == "RUNNING" || state == "BOOTING"

-- `_report_vm_status`
abbrev pub report_vm_status : String → String → Option String → Act (Unit {0})
report_vm_status vm_id state reason = modify (λ n. record n {
  reports = record { vm_id = vm_id; state = state; reason = reason } ∷ n.reports;
})

-- the text of an exception
unfoldable pub error_text : Error → String
error_text (file_not_found text) = text
error_text (http_error status text) = text
error_text (launch_error status vm_id stage reason) = reason
error_text (failed text) = text

-- `req.metadata.get("lease_id")`
abbrev pub lease_id_of : Dict (Option String) → Option String
lease_id_of metadata = elim (lookup "lease_id" metadata) [ none ↦ none | some lease_id ↦ lease_id ]

module _ (os : System) (s : AgentSettings) (vm_id : String) (req : VmEnsureRequest) where
  -- `_raise_launch_error`
  unfoldable pub raise_launch_error : {A : Type 0} → String → ℕ → String → Act A
  raise_launch_error stage status reason =
      report_vm_status vm_id "FAILED" (some (concat (stage ∷ ": " ∷ reason ∷ [])))
      >> raise (launch_error status vm_id stage reason)

  -- `except Exception as exc: _raise_launch_error(..., reason=f"{title}: {exc}")`
  unfoldable pub stage_failed : {A : Type 0} → String → String → Error → Act A
  unfolding raise_launch_error error_text
  stage_failed stage title e =
      raise_launch_error stage 500 (concat (title ∷ ": " ∷ error_text e ∷ []))

  -- the two `except` blocks around `ensure_base_image`
  unfoldable pub image_failed : Error → Act String
  unfolding stage_failed raise_launch_error
  image_failed (file_not_found text) = raise_launch_error "base_image" 400 text
  image_failed e = stage_failed "base_image" "base image prepare failed" e

  -- `if req.overlay_path: runtime_paths.overlay_path = req.overlay_path`
  abbrev pub with_overlay : RuntimePaths → RuntimePaths
  with_overlay paths =
      if truthy req.overlay_path then record paths { overlay_path = req.overlay_path } else paths

  -- `touch(exist_ok=True)`
  abbrev pub touch : String → Node → Node
  touch path n = elim (lookup path n.files) [ none ↦ write_file path "" n | some _ ↦ n ]

  -- the overlay, made or touched
  unfoldable pub prepare_overlay : String → String → Act (Unit {0})
  unfolding stage_failed
  prepare_overlay base overlay =
      if not s.dry_run
      then catch (create_overlay os base overlay) (stage_failed "overlay" "overlay creation failed")
      else modify (mkdir (os.parent overlay)) >> modify (touch overlay)

  -- the process: its number is 0 in a dry run alone
  unfoldable pub check_pid : ℕ → Act ℕ
  unfolding raise_launch_error
  check_pid pid =
      if pid == 0 && not s.dry_run
      then raise_launch_error "qemu_launch" 500 "qemu launch failed: missing process pid"
      else pure pid

  unfoldable pub launch_process : List String → Act ℕ
  unfolding check_pid stage_failed
  launch_process cmd =
      catch (launch_qemu os cmd s.dry_run) (stage_failed "qemu_launch" "qemu launch failed")
      >>= check_pid

  -- `"RUNNING" if not settings.dry_run else "BOOTING"`
  abbrev pub up_state : String
  up_state = if not s.dry_run then "RUNNING" else "BOOTING"

  -- the row that `upsert_vm` writes, at a reading of the clock
  abbrev pub row_of : RuntimePaths → ℕ → String → Vm
  row_of paths pid now = record {
    vm_id = vm_id;
    state = up_state;
    host_id = some s.host_id;
    lease_id = lease_id_of req.metadata;
    vcpu = some req.vcpu;
    ram_mb = some req.ram_mb;
    qemu_pid = some pid;
    overlay_path = some paths.overlay_path;
    cloud_init_iso = some paths.cloud_init_iso;
    serial_log_path = some paths.serial_log_path;
    created_at = now;
    updated_at = now;
    connect_deadline = some req.connect_deadline;
    lease_expires_at = some req.lease_expires_at;
    reason = none;
  }

  -- the end of `ensure_vm`, for a machine that is launched
  unfoldable pub record_vm : RuntimePaths → ℕ → Act VmStateResponse
  record_vm paths pid = do
    now ← now_iso os
    modify (λ n. record n { vms = upsert_vm (row_of paths pid now) n.vms })
    report_vm_status vm_id up_state none
    later ← now_iso os
    pure (record {
      vm_id = vm_id;
      state = up_state;
      last_transition_at = later;
      reason = none;
      lease_expires_at = some req.lease_expires_at;
      serial_log_path = some paths.serial_log_path;
    })

  -- `Path(runtime_paths.serial_log_path).with_name("launch-command.txt")` with the command line
  abbrev pub write_command : RuntimePaths → Node → Node
  write_command paths n =
      write_file (os.join_path (os.parent paths.serial_log_path) "launch-command.txt")
        (concat (join " " (build_qemu_command os s vm_id paths req.vcpu req.ram_mb) ∷ "\n" ∷ [])) n

  -- from the command line on
  unfoldable pub start_vm : RuntimePaths → Act VmStateResponse
  unfolding launch_process record_vm
  start_vm paths = do
    modify (write_command paths)
    pid ← launch_process (build_qemu_command os s vm_id paths req.vcpu req.ram_mb)
    record_vm paths pid

  -- from the overlay on
  unfoldable pub launch_vm : String → RuntimePaths → Act VmStateResponse
  unfolding prepare_overlay start_vm
  launch_vm base paths = prepare_overlay base paths.overlay_path >> start_vm paths

  -- the files of the machine
  unfoldable pub prepare_files : Act RuntimePaths
  unfolding stage_failed
  prepare_files =
      catch
        (write_cloud_init_files os s vm_id req.cloud_init_user_data_b64 req.jenkins_node_name
          req.jenkins_url req.jnlp_secret)
        (stage_failed "cloud_init" "cloud-init generation failed")

  -- with a base image
  unfoldable pub create_on : String → Act VmStateResponse
  unfolding prepare_files launch_vm
  create_on base = prepare_files >>= λ paths. launch_vm base (with_overlay paths)

  -- for a machine that is not up
  unfoldable pub create_vm : Act VmStateResponse
  unfolding image_failed create_on
  create_vm = catch (ensure_base_image os s req.base_image) image_failed >>= create_on

  unfoldable pub ensure_found : Option Vm → Act VmStateResponse
  unfolding create_vm
  ensure_found none = create_vm
  ensure_found (some v) = if is_up v.state then pure (response_of v) else create_vm

  unfoldable pub ensure_vm : Act VmStateResponse
  unfolding ensure_found
  ensure_vm = do
    report_vm_status vm_id "PROVISIONING" none
    found ← gets (λ n. get_vm vm_id n.vms)
    ensure_found found

-- `vm_state`
unfoldable pub vm_state : String → Act VmStateResponse
vm_state vm_id n = elim (get_vm vm_id n.vms) [
  | none ↦ (raised (http_error 404 "unknown vm"), n)
  | some v ↦ (ok (response_of v), n)
]

-- `if state: rows = [r for r in rows if r.get("state") == state]`
abbrev kept_rows : Option String → (Vm → Option String) → List Vm → List Vm
kept_rows wanted column rows = elim (or_none wanted) [
  | none ↦ rows
  | some w ↦ filter (λ v. elim (column v) [ none ↦ false | some c ↦ c == w ]) rows
]

-- `vm_list`
unfoldable pub vm_list : Option String → Option String → List Vm → List Vm
vm_list state host_id vms =
    kept_rows host_id (λ v. v.host_id) (kept_rows state (λ v. some v.state) (list_vms vms))

module _ (os : System) (s : AgentSettings) where
  -- `deleted_overlay` of `cleanup_vm_artifacts`: no retention, and the file of the overlay is there
  unfoldable pub deleted_overlay : Vm → Node → Bool
  deleted_overlay v n =
      not (ltb 0 s.debug_artifact_retention_sec) && elim (or_none v.overlay_path) [
        | none ↦ false
        | some path ↦ elim (lookup path n.files) [ none ↦ false | some _ ↦ true ]
      ]

  -- the row that is found, with the answer `deleted_overlay`
  unfoldable pub terminate_row : String → String → Bool → Vm → Act Bool
  unfolding deleted_overlay terminate_pid
  terminate_row vm_id reason force v = do
    terminate_pid os (pid_of v) (s.dry_run && not force)
    deleted ← gets (deleted_overlay v)
    modify (cleanup_vm_artifacts os s v)
    now ← now_iso os
    modify (λ n. record n {
      vms = delete_vm vm_id (update_vm_state vm_id "TERMINATED" (some reason) (some 0) now n.vms);
    })
    pure deleted

  -- `terminate_vm`: its answer is "TERMINATED" and whether the overlay was deleted
  unfoldable pub terminate_found : String → String → Bool → Option Vm → Act Bool
  unfolding terminate_row
  terminate_found vm_id reason force none = pure false
  terminate_found vm_id reason force (some v) = terminate_row vm_id reason force v

  unfoldable pub terminate_vm : String → String → Bool → Act Bool
  unfolding terminate_found
  terminate_vm vm_id reason force = do
    found ← gets (λ n. get_vm vm_id n.vms)
    terminate_found vm_id reason force found
