-- ===== src/NodeAgent/Qemu/Keeps.antt =====
-- The functions of node_agent/qemu_runtime.py do not touch the table of machines.
use jenkins_qemu_provisioner.Prelude.{
  String, ◌∙◌, refl, Bool, true, false, Option, none, some, List, [], ◌∷◌, concat, arith,
}
use jenkins_qemu_provisioner.NodeAgent.Config.{AgentSettings}
use jenkins_qemu_provisioner.NodeAgent.World.{
  Run, completed, process_error, not_run, System, modify, write_file, mkdir, pure,
}
use jenkins_qemu_provisioner.NodeAgent.World.Hoare.{Keeps, bind-Keeps}
use jenkins_qemu_provisioner.NodeAgent.Qemu.{
  run_failed, run_command, iso_command, write_iso, decode_user_data, vm_dir, runtime_paths,
  write_documents, write_seed, write_cloud_init_files, shutil_which_first, overlay_with,
  create_overlay, launch_qemu,
}

module _ (os : System) where
  run_failed-Keeps : (title : String) (r : Run) → Keeps (run_failed os title r)
  unfolding run_failed
  run_failed-Keeps title completed n = refl
  run_failed-Keeps title (process_error stderr stdout exc) n = refl
  run_failed-Keeps title (not_run text) n = refl

  run_command-Keeps :
      (title : String) (command : List String) → Keeps (run_command os title command)
  unfolding run_command
  run_command-Keeps title command n =
      run_failed-Keeps title (os.run n.commands command)
        (record n { commands = command ∷ n.commands })

  mkdir-Keeps : (path : String) → Keeps (modify (mkdir path))
  mkdir-Keeps path n = ground arith

  overlay_with-Keeps :
      (tool : Option String) (base overlay : String) → Keeps (overlay_with os tool base overlay)
  unfolding overlay_with
  overlay_with-Keeps none base overlay n = refl
  overlay_with-Keeps (some tool) base overlay n =
      let title : String = "qemu-img overlay creation failed" in
      let command : List String =
        tool ∷ "create" ∷ "-f" ∷ "qcow2" ∷ "-F" ∷ "qcow2" ∷ "-b" ∷ base ∷ overlay ∷ [] in
      bind-Keeps (run_command os title command) (λ _. modify (write_file overlay ""))
        (run_command-Keeps title command) (λ _ n. refl) (mkdir (os.parent overlay) n)
      ∙ mkdir-Keeps (os.parent overlay) n

  pub create_overlay-Keeps : (base overlay : String) → Keeps (create_overlay os base overlay)
  unfolding create_overlay
  create_overlay-Keeps base overlay =
      overlay_with-Keeps (shutil_which_first os ("qemu-img" ∷ [])) base overlay

  pub launch_qemu-Keeps : (cmd : List String) (dry_run : Bool) → Keeps (launch_qemu os cmd dry_run)
  unfolding launch_qemu
  launch_qemu-Keeps cmd true n = refl
  launch_qemu-Keeps cmd false n = refl

  decode_user_data-Keeps : (encoded : String) → Keeps (decode_user_data os encoded)
  unfolding decode_user_data
  decode_user_data-Keeps encoded n = refl

  write_iso-Keeps :
      (tool : Option String) (iso user_data meta_data : String)
      → Keeps (write_iso os tool iso user_data meta_data)
  unfolding write_iso
  write_iso-Keeps none iso user_data meta_data n = refl
  write_iso-Keeps (some tool) iso user_data meta_data n =
      bind-Keeps
        (run_command os (concat ("cloud-init ISO generation failed with " ∷ tool ∷ []))
          (iso_command os tool iso user_data meta_data))
        (λ _. modify (write_file iso ""))
        (run_command-Keeps (concat ("cloud-init ISO generation failed with " ∷ tool ∷ []))
          (iso_command os tool iso user_data meta_data))
        (λ _ n. refl) n

  module _ (s : AgentSettings) (vm_id : String) where
    write_seed-Keeps :
        (node_name jenkins_url jnlp_secret user_data : String)
        → Keeps (write_seed os s vm_id node_name jenkins_url jnlp_secret user_data)
    unfolding write_seed write_documents
    write_seed-Keeps node_name jenkins_url jnlp_secret user_data n =
        let tool = shutil_which_first os ("xorriso" ∷ "genisoimage" ∷ "mkisofs" ∷ []) in
        let iso = (runtime_paths os s vm_id).cloud_init_iso in
        let user = os.join_path (vm_dir os s vm_id) "user-data" in
        let meta = os.join_path (vm_dir os s vm_id) "meta-data" in
        bind-Keeps (write_iso os tool iso user meta) (λ _. pure (runtime_paths os s vm_id))
          (write_iso-Keeps tool iso user meta) (λ _ k. refl)
          (write_documents os s vm_id node_name jenkins_url jnlp_secret user_data n)

    pub write_cloud_init_files-Keeps :
        (user_data_b64 node_name jenkins_url jnlp_secret : String)
        → Keeps (write_cloud_init_files os s vm_id user_data_b64 node_name jenkins_url jnlp_secret)
    unfolding write_cloud_init_files
    write_cloud_init_files-Keeps user_data_b64 node_name jenkins_url jnlp_secret n =
        let dir = vm_dir os s vm_id in
        bind-Keeps (decode_user_data os user_data_b64)
          (write_seed os s vm_id node_name jenkins_url jnlp_secret)
          (decode_user_data-Keeps user_data_b64)
          (write_seed-Keeps node_name jenkins_url jnlp_secret) (mkdir dir n)
        ∙ mkdir-Keeps dir n
