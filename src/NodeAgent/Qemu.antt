-- ===== src/NodeAgent/Qemu.antt =====
-- node_agent/qemu_runtime.py: the files of a machine, its disk overlay, its command line and its
-- process. The ISO image that a tool writes is kept as an empty file, as the fallback writes it.
pub mod Keeps
use jenkins_qemu_provisioner.Prelude.{
  ℕ, String, Bool, true, false, not, ◌||◌, Option, none, some, List, [], ◌∷◌, ◌++◌, concat,
  has_part, truthy, or_none, ◌==◌, nat_eq, string_eq, if◌then◌else◌,
}
use jenkins_qemu_provisioner.NodeAgent.Config.{AgentSettings}
use jenkins_qemu_provisioner.NodeAgent.World.{
  Error, failed, Outcome, ok, raised, answered, process_lookup_error, permission_error, Run,
  completed, process_error, not_run, Node, System, Act, pure, raise, gets, modify, write_file,
  mkdir, ◌>>=◌, ◌>>◌,
}

pub record RuntimePaths : Type 0 where
  pub overlay_path : String
  pub cloud_init_iso : String
  pub serial_log_path : String

module _ (os : System) where
  -- `shutil_which_first`
  abbrev pub shutil_which_first : List String → Option String
  shutil_which_first [] = none
  shutil_which_first (name ∷ names) = elim (or_none (os.which name)) [
    | some path ↦ some path
    | none ↦ shutil_which_first names
  ]

  -- `(stderr or "").strip()`, else the same of `stdout`, else the exception
  abbrev why : String → String → String → String
  why stderr stdout exc =
      if truthy (os.strip stderr)
      then os.strip stderr
      else if truthy (os.strip stdout)
      then os.strip stdout
      else exc

  -- the text before the reason, by what the command came to
  run_failed : String → Run → Act (Unit {0})
  run_failed title completed = pure tt
  run_failed title (process_error stderr stdout exc) =
      raise (failed (concat (title ∷ ": " ∷ why stderr stdout exc ∷ [])))
  run_failed title (not_run text) = raise (failed text)

  -- `subprocess.run(cmd, check=True)`, with its `except` block
  unfoldable pub run_command : String → List String → Act (Unit {0})
  unfolding run_failed
  run_command title cmd = do
    past ← gets (λ n. n.commands)
    modify (λ n. record n { commands = cmd ∷ n.commands })
    run_failed title (os.run past cmd)

  iso_command : String → String → String → String → List String
  iso_command tool iso user_data meta_data =
      tool
      ∷ ((if has_part "xorriso" tool then "-as" ∷ "mkisofs" ∷ [] else [])
          ++ ("-output" ∷ iso ∷ "-volid" ∷ "cidata" ∷ "-joliet" ∷ "-rock" ∷ user_data ∷ meta_data
              ∷ []))

  -- the ISO image, by a tool or as an empty file
  write_iso : Option String → String → String → String → Act (Unit {0})
  unfolding run_command iso_command
  write_iso none iso user_data meta_data = modify (write_file iso "")
  write_iso (some tool) iso user_data meta_data =
      run_command (concat ("cloud-init ISO generation failed with " ∷ tool ∷ []))
        (iso_command tool iso user_data meta_data)
      >> modify (write_file iso "")

  -- `decode_user_data`
  decode_user_data : String → Act String
  decode_user_data encoded n = (os.b64_decode encoded, n)

  module _ (s : AgentSettings) (vm_id : String) where
    abbrev vm_dir : String
    vm_dir = os.join_path s.cloud_init_dir vm_id

    -- `RuntimePaths` of a machine
    abbrev runtime_paths : RuntimePaths
    runtime_paths = record {
      overlay_path = os.join_path s.overlay_dir (concat (vm_id ∷ ".qcow2" ∷ []));
      cloud_init_iso = os.join_path vm_dir "cidata.iso";
      serial_log_path = os.join_path vm_dir "serial.log";
    }

    -- the three texts of the directory of a machine
    write_documents : String → String → String → String → Node → Node
    write_documents node_name jenkins_url jnlp_secret user_data n =
        write_file (os.join_path vm_dir "jenkins-agent.env")
          (concat (
            "JENKINS_URL=" ∷ jenkins_url ∷ "\nJENKINS_NODE_NAME=" ∷ node_name
            ∷ "\nJENKINS_JNLP_SECRET=" ∷ jnlp_secret ∷ "\n" ∷ []))
          (write_file (os.join_path vm_dir "meta-data")
            (concat ("instance-id: " ∷ vm_id ∷ "\nlocal-hostname: " ∷ node_name ∷ "\n" ∷ []))
            (write_file (os.join_path vm_dir "user-data") user_data n))

    -- from the decoded user data on
    write_seed : String → String → String → String → Act RuntimePaths
    unfolding write_documents write_iso
    write_seed node_name jenkins_url jnlp_secret user_data = do
      modify (write_documents node_name jenkins_url jnlp_secret user_data)
      write_iso (shutil_which_first ("xorriso" ∷ "genisoimage" ∷ "mkisofs" ∷ []))
          runtime_paths.cloud_init_iso (os.join_path vm_dir "user-data")
          (os.join_path vm_dir "meta-data")
      pure runtime_paths

    unfoldable pub write_cloud_init_files : String → String → String → String → Act RuntimePaths
    unfolding write_seed decode_user_data
    write_cloud_init_files user_data_b64 node_name jenkins_url jnlp_secret = do
      modify (mkdir vm_dir)
      text ← decode_user_data user_data_b64
      write_seed node_name jenkins_url jnlp_secret text

    network_arguments : List String
    network_arguments =
        if s.network_backend == "bridge"
        then "-netdev"
          ∷ concat ("bridge,id=net0,br=" ∷ s.network_interface ∷ [])
          ∷ "-device"
          ∷ "virtio-net-pci,netdev=net0"
          ∷ []
        else if s.network_backend == "tap"
        then "-netdev"
          ∷ concat ("tap,id=net0,ifname=" ∷ s.network_interface ∷ ",script=no,downscript=no" ∷ [])
          ∷ "-device"
          ∷ "virtio-net-pci,netdev=net0"
          ∷ []
        else "-netdev" ∷ "user,id=net0" ∷ "-device" ∷ "virtio-net-pci,netdev=net0" ∷ []

    -- with the disk interface of the settings, as `ensure_vm` calls it
    unfoldable pub build_qemu_command : RuntimePaths → ℕ → ℕ → List String
    unfolding network_arguments
    build_qemu_command paths vcpu ram_mb =
        let serial =
          if truthy paths.serial_log_path
          then paths.serial_log_path
          else os.join_path (os.join_path s.cloud_init_dir vm_id) "serial.log" in
        (s.qemu_binary
          ∷ "-name"
          ∷ vm_id
          ∷ "-accel"
          ∷ s.qemu_accel
          ∷ "-machine"
          ∷ s.qemu_machine
          ∷ "-cpu"
          ∷ s.qemu_cpu
          ∷ "-smp"
          ∷ os.str_int vcpu
          ∷ "-m"
          ∷ os.str_int ram_mb
          ∷ "-display"
          ∷ "none"
          ∷ "-serial"
          ∷ concat ("file:" ∷ serial ∷ [])
          ∷ "-qmp"
          ∷ concat (
              "unix:"
              ∷ os.join_path s.overlay_dir (concat (vm_id ∷ ".qmp.sock" ∷ []))
              ∷ ",server,nowait"
              ∷ [])
          ∷ "-drive"
          ∷ concat (
              "if=" ∷ s.disk_interface ∷ ",file=" ∷ paths.overlay_path ∷ ",format=qcow2,cache=none"
              ∷ [])
          ∷ "-drive"
          ∷ concat (
              "if=none,id=cidata,file=" ∷ paths.cloud_init_iso
              ∷ ",format=raw,readonly=on,media=cdrom" ∷ [])
          ∷ "-device"
          ∷ "virtio-scsi-pci,id=scsi0"
          ∷ "-device"
          ∷ "scsi-cd,drive=cidata,bus=scsi0.0"
          ∷ [])
        ++ network_arguments

  overlay_with : Option String → String → String → Act (Unit {0})
  unfolding run_command
  overlay_with none base overlay = raise (failed "qemu-img not found in PATH")
  overlay_with (some tool) base overlay =
      modify (mkdir (os.parent overlay))
      >> run_command "qemu-img overlay creation failed"
          (tool ∷ "create" ∷ "-f" ∷ "qcow2" ∷ "-F" ∷ "qcow2" ∷ "-b" ∷ base ∷ overlay ∷ [])
      >> modify (write_file overlay "")

  unfoldable pub create_overlay : String → String → Act (Unit {0})
  unfolding overlay_with
  create_overlay base overlay = overlay_with (shutil_which_first ("qemu-img" ∷ [])) base overlay

  -- The process number, 0 in a dry run.
  unfoldable pub launch_qemu : List String → Bool → Act ℕ
  launch_qemu cmd true n = (ok 0, n)
  launch_qemu cmd false n = (os.popen n.commands cmd, record n { commands = cmd ∷ n.commands })

  -- It does nothing in a dry run or without a process, and raises where the process may not be ended.
  unfoldable pub terminate_pid : ℕ → Bool → Act (Unit {0})
  terminate_pid pid dry_run n =
      if pid == 0 || dry_run then (ok tt, n) else elim (os.kill n.ended pid) [
        | permission_error ↦ (raised (failed "[Errno 1] Operation not permitted"), n)
        | answered ↦ (ok tt, record n { ended = pid ∷ n.ended })
        | process_lookup_error ↦ (ok tt, record n { ended = pid ∷ n.ended })
      ]
