-- ===== src/NodeAgent/Safety/Orphans.antt =====
-- `cleanup_orphan_files_once` of node_agent/safety.py. What the file system lists, the overlays of the
-- overlay directory and the entries of the directory of runtime files, and how old a file is, are
-- parameters.
pub mod Laws
use Prim.Native.String.{compare}
use text.Mathlib.Text.{is_lt}
use jenkins_qemu_provisioner.Prelude.{
  ℕ, String, ◌≡◌, refl, ◌∙◌, Bool, true, false, not, ◌||◌, ◌&&◌, Option, none, some, List, [], ◌∷◌,
  map, filter, contains, lookup, lookup-without, lookup-filter, or_none, In, sort-In, In-filter,
  filter-In, Bool-cases, inl, inr, ◌⊎◌, arith, eq_iff, nat_eq, string_eq, ◌==◌, if◌then◌else◌, sym,
  subst, Dict, Option-cases,
}
use jenkins_qemu_provisioner.NodeAgent.Config.{AgentSettings}
use jenkins_qemu_provisioner.NodeAgent.State.{Vm, list_vms}
use jenkins_qemu_provisioner.NodeAgent.World.{Node, System, unlink, rmtree}
use jenkins_qemu_provisioner.NodeAgent.Safety.{runtime_dir_path}

-- the overlays of the rows that name one
unfoldable pub known_overlays : List Vm → List String
known_overlays [] = []
known_overlays (v ∷ vms) =
    let rest = known_overlays vms in
    elim (or_none v.overlay_path) [ none ↦ rest | some path ↦ path ∷ rest ]

module _ (os : System) (s : AgentSettings) (is_overlay is_entry : String → Bool)
    (older_than : String → ℕ → Bool) where
  -- `retention <= 0 or _older_than(file, now, retention)`
  abbrev is_due : String → Bool
  is_due path =
      s.debug_artifact_retention_sec == 0 || older_than path s.debug_artifact_retention_sec

  -- the loop over the overlays
  remove_overlays : List String → List String → Node → Node
  remove_overlays known [] n = n
  remove_overlays known (file ∷ files) n =
      remove_overlays known files
        (if not (contains known file) && is_due file then unlink file n else n)

  -- the runtime directories of the rows that are there
  known_dirs : List Vm → List String → List String
  known_dirs [] dirs = []
  known_dirs (v ∷ vms) dirs =
      let rest = known_dirs vms dirs in
      elim (runtime_dir_path os s v) [
        | none ↦ rest
        | some d ↦ if contains dirs d then d ∷ rest else rest
      ]

  -- the loop over the entries
  remove_dirs : List String → List String → Node → Node
  remove_dirs known [] n = n
  remove_dirs known (entry ∷ entries) n =
      remove_dirs known entries
        (if not (contains known entry) && is_due entry then rmtree os entry n else n)

  -- the files of the overlay directory that are there
  abbrev overlay_files : Node → List String
  overlay_files n = filter is_overlay (map (λ f. f.0) n.files)

  unfoldable pub cleanup_orphan_files_once : Node → Node
  unfolding known_overlays remove_overlays known_dirs remove_dirs
  cleanup_orphan_files_once n =
      let swept = remove_overlays (known_overlays (list_vms n.vms)) (overlay_files n) n in
      remove_dirs (known_dirs (list_vms swept.vms) swept.dirs) (filter is_entry swept.dirs) swept
