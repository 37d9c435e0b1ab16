-- ===== src/NodeAgent/Safety/Orphans/Laws.antt =====
-- What `cleanup_orphan_files_once` of node_agent/safety.py keeps and removes.
use Prim.Native.String.{compare}
use text.Mathlib.Text.{is_lt}
use jenkins_qemu_provisioner.Prelude.{
  ℕ, String, ◌≡◌, refl, ◌∙◌, Bool, true, false, not, ◌&&◌, none, some, List, [], ◌∷◌, map, filter,
  contains, lookup, lookup-without, lookup-filter, or_none, In, sort-In, In-filter, filter-In,
  Bool-cases, inl, inr, arith, eq_iff, nat_eq, string_eq, ◌==◌, if◌then◌else◌, sym, subst, Dict,
  Option-cases,
}
use jenkins_qemu_provisioner.NodeAgent.Config.{AgentSettings}
use jenkins_qemu_provisioner.NodeAgent.State.{Vm, list_vms}
use jenkins_qemu_provisioner.NodeAgent.World.{Node, System, unlink, rmtree}
use jenkins_qemu_provisioner.NodeAgent.Safety.Orphans.{
  known_overlays, is_due, remove_overlays, known_dirs, remove_dirs, overlay_files,
  cleanup_orphan_files_once,
}

module _ (os : System) (s : AgentSettings) (is_overlay is_entry : String → Bool)
    (older_than : String → ℕ → Bool) where
  -- a turn of the loop over the overlays
  abbrev swept : List String → String → Node → Node
  swept known file n =
      if not (contains known file) && is_due os s is_overlay is_entry older_than file
      then unlink file n
      else n

  -- a turn of the loop over the entries
  abbrev cleared : List String → String → Node → Node
  cleared known entry n =
      if not (contains known entry) && is_due os s is_overlay is_entry older_than entry
      then rmtree os entry n
      else n

  lookup-swept :
      (path : String) (known : List String) (file : String) (n : Node)
      → lookup path (swept known file n).files ≡ (
          if path == file
            && (not (contains known file) && is_due os s is_overlay is_entry older_than file)
          then none
          else lookup path n.files)
  lookup-swept path known file n =
      elim (Bool-cases
        (not (contains known file) && is_due os s is_overlay is_entry older_than file)) [
          | inl goes ↦ rw goes (lookup-without path file n.files ∙ ground arith)
          | inr stays ↦ rw stays (ground arith)
        ]

  lookup-cleared :
      (path : String) (known : List String) (entry : String) (n : Node)
      → lookup path (cleared known entry n).files ≡ (
          if os.is_below entry path
            && (not (contains known entry) && is_due os s is_overlay is_entry older_than entry)
          then none
          else lookup path n.files)
  lookup-cleared path known entry n =
      elim (Bool-cases
        (not (contains known entry) && is_due os s is_overlay is_entry older_than entry)) [
          | inl goes ↦
              rw goes (lookup-filter (λ k. not (os.is_below entry k)) path n.files ∙ ground arith)
          | inr stays ↦ rw stays (ground arith)
        ]

  kept_overlay :
      (path : String) (known files : List String) (n : Node)
      → contains known path ≡ true
      → lookup path (remove_overlays os s is_overlay is_entry older_than known files n).files
        ≡ lookup path n.files
  unfolding remove_overlays
  kept_overlay path known [] n h = refl
  kept_overlay path known (file ∷ files) n h =
      kept_overlay path known files (swept known file n) h ∙ lookup-swept path known file n ∙ same
    where
      same :
          (if path == file
              && (not (contains known file) && is_due os s is_overlay is_entry older_than file)
            then none
            else lookup path n.files)
          ≡ lookup path n.files
      same = elim (Bool-cases (path == file)) [
        | inl here ↦
            let known_too : contains known file ≡ true =
              subst (λ x. contains known x ≡ true) ((eq_iff path file).0 here) h in
            rw (here, known_too) refl
        | inr there ↦ rw there refl
      ]

  kept_below :
      (path : String) (known entries : List String) (n : Node)
      → ((d : String) → In d entries → os.is_below d path ≡ false)
      → lookup path (remove_dirs os s is_overlay is_entry older_than known entries n).files
        ≡ lookup path n.files
  unfolding remove_dirs
  kept_below path known [] n h = refl
  kept_below path known (entry ∷ entries) n h =
      kept_below path known entries (cleared known entry n) (λ d m. h d (inr m))
      ∙ lookup-cleared path known entry n
      ∙ rw (h entry (inl refl)) refl

  gone_overlays :
      (path : String) (known files : List String) (n : Node)
      → lookup path n.files ≡ none
      → lookup path (remove_overlays os s is_overlay is_entry older_than known files n).files ≡ none
  unfolding remove_overlays
  gone_overlays path known [] n h = h
  gone_overlays path known (file ∷ files) n h =
      gone_overlays path known files (swept known file n)
        (lookup-swept path known file n ∙ ground arith)

  gone_dirs :
      (path : String) (known entries : List String) (n : Node)
      → lookup path n.files ≡ none
      → lookup path (remove_dirs os s is_overlay is_entry older_than known entries n).files ≡ none
  unfolding remove_dirs
  gone_dirs path known [] n h = h
  gone_dirs path known (entry ∷ entries) n h =
      gone_dirs path known entries (cleared known entry n)
        (lookup-cleared path known entry n ∙ ground arith)

  removed_overlay :
      (path : String) (known files : List String) (n : Node)
      → In path files
      → contains known path ≡ false
      → is_due os s is_overlay is_entry older_than path ≡ true
      → lookup path (remove_overlays os s is_overlay is_entry older_than known files n).files ≡ none
  unfolding remove_overlays
  removed_overlay path known [] n m h due = absurd m
  removed_overlay path known (file ∷ files) n (inr m) h due =
      removed_overlay path known files (swept known file n) m h due
  removed_overlay path known (file ∷ files) n (inl same) h due =
      gone_overlays path known files (swept known file n) (
        lookup-swept path known file n
        ∙ subst
            (λ x.
              (if path == x
                  && (not (contains known x) && is_due os s is_overlay is_entry older_than x)
                then none
                else lookup path n.files)
              ≡ none)
            (sym same) (rw (h, due) (ground (arith, eq_iff path path))))

found-In :
    (path contents : String) (files : Dict String)
    → lookup path files ≡ some contents
    → In path (map (λ f. f.0) files)
unfolding lookup
found-In path contents [] h = ground arith
found-In path contents ((j, v) ∷ files) h = elim (Bool-cases (j == path)) [
  | inl here ↦ inl ((eq_iff j path).0 here)
  | inr there ↦ inr (found-In path contents files (rw there at h))
]

named_overlay :
    (v : Vm) (path : String) (vms : List Vm)
    → In v vms
    → or_none v.overlay_path ≡ some path
    → contains (known_overlays vms) path ≡ true
unfolding known_overlays
named_overlay v path [] m h = absurd m
named_overlay v path (x ∷ vms) (inr m) h =
    let rest = named_overlay v path vms m h in
    elim (Option-cases (or_none x.overlay_path)) [
      | inl missing ↦ rw (missing, known_overlays) rest
      | inr (other, there) ↦ rw (there, known_overlays) (ground arith)
    ]
named_overlay v path (x ∷ vms) (inl same) h =
    let mine : or_none x.overlay_path ≡ some path =
      subst (λ y. or_none y.overlay_path ≡ some path) (sym same) h in
    rw (mine, known_overlays) (ground (arith, eq_iff path path))

module _ (os : System) (s : AgentSettings) (is_overlay is_entry : String → Bool)
    (older_than : String → ℕ → Bool) where
  -- The sweep keeps the disks of the machines. A file that a row of the table names as its overlay is
  -- there after the sweep if it was there before, with its contents, where it does not lie below an
  -- entry of the directory of runtime files.
  pub cleanup_orphan_files_once_keeps :
      (n : Node) (v : Vm) (path : String)
      → In v n.vms
      → or_none v.overlay_path ≡ some path
      → ((d : String) → is_entry d ≡ true → os.is_below d path ≡ false)
      → lookup path (cleanup_orphan_files_once os s is_overlay is_entry older_than n).files
        ≡ lookup path n.files
  unfolding cleanup_orphan_files_once list_vms
  cleanup_orphan_files_once_keeps n v path m h apart =
      let known = known_overlays (list_vms n.vms) in
      let swept_node =
        remove_overlays os s is_overlay is_entry older_than known
          (overlay_files os s is_overlay is_entry older_than n) n in
      kept_below os s is_overlay is_entry older_than path
        (known_dirs os s is_overlay is_entry older_than (list_vms swept_node.vms) swept_node.dirs)
        (filter is_entry swept_node.dirs) swept_node
        (λ d e. apart d ((In-filter is_entry d swept_node.dirs e).1))
      ∙ kept_overlay os s is_overlay is_entry older_than path known
          (overlay_files os s is_overlay is_entry older_than n) n
          (named_overlay v path (list_vms n.vms)
            (sort-In (λ a b. is_lt (compare b.updated_at a.updated_at)) v n.vms m) h)

  -- The sweep leaves no orphan. Where artifacts are not retained, an overlay of the overlay directory
  -- that no row of the table names is not there afterwards.
  pub cleanup_orphan_files_once_removes :
      (n : Node) (path : String)
      → s.debug_artifact_retention_sec ≡ 0
      → is_overlay path ≡ true
      → contains (known_overlays (list_vms n.vms)) path ≡ false
      → lookup path (cleanup_orphan_files_once os s is_overlay is_entry older_than n).files ≡ none
  unfolding cleanup_orphan_files_once
  cleanup_orphan_files_once_removes n path now o unknown =
      let known = known_overlays (list_vms n.vms) in
      let files = overlay_files os s is_overlay is_entry older_than n in
      let swept_node = remove_overlays os s is_overlay is_entry older_than known files n in
      let gone : lookup path swept_node.files ≡ none = elim (Option-cases (lookup path n.files)) [
        | inl missing ↦ gone_overlays os s is_overlay is_entry older_than path known files n missing
        | inr (contents, there) ↦
            removed_overlay os s is_overlay is_entry older_than path known files n
              (filter-In is_overlay path (map (λ f. f.0) n.files)
                (found-In path contents n.files there) o)
              unknown (rw now refl)
      ] in
      gone_dirs os s is_overlay is_entry older_than path
        (known_dirs os s is_overlay is_entry older_than (list_vms swept_node.vms) swept_node.dirs)
        (filter is_entry swept_node.dirs) swept_node gone
