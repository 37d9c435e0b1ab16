-- ===== src/ControlPlane/Jenkins/Laws.antt =====
-- What `queue_snapshot` of control_plane/clients/jenkins.py counts.
use jenkins_qemu_provisioner.Prelude.{
  ℕ, ◌+◌, String, ◌≡◌, refl, subst, ap, Option, none, some, List, [], ◌∷◌, Dict, lookup, lookup_or,
  lookup_or-add_count, sum_by, Option-cases, inl, inr, arith, eq_iff, nat_eq, string_eq, ◌==◌,
  if◌then◌else◌,
}
use jenkins_qemu_provisioner.Json.{Json, items, arr, to_list, to_list-items}
use jenkins_qemu_provisioner.ControlPlane.World.{ok, QueueSnapshot}
use jenkins_qemu_provisioner.ControlPlane.Jenkins.Texts.{dict_of}
use jenkins_qemu_provisioner.ControlPlane.Jenkins.Queue.{
  extract_queue_label, extract_waiting_node, count_item, count_items, snapshot_of,
}

module _ (strip : String → String) where
  abbrev is_text : String → Option String → ℕ
  is_text wanted none = 0
  is_text wanted (some t) = if t == wanted then 1 else 0

  -- 1 for an item that waits for the label, else 0.
  abbrev pub waits_for_label : String → Dict Json → ℕ
  waits_for_label label item = is_text label (extract_queue_label strip item)

  -- 1 for an item that waits for no label but for the node, else 0.
  abbrev pub waits_for_node : String → Dict Json → ℕ
  waits_for_node node item = elim (extract_queue_label strip item) [
    | some label ↦ 0
    | none ↦ is_text node (extract_waiting_node strip item)
  ]

  -- the items that are objects, as they are counted
  abbrev if_object : (Dict Json → ℕ) → Option (Dict Json) → ℕ
  if_object f none = 0
  if_object f (some d) = f d

  abbrev pub of_object : (Dict Json → ℕ) → Json → ℕ
  of_object f item = if_object f (dict_of (some item))

  counted_label :
      (item : Dict Json) (q : QueueSnapshot) (label : String)
      → lookup_or label 0 (count_item strip item q).queued_by_label
        ≡ lookup_or label 0 q.queued_by_label + waits_for_label label item
  unfolding count_item
  counted_label item q label = elim (Option-cases (extract_queue_label strip item)) [
    | inr (t, e) ↦
        let a = lookup_or-add_count t label 1 q.queued_by_label in ground (arith, eq_iff t label)
    | inl e ↦ elim (Option-cases (extract_waiting_node strip item)) [
      | inr (t, f) ↦ ground arith
      | inl f ↦ ground arith
    ]
  ]

  counted_node :
      (item : Dict Json) (q : QueueSnapshot) (node : String)
      → lookup_or node 0 (count_item strip item q).queued_by_node
        ≡ lookup_or node 0 q.queued_by_node + waits_for_node node item
  unfolding count_item
  counted_node item q node = elim (Option-cases (extract_queue_label strip item)) [
    | inr (t, e) ↦ ground arith
    | inl e ↦ elim (Option-cases (extract_waiting_node strip item)) [
      | inr (t, f) ↦
          let a = lookup_or-add_count t node 1 q.queued_by_node in ground (arith, eq_iff t node)
      | inl f ↦ ground arith
    ]
  ]

  counted :
      (xs : List Json) (q q' : QueueSnapshot) (name : String)
      → count_items strip xs q ≡ ok q'
      → (lookup_or name 0 q'.queued_by_label
          ≡ lookup_or name 0 q.queued_by_label + sum_by (of_object (waits_for_label name)) xs)
        × (lookup_or name 0 q'.queued_by_node
            ≡ lookup_or name 0 q.queued_by_node + sum_by (of_object (waits_for_node name)) xs)
  unfolding count_items
  counted [] q q' name e =
      let same : q ≡ q' = ground arith in
      subst
        (λ x.
          (lookup_or name 0 x.queued_by_label ≡ lookup_or name 0 q.queued_by_label + 0)
          × (lookup_or name 0 x.queued_by_node ≡ lookup_or name 0 q.queued_by_node + 0))
        same (omega arith, omega arith)
  counted (x ∷ xs) q q' name e = elim (Option-cases (dict_of (some x))) [
    | inl bad ↦ ground arith
    | inr (d, object) ↦
        let (l, n) = counted xs (count_item strip d q) q' name (stepped d object) in
        let a = counted_label d q name in
        let b = counted_node d q name in
        (
          omega (arith, l, a, ap (if_object (waits_for_label name)) object),
          omega (arith, n, b, ap (if_object (waits_for_node name)) object),
        )
  ]
    where
      stepped :
          (d : Dict Json)
          → dict_of (some x) ≡ some d
          → count_items strip xs (count_item strip d q) ≡ ok q'
      stepped d object = ground arith

  empty_lem : (name : String) → ◌≡◌ {A = ℕ} (lookup_or name 0 []) 0
  unfolding lookup_or lookup
  empty_lem name = refl

  -- The snapshot counts each item of the queue once. Where `queue_snapshot` makes a snapshot of a list
  -- of items, its number for a label is the number of items that wait for the label, and its number for
  -- a node is the number of items that wait for no label but for the node.
  pub snapshot_of_counts :
      (body : Dict Json) (xs : List Json) (q : QueueSnapshot) (name : String)
      → lookup "items" body ≡ some (arr (items xs))
      → snapshot_of strip body ≡ ok q
      → (lookup_or name 0 q.queued_by_label ≡ sum_by (of_object (waits_for_label name)) xs)
        × (lookup_or name 0 q.queued_by_node ≡ sum_by (of_object (waits_for_node name)) xs)
  unfolding snapshot_of
  snapshot_of_counts body xs q name e h =
      let q0 : QueueSnapshot = record { queued_by_label = []; queued_by_node = [] } in
      let from : count_items strip (to_list (items xs)) q0 ≡ ok q = rw (e, snapshot_of) at h in
      let counts : count_items strip xs q0 ≡ ok q =
        subst (λ x. count_items strip x q0 ≡ ok q) (to_list-items xs) from in
      let (l, n) = counted xs q0 q name counts in
      (omega (arith, l, empty_lem name), omega (arith, n, empty_lem name))
