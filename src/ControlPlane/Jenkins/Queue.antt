-- ===== src/ControlPlane/Jenkins/Queue.antt =====
-- `queue_snapshot` of control_plane/clients/jenkins.py: what the items of Jenkins' queue wait for.
use jenkins_qemu_provisioner.Prelude.{
  String, Option, none, some, List, [], ◌∷◌, Dict, lookup, add_count, truthy, has_part,
  if◌then◌else◌,
}
use jenkins_qemu_provisioner.Json.{Json, str, arr, obj, end, to_list}
use jenkins_qemu_provisioner.ControlPlane.World.{error, Result, ok, raised, QueueSnapshot}
use jenkins_qemu_provisioner.ControlPlane.Jenkins.Texts.{
  dict_of, text_key, plain_quotes, search_quoted,
}

module _ (strip : String → String) where
  -- the stripped group of a match, if it is not empty
  abbrev named : Option String → Option String
  named none = none
  named (some t) = if truthy (strip t) then some (strip t) else none

  -- `assignedLabel` of an item or of a task
  abbrev assigned_label : Dict Json → Option String
  assigned_label d = elim (dict_of (lookup "assignedLabel" d)) [
    | none ↦ none
    | some label ↦ text_key "name" label
  ]

  abbrev task_label : Dict Json → Option String
  task_label item = elim (dict_of (lookup "task" item)) [
    | none ↦ none
    | some task ↦ elim (text_key "labelExpression" task) [
      | some expression ↦ some expression
      | none ↦ assigned_label task
    ]
  ]

  abbrev why_of : Dict Json → Option String
  why_of item = elim (lookup "why" item) [
    | none ↦ none
    | some j ↦ elim j [ str s ↦ some s | _ ↦ none ]
  ]

  -- the label that the reason of an item names
  why_label : Dict Json → Option String
  unfolding plain_quotes search_quoted
  why_label item = elim (why_of item) [
    | none ↦ none
    | some why ↦
        if has_part "label" why then named (search_quoted "label " (plain_quotes why)) else none
  ]

  -- `_extract_queue_label`
  unfoldable pub extract_queue_label : Dict Json → Option String
  unfolding why_label
  extract_queue_label item = elim (assigned_label item) [
    | some name ↦ some name
    | none ↦ elim (task_label item) [ some name ↦ some name | none ↦ why_label item ]
  ]

  -- `_extract_waiting_node`
  unfoldable pub extract_waiting_node : Dict Json → Option String
  unfolding plain_quotes search_quoted
  extract_waiting_node item = elim (why_of item) [
    | none ↦ none
    | some why ↦ named (search_quoted "Waiting for next available executor on " (plain_quotes why))
  ]

  -- a turn of the loop of `queue_snapshot`
  unfoldable pub count_item : Dict Json → QueueSnapshot → QueueSnapshot
  count_item item q = elim (extract_queue_label item) [
    | some label ↦ record q { queued_by_label = add_count label 1 q.queued_by_label }
    | none ↦ elim (extract_waiting_node item) [
      | some node ↦ record q { queued_by_node = add_count node 1 q.queued_by_node }
      | none ↦ q
    ]
  ]

  -- the loop; an item that is not an object raises
  unfoldable pub count_items : List Json → QueueSnapshot → Result QueueSnapshot
  unfolding count_item
  count_items [] q = ok q
  count_items (item ∷ items) q = elim (dict_of (some item)) [
    | none ↦ raised (error "not an object")
    | some d ↦ count_items items (count_item d q)
  ]

  -- what `for item in body.get("items", [])` goes through, if it does not raise at once
  abbrev pub items_of : Option Json → Option (List Json)
  items_of none = some []
  items_of (some (arr xs)) = some (to_list xs)
  items_of (some (obj end)) = some []
  items_of (some (str s)) = if truthy s then none else some []
  items_of (some _) = none

  unfoldable pub snapshot_of : Dict Json → Result QueueSnapshot
  unfolding count_items
  snapshot_of body = elim (items_of (lookup "items" body)) [
    | none ↦ raised (error "not a list of objects")
    | some items ↦ count_items items (record { queued_by_label = []; queued_by_node = [] })
  ]
