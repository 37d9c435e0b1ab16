-- ===== src/ControlPlane/Tests/Queue.antt =====
-- The theorems on the Jenkins client, at a queue of three items and a Jenkins without crumbs.
use Prim.Native.String.{String}
use jenkins_qemu_provisioner.Prelude.{
  ◌≡◌, ◌↔◌, refl, none, some, List, [], ◌∷◌, Dict, lookup, lookup_or, sum_by, add_count, insert,
}
use jenkins_qemu_provisioner.Json.{Json, str, obj, arr, items, fields}
use jenkins_qemu_provisioner.ControlPlane.World.{Exn, Result, ok, raised, QueueSnapshot}
use jenkins_qemu_provisioner.ControlPlane.Jenkins.Texts.{plain_quotes, search_quoted}
use jenkins_qemu_provisioner.ControlPlane.Jenkins.Queue.{
  snapshot_of, extract_queue_label, extract_waiting_node,
}
use jenkins_qemu_provisioner.ControlPlane.Jenkins.{Request, Response, fetch_crumb, post_with_crumb}
use jenkins_qemu_provisioner.ControlPlane.Jenkins.Laws.{
  of_object, waits_for_label, waits_for_node, snapshot_of_counts,
}
use jenkins_qemu_provisioner.ControlPlane.Jenkins.Crumb.{crumb_request, post_with_crumb_once}

abbrev strip : String → String
strip s = s

abbrev queue : List Json
queue =
    obj (fields (("assignedLabel", obj (fields (("name", str "linux") ∷ []))) ∷ []))
    ∷ obj (fields (("why", str "There are no nodes with the label ‘linux’") ∷ []))
    ∷ obj (fields (("why", str "Waiting for next available executor on ‘ephemeral-1’") ∷ []))
    ∷ []

abbrev body : Dict Json
body = ("items", arr (items queue)) ∷ []

abbrev snapshot : QueueSnapshot
snapshot = record { queued_by_label = ("linux", 2) ∷ []; queued_by_node = ("ephemeral-1", 1) ∷ [] }

body_counted : snapshot_of strip body ≡ ok snapshot
unfolding snapshot_of extract_queue_label extract_waiting_node plain_quotes search_quoted lookup
    lookup_or add_count insert
body_counted = refl

snapshot_of_counts_example :
    (lookup_or "linux" 0 snapshot.queued_by_label
      ≡ sum_by (of_object strip (waits_for_label strip "linux")) queue)
    × (lookup_or "linux" 0 snapshot.queued_by_node
        ≡ sum_by (of_object strip (waits_for_node strip "linux")) queue)
unfolding lookup
snapshot_of_counts_example = snapshot_of_counts strip body queue snapshot "linux" refl body_counted

-- A Jenkins that gives a crumb and answers a request to delete a node.
abbrev send : List Request → Request → Result Response
send past r = elim past [
  | [] ↦ ok (record {
    text = "";
    json =
        some (
          obj (fields (("crumbRequestField", str "Jenkins-Crumb") ∷ ("crumb", str "c0ffee") ∷ [])));
  })
  | _ ∷ _ ↦ ok (record { text = ""; json = none })
]

post_with_crumb_once_example :
    let url : String = "http://jenkins/computer/ephemeral-1/doDelete" in
    let (r, now) = post_with_crumb strip send "http://jenkins" url [] [] in
    let sent : Request = record {
      method = "POST";
      url = url;
      headers = ("Jenkins-Crumb", "c0ffee") ∷ [];
      form = [];
    } in
    let crumb = crumb_request "http://jenkins" in
    (now ≡ sent ∷ crumb ∷ []) × ((e : Exn) → (r ≡ raised e) ↔ (send (crumb ∷ []) sent ≡ raised e))
unfolding fetch_crumb lookup
post_with_crumb_once_example =
    post_with_crumb_once strip send "http://jenkins" "http://jenkins/computer/ephemeral-1/doDelete"
      [] []
