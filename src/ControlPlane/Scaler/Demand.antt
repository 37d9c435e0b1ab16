-- ===== src/ControlPlane/Scaler/Demand.antt =====
-- What a tick of the scaler reads and records: `_throttled_diag_event`, and the parts of `scale_once`
-- of control_plane/services/scaler.py that count leases, map queued nodes to labels and find the
-- image of a label.
use jenkins_qemu_provisioner.Prelude.{
  ℕ, ◌+◌, String, Bool, true, false, Option, none, some, List, [], ◌∷◌, Dict, add_count, lookup,
  insert, concat, ltb, leb, if◌then◌else◌,
}
use jenkins_qemu_provisioner.Json.{Json, num, str}
use jenkins_qemu_provisioner.ControlPlane.Models.{
  Time, seconds, LeaseState, provisioning, booting, connected, running, Lease,
}
use jenkins_qemu_provisioner.ControlPlane.World.{
  Outside, Action, pure, modify, write_event, inc, ◌>>=◌, ◌>>◌,
}
use jenkins_qemu_provisioner.ControlPlane.GuestImages.{LabelPolicy, ResolvedImageSelection, Config}
use jenkins_qemu_provisioner.ControlPlane.GuestImages.Resolution.{
  resolve_label_policy, resolve_image_catalog_entry, resolve_image_selection, selection,
}

-- the states of `active`
unfoldable pub is_active : LeaseState → Bool
is_active provisioning = true
is_active booting = true
is_active connected = true
is_active running = true
is_active _ = false

-- the states that count as in flight
unfoldable pub is_inflight : LeaseState → Bool
is_inflight provisioning = true
is_inflight booting = true
is_inflight connected = true
is_inflight _ = false

unfoldable pub inflight_by_label : List Lease → Dict ℕ → Dict ℕ
inflight_by_label [] counts = counts
inflight_by_label (l ∷ ls) counts =
    inflight_by_label ls (if is_inflight l.state then add_count l.label 1 counts else counts)

unfoldable pub active_by_node : List Lease → Dict Lease → Dict Lease
active_by_node [] found = found
active_by_node (l ∷ ls) found = active_by_node ls (insert l.jenkins_node l found)

module _ (o : Outside) where
  printed : Json → String
  printed (str s) = s
  printed j = o.py_str j

  -- `payload.get('label', '_')`, as the f-string prints it
  diag_label : Dict Json → String
  diag_label payload = elim (lookup "label" payload) [ none ↦ "_" | some j ↦ printed j ]

  is_throttled : Option Time → Time → Bool
  is_throttled none now = false
  is_throttled (some last) now = ltb now (last + seconds 30)

  -- what follows the test of the throttle
  unfoldable pub emit : Bool → String → String → Dict Json → Time → Action Bool
  emit true key event_type payload now = pure false
  emit false key event_type payload now = do
    modify (λ w. record w { diag_throttle = insert key now w.diag_throttle })
    write_event event_type payload none
    pure true

  unfoldable pub throttled_diag_event : String → Dict Json → Time → Action Bool
  unfolding printed diag_label is_throttled emit
  throttled_diag_event event_type payload now w =
      let key = concat (event_type ∷ ":" ∷ diag_label payload ∷ []) in
      emit (is_throttled (lookup key w.diag_throttle) now) key event_type payload now w

  -- the same, for its effect
  unfoldable pub note : String → Dict Json → Time → Action (Unit {0})
  unfolding throttled_diag_event
  note event_type payload now = do emitted ← throttled_diag_event event_type payload now; pure tt

  -- the loop over `snapshot.queued_by_node`
  unfoldable pub map_nodes : Time → Dict Lease → Dict ℕ → Dict ℕ → Action (Dict ℕ)
  unfolding note
  map_nodes now by_node [] queue = pure queue
  map_nodes now by_node ((node_name, queued) ∷ rest) queue = elim (lookup node_name by_node) [
    | none ↦ map_nodes now by_node rest queue
    | some l ↦ if leb queued 0 then map_nodes now by_node rest queue else do
      note "scale.node_wait_mapped"
          (("node", str node_name)
            ∷ ("label", str l.label)
            ∷ ("queued", num queued)
            ∷ ("lease_id", str l.lease_id)
            ∷ [])
          now
      map_nodes now by_node rest (add_count l.label queued queue)
  ]

  module _ (c : Config) (now : Time) where
    -- the image of a label, or its absence with what is recorded of it
    unfoldable pub image_of_policy : String → LabelPolicy → Action (Option ResolvedImageSelection)
    unfolding note
    image_of_policy label p = elim (resolve_image_catalog_entry c p.guest_image) [
      | none ↦ do
        inc "scale_image_catalog_missing_total" 1
        note "scale.image_catalog_missing"
            (("label", str label) ∷ ("guest_image", str p.guest_image) ∷ []) now
        pure none
      | some e ↦
          pure (some (selection p.guest_image p.profile p.required_accel p.required_cpu_arch e))
    ]

    unfoldable pub image_without_policy : String → ℕ → Action (Option ResolvedImageSelection)
    unfolding note
    image_without_policy label queued = elim (resolve_image_selection o c label) [
      | none ↦ do
        inc "scale_label_policy_missing_total" 1
        note "scale.label_policy_missing" (("label", str label) ∷ ("queued", num queued) ∷ []) now
        pure none
      | some image ↦ do
        note "scale.label_policy_compat"
            (("label", str label) ∷ ("guest_image", str image.guest_image) ∷ []) now
        pure (some image)
    ]

    unfoldable pub image_of : String → ℕ → Action (Option ResolvedImageSelection)
    unfolding image_of_policy image_without_policy
    image_of label queued = elim (resolve_label_policy c label) [
      | none ↦ image_without_policy label queued
      | some p ↦ image_of_policy label p
    ]
