-- ===== src/NodeAgent/BaseImages.antt =====
-- node_agent/base_images.py: the base images on the disk of the agent. An agent takes one request for
-- an image at a time, by the lock of the image.
pub mod Keeps
pub mod Laws
use jenkins_qemu_provisioner.Prelude.{
  ℕ, String, Bool, true, false, not, Option, none, some, List, [], ◌∷◌, Dict, lookup, insert,
  concat, truthy, or_none, starts_with, ◌==◌, string_eq, if◌then◌else◌,
}
use jenkins_qemu_provisioner.Json.{Json, null, str, obj, to_dict, fields, optional_str}
use jenkins_qemu_provisioner.ControlPlane.GuestImages.{SourceKind, manual_local, remote_cache}
use jenkins_qemu_provisioner.NodeAgent.Config.{AgentSettings}
use jenkins_qemu_provisioner.NodeAgent.World.{
  Error, file_not_found, failed, Outcome, ok, raised, Node, System, Act, pure, raise, gets, modify,
  finally, write_file, unlink, mkdir, ◌>>=◌, ◌>>◌,
}

-- `BaseImageRequest` of node_agent/schemas.py
pub record BaseImageRequest : Type 0 where
  pub guest_image : String
  pub base_image_id : String
  pub source_kind : SourceKind
  pub source_url : Option String
  pub source_digest : Option String
  pub format : String

abbrev pub kind_text : SourceKind → String
kind_text manual_local = "manual_local"
kind_text remote_cache = "remote_cache"

-- `_normalized_digest`
unfoldable pub normalized_digest : String → String
normalized_digest d = if starts_with d "sha256:" then d else concat ("sha256:" ∷ d ∷ [])

-- `data if isinstance(data, dict) else {}`
dict_of : Option Json → Dict Json
dict_of (some (obj fs)) = to_dict fs
dict_of _ = []

module _ (os : System) where
  -- `str(value)`
  abbrev text_of : Json → String
  text_of (str s) = s
  text_of j = os.py_str j

  -- `_as_optional_str`, of what `dict.get` answers
  unfoldable pub as_optional_str : Option Json → Option String
  as_optional_str none = none
  as_optional_str (some null) = none
  as_optional_str (some j) = or_none (some (os.strip (text_of j)))

  module _ (s : AgentSettings) where
    -- `_image_path`, `_metadata_path`
    abbrev pub image_path : String → String
    image_path id = os.join_path s.base_image_dir (concat (id ∷ ".qcow2" ∷ []))

    abbrev pub metadata_path : String → String
    metadata_path id = os.join_path s.base_image_dir (concat (id ∷ ".json" ∷ []))

    -- `_read_metadata`
    unfoldable pub read_metadata : String → Node → Dict Json
    unfolding dict_of
    read_metadata path n = dict_of (lookup path n.metadata)

    -- the source digest that the metadata of an image gives
    unfoldable pub recorded_digest : String → Node → Option String
    unfolding read_metadata as_optional_str
    recorded_digest id n =
        as_optional_str (lookup "source_digest" (read_metadata (metadata_path id) n))

    abbrev pub metadata_of : BaseImageRequest → Json
    metadata_of b = obj (
        fields (
          ("guest_image", str b.guest_image)
          ∷ ("base_image_id", str b.base_image_id)
          ∷ ("source_kind", str (kind_text b.source_kind))
          ∷ ("source_url", optional_str b.source_url)
          ∷ ("source_digest", optional_str b.source_digest)
          ∷ ("format", str b.format)
          ∷ ("cpu_arch", str s.cpu_arch)
          ∷ []))

    -- `_write_metadata`
    unfoldable pub write_metadata : BaseImageRequest → Node → Node
    write_metadata b n = record n {
      metadata = insert (metadata_path b.base_image_id) (metadata_of b) n.metadata;
    }

    -- `actual_digest == expected_digest`
    abbrev same_digest : Option String → String → Bool
    same_digest none expected = false
    same_digest (some actual) expected = actual == expected

    -- the last tests of `_matches_requested_image`, for the contents of the image
    digest_matches : String → BaseImageRequest → String → Node → Bool
    unfolding recorded_digest normalized_digest
    digest_matches contents b expected n =
        if same_digest (recorded_digest b.base_image_id n) expected
        then true
        else normalized_digest (concat ("sha256:" ∷ os.sha256 contents ∷ []))
          == normalized_digest expected

    -- `_matches_requested_image`. The metadata that it writes where it calculates the digest is what
    -- its caller writes again.
    unfoldable pub matches_requested_image : String → BaseImageRequest → Node → Bool
    unfolding digest_matches
    matches_requested_image contents b n = elim b.source_kind [
      | manual_local ↦ true
      | remote_cache ↦ elim (or_none b.source_digest) [
        | none ↦ true
        | some expected ↦ digest_matches contents b expected n
      ]
    ]

    -- `_download_image`: the contents are written to the temporary file
    download_image : String → String → Act String
    download_image url temp n =
        let n' = record n { downloads = url ∷ n.downloads } in
        elim (os.download n.downloads url) [
          | raised e ↦ (raised e, n')
          | ok contents ↦ (ok contents, write_file temp contents n')
        ]

    -- `_verify_digest`, then `os.replace`
    install : String → String → String → String → Act (Unit {0})
    unfolding normalized_digest
    install path temp expected contents =
        if not (
          normalized_digest (concat ("sha256:" ∷ os.sha256 contents ∷ []))
          == normalized_digest expected)
        then raise (failed "downloaded base image digest mismatch")
        else modify (λ n. write_file path contents (unlink temp n))

    -- the download, from a source with both fields
    fetch : BaseImageRequest → String → String → Act String
    unfolding download_image install write_metadata
    fetch b url expected = do
      let path = image_path b.base_image_id
      let temp = concat (path ∷ ".download" ∷ [])
      modify (mkdir (os.parent path))
      finally (download_image url temp >>= install path temp expected) (unlink temp)
      modify (write_metadata b)
      pure path

    -- the rest of `ensure_base_image` where no image matches
    obtain : BaseImageRequest → Act String
    unfolding fetch
    obtain b = elim b.source_kind [
      | manual_local ↦ raise (
          file_not_found
            (concat ("manual-local base image not found: " ∷ image_path b.base_image_id ∷ [])))
      | remote_cache ↦ elim b.source_url [
        | none ↦ raise (failed "")
        | some url ↦ elim b.source_digest [
          | none ↦ raise (failed "")
          | some expected ↦ fetch b url expected
        ]
      ]
    ]

    -- with the contents of the image that is there, if one is
    present_or_obtain : BaseImageRequest → Option String → Act String
    unfolding obtain matches_requested_image write_metadata
    present_or_obtain b none n = obtain b n
    present_or_obtain b (some contents) n =
        if matches_requested_image contents b n
        then (ok (image_path b.base_image_id), write_metadata b n)
        else obtain b n

    unfoldable pub ensure_base_image : BaseImageRequest → Act String
    unfolding present_or_obtain
    ensure_base_image b =
        if not (b.format == "qcow2")
        then raise (failed (concat ("unsupported base image format: " ∷ b.format ∷ [])))
        else gets (λ n. lookup (image_path b.base_image_id) n.files) >>= present_or_obtain b
