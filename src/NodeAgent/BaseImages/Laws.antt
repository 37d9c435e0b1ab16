-- ===== src/NodeAgent/BaseImages/Laws.antt =====
-- The base images of node_agent/base_images.py have the digest that is asked for.
use Prim.Native.String.{count, ◌++◌}
use text.Mathlib.TextLemmas.{length-append}
use jenkins_qemu_provisioner.Prelude.{
  ap, ◌+◌, String, ◌≡◌, ◌≢◌, refl, true, none, some, [], ◌∷◌, lookup, lookup-insert, lookup-without,
  concat, truthy, or_none, sym, subst, ◌∙◌, ◌⊎◌, arith, eq_iff, string_eq, ◌==◌, Bool-cases,
  Option-cases, inl, inr,
}
use jenkins_qemu_provisioner.ControlPlane.GuestImages.{remote_cache}
use jenkins_qemu_provisioner.NodeAgent.Config.{AgentSettings}
use jenkins_qemu_provisioner.NodeAgent.World.{
  Error, Outcome, ok, raised, Node, System, finally, write_file, unlink, mkdir, ◌>>=◌,
}
use jenkins_qemu_provisioner.NodeAgent.BaseImages.{
  BaseImageRequest, normalized_digest, as_optional_str, dict_of, image_path, metadata_path,
  read_metadata, recorded_digest, write_metadata, metadata_of, digest_matches,
  matches_requested_image, download_image, install, fetch, obtain, present_or_obtain,
  ensure_base_image,
}

Outcome-cases :
    {A : Type 0} (r : Outcome A) → ((a : A) × (r ≡ ok a)) ⊎ ((e : Error) × (r ≡ raised e))
Outcome-cases (ok a) = inl (a, refl)
Outcome-cases (raised e) = inr (e, refl)

-- The temporary file is not the image.
temp_ne : (path : String) → concat (path ∷ ".download" ∷ []) ≢ path
temp_ne path h =
    let added : count (path ++ ".download") ≡ count path + 9 = length-append path ".download" in
    let same : count (path ++ ".download") ≡ count path = ap count h in omega arith

module _ (os : System) (s : AgentSettings) where
  -- The contents have the digest, as both are normalized.
  abbrev pub HasDigest : String → String → Type 0
  HasDigest contents digest =
      normalized_digest (concat ("sha256:" ∷ os.sha256 contents ∷ [])) ≡ normalized_digest digest

  -- Where the metadata of an image records a digest, the contents of the image have it.
  abbrev pub IsVerified : String → Node → Type 0
  IsVerified id n =
      (digest contents : String)
      → recorded_digest os s id n ≡ some digest
      → lookup (image_path os s id) n.files ≡ some contents
      → HasDigest contents digest

  -- The image of a request is there, has its digest, and is recorded with it.
  abbrev pub Holds : BaseImageRequest → String → Node → Type 0
  Holds b digest n =
      (contents : String) × (lookup (image_path os s b.base_image_id) n.files ≡ some contents)
      × HasDigest contents digest
      × (recorded_digest os s b.base_image_id n ≡ some digest)

  module _ (b : BaseImageRequest) (digest : String) (given : b.source_digest ≡ some digest)
      (not_empty : truthy digest ≡ true) (stripped : os.strip digest ≡ digest) where
    recorded :
        (n : Node) → recorded_digest os s b.base_image_id (write_metadata os s b n) ≡ some digest
    unfolding recorded_digest read_metadata dict_of as_optional_str write_metadata lookup
    recorded n =
        let path = metadata_path os s b.base_image_id in
        ground (arith, lookup-insert path path (metadata_of os s b) n.metadata, eq_iff path path)

    installed :
        (path temp expected contents : String) (n n' : Node)
        → temp ≢ path
        → install os s path temp expected contents n ≡ (ok tt, n')
        → (lookup path n'.files ≡ some contents) × HasDigest contents expected
    unfolding install
    installed path temp expected contents n n' ne e = ground (
      arith,
      lookup-insert path path contents (unlink temp n).files,
      eq_iff path path,
      eq_iff (normalized_digest (concat ("sha256:" ∷ os.sha256 contents ∷ [])))
          (normalized_digest expected),
    )

    kept :
        (n : Node) (contents path : String)
        → lookup path n.files ≡ some contents
        → lookup path (write_metadata os s b n).files ≡ some contents
    unfolding write_metadata
    kept n contents path h = h

    temp_path : String
    temp_path = concat (image_path os s b.base_image_id ∷ ".download" ∷ [])

    -- the download and the check, on the world with the directory
    fetch_in : String → String → Node → Outcome (Unit {0}) × Node
    fetch_in url expected =
        finally
          (download_image os s url temp_path
            >>= install os s (image_path os s b.base_image_id) temp_path expected)
          (unlink temp_path)

    fetched_in :
        (url expected : String) (n n' : Node)
        → fetch_in url expected n ≡ (ok tt, n')
        → (contents : String) × (lookup (image_path os s b.base_image_id) n'.files ≡ some contents)
          × HasDigest contents expected
    unfolding fetch_in download_image temp_path install
    fetched_in url expected n n' e = elim (Outcome-cases (os.download n.downloads url)) [
      | inr (x, down) ↦ absurd (refused x down)
      | inl (contents, down) ↦
          let image = image_path os s b.base_image_id in
          let temp = concat (image ∷ ".download" ∷ []) in
          let downloaded = write_file temp contents n in
          let moved = unlink temp downloaded in
          let written = write_file image contents moved in
          let a = lookup-without image temp written.files in
          let c = lookup-insert image image contents moved.files in
          let d = eq_iff image image in
          let f = eq_iff image temp in
          let g = temp_ne image in
          let same =
            eq_iff (normalized_digest (concat ("sha256:" ∷ os.sha256 contents ∷ [])))
              (normalized_digest expected) in
          (contents, ground arith, ground arith)
    ]
      where
        refused : (x : Error) → os.download n.downloads url ≡ raised x → ⊥
        refused x down = ground arith

    fetched :
        (url : String) (n n' : Node) (path : String)
        → fetch os s b url digest n ≡ (ok path, n')
        → Holds b digest n'
    unfolding fetch fetch_in temp_path
    fetched url n n' path e =
        let m = mkdir (os.parent (image_path os s b.base_image_id)) n in
        let got = fetch_in url digest m in
        elim (Outcome-cases got.0) [
          | inr (x, down) ↦ absurd (refused x down)
          | inl (u, up) ↦
              let last : n' ≡ write_metadata os s b got.1 = ground arith in
              let (contents, there, same) = fetched_in url digest m got.1 (ground arith) in
              subst (Holds b digest) (sym last) (
                contents,
                kept got.1 contents (image_path os s b.base_image_id) there,
                same,
                recorded got.1,
              )
        ]
      where
        refused :
            (x : Error)
            → (fetch_in url digest (mkdir (os.parent (image_path os s b.base_image_id)) n)).0
              ≡ raised x
            → ⊥
        refused x down = ground arith

    asked : or_none b.source_digest ≡ some digest
    asked = ground arith

    matches_digest :
        (contents : String) (n : Node)
        → b.source_kind ≡ remote_cache
        → matches_requested_image os s contents b n ≡ digest_matches os s contents b digest n
    unfolding matches_requested_image
    matches_digest contents n remote =
        rw (remote, matches_requested_image) (rw (asked, matches_requested_image) refl)

    digest_cases :
        (contents : String) (n : Node)
        → digest_matches os s contents b digest n ≡ true
        → (recorded_digest os s b.base_image_id n ≡ some digest) ⊎ HasDigest contents digest
    unfolding digest_matches
    digest_cases contents n h = elim (Option-cases (recorded_digest os s b.base_image_id n)) [
      | inl none_recorded ↦ inr (
          ground (
            arith,
            eq_iff (normalized_digest (concat ("sha256:" ∷ os.sha256 contents ∷ [])))
                (normalized_digest digest),
          ))
      | inr (d, found) ↦ elim (Bool-cases (d == digest)) [
        | inl same ↦ inl (ground (arith, eq_iff d digest))
        | inr differs ↦ inr (
            ground (
              arith,
              eq_iff (normalized_digest (concat ("sha256:" ∷ os.sha256 contents ∷ [])))
                  (normalized_digest digest),
            ))
      ]
    ]

    matched :
        (contents : String) (n : Node)
        → b.source_kind ≡ remote_cache
        → IsVerified b.base_image_id n
        → lookup (image_path os s b.base_image_id) n.files ≡ some contents
        → matches_requested_image os s contents b n ≡ true
        → HasDigest contents digest
    matched contents n remote verified there h =
        elim (digest_cases contents n (sym (matches_digest contents n remote) ∙ h)) [
          | inl recorded_so ↦ verified digest contents recorded_so there
          | inr same ↦ same
        ]

    obtained :
        (n n' : Node) (path : String)
        → b.source_kind ≡ remote_cache
        → obtain os s b n ≡ (ok path, n')
        → Holds b digest n'
    unfolding obtain
    obtained n n' path remote e = elim (Option-cases b.source_url) [
      | inl no_url ↦ absurd (refused no_url)
      | inr (url, has_url) ↦ fetched url n n' path (by_url url has_url)
    ]
      where
        refused : b.source_url ≡ none → ⊥
        refused no_url = ground arith

        by_url :
            (url : String) → b.source_url ≡ some url → fetch os s b url digest n ≡ (ok path, n')
        by_url url has_url = ground arith

    absent-Holds :
        (n n' : Node) (path : String)
        → b.source_kind ≡ remote_cache
        → present_or_obtain os s b none n ≡ (ok path, n')
        → Holds b digest n'
    unfolding present_or_obtain
    absent-Holds n n' path remote e = obtained n n' path remote e

    present-Holds :
        (contents : String) (n n' : Node) (path : String)
        → b.source_kind ≡ remote_cache
        → IsVerified b.base_image_id n
        → lookup (image_path os s b.base_image_id) n.files ≡ some contents
        → present_or_obtain os s b (some contents) n ≡ (ok path, n')
        → Holds b digest n'
    unfolding present_or_obtain
    present-Holds contents n n' path remote verified there e =
        elim (Bool-cases (matches_requested_image os s contents b n)) [
          | inl fits ↦
              let last : n' ≡ write_metadata os s b n = ground arith in
              subst (Holds b digest) (sym last) (
                contents,
                kept n contents (image_path os s b.base_image_id) there,
                matched contents n remote verified there fits,
                recorded n,
              )
          | inr differs ↦ obtained n n' path remote (ground arith)
        ]

    Holds-IsVerified : (n : Node) → Holds b digest n → IsVerified b.base_image_id n
    Holds-IsVerified n (contents, there, same, listed) digest' contents' listed' there' =
        let d : digest ≡ digest' = ground arith in
        let c : contents ≡ contents' = ground arith in
        subst (λ x. HasDigest x digest') c (subst (HasDigest contents) d same)

    ensured-Holds :
        (n n' : Node) (path : String)
        → b.source_kind ≡ remote_cache
        → IsVerified b.base_image_id n
        → ensure_base_image os s b n ≡ (ok path, n')
        → Holds b digest n'
    unfolding ensure_base_image
    ensured-Holds n n' path remote verified e =
        elim (Option-cases (lookup (image_path os s b.base_image_id) n.files)) [
          | inl missing ↦ absent-Holds n n' path remote (ground arith)
          | inr (contents, there) ↦
              present-Holds contents n n' path remote verified there (ground arith)
        ]

    -- A base image that is fetched from a remote cache is what was asked for. Where the digest of the
    -- request is not empty and has no surrounding spaces, and the metadata of the image does not record
    -- a digest that its contents do not have, an answer of `ensure_base_image` means that the image is
    -- on the disk, that its contents have the digest, and that the metadata records it; so the metadata
    -- still records no digest that the contents do not have.
    pub ensure_base_image-Holds :
        (n n' : Node) (path : String)
        → b.source_kind ≡ remote_cache
        → IsVerified b.base_image_id n
        → ensure_base_image os s b n ≡ (ok path, n')
        → Holds b digest n' × IsVerified b.base_image_id n'
    ensure_base_image-Holds n n' path remote verified e =
        let h = ensured-Holds n n' path remote verified e in (h, Holds-IsVerified n' h)
