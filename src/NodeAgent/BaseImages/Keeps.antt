-- ===== src/NodeAgent/BaseImages/Keeps.antt =====
-- `ensure_base_image` of node_agent/base_images.py does not touch the table of machines.
use jenkins_qemu_provisioner.Prelude.{
  String, ◌∙◌, refl, Option, none, some, Option-cases, inl, inr, concat, ◌∷◌, [], lookup, arith,
}
use jenkins_qemu_provisioner.NodeAgent.Config.{AgentSettings}
use jenkins_qemu_provisioner.NodeAgent.World.{
  System, Act, modify, mkdir, unlink, finally, pure, ◌>>=◌, ◌>>◌,
}
use jenkins_qemu_provisioner.NodeAgent.World.Hoare.{Keeps, bind-Keeps}
use jenkins_qemu_provisioner.NodeAgent.BaseImages.{
  BaseImageRequest, image_path, download_image, install, fetch, obtain, present_or_obtain,
  write_metadata, ensure_base_image,
}

module _ (os : System) (s : AgentSettings) where
  download_image-Keeps : (url temp : String) → Keeps (download_image os s url temp)
  unfolding download_image
  download_image-Keeps url temp n = ground arith

  install-Keeps :
      (path temp expected contents : String) → Keeps (install os s path temp expected contents)
  unfolding install
  install-Keeps path temp expected contents n = ground arith

  finish-Keeps :
      (b : BaseImageRequest)
      → Keeps (modify (write_metadata os s b) >> pure (image_path os s b.base_image_id))
  unfolding write_metadata
  finish-Keeps b n = refl

  fetch-Keeps : (b : BaseImageRequest) (url expected : String) → Keeps (fetch os s b url expected)
  unfolding fetch
  fetch-Keeps b url expected n =
      let path = image_path os s b.base_image_id in
      let temp = concat (path ∷ ".download" ∷ []) in
      let fetched : Act (Unit {0}) =
        download_image os s url temp >>= install os s path temp expected in
      bind-Keeps (finally fetched (unlink temp)) (λ _. modify (write_metadata os s b) >> pure path)
        (λ k.
          bind-Keeps (download_image os s url temp) (install os s path temp expected)
            (download_image-Keeps url temp) (install-Keeps path temp expected) k)
        (λ _. finish-Keeps b) (mkdir (os.parent path) n)
      ∙ mkdir-Keeps (os.parent path) n
    where
      mkdir-Keeps : (path : String) → Keeps (modify (mkdir path))
      mkdir-Keeps path k = ground arith

  obtain-Keeps : (b : BaseImageRequest) → Keeps (obtain os s b)
  unfolding obtain
  obtain-Keeps b n = elim (Option-cases b.source_url) [
    | inl none_there ↦ ground arith
    | inr (url, has_url) ↦ elim (Option-cases b.source_digest) [
      | inl none_there ↦ ground arith
      | inr (expected, has_digest) ↦ let h = fetch-Keeps b url expected n in ground arith
    ]
  ]

  present-Keeps :
      (b : BaseImageRequest) (found : Option String) → Keeps (present_or_obtain os s b found)
  unfolding present_or_obtain write_metadata
  present-Keeps b none n = obtain-Keeps b n
  present-Keeps b (some contents) n =
      let h = obtain-Keeps b n in let k = finish-Keeps b n in ground arith

  pub ensure_base_image-Keeps : (b : BaseImageRequest) → Keeps (ensure_base_image os s b)
  unfolding ensure_base_image
  ensure_base_image-Keeps b n =
      let h = present-Keeps b (lookup (image_path os s b.base_image_id) n.files) n in ground arith
