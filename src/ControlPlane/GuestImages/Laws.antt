-- ===== src/ControlPlane/GuestImages/Laws.antt =====
-- What the catalog and the policies promise about a resolved image.
use jenkins_qemu_provisioner.Prelude.{
  String, ◌≡◌, inl, inr, true, Option, none, some, [], ◌∷◌, Dict, lookup, All, arith, lookup-All,
  Option-cases,
}
use jenkins_qemu_provisioner.Json.{Json, obj, to_dict}
use jenkins_qemu_provisioner.ControlPlane.World.{Outside, ok}
use jenkins_qemu_provisioner.ControlPlane.GuestImages.{
  ImageCatalogEntry, ResolvedImageSelection, Config, LabelPolicy,
}
use jenkins_qemu_provisioner.ControlPlane.GuestImages.Validation.{
  source_fields_valid, catalog_entry, named_entry, load_entries, load_image_catalog,
}
use jenkins_qemu_provisioner.ControlPlane.GuestImages.Resolution.{
  resolve_image_selection, compat_selection, policy_selection,
}

-- A remote image names where it comes from and its digest.
abbrev pub IsSourced : ImageCatalogEntry → Type 0
IsSourced e = source_fields_valid e.source_kind e.source_url e.source_digest ≡ true

abbrev pub AllSourced : Dict ImageCatalogEntry → Type 0
AllSourced = All (λ p. IsSourced p.1)

catalog_entry-IsSourced :
    (d : Dict Json) (e : ImageCatalogEntry) → catalog_entry d ≡ some e → IsSourced e
unfolding catalog_entry
catalog_entry-IsSourced d e h = ground arith

named_entry-IsSourced :
    (k : String) (j : Json) (e : ImageCatalogEntry) → named_entry k j ≡ some e → IsSourced e
unfolding named_entry
named_entry-IsSourced k (obj fs) e h = catalog_entry-IsSourced _ e h
named_entry-IsSourced k _ e h = ground arith

load_entries-AllSourced :
    (raw : Dict Json) (es : Dict ImageCatalogEntry) → load_entries raw ≡ ok es → AllSourced es
unfolding load_entries
load_entries-AllSourced [] [] h = tt
load_entries-AllSourced [] (x ∷ es) h = ground arith
load_entries-AllSourced ((k, j) ∷ raw) [] h = tt
load_entries-AllSourced ((k, j) ∷ raw) ((l, x) ∷ es) h =
    (named_entry-IsSourced k j x (ground arith), load_entries-AllSourced raw es (ground arith))

load_image_catalog-AllSourced :
    (raw : Option Json) (es : Dict ImageCatalogEntry)
    → load_image_catalog raw ≡ ok es
    → AllSourced es
unfolding load_image_catalog
load_image_catalog-AllSourced none [] h = tt
load_image_catalog-AllSourced none (x ∷ es) h = ground arith
load_image_catalog-AllSourced (some (obj raw)) es h = load_entries-AllSourced (to_dict raw) es h
load_image_catalog-AllSourced (some _) es h = ground arith

module _ (c : Config) (sourced : AllSourced c.image_catalog) where
  entry-IsSourced :
      (k : String) (e : ImageCatalogEntry) → lookup k c.image_catalog ≡ some e → IsSourced e
  entry-IsSourced k e = lookup-All IsSourced k e c.image_catalog sourced

  compat_selection_sourced :
      (o : Outside) (label : String) (image : ResolvedImageSelection)
      → compat_selection o c label ≡ some image
      → source_fields_valid image.source_kind image.source_url image.source_digest ≡ true
  unfolding compat_selection
  compat_selection_sourced o label image h =
      elim (Option-cases (lookup "default" c.image_catalog)) [
        | inl missing ↦ ground arith
        | inr (e, found) ↦ ground (arith, entry-IsSourced "default" e found)
      ]

  policy_selection_sourced :
      (p : LabelPolicy) (image : ResolvedImageSelection)
      → policy_selection c p ≡ some image
      → source_fields_valid image.source_kind image.source_url image.source_digest ≡ true
  unfolding policy_selection
  policy_selection_sourced p image h = elim (Option-cases (lookup p.guest_image c.image_catalog)) [
    | inl missing ↦ ground arith
    | inr (e, found) ↦ ground (arith, entry-IsSourced p.guest_image e found)
  ]

-- Whatever the catalog file holds, if it loads then every image resolved for a label that is fetched
-- from a remote cache has a source URL and a digest.
pub resolve_image_selection_sourced :
    (o : Outside) (c : Config) (raw : Option Json) (label : String) (image : ResolvedImageSelection)
    → load_image_catalog raw ≡ ok c.image_catalog
    → resolve_image_selection o c label ≡ some image
    → source_fields_valid image.source_kind image.source_url image.source_digest ≡ true
unfolding resolve_image_selection
resolve_image_selection_sourced o c raw label image loaded h =
    let sourced = load_image_catalog-AllSourced raw c.image_catalog loaded in
    elim (Option-cases (lookup label c.label_policies)) [
      | inl unmapped ↦ compat_selection_sourced c sourced o label image (ground arith)
      | inr (p, mapped) ↦ policy_selection_sourced c sourced p image (ground arith)
    ]
