-- ===== src/ControlPlane/Tests/Texts.antt =====
-- The theorems on labels, quoted values and the image catalog, at small texts.
use jenkins_qemu_provisioner.Prelude.{
  ◌≡◌, refl, true, some, [], ◌∷◌, All, string_eq, insert, lookup,
}
use jenkins_qemu_provisioner.Json.{Json, str, obj, fields}
use jenkins_qemu_provisioner.ControlPlane.GuestImages.{remote_cache}
use jenkins_qemu_provisioner.ControlPlane.GuestImages.Validation.{
  source_fields_valid, load_image_catalog, catalog_entry, entry_fields,
}
use jenkins_qemu_provisioner.ControlPlane.GuestImages.Resolution.{resolve_image_selection}
use jenkins_qemu_provisioner.ControlPlane.GuestImages.Laws.{resolve_image_selection_sourced}
use jenkins_qemu_provisioner.ControlPlane.Provisioning.Labels.{
  words, IsLabel, HasWordCodes, Distinct, words_clean,
}
use jenkins_qemu_provisioner.ControlPlane.Provisioning.Quoting.{
  outside, read_word, shell_single_quote, read_word-shell_single_quote,
}
use jenkins_qemu_provisioner.ControlPlane.Tests.{services, config, image}

words_clean_example :
    let found = words "linux && kvm || linux" in
    All IsLabel found × All HasWordCodes found × Distinct found
words_clean_example = words_clean "linux && kvm || linux"

read_word-shell_single_quote_example : read_word outside (shell_single_quote "it's") ≡ some "it's"
read_word-shell_single_quote_example = read_word-shell_single_quote "it's"

abbrev catalog : Json
catalog = obj (
    fields (
      (
        "debian",
        obj (
            fields (
              ("guest_image", str "debian")
              ∷ ("base_image_id", str "debian-12")
              ∷ ("os_family", str "linux")
              ∷ ("os_flavor", str "debian")
              ∷ ("os_version", str "12")
              ∷ ("cpu_arch", str "x86_64")
              ∷ ("source_kind", str "remote_cache")
              ∷ ("source_url", str "http://images/debian-12")
              ∷ ("source_digest", str "sha256:00")
              ∷ ("format", str "qcow2")
              ∷ ("cache_policy", str "prefer_warm")
              ∷ [])),
      )
      ∷ []))

resolve_image_selection_sourced_example :
    source_fields_valid remote_cache (some "http://images/debian-12") (some "sha256:00") ≡ true
unfolding load_image_catalog resolve_image_selection lookup catalog_entry entry_fields insert
resolve_image_selection_sourced_example =
    resolve_image_selection_sourced services config (some catalog) "linux" image refl refl
