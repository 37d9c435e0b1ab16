-- ===== src/NodeAgent/Config/Laws.antt =====
-- The accelerator that node_agent/config.py settles on is one that the host supports.
use jenkins_qemu_provisioner.Prelude.{
  String, ◌≡◌, refl, true, false, ◌||◌, Option, none, some, List, [], ◌∷◌, ◌++◌, contains,
  string_eq, arith, Bool-cases, subst, inl, inr,
}
use jenkins_qemu_provisioner.ControlPlane.World.{Outside}
use jenkins_qemu_provisioner.ControlPlane.Api.Hosts.{accel_refused}
use jenkins_qemu_provisioner.NodeAgent.Config.{
  AgentSettings, Platform, detect_in, detect_supported_accels, select_accel, resolve_accel,
  get_agent_settings, is_valid_platform, completed_settings, detect_family,
}

contains-append :
    (a : String) (xs ys : List String) → contains (xs ++ ys) a ≡ (contains xs a || contains ys a)
contains-append a [] ys = refl
contains-append a (x ∷ xs) ys = ground (arith, contains-append a xs ys)

detected-tcg : (help : Option String) → contains (detect_supported_accels help) "tcg" ≡ true
unfolding detect_supported_accels
detected-tcg help = ground (arith, contains-append "tcg" (detect_in help) ("tcg" ∷ []))

select_accel_supported :
    (family flavor : String) (supported : List String)
    → contains supported "tcg" ≡ true
    → contains supported (select_accel family flavor supported) ≡ true
unfolding select_accel
select_accel_supported family flavor supported h = ground arith

resolve_accel_supported :
    (configured : Option String) (family flavor : String) (supported : List String)
    → contains supported "tcg" ≡ true
    → contains supported (resolve_accel configured family flavor supported) ≡ true
unfolding resolve_accel
resolve_accel_supported none family flavor supported h =
    select_accel_supported family flavor supported h
resolve_accel_supported (some accel) family flavor supported h =
    ground (arith, select_accel_supported family flavor supported h)

completed_supported :
    (p : Platform) (configured : Option String) (base : AgentSettings)
    → let s = completed_settings p configured base in
      contains s.supported_accels s.qemu_accel ≡ true
unfolding completed_settings
completed_supported p configured base =
    let (family, flavor) = detect_family p.system in
    let supported = detect_supported_accels p.accel_help in
    resolve_accel_supported configured family flavor supported (detected-tcg p.accel_help)

-- Settings with which the agent starts select an accelerator that they list as supported, whatever is
-- configured and whatever the platform answers; so the control plane does not refuse its heartbeats
-- for the accelerator.
pub get_agent_settings_supported :
    (o : Outside) (p : Platform) (configured : Option String) (base s : AgentSettings)
    → get_agent_settings p configured base ≡ some s
    → (contains s.supported_accels s.qemu_accel ≡ true)
      × (accel_refused o (some s.qemu_accel) s.supported_accels ≡ false)
unfolding get_agent_settings
get_agent_settings_supported o p configured base s e =
    let t = completed_settings p configured base in
    let same : t ≡ s = elim (Bool-cases (is_valid_platform t)) [
      | inl valid ↦ ground arith
      | inr invalid ↦ ground arith
    ] in
    let h =
      subst (λ x. contains x.supported_accels x.qemu_accel ≡ true) same
        (completed_supported p configured base) in
    (h, accepted s.qemu_accel s.supported_accels h)
  where
    accepted :
        (accel : String) (supported : List String)
        → contains supported accel ≡ true
        → accel_refused o (some accel) supported ≡ false
    accepted accel [] c = refl
    accepted accel (x ∷ supported) c = ground arith
