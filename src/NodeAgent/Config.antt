-- ===== src/NodeAgent/Config.antt =====
-- node_agent/config.py: the settings of the agent, and how the platform completes them.
pub mod Laws
use jenkins_qemu_provisioner.Prelude.{
  ℕ, String, Bool, true, false, not, ◌&&◌, ◌||◌, Option, none, some, List, [], ◌∷◌, ◌++◌, contains,
  has_part, truthy, ◌==◌, string_eq, if◌then◌else◌,
}

-- The settings as `get_agent_settings` leaves them: the platform and the accelerator are known.
pub record AgentSettings : Type 0 where
  pub host_id : String
  pub bootstrap_token : String
  pub bind_address : String
  pub advertise_addr : Option String
  pub allocatable_vcpu : Option ℕ
  pub allocatable_ram_mb : Option ℕ
  pub base_image_dir : String
  pub overlay_dir : String
  pub cloud_init_dir : String
  pub os_family : String
  pub os_flavor : String
  pub os_version : String
  pub cpu_arch : String
  pub qemu_binary : String
  pub qemu_accel : String
  pub supported_accels : List String
  pub qemu_machine : String
  pub qemu_cpu : String
  pub network_backend : String
  pub network_interface : String
  pub disk_interface : String
  pub dry_run : Bool
  pub debug_artifact_retention_sec : ℕ

-- What the platform answers, in lower case: `platform.system()`, `release()` and `machine()`, and the
-- output of `qemu -accel help`, if it ran.
pub record Platform : Type 0 where
  pub system : String
  pub release : String
  pub machine : String
  pub accel_help : Option String

abbrev or_unknown : String → String
or_unknown s = if truthy s then s else "unknown"

-- `_detect_os`, without the release and the machine: the family and the flavor
unfoldable pub detect_family : String → String × String
detect_family system =
    if system == "linux"
    then ("linux", "linux")
    else if system == "dragonfly"
    then ("bsd", "dragonflybsd")
    else if system == "freebsd"
    then ("bsd", "freebsd")
    else if system == "openbsd"
    then ("bsd", "openbsd")
    else if system == "netbsd"
    then ("bsd", "netbsd")
    else ("other", or_unknown system)

listed : String → String → List String → List String
listed text accel detected = if has_part accel text then detected ++ accel ∷ [] else detected

-- the loop over the three accelerators
unfoldable pub detect_in : Option String → List String
unfolding listed
detect_in none = []
detect_in (some text) = listed text "tcg" (listed text "nvmm" (listed text "kvm" []))

-- `_detect_supported_accels`
unfoldable pub detect_supported_accels : Option String → List String
unfolding detect_in
detect_supported_accels help =
    let detected = detect_in help in
    if not (contains detected "tcg") then detected ++ "tcg" ∷ [] else detected

-- `_select_accel`
unfoldable pub select_accel : String → String → List String → String
select_accel family flavor supported =
    if family == "linux" && contains supported "kvm"
    then "kvm"
    else if (flavor == "dragonflybsd" || flavor == "freebsd") && contains supported "nvmm"
    then "nvmm"
    else "tcg"

-- The accelerator: the one that is configured, if it is supported.
unfoldable pub resolve_accel : Option String → String → String → List String → String
unfolding select_accel
resolve_accel none family flavor supported = select_accel family flavor supported
resolve_accel (some accel) family flavor supported =
    if not (contains supported accel) then select_accel family flavor supported else accel

-- `validate_platform`, whose errors end the start of the agent
unfoldable pub is_valid_platform : AgentSettings → Bool
is_valid_platform s =
    (s.os_family == "linux" || s.os_family == "bsd" || s.os_family == "other")
    && (not (truthy s.qemu_accel)
        || s.qemu_accel == "kvm"
        || s.qemu_accel == "nvmm"
        || s.qemu_accel == "tcg")
    && (s.network_backend == "user"
        || ((s.network_backend == "bridge" || s.network_backend == "tap")
            && truthy s.network_interface))

-- what `get_agent_settings` makes of the configured settings and the configured accelerator
unfoldable pub completed_settings : Platform → Option String → AgentSettings → AgentSettings
unfolding detect_family
completed_settings p configured base =
    let (family, flavor) = detect_family p.system in
    let supported = detect_supported_accels p.accel_help in
    record base {
      os_family = family;
      os_flavor = flavor;
      os_version = or_unknown p.release;
      cpu_arch = or_unknown p.machine;
      supported_accels = supported;
      qemu_accel = resolve_accel configured family flavor supported;
    }

-- `get_agent_settings`; `none` where `validate_platform` raises.
unfoldable pub get_agent_settings : Platform → Option String → AgentSettings → Option AgentSettings
get_agent_settings p configured base =
    let s = completed_settings p configured base in if is_valid_platform s then some s else none
