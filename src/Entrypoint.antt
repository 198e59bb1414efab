-- ===== src/Entrypoint.antt =====
-- The agent: vmupdate/agent/entrypoint.py, and `get_os_data` of vmupdate/agent/source/utils.py. The
-- reading of os-release and of the command line, the logs and the plugins are left out.
pub mod Codes
pub mod Kinds
pub mod Cli
pub mod Api
use qubes_core_admin_linux.Args.{AgentArgs}
use qubes_core_admin_linux.Exec.{
  pure, ◌>>=◌, Exec, other_error, key_error, ok, value_error, err, ◌>>?◌, Result,
}
use qubes_core_admin_linux.Exit.{err_vm_unhandled, vm_handled}
use qubes_core_admin_linux.Package.{
  upgrade, Backend, vm_agent, Requirements, dom0_agent, is_update_vm, update_vm, AgentType, Changes,
}
use qubes_core_admin_linux.Prelude.{
  split, ◌==◌, Text, contains, lookup, ℕ, max, Bool, true, false, not, ◌&&◌, ◌||◌, String, Option,
  none, some, List, [], ◌∷◌, if◌then◌else◌,
}
use qubes_core_admin_linux.Prelude.Int.{ltb_ℤ, pos, ℤ}

pub data Family : Type 0 where
  unknown_family red_hat debian arch_linux qubes : Family

pub record OsData : Type 0 where
  pub id : String
  pub name : String
  pub release : Option String
  pub codename : Option String
  pub os_family : Family

-- `os_release.get(key, default)`
abbrev pub get_or : String → String → List (String × String) → String
get_or key default os_release = elim (lookup key os_release) [ none ↦ default | some v ↦ v ]

-- The last of the four tests that holds decides.
unfoldable pub family_of : List String → Family
family_of family =
    if contains family "arch"
    then arch_linux
    else if contains family "qubes"
    then qubes
    else if contains family "rhel" || contains family "fedora"
    then red_hat
    else if contains family "debian"
    then debian
    else unknown_family

-- `get_os_data`, by Python's `strip()` and `split()`
unfoldable pub get_os_data :
    (String → String) → (String → List String) → List (String × String) → OsData
get_os_data strip words os_release = record {
  id = strip (get_or "ID" "linux" os_release);
  name = strip (get_or "NAME" "Linux" os_release);
  release = lookup "VERSION_ID" os_release;
  codename = lookup "VERSION_CODENAME" os_release;
  os_family = family_of (get_or "ID" "linux" os_release ∷ words (get_or "ID_LIKE" "" os_release));
}

-- The classes that the agent chooses from.
pub data Kind : Type 0 where
  dnf5_api dnf_api dnf_cli_kind apt_api apt_cli_kind pacman_kind : Kind

abbrev pub is_dnf : Kind → Bool
is_dnf dnf5_api = true
is_dnf dnf_api = true
is_dnf dnf_cli_kind = true
is_dnf _ = false

abbrev pub is_cli : Kind → Bool
is_cli dnf_cli_kind = true
is_cli apt_cli_kind = true
is_cli pacman_kind = true
is_cli _ = false

unfoldable pub agent_type_of : OsData → Bool → AgentType
agent_type_of os download_only =
    if download_only then update_vm else if os.id == "qubes" then dom0_agent else vm_agent

-- By Python's `int`, and by what can be imported.
module _ (int : String → Option ℤ) (imports : Kind → Bool) where
  -- `os_data["release"]`
  abbrev pub release_of : OsData → Result String
  release_of os = elim os.release [ none ↦ err (key_error "release") | some v ↦ ok v ]

  -- The major version of Fedora, where 41 is the first that comes with dnf5.
  abbrev version_of : List String → ℤ
  version_of [] = pos 99
  version_of (major ∷ _) = elim (int major) [ none ↦ pos 99 | some v ↦ v ]

  unfoldable pub rhel_version : OsData → Result ℤ
  rhel_version os = elim os.os_family [
    | red_hat ↦ release_of os >>? λ release. ok (version_of (split 46 release))
    | unknown_family ↦ ok (pos 41)
    | debian ↦ ok (pos 41)
    | arch_linux ↦ ok (pos 41)
    | qubes ↦ ok (pos 41)
  ]

  -- The class of dnf, for a system where dnf5 is tried first or not.
  abbrev pub dnf_kind : Bool → Bool → Kind
  dnf_kind modern no_progress =
      let loaded = modern && imports dnf5_api in
      if no_progress || not (loaded || imports dnf_api)
      then dnf_cli_kind
      else if loaded
      then dnf5_api
      else dnf_api

  -- `import_rhel_package_manager`
  unfoldable pub rhel_kind : OsData → Bool → Result Kind
  rhel_kind os no_progress =
      rhel_version os >>? λ version. ok (dnf_kind (not (ltb_ℤ version (pos 41))) no_progress)

  -- `import_debian_package_manager`
  unfoldable pub debian_kind : Bool → Kind
  debian_kind no_progress = if no_progress || not (imports apt_api) then apt_cli_kind else apt_api

  abbrev modern_dom0 : ℤ → ℤ → Bool
  modern_dom0 major minor =
      not (ltb_ℤ major (pos 5))
      || (not (ltb_ℤ major (pos 4)) && not (ltb_ℤ (pos 4) major) && not (ltb_ℤ minor (pos 3)))

  abbrev to_int : String → Result ℤ
  to_int text = elim (int text) [ none ↦ err value_error | some v ↦ ok v ]

  abbrev dom0_parts : Bool → List String → Result Kind
  dom0_parts no_progress (major ∷ (minor ∷ [])) =
      to_int major >>? λ x. to_int minor >>? λ y. ok (dnf_kind (modern_dom0 x y) no_progress)
  dom0_parts no_progress _ = err value_error

  -- `import_dom0_package_manager`
  unfoldable pub dom0_kind : OsData → Bool → Result Kind
  dom0_kind os no_progress = release_of os >>? λ release. dom0_parts no_progress (split 46 release)

  -- The choice in `get_package_manager`.
  abbrev pub kind_of : OsData → Bool → Family → Result Kind
  kind_of os no_progress red_hat = rhel_kind os no_progress
  kind_of os no_progress debian = ok (debian_kind no_progress)
  kind_of os no_progress arch_linux = ok pacman_kind
  kind_of os no_progress qubes = dom0_kind os no_progress
  kind_of os no_progress unknown_family = err (other_error "NotImplementedError")

  unfoldable pub package_manager_kind : OsData → AgentType → Bool → Result Kind
  package_manager_kind os update_vm no_progress = rhel_kind os no_progress
  package_manager_kind os agent_type no_progress = kind_of os no_progress os.os_family

-- `return_code if return_code in EXIT.VM_HANDLED`
abbrev pub handled_code : ℕ → ℕ
handled_code code = if vm_handled code then code else err_vm_unhandled

-- The notification of dom0, which only an agent in a qube of its own makes.
abbrev pub notified : {S : Type 0} → AgentType → (S → S) → S → S
notified vm_agent notify s = notify s
notified dom0_agent notify s = s
notified update_vm notify s = s

-- What `main` does with the code of the upgrade.
unfoldable pub finish_agent : {S : Type 0} → (S → S) → AgentArgs → Backend S → ℕ → Exec S ℕ
finish_agent notify args b code s =
    let s' = notified b.agent_type notify s in
    if args.no_cleanup
    then (ok (handled_code code), s')
    else (b.clean >>= λ c. pure (handled_code (max c code))) s'

-- `main` after the choice of a package manager. The notification of dom0 is a function on the state
-- of the system; what goes on the standard streams is left out.
unfoldable pub agent_main :
    {S : Type 0} → (Changes → Text) → (S → S) → AgentArgs → Requirements → Backend S → Exec S ℕ
agent_main show notify args requirements b =
    upgrade b show (not args.no_refresh) (not args.force_upgrade) (not args.leave_obsolete)
      requirements
    >>= λ r. finish_agent notify args b r.code

-- `main` with the making of the package manager, which may raise.
unfoldable pub agent_with :
    {S : Type 0}
    → (Changes → Text)
    → (S → S)
    → AgentArgs
    → Requirements
    → Exec S (Backend S)
    → Exec S ℕ
unfolding agent_main
agent_with show notify args requirements make = make >>= agent_main show notify args requirements
