-- ===== src/Package.antt =====
-- vmupdate/agent/source/common/package_manager.py: `PackageManager`. The methods that a subclass
-- defines are the record `Backend`; what the class prints and logs is left out.
pub mod Codes
pub mod Compare
pub mod Cli
pub mod Api
use qubes_core_admin_linux.Exec.{pure, ◌>>=◌, Exec}
use qubes_core_admin_linux.Exit.{err_vm_pre, err_vm_refresh, err_vm_update, ok_no_updates, exit_ok}
use qubes_core_admin_linux.Prelude.{
  is_nil, ltb, Text, has_key, lookup, nat_eq, ℕ, Bool, true, false, not, ◌&&◌, ◌||◌, String, none,
  some, List, [], ◌∷◌, ◌++◌, if◌then◌else◌,
}
use qubes_core_admin_linux.Process.{process_result, realtime_result, ◌+=◌, failed, ProcessResult}

pub data AgentType : Type 0 where
  vm_agent dom0_agent update_vm : AgentType

abbrev pub is_update_vm : AgentType → Bool
is_update_vm update_vm = true
is_update_vm _ = false

-- Package names with their installed versions, and the minimal versions of requirements.
abbrev pub Packages : Type 0
Packages = List (String × List Text)

abbrev pub Requirements : Type 0
Requirements = List (String × Text)

-- `a < b` of two texts
unfoldable pub text_lt : Text → Text → Bool
text_lt a [] = false
text_lt [] (y ∷ b) = true
text_lt (x ∷ a) (y ∷ b) = let rest = text_lt a b in ltb x y || nat_eq x y && rest

-- What a subclass adds to the class, over the state of the system that it runs on.
pub record Backend (S : Type 0) : Type 0 where
  pub agent_type : AgentType
  pub package_manager : String
  pub progress_reporting : Bool
  pub run_cmd : List String → Bool → Exec S ProcessResult
  pub get_packages : Exec S Packages
  pub refresh : Bool → Exec S ProcessResult
  pub get_action : Bool → List String
  pub upgrade_internal : Bool → Exec S ProcessResult
  pub clean : Exec S ℕ

-- Whether no installed version is above the required one.
unfoldable pub outdated : Text → List Text → Bool
outdated version [] = true
outdated version (ver ∷ vers) =
    let rest = outdated version vers in if text_lt version ver then false else rest

-- `to_install` and the keys of `to_upgrade`, in the order of the requirements.
unfoldable pub missing : Requirements → Packages → List String
missing [] curr = []
missing ((pkg, version) ∷ rs) curr =
    let rest = missing rs curr in if has_key pkg curr then rest else pkg ∷ rest

unfoldable pub too_old : Requirements → Packages → List String
too_old [] curr = []
too_old ((pkg, version) ∷ rs) curr =
    let rest = too_old rs curr in
    elim (lookup pkg curr) [
      | none ↦ rest
      | some vers ↦ if outdated version vers then pkg ∷ rest else rest
    ]

pub record Changes : Type 0 where
  pub installed : Packages
  pub updated : List (String × (List Text × List Text))
  pub removed : Packages

abbrev texts_eq : Text → Text → Bool
texts_eq [] [] = true
texts_eq (x ∷ a) (y ∷ b) = let rest = texts_eq a b in nat_eq x y && rest
texts_eq _ _ = false

abbrev pub versions_eq : List Text → List Text → Bool
versions_eq [] [] = true
versions_eq (x ∷ a) (y ∷ b) = let rest = versions_eq a b in texts_eq x y && rest
versions_eq _ _ = false

-- The entries of one dict whose keys another has not.
unfoldable pub not_in : Packages → Packages → Packages
not_in other [] = []
not_in other ((pkg, vers) ∷ d) =
    let rest = not_in other d in if has_key pkg other then rest else (pkg, vers) ∷ rest

unfoldable pub changed : Packages → Packages → List (String × (List Text × List Text))
changed old [] = []
changed old ((pkg, vers) ∷ new) =
    let rest = changed old new in
    elim (lookup pkg old) [
      | none ↦ rest
      | some before ↦ if versions_eq before vers then rest else (pkg, (before, vers)) ∷ rest
    ]

unfoldable pub compare_packages : Packages → Packages → Changes
compare_packages old new = record {
  installed = not_in old new;
  updated = changed old new;
  removed = not_in new old;
}

module _ {S : Type 0} (b : Backend S) where
  -- A command on some names, if there are any, its result added.
  unfoldable pub run_on : List String → List String → ProcessResult → Exec S ProcessResult
  run_on command [] result = pure result
  run_on command (name ∷ names) result =
      b.run_cmd (b.package_manager ∷ (command ++ name ∷ names)) true >>= λ r. pure (result += r)

  -- `install_requirements`
  unfoldable pub install_requirements : Requirements → Packages → Exec S ProcessResult
  install_requirements requirements curr =
      run_on ("-q" ∷ "-y" ∷ "install" ∷ []) (missing requirements curr) realtime_result
      >>= run_on ("-q" ∷ "-y" ∷ b.get_action false) (too_old requirements curr)

  -- The code that a step gets when it fails.
  abbrev pub fail_as : ℕ → ProcessResult → ProcessResult
  fail_as code r = if failed r then record r { code = code } else r

  -- An early return of the result so far.
  unfoldable pub stop_on : Bool → ProcessResult → Exec S ProcessResult → Exec S ProcessResult
  stop_on true result rest = pure result
  stop_on false result rest = rest

  -- The three steps of `_upgrade`, each adding to the result so far.
  unfoldable pub install_step : Requirements → Packages → ProcessResult → Exec S ProcessResult
  install_step [] curr result = pure result
  install_step (requirement ∷ requirements) curr result =
      install_requirements (requirement ∷ requirements) curr >>= λ r.
      pure (result += fail_as err_vm_pre r)

  unfoldable pub refresh_step : Bool → Bool → ProcessResult → Exec S ProcessResult
  refresh_step true hard_fail result =
      b.refresh hard_fail >>= λ r. pure (result += fail_as err_vm_refresh r)
  refresh_step false hard_fail result = pure result

  abbrev pub upgrade_code : ℕ → ℕ
  upgrade_code code =
      if nat_eq code exit_ok || nat_eq code ok_no_updates then code else err_vm_update

  unfoldable pub upgrade_step : Bool → ProcessResult → Exec S ProcessResult
  upgrade_step remove_obsolete result = b.upgrade_internal remove_obsolete >>= λ r.
      pure (result += record r { code = upgrade_code r.code })

  -- What follows an upgrade without an error; the text of `_print_changes` is a parameter.
  abbrev pub summarised : (Changes → Text) → Packages → ProcessResult → Packages → ProcessResult
  summarised show curr result new =
      let changes = compare_packages curr new in
      let total = result += process_result exit_ok (show changes) [] in
      if not (failed total) && (is_nil changes.installed && is_nil changes.updated)
      then record total { code = ok_no_updates }
      else total

  unfoldable pub summary_step : (Changes → Text) → Packages → ProcessResult → Exec S ProcessResult
  summary_step show curr result =
      stop_on (is_update_vm b.agent_type) result
        (b.get_packages >>= λ new. pure (summarised show curr result new))

  -- `_upgrade`. A failed step ends it, unless the failure is to be passed over.
  unfoldable pub upgrade :
      (Changes → Text) → Bool → Bool → Bool → Requirements → Exec S ProcessResult
  upgrade show refresh hard_fail remove_obsolete requirements = b.get_packages >>= λ curr.
      install_step requirements curr realtime_result >>= λ r. stop_on (failed r && hard_fail) r (
        refresh_step refresh hard_fail r >>= λ r'. stop_on (failed r' && hard_fail) r' (
          upgrade_step remove_obsolete r' >>= λ r''.
          stop_on (failed r'') r'' (summary_step show curr r'')))
