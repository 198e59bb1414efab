-- ===== src/Package/Api/Dnf.antt =====
-- vmupdate/agent/source/dnf/dnf_api.py: `DNF` and `sign_check`. The calls of dnf are a record; those of
-- `__init__`, with the options of `conf`, are one of its operations.
pub mod Signed
pub mod Safe
use qubes_core_admin_linux.Exec.{ok, on_result, Exception, pure, ◌>>=◌, Exec}
use qubes_core_admin_linux.Exit.{exit_ok, ok_no_updates, err_vm_refresh, err_vm_update}
use qubes_core_admin_linux.Package.{is_update_vm, Backend, AgentType}
use qubes_core_admin_linux.Package.Api.{notify_apps, guarded}
use qubes_core_admin_linux.Prelude.{
  nat_eq, Text, ℕ, Bool, true, not, ◌&&◌, String, Option, none, some, List, [], ◌∷◌, if◌then◌else◌,
}
use qubes_core_admin_linux.Process.{process_result, ◌+=◌, failed, ProcessResult}

pub record DnfLibrary (S : Type 0) : Type 0 where
  -- conf.read(...), dnf.rpm.detect_releasever(...), dnf.Base(conf) and base.read_all_repos(), with the
  -- directory of the log in an UpdateVM
  pub make_base : AgentType → Exec S (Unit {0})
  -- base.conf.skip_if_unavailable = True
  pub skip_unavailable : S → S
  -- base.conf.obsolete = ...
  pub set_obsolete : Bool → S → S
  -- base.repos.iter_enabled() and repo.load()
  pub enabled_repos : Exec S (List String)
  pub load : String → Exec S (Unit {0})
  -- base.update_cache()
  pub update_cache : Exec S Bool
  -- base.fill_sack() and base.upgrade_all()
  pub fill_sack : Exec S (Unit {0})
  pub upgrade_all : Exec S (Unit {0})
  -- base.resolve(allow_erasing=...), with the install set, or nothing for no transaction
  pub resolve : Bool → Exec S (Option (List String))
  pub download_packages : List String → Exec S (Unit {0})
  -- base.package_signature_check(package): a code and a message
  pub signature_check : String → Exec S (ℕ × Text)
  pub import_key : String → Exec S (Unit {0})
  -- base.do_transaction(...) for the install set
  pub do_transaction : List String → Exec S (Unit {0})
  pub post_install : Exec S (Unit {0})
  pub close : Exec S (Unit {0})
  -- str(exc)
  pub str : Exception → Text

module _ {S : Type 0} (dnf : DnfLibrary S) where
  -- The loop over the repositories in `refresh`.
  unfoldable pub load_all : List String → Exec S (Unit {0})
  load_all [] = pure tt
  load_all (repo ∷ repos) = dnf.load repo >>= λ _. load_all repos

  -- `refresh`
  unfoldable pub dnf_api_refresh : Bool → Exec S ProcessResult
  dnf_api_refresh hard_fail s =
      guarded dnf.str err_vm_refresh
        (dnf.enabled_repos >>= λ repos. load_all repos >>= λ _. dnf.update_cache >>= λ updated.
          pure (process_result (if updated then exit_ok else err_vm_refresh) [] []))
        (dnf.skip_unavailable s)

  abbrev pub verdict : ℕ × Text → ProcessResult
  verdict (code, message) =
      if nat_eq code 0 then process_result exit_ok message [] else process_result code [] message

  -- The second check of a package, after the import of its key.
  unfoldable pub retry_check : ℕ → String → Exec S ProcessResult
  retry_check code pkg s =
      let (r, s') = dnf.import_key pkg s in
      on_result r (λ _. (dnf.signature_check pkg >>= λ q. pure (verdict q)) s')
        (λ e. (ok (process_result code [] (dnf.str e)), s'))

  unfoldable pub check_package : String → Exec S ProcessResult
  check_package pkg = dnf.signature_check pkg >>= λ q.
      if nat_eq q.0 0 then pure (verdict q) else retry_check q.0 pkg

  -- The loop of `sign_check`, with the result so far.
  unfoldable pub sign_check : List String → ProcessResult → Exec S ProcessResult
  sign_check [] result = pure result
  sign_check (pkg ∷ packages) result = check_package pkg >>= λ r. sign_check packages (result += r)

  -- The commit of `upgrade_internal`, whose exceptions are added to the result so far.
  unfoldable pub commit : AgentType → List String → ProcessResult → Exec S ProcessResult
  commit agent_type packages result =
      if not (failed result) && not (is_update_vm agent_type)
      then (guarded dnf.str err_vm_update (
            dnf.do_transaction packages >>= λ _.
            notify_apps agent_type dnf.post_install >>= λ _. pure (process_result exit_ok [] []))
          >>= λ r. pure (result += r))
      else pure result

  -- What follows the resolution of a transaction.
  unfoldable pub install_set : AgentType → Option (List String) → Exec S ProcessResult
  install_set agent_type none = pure (process_result ok_no_updates [] [])
  install_set agent_type (some packages) = dnf.download_packages packages >>= λ _.
      sign_check packages (process_result exit_ok [] []) >>= λ signed.
      commit agent_type packages (process_result exit_ok [] [] += signed)

  -- The `try` of `upgrade_internal`.
  unfoldable pub transaction : AgentType → Exec S ProcessResult
  transaction agent_type = guarded dnf.str err_vm_update (
      dnf.fill_sack >>= λ _.
      dnf.upgrade_all >>= λ _. dnf.resolve (is_update_vm agent_type) >>= install_set agent_type)

  -- `upgrade_internal`, which closes the base on every path.
  unfoldable pub dnf_api_upgrade : AgentType → Bool → Exec S ProcessResult
  dnf_api_upgrade agent_type remove_obsolete s =
      (transaction agent_type >>= λ r. dnf.close >>= λ _. pure r)
        (dnf.set_obsolete remove_obsolete s)

  -- `DNF`, with what it has of `DNFCLI`
  unfoldable pub dnf_api_backend : AgentType → Backend S → Backend S
  dnf_api_backend agent_type cli = record cli {
    agent_type = agent_type;
    progress_reporting = true;
    refresh = dnf_api_refresh;
    upgrade_internal = dnf_api_upgrade agent_type;
  }

  -- `DNF.__init__`
  unfoldable pub dnf_api_init : AgentType → Backend S → Exec S (Backend S)
  dnf_api_init agent_type cli =
      dnf.make_base agent_type >>= λ _. pure (dnf_api_backend agent_type cli)
