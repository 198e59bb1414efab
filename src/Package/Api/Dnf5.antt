-- ===== src/Package/Api/Dnf5.antt =====
-- vmupdate/agent/source/dnf/dnf5_api.py: `DNF5`. The calls of libdnf5 are a record. The options that
-- `__init__` sets are left out.
pub mod Safe
use qubes_core_admin_linux.Exec.{other_error, pure, raise, Exception, ◌>>=◌, Exec}
use qubes_core_admin_linux.Exit.{exit_ok, ok_no_updates, err_vm_refresh, err_vm_update}
use qubes_core_admin_linux.Package.{Backend, is_update_vm, AgentType}
use qubes_core_admin_linux.Package.Api.{notify_apps, guarded}
use qubes_core_admin_linux.Prelude.{nat_eq, Text, ℕ, Bool, true, not, [], if◌then◌else◌}
use qubes_core_admin_linux.Process.{◌+=◌, process_result, ProcessResult}

-- `T` is a resolved transaction.
pub record Dnf5Library (S T : Type 0) : Type 0 where
  -- libdnf5.base.Base(), the options of its config, base.load_config() and base.setup()
  pub make_base : AgentType → Exec S (Unit {0})
  -- config.skip_if_unavailable = ... and config.obsoletes = ...
  pub skip_unavailable : Bool → S → S
  pub set_obsoletes : Bool → S → S
  -- repo_sack.create_repos_from_system_configuration() and repo_sack.load_repos()
  pub create_repos : Exec S (Unit {0})
  pub load_repos : Exec S (Unit {0})
  -- goal.add_upgrade("*") and goal.resolve(), where erasing is allowed or not
  pub resolve : Bool → Exec S T
  pub packages_count : T → ℕ
  -- "\n".join(transaction.get_resolve_logs_as_strings())
  pub resolve_logs : T → Text
  pub download : T → Exec S (Unit {0})
  pub check_gpg_signatures : T → Exec S Bool
  -- transaction.run(), with 0 for TransactionRunResult_SUCCESS
  pub run_transaction : T → Exec S ℕ
  pub post_install : Exec S (Unit {0})
  pub str : Exception → Text

module _ {S T : Type 0} (dnf5 : Dnf5Library S T) where
  -- `refresh`, by `expire_cache` of `DNFCLI`
  unfoldable pub dnf5_refresh : Exec S ProcessResult → Bool → Exec S ProcessResult
  dnf5_refresh expire hard_fail s =
      guarded dnf5.str err_vm_refresh (expire >>= λ r. pure (process_result exit_ok [] [] += r))
        (dnf5.skip_unavailable (not hard_fail) s)

  -- The run of a transaction whose signatures are good.
  unfoldable pub run_checked : AgentType → T → Exec S ProcessResult
  run_checked agent_type trans =
      if is_update_vm agent_type
      then pure (process_result exit_ok [] [])
      else (dnf5.run_transaction trans >>= λ code.
          if nat_eq code 0
          then (notify_apps agent_type dnf5.post_install >>= λ _.
              pure (process_result exit_ok [] []))
          else raise (other_error "TransactionError"))

  -- What follows the resolution, for a transaction with packages.
  unfoldable pub download_and_run : AgentType → T → Exec S ProcessResult
  download_and_run agent_type trans = dnf5.download trans >>= λ _.
      dnf5.check_gpg_signatures trans >>= λ good.
      if good then run_checked agent_type trans else raise (other_error "TransactionError")

  unfoldable pub resolved : AgentType → T → Exec S ProcessResult
  resolved agent_type trans =
      if nat_eq (dnf5.packages_count trans) 0
      then pure (process_result ok_no_updates [] (dnf5.resolve_logs trans))
      else download_and_run agent_type trans

  -- `upgrade_internal`
  unfoldable pub dnf5_upgrade : AgentType → Bool → Exec S ProcessResult
  dnf5_upgrade agent_type remove_obsolete s =
      guarded dnf5.str err_vm_update
        (dnf5.create_repos >>= λ _.
          dnf5.load_repos >>= λ _. dnf5.resolve (is_update_vm agent_type) >>= resolved agent_type)
        (dnf5.set_obsoletes remove_obsolete s)

  -- `DNF5`, with what it has of `DNFCLI`
  unfoldable pub dnf5_backend : AgentType → Exec S ProcessResult → Backend S → Backend S
  dnf5_backend agent_type expire cli = record cli {
    agent_type = agent_type;
    progress_reporting = true;
    refresh = dnf5_refresh expire;
    upgrade_internal = dnf5_upgrade agent_type;
  }

  -- `DNF5.__init__`
  unfoldable pub dnf5_init : AgentType → Exec S ProcessResult → Backend S → Exec S (Backend S)
  dnf5_init agent_type expire cli =
      dnf5.make_base agent_type >>= λ _. pure (dnf5_backend agent_type expire cli)
