-- ===== src/Package/Api/Apt.antt =====
-- vmupdate/agent/source/apt/apt_api.py: `APT`. The calls of python-apt are a record.
use qubes_core_admin_linux.Exec.{pure, ◌>>=◌, Exception, Exec}
use qubes_core_admin_linux.Exit.{exit_ok, err_vm_refresh, err_vm_update}
use qubes_core_admin_linux.Package.{Backend}
use qubes_core_admin_linux.Package.Api.{guarded}
use qubes_core_admin_linux.Prelude.{Text, Bool, true, String, [], if◌then◌else◌}
use qubes_core_admin_linux.Process.{process_result, ◌+=◌, ProcessResult}

pub record AptLibrary (S : Type 0) : Type 0 where
  -- apt.Cache(), and the frontend of debconf in the environment
  pub make_cache : Exec S (Unit {0})
  -- os.path.exists("/var/lib/apt/lists/lock")
  pub lock_exists : S → Bool
  -- opening and taking the lock, which is given back at once
  pub take_lock : Exec S (Unit {0})
  -- apt_cache.update(...) and apt_cache.open()
  pub update : Exec S Bool
  pub open_cache : Exec S (Unit {0})
  -- apt_cache.upgrade(dist_upgrade=...)
  pub mark_upgrade : Bool → Exec S (Unit {0})
  -- the directory of partial downloads
  pub make_partial : Exec S (Unit {0})
  -- apt_pkg.config.set(...)
  pub set_config : String → String → Exec S (Unit {0})
  pub commit_cache : Exec S (Unit {0})
  pub str : Exception → Text

module _ {S : Type 0} (apt : AptLibrary S) where
  -- `wait_for_lock`
  unfoldable pub wait_for_lock : Exec S (Unit {0})
  wait_for_lock s = (if apt.lock_exists s then apt.take_lock else pure tt) s

  -- The `try` of `refresh`.
  unfoldable pub update_cache : Exec S ProcessResult
  update_cache = guarded apt.str err_vm_refresh (
      apt.update >>= λ success. apt.open_cache >>= λ _.
      pure (process_result (if success then exit_ok else err_vm_refresh) [] []))

  unfoldable pub apt_api_refresh : Bool → Exec S ProcessResult
  apt_api_refresh hard_fail = wait_for_lock >>= λ _. update_cache

  -- The `try` of `upgrade_internal`.
  unfoldable pub commit_upgrade : Bool → Exec S ProcessResult
  commit_upgrade remove_obsolete = guarded apt.str err_vm_update (
      apt.mark_upgrade remove_obsolete >>= λ _. apt.make_partial >>= λ _.
      apt.set_config "Dpkg::Options::" "--force-confdef" >>= λ _.
      apt.set_config "Dpkg::Options::" "--force-confold" >>= λ _.
      apt.commit_cache >>= λ _. pure (process_result exit_ok [] []))

  -- `upgrade_internal`, with `remove_obsolete_kernels` of `APTCLI`
  unfoldable pub apt_api_upgrade : Exec S ProcessResult → Bool → Exec S ProcessResult
  apt_api_upgrade remove_kernels remove_obsolete = commit_upgrade remove_obsolete >>= λ r.
      if remove_obsolete then (remove_kernels >>= λ k. pure (r += k)) else pure r

  -- `APT`, with what it has of `APTCLI`
  unfoldable pub apt_api_backend : Exec S ProcessResult → Backend S → Backend S
  apt_api_backend remove_kernels cli = record cli {
    progress_reporting = true;
    refresh = apt_api_refresh;
    upgrade_internal = apt_api_upgrade remove_kernels;
  }

  -- `APT.__init__`
  unfoldable pub apt_api_init : Exec S ProcessResult → Backend S → Exec S (Backend S)
  apt_api_init remove_kernels cli =
      apt.make_cache >>= λ _. pure (apt_api_backend remove_kernels cli)
