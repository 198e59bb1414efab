-- ===== src/Package/Api/Returns.antt =====
-- The package managers of the libraries keep what `PackageManager` relies on.
use qubes_core_admin_linux.Exec.{pure, ◌>>=◌, err, Exec, ok, on_result, Exception, Result}
use qubes_core_admin_linux.Exit.{err_vm_update, err_vm_refresh}
use qubes_core_admin_linux.Package.{AgentType, Backend}
use qubes_core_admin_linux.Package.Api.{guarded}
use qubes_core_admin_linux.Package.Api.Apt.{
  AptLibrary, commit_upgrade, apt_api_upgrade, update_cache, wait_for_lock, apt_api_refresh,
  apt_api_backend,
}
use qubes_core_admin_linux.Package.Api.Dnf.{
  DnfLibrary, transaction, dnf_api_upgrade, dnf_api_refresh, dnf_api_backend,
}
use qubes_core_admin_linux.Package.Api.Dnf5.{Dnf5Library, dnf5_upgrade, dnf5_refresh, dnf5_backend}
use qubes_core_admin_linux.Package.Cli.Returns.{if-Yields}
use qubes_core_admin_linux.Package.Codes.{Yields, Yields-bind, Any, Returns}
use qubes_core_admin_linux.Prelude.{Text, ℕ, not, [], if◌then◌else◌}
use qubes_core_admin_linux.Process.{◌+=◌, process_result, ProcessResult}

caught-Yields :
    {S A : Type 0} (r : Result A) (s : S) (handler : Exception → A)
    → Yields Any (on_result r (λ a. (ok a, s)) (λ e. (ok (handler e), s)))
caught-Yields (ok a) s handler = tt
caught-Yields (err e) s handler = tt

-- Whatever the calls of a library raise, it is turned into a result.
guarded-Yields :
    {S : Type 0} (str : Exception → Text) (code : ℕ) (m : Exec S ProcessResult) (s : S)
    → Yields Any (guarded str code m s)
unfolding guarded
guarded-Yields str code m s = caught-Yields (m s).0 (m s).1 (λ e. process_result code [] (str e))

module _ {S : Type 0} (cli : Backend S) (returns : Returns cli) where
  pub dnf_api_backend-Returns :
      (dnf : DnfLibrary S) (t : AgentType)
      → ((s : S) → Yields Any (dnf.close s))
      → Returns (dnf_api_backend dnf t cli)
  unfolding dnf_api_backend dnf_api_refresh dnf_api_upgrade transaction
  dnf_api_backend-Returns dnf t closes = record {
    run_cmd = returns.run_cmd;
    get_packages = returns.get_packages;
    refresh = λ hard_fail s. guarded-Yields dnf.str err_vm_refresh _ (dnf.skip_unavailable s);
    upgrade_internal = λ remove_obsolete s.
        Yields-bind Any Any (transaction dnf t) (λ r. dnf.close >>= λ _. pure r)
          (dnf.set_obsolete remove_obsolete s)
          (guarded-Yields dnf.str err_vm_update _ (dnf.set_obsolete remove_obsolete s))
          (λ r s' u. Yields-bind Any Any dnf.close (λ _. pure r) s' (closes s') (λ v s'' w. tt));
  }

  pub dnf5_backend-Returns :
      {T : Type 0} (dnf5 : Dnf5Library S T) (t : AgentType) (expire : Exec S ProcessResult)
      → Returns (dnf5_backend dnf5 t expire cli)
  unfolding dnf5_backend dnf5_refresh dnf5_upgrade
  dnf5_backend-Returns dnf5 t expire = record {
    run_cmd = returns.run_cmd;
    get_packages = returns.get_packages;
    refresh = λ hard_fail s.
        guarded-Yields dnf5.str err_vm_refresh _ (dnf5.skip_unavailable (not hard_fail) s);
    upgrade_internal = λ remove_obsolete s.
        guarded-Yields dnf5.str err_vm_update _ (dnf5.set_obsoletes remove_obsolete s);
  }

  pub apt_api_backend-Returns :
      (apt : AptLibrary S) (remove_kernels : Exec S ProcessResult)
      → ((s : S) → Yields Any (apt.take_lock s))
      → ((s : S) → Yields Any (remove_kernels s))
      → Returns (apt_api_backend apt remove_kernels cli)
  unfolding apt_api_backend apt_api_refresh wait_for_lock update_cache apt_api_upgrade
      commit_upgrade
  apt_api_backend-Returns apt remove_kernels locks removes = record {
    run_cmd = returns.run_cmd;
    get_packages = returns.get_packages;
    refresh = λ hard_fail s.
        Yields-bind Any Any (wait_for_lock apt) (λ _. update_cache apt) s
          (if-Yields (apt.lock_exists s) apt.take_lock (pure tt) s (locks s) tt)
          (λ u s' v. guarded-Yields apt.str err_vm_refresh _ s');
    upgrade_internal = λ remove_obsolete s.
        let more = λ (r : ProcessResult). remove_kernels >>= λ k. pure (r += k) in
        Yields-bind Any Any (commit_upgrade apt remove_obsolete)
          (λ r. if remove_obsolete then more r else pure r) s
          (guarded-Yields apt.str err_vm_update _ s)
          (λ r s' u.
            if-Yields remove_obsolete (more r) (pure r) s'
              (Yields-bind Any Any remove_kernels (λ k. pure (r += k)) s' (removes s')
                (λ k s'' v. tt))
              tt);
  }
