-- ===== src/Package/Api/Dnf/Safe.antt =====
-- The upgrade by dnf commits only what was checked, on every path.
use qubes_core_admin_linux.Exec.{pure, ◌>>=◌}
use qubes_core_admin_linux.Exec.Ends.{EndsIn, EndsIn-bind, Ends-bind, Ends-if, state-Ends}
use qubes_core_admin_linux.Exit.{exit_ok, err_vm_update}
use qubes_core_admin_linux.Package.{is_update_vm, AgentType}
use qubes_core_admin_linux.Package.Api.{
  notify_apps-EndsIn, done_well, guarded-EndsIn, notify_apps, guarded,
}
use qubes_core_admin_linux.Package.Api.Dnf.{
  sign_check, commit, dnf_api_upgrade, install_set, transaction, DnfLibrary,
}
use qubes_core_admin_linux.Package.Api.Dnf.Signed.{+=-not_failed, sign_check-Good, Kept, ChecksGood}
use qubes_core_admin_linux.Prelude.{
  All, ◌≡◌, Bool, false, not, ◌&&◌, String, Option, none, some, List, [], arith,
}
use qubes_core_admin_linux.Process.{process_result, failed, ProcessResult, ◌+=◌}

module _ {S : Type 0} (dnf : DnfLibrary S) (Good : String → S → Type 0) (Q : S → Type 0)
    (t : AgentType) where
  -- What the calls of the library keep. The commit keeps it if all that it installs is good,
  -- in an agent that is no UpdateVM.
  pub record Trusted : Type 0 where
    pub checks : ChecksGood dnf Good
    pub stays : (pkg : String) → Kept dnf Good (Good pkg)
    pub kept : Kept dnf Good Q
    pub set_obsolete : (b : Bool) (s : S) → Q s → Q (dnf.set_obsolete b s)
    pub fill_sack : (s : S) → Q s → Q (dnf.fill_sack s).1
    pub upgrade_all : (s : S) → Q s → Q (dnf.upgrade_all s).1
    pub resolve : (b : Bool) (s : S) → Q s → Q (dnf.resolve b s).1
    pub download_packages : (pkgs : List String) (s : S) → Q s → Q (dnf.download_packages pkgs s).1
    pub do_transaction :
        (pkgs : List String) (s : S)
        → is_update_vm t ≡ false
        → All (λ pkg. Good pkg s) pkgs
        → Q s
        → Q (dnf.do_transaction pkgs s).1
    pub post_install : (s : S) → Q s → Q (dnf.post_install s).1
    pub close : (s : S) → Q s → Q (dnf.close s).1

  module _ (trusted : Trusted) where
    commit-EndsIn :
        (pkgs : List String) (result : ProcessResult) (s : S)
        → Q s
        → (failed result ≡ false → All (λ pkg. Good pkg s) pkgs)
        → EndsIn Q (commit dnf t pkgs result s)
    unfolding commit
    commit-EndsIn pkgs result s q good =
        let run =
          dnf.do_transaction pkgs >>= λ _. notify_apps t dnf.post_install >>= λ _. done_well in
        Ends-if (λ _. Q) Q (not (failed result) && not (is_update_vm t))
          (guarded dnf.str err_vm_update run >>= λ r. pure (result += r)) (pure result) s
          (λ e.
            EndsIn-bind Q (guarded dnf.str err_vm_update run) (λ r. pure (result += r)) s
              (state-Ends Q (guarded dnf.str err_vm_update run s) (
                guarded-EndsIn Q dnf.str err_vm_update run s (
                  EndsIn-bind Q (dnf.do_transaction pkgs)
                    (λ _. notify_apps t dnf.post_install >>= λ _. done_well) s
                    (trusted.do_transaction pkgs s (ground arith) (good (ground arith)) q)
                    (λ u s' k. notify_apps-EndsIn Q dnf.post_install trusted.post_install t s' k))))
              (λ r s' k. k))
          (λ e. q)

    install_set-EndsIn : (o : Option (List String)) (s : S) → Q s → EndsIn Q (install_set dnf t o s)
    unfolding install_set ◌+=◌
    install_set-EndsIn none s q = q
    install_set-EndsIn (some pkgs) s q =
        let check = sign_check dnf pkgs (process_result exit_ok [] []) in
        let rest =
          λ (signed : ProcessResult). commit dnf t pkgs (process_result exit_ok [] [] += signed) in
        EndsIn-bind Q (dnf.download_packages pkgs) (λ _. check >>= rest) s
          (trusted.download_packages pkgs s q)
          (λ u s' q'.
            Ends-bind
              (λ r s''. Q s'' × (failed r ≡ false → Unit {0} × All (λ pkg. Good pkg s'') pkgs))
              (λ _. Q) Q check rest s'
              (sign_check-Good dnf Good trusted.checks trusted.stays (λ _. Unit {0}) Q pkgs
                (process_result exit_ok [] []) s' (λ p s u. tt, λ p s u. tt) trusted.kept q'
                (λ f. tt))
              (λ r s'' d.
                commit-EndsIn pkgs (process_result exit_ok [] [] += r) s'' d.0
                  (λ f. (d.1 (+=-not_failed dnf Good (process_result exit_ok [] []) r f).1).1)))

    transaction-EndsIn : (s : S) → Q s → EndsIn Q (transaction dnf t s)
    unfolding transaction
    transaction-EndsIn s q =
        let resolve = dnf.resolve (is_update_vm t) >>= install_set dnf t in
        guarded-EndsIn Q dnf.str err_vm_update
          (dnf.fill_sack >>= λ _. dnf.upgrade_all >>= λ _. resolve) s
          (EndsIn-bind Q dnf.fill_sack (λ _. dnf.upgrade_all >>= λ _. resolve) s
            (trusted.fill_sack s q)
            (λ u s1 q1.
              EndsIn-bind Q dnf.upgrade_all (λ _. resolve) s1 (trusted.upgrade_all s1 q1)
                (λ v s2 q2.
                  EndsIn-bind Q (dnf.resolve (is_update_vm t)) (install_set dnf t) s2
                    (trusted.resolve (is_update_vm t) s2 q2)
                    (λ o s3 q3. install_set-EndsIn o s3 q3))))

    -- A property of the system that the calls of the library keep, and that a commit outside an
    -- UpdateVM keeps if each package to install is good, still holds after `upgrade_internal`,
    -- also if it raises. A package is good once its signature was checked with the code 0, and
    -- stays so while others are checked and keys imported.
    pub dnf_api_upgrade_signed :
        (remove_obsolete : Bool) (s : S) → Q s → Q (dnf_api_upgrade dnf t remove_obsolete s).1
    unfolding dnf_api_upgrade
    dnf_api_upgrade_signed remove_obsolete s q =
        let s' = dnf.set_obsolete remove_obsolete s in
        let m = transaction dnf t >>= λ r. dnf.close >>= λ _. pure r in
        state-Ends Q (m s') (
          EndsIn-bind Q (transaction dnf t) (λ r. dnf.close >>= λ _. pure r) s'
            (state-Ends Q (transaction dnf t s')
              (transaction-EndsIn s' (trusted.set_obsolete remove_obsolete s q)))
            (λ r s1 q1.
              EndsIn-bind Q dnf.close (λ _. pure r) s1 (trusted.close s1 q1) (λ u s2 q2. q2)))
