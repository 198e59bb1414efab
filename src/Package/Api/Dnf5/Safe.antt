-- ===== src/Package/Api/Dnf5/Safe.antt =====
-- The upgrade by libdnf5 runs only a transaction whose signatures were checked, on every path.
use qubes_core_admin_linux.Exec.{other_error, pure, raise, ◌>>=◌, Exec}
use qubes_core_admin_linux.Exec.Ends.{
  Ends, EndsIn, EndsIn-bind, Ends-bind, Ends-and, Ends-if, state-Ends,
}
use qubes_core_admin_linux.Exit.{ok_no_updates, err_vm_update}
use qubes_core_admin_linux.Package.{is_update_vm, AgentType}
use qubes_core_admin_linux.Package.Api.{
  guarded-EndsIn, notify_apps-EndsIn, done_well, guarded, notify_apps,
}
use qubes_core_admin_linux.Package.Api.Dnf5.{
  dnf5_upgrade, download_and_run, resolved, run_checked, Dnf5Library,
}
use qubes_core_admin_linux.Prelude.{nat_eq, ℕ, ◌≡◌, Bool, true, false, [], if◌then◌else◌}
use qubes_core_admin_linux.Process.{process_result, ProcessResult}

module _ {S T : Type 0} (dnf5 : Dnf5Library S T) (Verified : T → S → Type 0) (Q : S → Type 0)
    (t : AgentType) where
  -- What the calls of the library keep. The run of a transaction keeps it if the transaction was
  -- verified, in an agent that is no UpdateVM.
  pub record Trusted : Type 0 where
    pub set_obsoletes : (b : Bool) (s : S) → Q s → Q (dnf5.set_obsoletes b s)
    pub create_repos : (s : S) → Q s → Q (dnf5.create_repos s).1
    pub load_repos : (s : S) → Q s → Q (dnf5.load_repos s).1
    pub resolve : (b : Bool) (s : S) → Q s → Q (dnf5.resolve b s).1
    pub download : (x : T) (s : S) → Q s → Q (dnf5.download x s).1
    pub check_kept : (x : T) (s : S) → Q s → Q (dnf5.check_gpg_signatures x s).1
    pub check_good :
        (x : T) (s : S)
        → Ends
            (λ good s'. good ≡ true → Verified x s')
            (λ _. Unit {0})
            (dnf5.check_gpg_signatures x s)
    pub run_transaction :
        (x : T) (s : S)
        → is_update_vm t ≡ false
        → Verified x s
        → Q s
        → Q (dnf5.run_transaction x s).1
    pub post_install : (s : S) → Q s → Q (dnf5.post_install s).1

  module _ (trusted : Trusted) where
    abbrev failure : Exec S ProcessResult
    failure = raise (other_error "TransactionError")

    run_checked-EndsIn : (x : T) (s : S) → Q s → Verified x s → EndsIn Q (run_checked dnf5 t x s)
    unfolding run_checked
    run_checked-EndsIn x s q good =
        let after = λ (code : ℕ).
          if nat_eq code 0 then (notify_apps t dnf5.post_install >>= λ _. done_well) else failure in
        Ends-if (λ _. Q) Q (is_update_vm t) done_well (dnf5.run_transaction x >>= after) s (λ e. q)
          (λ e.
            EndsIn-bind Q (dnf5.run_transaction x) after s (trusted.run_transaction x s e good q)
              (λ code s' q'.
                Ends-if (λ _. Q) Q (nat_eq code 0)
                  (notify_apps t dnf5.post_install >>= λ _. done_well) failure s'
                  (λ e'. notify_apps-EndsIn Q dnf5.post_install trusted.post_install t s' q')
                  (λ e'. q')))

    download_and_run-EndsIn : (x : T) (s : S) → Q s → EndsIn Q (download_and_run dnf5 t x s)
    unfolding download_and_run
    download_and_run-EndsIn x s q =
        let decide = λ (good : Bool). if good then run_checked dnf5 t x else failure in
        EndsIn-bind Q (dnf5.download x) (λ _. dnf5.check_gpg_signatures x >>= decide) s
          (trusted.download x s q)
          (λ u s' q'.
            Ends-bind (λ good s''. Q s'' × (good ≡ true → Verified x s'')) (λ _. Q) Q
              (dnf5.check_gpg_signatures x) decide s'
              (Ends-and (λ good s''. good ≡ true → Verified x s'') Q (λ _. Unit {0})
                (dnf5.check_gpg_signatures x s') (trusted.check_good x s')
                (trusted.check_kept x s' q'))
              (λ good s'' d.
                Ends-if (λ _. Q) Q good (run_checked dnf5 t x) failure s''
                  (λ e. run_checked-EndsIn x s'' d.0 (d.1 e)) (λ e. d.0)))

    resolved-EndsIn : (x : T) (s : S) → Q s → EndsIn Q (resolved dnf5 t x s)
    unfolding resolved
    resolved-EndsIn x s q =
        Ends-if (λ _. Q) Q (nat_eq (dnf5.packages_count x) 0)
          (pure (process_result ok_no_updates [] (dnf5.resolve_logs x))) (download_and_run dnf5 t x)
          s (λ e. q) (λ e. download_and_run-EndsIn x s q)

    -- A property of the system that the calls of the library keep, and that the run of a verified
    -- transaction keeps, still holds after `upgrade_internal`, also if it raises. A transaction is
    -- verified once `check_gpg_signatures` gave true; in an UpdateVM none is run.
    pub dnf5_upgrade_signed :
        (remove_obsolete : Bool) (s : S) → Q s → Q (dnf5_upgrade dnf5 t remove_obsolete s).1
    unfolding dnf5_upgrade
    dnf5_upgrade_signed remove_obsolete s q =
        let s' = dnf5.set_obsoletes remove_obsolete s in
        let resolve = dnf5.resolve (is_update_vm t) >>= resolved dnf5 t in
        let m = dnf5.create_repos >>= λ _. dnf5.load_repos >>= λ _. resolve in
        state-Ends Q (guarded dnf5.str err_vm_update m s') (
          guarded-EndsIn Q dnf5.str err_vm_update m s' (
            EndsIn-bind Q dnf5.create_repos (λ _. dnf5.load_repos >>= λ _. resolve) s'
              (trusted.create_repos s' (trusted.set_obsoletes remove_obsolete s q))
              (λ u s1 q1.
                EndsIn-bind Q dnf5.load_repos (λ _. resolve) s1 (trusted.load_repos s1 q1)
                  (λ v s2 q2.
                    EndsIn-bind Q (dnf5.resolve (is_update_vm t)) (resolved dnf5 t) s2
                      (trusted.resolve (is_update_vm t) s2 q2)
                      (λ x s3 q3. resolved-EndsIn x s3 q3)))))
