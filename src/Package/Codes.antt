-- ===== src/Package/Codes.antt =====
-- The exit codes of `_upgrade`.
use qubes_core_admin_linux.Exec.{ok, err, pure, Exec, on_result, ◌>>=◌, Result}
use qubes_core_admin_linux.Exit.{err_vm_update, err_vm_refresh, err_vm_pre, ok_no_updates, exit_ok}
use qubes_core_admin_linux.Package.{
  compare_packages, is_update_vm, summarised, fail_as, upgrade_code, Changes, install_step,
  refresh_step, run_on, stop_on, summary_step, upgrade_step, upgrade, too_old, missing, Packages,
  Requirements, install_requirements, Backend,
}
use qubes_core_admin_linux.Prelude.{
  not, refl, ◌&&◌, Text, [], is_nil, if_ind, nat_eq, ℕ, max, ◌≡◌, Bool, true, false, ◌||◌, String,
  List, ◌∷◌, ◌++◌, arith,
}
use qubes_core_admin_linux.Process.{process_result, failed, realtime_result, ProcessResult, ◌+=◌}

-- The codes that `_upgrade` gives out.
abbrev pub upgrade_result_code : ℕ → Bool
upgrade_result_code code =
    nat_eq code exit_ok
    || nat_eq code ok_no_updates
    || nat_eq code err_vm_pre
    || nat_eq code err_vm_refresh
    || nat_eq code err_vm_update

-- A call that returns, with a value that has a property.
abbrev pub Yields : {S A : Type 0} → (A → Type 0) → Result A × S → Type 0
Yields P q = on_result q.0 P (λ _. ⊥)

abbrev Documented : ProcessResult → Type 0
Documented r = upgrade_result_code r.code ≡ true

Yields-result :
    {S A B : Type 0} (P : A → Type 0) (Q : B → Type 0) (r : Result A) (s : S) (f : A → Exec S B)
    → Yields P (r, s)
    → ((a : A) → P a → Yields Q (f a s))
    → Yields Q (on_result r (λ a. f a s) (λ e. (err e, s)))
Yields-result P Q (ok a) s f p k = k a p
Yields-result P Q (err e) s f p k = elim p [ ]

pub Yields-bind :
    {S A B : Type 0} (P : A → Type 0) (Q : B → Type 0) (m : Exec S A) (f : A → Exec S B) (s : S)
    → Yields P (m s)
    → ((a : A) (s' : S) → P a → Yields Q (f a s'))
    → Yields Q ((m >>= f) s)
Yields-bind P Q m f s p k = Yields-result P Q (m s).0 (m s).1 f p (λ a. k a (m s).1)

abbrev pub Any : {A : Type 0} → A → Type 0
Any _ = Unit {0}

code-max :
    (m n : ℕ)
    → upgrade_result_code m ≡ true
    → upgrade_result_code n ≡ true
    → upgrade_result_code (max m n) ≡ true
code-max m n p q = ground arith

+=-Documented : (r t : ProcessResult) → Documented r → Documented t → Documented (r += t)
unfolding ◌+=◌
+=-Documented r t p q = code-max r.code t.code p q

module _ {S : Type 0} (b : Backend S) where
  -- What the class relies on: a command and the methods of the subclass return, and raise nothing.
  pub record Returns : Type 0 where
    pub run_cmd :
        (command : List String) (realtime : Bool) (s : S)
        → Yields (λ _. Unit) (b.run_cmd command realtime s)
    pub get_packages : (s : S) → Yields (λ _. Unit) (b.get_packages s)
    pub refresh : (hard_fail : Bool) (s : S) → Yields (λ _. Unit) (b.refresh hard_fail s)
    pub upgrade_internal :
        (remove_obsolete : Bool) (s : S) → Yields (λ _. Unit) (b.upgrade_internal remove_obsolete s)

  module _ (returns : Returns) where
    run_on-Yields :
        (command names : List String) (result : ProcessResult) (s : S)
        → Yields Any (run_on b command names result s)
    unfolding run_on
    run_on-Yields command [] result s = tt
    run_on-Yields command (name ∷ names) result s =
        Yields-bind Any Any (b.run_cmd (b.package_manager ∷ (command ++ name ∷ names)) true)
          (λ r. pure (result += r)) s (returns.run_cmd _ true s) (λ r s' u. tt)

    install_requirements-Yields :
        (requirements : Requirements) (curr : Packages) (s : S)
        → Yields Any (install_requirements b requirements curr s)
    unfolding install_requirements
    install_requirements-Yields requirements curr s =
        Yields-bind Any Any
          (run_on b ("-q" ∷ "-y" ∷ "install" ∷ []) (missing requirements curr) realtime_result)
          (run_on b ("-q" ∷ "-y" ∷ b.get_action false) (too_old requirements curr)) s
          (run_on-Yields _ _ _ s) (λ r s' u. run_on-Yields _ _ r s')

    install_step-Yields :
        (requirements : Requirements) (curr : Packages) (result : ProcessResult) (s : S)
        → Documented result
        → Yields Documented (install_step b requirements curr result s)
    unfolding install_step
    install_step-Yields [] curr result s d = d
    install_step-Yields (requirement ∷ requirements) curr result s d =
        Yields-bind Any Documented (install_requirements b (requirement ∷ requirements) curr)
          (λ r. pure (result += fail_as b err_vm_pre r)) s
          (install_requirements-Yields (requirement ∷ requirements) curr s)
          (λ r s' u. +=-Documented result (fail_as b err_vm_pre r) d (ground arith))

    refresh_step-Yields :
        (refresh hard_fail : Bool) (result : ProcessResult) (s : S)
        → Documented result
        → Yields Documented (refresh_step b refresh hard_fail result s)
    unfolding refresh_step
    refresh_step-Yields false hard_fail result s d = d
    refresh_step-Yields true hard_fail result s d =
        Yields-bind Any Documented (b.refresh hard_fail)
          (λ r. pure (result += fail_as b err_vm_refresh r)) s (returns.refresh hard_fail s)
          (λ r s' u. +=-Documented result (fail_as b err_vm_refresh r) d (ground arith))

    upgrade_step-Yields :
        (remove_obsolete : Bool) (result : ProcessResult) (s : S)
        → Documented result
        → Yields Documented (upgrade_step b remove_obsolete result s)
    unfolding upgrade_step
    upgrade_step-Yields remove_obsolete result s d =
        Yields-bind Any Documented (b.upgrade_internal remove_obsolete)
          (λ r. pure (result += record r { code = upgrade_code b r.code })) s
          (returns.upgrade_internal remove_obsolete s)
          (λ r s' u.
            +=-Documented result (record r { code = upgrade_code b r.code }) d (ground arith))

    stop_on-Yields :
        (c : Bool) (result : ProcessResult) (rest : Exec S ProcessResult) (s : S)
        → Documented result
        → Yields Documented (rest s)
        → Yields Documented (stop_on b c result rest s)
    unfolding stop_on
    stop_on-Yields true result rest s d k = d
    stop_on-Yields false result rest s d k = k

    summarised-Documented :
        (show : Changes → Text) (curr : Packages) (result : ProcessResult) (new : Packages)
        → Documented result
        → Documented (summarised b show curr result new)
    summarised-Documented show curr result new d =
        let total = result += process_result exit_ok (show (compare_packages curr new)) [] in
        let kept : Documented total =
          +=-Documented result (process_result exit_ok (show (compare_packages curr new)) []) d
            refl in
        if_ind Documented
          (not (failed total)
            && (is_nil (compare_packages curr new).installed
                && is_nil (compare_packages curr new).updated))
          refl kept

    summary_step-Yields :
        (show : Changes → Text) (curr : Packages) (result : ProcessResult) (s : S)
        → Documented result
        → Yields Documented (summary_step b show curr result s)
    unfolding summary_step
    summary_step-Yields show curr result s d =
        stop_on-Yields (is_update_vm b.agent_type) result _ s d (
          Yields-bind Any Documented b.get_packages
            (λ new. pure (summarised b show curr result new)) s (returns.get_packages s)
            (λ new s' u. summarised-Documented show curr result new d))

    -- If the commands and the methods of the subclass return, then `_upgrade` returns a result,
    -- whose code is 0, 100 (no updates), 22 (requirements), 23 (refresh) or 24 (update).
    pub upgrade-Documented :
        (show : Changes → Text) (refresh hard_fail remove_obsolete : Bool)
        (requirements : Requirements) (s : S)
        → Yields Documented (upgrade b show refresh hard_fail remove_obsolete requirements s)
    unfolding upgrade
    upgrade-Documented show refresh hard_fail remove_obsolete requirements s =
        let last = λ (curr : Packages) (r : ProcessResult).
          stop_on b (failed r) r (summary_step b show curr r) in
        let middle = λ (curr : Packages) (r : ProcessResult).
          stop_on b (failed r && hard_fail) r (upgrade_step b remove_obsolete r >>= last curr) in
        let first = λ (curr : Packages) (r : ProcessResult).
          stop_on b (failed r && hard_fail) r
            (refresh_step b refresh hard_fail r >>= middle curr) in
        Yields-bind Any Documented b.get_packages
          (λ curr. install_step b requirements curr realtime_result >>= first curr) s
          (returns.get_packages s)
          (λ curr s1 u.
            Yields-bind Documented Documented (install_step b requirements curr realtime_result)
              (first curr) s1 (install_step-Yields requirements curr realtime_result s1 refl)
              (λ r s2 d. stop_on-Yields _ r _ s2 d (
                Yields-bind Documented Documented (refresh_step b refresh hard_fail r) (middle curr)
                  s2 (refresh_step-Yields refresh hard_fail r s2 d)
                  (λ r' s3 d'. stop_on-Yields _ r' _ s3 d' (
                    Yields-bind Documented Documented (upgrade_step b remove_obsolete r')
                      (last curr) s3 (upgrade_step-Yields remove_obsolete r' s3 d')
                      (λ r'' s4 d''.
                        stop_on-Yields _ r'' _ s4 d''
                          (summary_step-Yields show curr r'' s4 d'')))))))
