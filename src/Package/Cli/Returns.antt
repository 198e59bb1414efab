-- ===== src/Package/Cli/Returns.antt =====
-- The package managers of the command line keep what `PackageManager` relies on.
use qubes_core_admin_linux.Entrypoint.Codes.{is_cleanup_code}
use qubes_core_admin_linux.Exec.{err, ok, ◌>>=◌, ◌>>?◌, Exec, Result, pure}
use qubes_core_admin_linux.Exit.{exit_ok}
use qubes_core_admin_linux.Package.{Packages, is_update_vm, AgentType}
use qubes_core_admin_linux.Package.Cli.{
  apt_action, removed_kernels, check_update, apt_cli, apt_refresh, apt_upgrade, dnf_cli,
  dnf_refresh, expire_cache, pacman_cli, remove_listed, remove_obsolete_kernels, cleanup_code,
  clean_with, run_cmd, Shell,
}
use qubes_core_admin_linux.Package.Codes.{Yields, Yields-bind, Any, Returns}
use qubes_core_admin_linux.Prelude.{
  lines, nat_eq, Text, ◌≡◌, Bool, true, false, not, String, List, [], ◌∷◌, if◌then◌else◌, arith,
}
use qubes_core_admin_linux.Process.{
  process_result, ◌+=◌, error_from_messages, failed, ProcessResult, from_untrusted_out_err,
}

then-Yields :
    {S A B : Type 0} (r : Result A) (s : S) (f : A → B)
    → Yields Any (r, s)
    → Yields Any ((r >>? λ a. ok (f a)), s)
then-Yields (ok a) s f p = tt
then-Yields (err e) s f p = elim p [ ]

pub if-Yields :
    {S A : Type 0} (c : Bool) (m n : Exec S A) (s : S)
    → Yields Any (m s)
    → Yields Any (n s)
    → Yields Any ((if c then m else n) s)
if-Yields true m n s p q = p
if-Yields false m n s p q = q

module _ {S : Type 0} (shell : Shell S) where
  -- The system runs every command, and grants the lock.
  pub record Works : Type 0 where
    pub communicate :
        (s : S) (command : List String) (captured : Bool)
        → Yields Any (shell.communicate s command captured)
    pub lock : (s : S) → Yields Any (shell.lock s)

  module _ (works : Works) where
    run_cmd-Yields :
        (command : List String) (realtime : Bool) (s : S)
        → Yields Any (run_cmd shell command realtime s)
    unfolding run_cmd
    run_cmd-Yields command realtime s =
        then-Yields (shell.communicate s command (not realtime)).0
          (shell.communicate s command (not realtime)).1
          (λ done. record (from_untrusted_out_err done.1 done.2) {
            code = done.0;
            posted = realtime;
          })
          (works.communicate s command (not realtime))

    pub clean_with-Yields :
        (command : List String) (s : S)
        → Yields (λ c. is_cleanup_code c ≡ true) (clean_with shell command s)
    unfolding clean_with
    clean_with-Yields command s =
        Yields-bind Any (λ c. is_cleanup_code c ≡ true) (run_cmd shell command false)
          (λ r. pure (cleanup_code r.code)) s (run_cmd-Yields command false s)
          (λ r s' u. ground arith)

    expire_cache-Yields :
        (t : AgentType) (pm : String) (s : S) → Yields Any (expire_cache shell t pm s)
    unfolding expire_cache
    expire_cache-Yields t pm s =
        if-Yields (is_update_vm t) (pure (process_result exit_ok [] []))
          (run_cmd shell (pm ∷ "-q" ∷ "clean" ∷ "expire-cache" ∷ []) true) s tt
          (run_cmd-Yields _ true s)

    dnf_refresh-Yields :
        (t : AgentType) (pm : String) (hard_fail : Bool) (s : S)
        → Yields Any (dnf_refresh shell t pm hard_fail s)
    unfolding dnf_refresh
    dnf_refresh-Yields t pm hard_fail s =
        let check = run_cmd shell (check_update shell t pm hard_fail) true in
        let add = λ (result check : ProcessResult).
          error_from_messages
            (result += record check { code = if nat_eq check.code 100 then 0 else check.code }) in
        Yields-bind Any Any (expire_cache shell t pm)
          (λ result. if is_update_vm t then pure result else (check >>= λ c. pure (add result c))) s
          (expire_cache-Yields t pm s)
          (λ result s' u.
            if-Yields (is_update_vm t) (pure result) (check >>= λ c. pure (add result c)) s' tt (
              Yields-bind Any Any check (λ c. pure (add result c)) s' (run_cmd-Yields _ true s')
                (λ c s'' v. tt)))

    apt_refresh-Yields : (hard_fail : Bool) (s : S) → Yields Any (apt_refresh shell hard_fail s)
    unfolding apt_refresh
    apt_refresh-Yields hard_fail s =
        let update =
          run_cmd shell ("apt-get" ∷ "-o" ∷ "Debug::NoLocking=true" ∷ "-q" ∷ "update" ∷ []) true in
        let mend = λ (r : ProcessResult).
          error_from_messages (if nat_eq r.code 100 then record r { code = 1 } else r) in
        Yields-bind Any Any shell.lock (λ _. update >>= λ r. pure (mend r)) s (works.lock s)
          (λ u s' v.
            Yields-bind Any Any update (λ r. pure (mend r)) s' (run_cmd-Yields _ true s')
              (λ r s'' w. tt))

    remove_listed-Yields :
        (decode : Text → String) (names : List Text) (s : S)
        → Yields Any (remove_listed shell decode names s)
    unfolding remove_listed
    remove_listed-Yields decode [] s = tt
    remove_listed-Yields decode (name ∷ names) s = run_cmd-Yields _ false s

    pub remove_obsolete_kernels-Yields :
        (decode : Text → String) (s : S) → Yields Any (remove_obsolete_kernels shell decode s)
    unfolding remove_obsolete_kernels
    remove_obsolete_kernels-Yields decode s =
        let search = run_cmd shell ("apt-get" ∷ "autoremove" ∷ "-s" ∷ []) false in
        let remove = λ (dry : ProcessResult).
          if failed dry
          then pure dry
          else remove_listed shell decode (removed_kernels (lines dry.out)) in
        let mend = λ (r : ProcessResult). record r { code = cleanup_code r.code } in
        Yields-bind Any Any search (λ dry. remove dry >>= λ r. pure (mend r)) s
          (run_cmd-Yields _ false s)
          (λ dry s' u.
            Yields-bind Any Any (remove dry) (λ r. pure (mend r)) s'
              (if-Yields (failed dry) (pure dry)
                (remove_listed shell decode (removed_kernels (lines dry.out))) s' tt
                (remove_listed-Yields decode _ s'))
              (λ r s'' v. tt))

    apt_upgrade-Yields :
        (decode : Text → String) (remove_obsolete : Bool) (s : S)
        → Yields Any (apt_upgrade shell decode remove_obsolete s)
    unfolding apt_upgrade
    apt_upgrade-Yields decode remove_obsolete s =
        let kernels =
          λ (r : ProcessResult). remove_obsolete_kernels shell decode >>= λ k. pure (r += k) in
        Yields-bind Any Any (run_cmd shell ("apt-get" ∷ apt_action shell remove_obsolete) true)
          (λ r. if remove_obsolete then kernels r else pure r) s (run_cmd-Yields _ true s)
          (λ r s' u.
            if-Yields remove_obsolete (kernels r) (pure r) s'
              (Yields-bind Any Any (remove_obsolete_kernels shell decode) (λ k. pure (r += k)) s'
                (remove_obsolete_kernels-Yields decode s') (λ k s'' v. tt))
              tt)

    pub dnf_cli-Returns :
        (t : AgentType) (pm : String) (packages : Exec S Packages)
        → ((s : S) → Yields Any (packages s))
        → Returns (dnf_cli shell t pm packages)
    unfolding dnf_cli
    dnf_cli-Returns t pm packages listed = record {
      run_cmd = run_cmd-Yields;
      get_packages = listed;
      refresh = dnf_refresh-Yields t pm;
      upgrade_internal = λ remove_obsolete s. run_cmd-Yields _ true s;
    }

    pub apt_cli-Returns :
        (decode : Text → String) (t : AgentType) (packages : Exec S Packages)
        → ((s : S) → Yields Any (packages s))
        → Returns (apt_cli shell decode t packages)
    unfolding apt_cli
    apt_cli-Returns decode t packages listed = record {
      run_cmd = run_cmd-Yields;
      get_packages = listed;
      refresh = apt_refresh-Yields;
      upgrade_internal = apt_upgrade-Yields decode;
    }

    pub pacman_cli-Returns :
        (t : AgentType) (packages : Exec S Packages)
        → ((s : S) → Yields Any (packages s))
        → Returns (pacman_cli shell t packages)
    unfolding pacman_cli
    pacman_cli-Returns t packages listed = record {
      run_cmd = run_cmd-Yields;
      get_packages = listed;
      refresh = λ hard_fail s. run_cmd-Yields _ true s;
      upgrade_internal = λ remove_obsolete s. run_cmd-Yields _ true s;
    }
