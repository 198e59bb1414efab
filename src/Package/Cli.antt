-- ===== src/Package/Cli.antt =====
-- The package managers that are run by their command lines: vmupdate/agent/source/dnf/dnf_cli.py,
-- apt/apt_cli.py and pacman/pacman_cli.py, with `run_cmd` of common/package_manager.py.
-- Listing has the lists of packages.
pub mod Returns
pub mod Listing
use qubes_core_admin_linux.Exec.{ok, pure, ◌>>?◌, ◌>>=◌, Exec, Result}
use qubes_core_admin_linux.Exit.{exit_ok, err_vm_cleanup}
use qubes_core_admin_linux.Package.{Backend, Packages, is_update_vm, AgentType}
use qubes_core_admin_linux.Prelude.{
  map, lines, is_nil, ◌==◌, codes, Text, nat_eq, ℕ, zero, suc, Bool, true, false, not, ◌&&◌, String,
  ◌<>◌, List, [], ◌∷◌, if◌then◌else◌,
}
use qubes_core_admin_linux.Process.{
  from_untrusted_out_err, error_from_messages, process_result, ◌+=◌, failed, ProcessResult,
}

-- What the agent asks of its system: subprocess.Popen(command).communicate() with the exit code, for
-- a command whose output is captured (true) or goes to the terminal, and is then empty here; and the
-- lock of apt's lists.
pub record Shell (S : Type 0) : Type 0 where
  pub communicate : S → List String → Bool → Result (ℕ × List ℕ × List ℕ) × S
  pub lock : S → Result (Unit {0}) × S

-- `startswith`, a slice from some position on, and the text before the first space.
unfoldable pub starts : Text → Text → Bool
starts [] line = true
starts (x ∷ xs) [] = false
starts (x ∷ xs) (y ∷ ys) = let rest = starts xs ys in nat_eq x y && rest

unfoldable pub drop : ℕ → Text → Text
drop zero line = line
drop (suc n) [] = []
drop (suc n) (x ∷ xs) = drop n xs

unfoldable pub first_word : Text → Text
first_word [] = []
first_word (x ∷ xs) = let rest = first_word xs in if nat_eq x 32 then [] else x ∷ rest

-- The kernels that a dry run of `apt-get autoremove` would remove.
unfoldable pub removed_kernels : List Text → List Text
removed_kernels [] = []
removed_kernels (line ∷ rest) =
    let others = removed_kernels rest in
    let name = drop 5 line in
    if starts (codes "Remv") line && starts (codes "linux-image") name
    then first_word name ∷ others
    else others

abbrev pub cleanup_code : ℕ → ℕ
cleanup_code code = if nat_eq code 0 then 0 else err_vm_cleanup

module _ {S : Type 0} (shell : Shell S) where
  -- `run_cmd`
  unfoldable pub run_cmd : List String → Bool → Exec S ProcessResult
  run_cmd command realtime s =
      let (r, s') = shell.communicate s command (not realtime) in
      (
        r >>? λ done.
            ok (record (from_untrusted_out_err done.1 done.2) { code = done.0; posted = realtime }),
        s',
      )

  -- `clean` of the three classes, by its command
  unfoldable pub clean_with : List String → Exec S ℕ
  clean_with command = run_cmd command false >>= λ r. pure (cleanup_code r.code)

  module _ (agent_type : AgentType) where
    -- `DNFCLI.refresh`
    unfoldable pub expire_cache : String → Exec S ProcessResult
    expire_cache pm =
        if is_update_vm agent_type
        then pure (process_result exit_ok [] [])
        else run_cmd (pm ∷ "-q" ∷ "clean" ∷ "expire-cache" ∷ []) true

    abbrev pub check_update : String → Bool → List String
    check_update pm hard_fail =
        pm
        ∷ "-q"
        ∷ "check-update"
        ∷ "--assumeyes"
        ∷ ("--setopt=skip_if_unavailable=" <> (if hard_fail then "0" else "1"))
        ∷ []

    unfoldable pub dnf_refresh : String → Bool → Exec S ProcessResult
    dnf_refresh pm hard_fail = expire_cache pm >>= λ result.
        if is_update_vm agent_type
        then pure result
        else (run_cmd (check_update pm hard_fail) true >>= λ check. pure (
            error_from_messages
              (result += record check { code = if nat_eq check.code 100 then 0 else check.code })))

    -- `DNFCLI.get_action`
    abbrev pub installroot : String
    installroot = "/var/lib/qubes/dom0-updates"

    unfoldable pub dnf_action : String → Bool → List String
    dnf_action pm remove_obsolete =
        if is_update_vm agent_type
        then "-y"
          ∷ "upgrade"
          ∷ "--noplugins"
          ∷ "--best"
          ∷ "--allowerasing"
          ∷ "--downloadonly"
          ∷ "--installroot"
          ∷ installroot
          ∷ ("--setopt=cachedir=" <> (installroot <> "/var/cache/dnf"))
          ∷ ("--config=" <> (installroot <> "/etc/dnf/dnf.conf"))
          ∷ ("--setopt=reposdir=" <> (installroot <> "/etc/yum.repos.d"))
          ∷ "--exclude=qubes-template-*"
          ∷ "-y"
          ∷ []
        else if remove_obsolete
        then "-y" ∷ "--setopt=obsoletes=1" ∷ "upgrade" ∷ []
        else "-y" ∷ "--setopt=obsoletes=0" ∷ (if pm == "dnf" then "upgrade" else "update") ∷ []

    -- `DNFCLI`, with the installed packages
    unfoldable pub dnf_cli : String → Exec S Packages → Backend S
    dnf_cli pm packages = record {
      agent_type = agent_type;
      package_manager = pm;
      progress_reporting = false;
      run_cmd = run_cmd;
      get_packages = packages;
      refresh = dnf_refresh pm;
      get_action = dnf_action pm;
      upgrade_internal = λ remove_obsolete. run_cmd (pm ∷ dnf_action pm remove_obsolete) true;
      clean = clean_with (pm ∷ "clean" ∷ "packages" ∷ []);
    }

  -- `APTCLI.refresh`, in the lock
  unfoldable pub apt_refresh : Bool → Exec S ProcessResult
  apt_refresh hard_fail = shell.lock >>= λ _.
      run_cmd ("apt-get" ∷ "-o" ∷ "Debug::NoLocking=true" ∷ "-q" ∷ "update" ∷ []) true >>= λ r.
      pure (error_from_messages (if nat_eq r.code 100 then record r { code = 1 } else r))

  unfoldable pub apt_action : Bool → List String
  apt_action remove_obsolete =
      "-y"
      ∷ "-o"
      ∷ "Dpkg::Options::=--force-confdef"
      ∷ "-o"
      ∷ "Dpkg::Options::=--force-confold"
      ∷ (if remove_obsolete then "dist-upgrade" else "upgrade")
      ∷ []

  -- `remove_obsolete_kernels`, after the dry run and the search; the texts of the names are made
  -- strings by a parameter, and their set is a list.
  unfoldable pub remove_listed : (Text → String) → List Text → Exec S ProcessResult
  remove_listed decode [] = pure (process_result exit_ok [] [])
  remove_listed decode (name ∷ names) =
      run_cmd ("apt-get" ∷ "remove" ∷ "-y" ∷ map decode (name ∷ names)) false

  unfoldable pub remove_obsolete_kernels : (Text → String) → Exec S ProcessResult
  remove_obsolete_kernels decode = run_cmd ("apt-get" ∷ "autoremove" ∷ "-s" ∷ []) false >>= λ dry.
      (if failed dry then pure dry else remove_listed decode (removed_kernels (lines dry.out)))
      >>= λ r. pure (record r { code = cleanup_code r.code })

  -- `APTCLI.upgrade_internal`
  unfoldable pub apt_upgrade : (Text → String) → Bool → Exec S ProcessResult
  apt_upgrade decode remove_obsolete =
      run_cmd ("apt-get" ∷ apt_action remove_obsolete) true >>= λ r.
      if remove_obsolete then (remove_obsolete_kernels decode >>= λ k. pure (r += k)) else pure r

  -- `APTCLI`
  unfoldable pub apt_cli : (Text → String) → AgentType → Exec S Packages → Backend S
  apt_cli decode agent_type packages = record {
    agent_type = agent_type;
    package_manager = "apt-get";
    progress_reporting = false;
    run_cmd = run_cmd;
    get_packages = packages;
    refresh = apt_refresh;
    get_action = apt_action;
    upgrade_internal = apt_upgrade decode;
    clean = clean_with ("apt-get" ∷ "clean" ∷ []);
  }

  unfoldable pub pacman_action : Bool → List String
  pacman_action remove_obsolete = "--noconfirm" ∷ "-Syu" ∷ []

  -- `PACMANCLI`
  unfoldable pub pacman_cli : AgentType → Exec S Packages → Backend S
  pacman_cli agent_type packages = record {
    agent_type = agent_type;
    package_manager = "pacman";
    progress_reporting = false;
    run_cmd = run_cmd;
    get_packages = packages;
    refresh = λ _. run_cmd ("true" ∷ []) true;
    get_action = pacman_action;
    upgrade_internal = λ remove_obsolete. run_cmd ("pacman" ∷ pacman_action remove_obsolete) true;
    clean = clean_with ("pacman" ∷ "--noconfirm" ∷ "-Sc" ∷ []);
  }
