-- ===== src/Tests/Package.antt =====
-- The package managers and the agent, run.
use qubes_core_admin_linux.Entrypoint.{package_manager_kind, Kind, OsData, debian}
use qubes_core_admin_linux.Entrypoint.Api.{FinishesOnceMade, api_agents_documented}
use qubes_core_admin_linux.Entrypoint.Cli.{cli_agents_documented, Finishes}
use qubes_core_admin_linux.Entrypoint.Kinds.{package_manager_kind-suits, Suited}
use qubes_core_admin_linux.Exec.{other_error, err, Exec, ok}
use qubes_core_admin_linux.Package.{
  compare_packages, Backend, Changes, Packages, upgrade, vm_agent, update_vm,
}
use qubes_core_admin_linux.Package.Api.Apt.{apt_api_init, AptLibrary}
use qubes_core_admin_linux.Package.Api.Dnf.{dnf_api_init, DnfLibrary}
use qubes_core_admin_linux.Package.Api.Dnf5.{dnf5_init, Dnf5Library}
use qubes_core_admin_linux.Package.Cli.{
  remove_obsolete_kernels, expire_cache, pacman_cli, apt_cli, dnf_cli, Shell,
}
use qubes_core_admin_linux.Package.Cli.Returns.{Works}
use qubes_core_admin_linux.Package.Codes.{upgrade-Documented, upgrade_result_code, Yields, Returns}
use qubes_core_admin_linux.Package.Compare.{compare_packages_exact, differing, Distinct}
use qubes_core_admin_linux.Prelude.{
  has_key, codes, lookup-nil, Text, lookup, ℕ, suc, ◌≡◌, refl, Bool, true, false, String, Option,
  none, some, [], ◌∷◌, if◌then◌else◌,
}
use qubes_core_admin_linux.Prelude.Int.{pos, ℤ}
use qubes_core_admin_linux.Process.{process_result}
use qubes_core_admin_linux.Tests.Samples.{agent_args}

-- A system on which every command fails with 1, and that counts them.
abbrev shell : Shell ℕ
shell = record {
  communicate = λ s command captured. (ok (1, [], []), suc s);
  lock = λ s. (ok tt, s);
}

works : Works shell
works = record { communicate = λ s command captured. tt; lock = λ s. tt }

abbrev packages : Exec ℕ Packages
packages s = (ok (("bash", codes "5.2" ∷ []) ∷ []), s)

abbrev backend : Backend ℕ
backend = record {
  agent_type = vm_agent;
  package_manager = "dnf";
  progress_reporting = false;
  run_cmd = λ command realtime s. (ok (process_result 0 [] []), suc s);
  get_packages = packages;
  refresh = λ hard_fail s. (ok (process_result 3 [] []), suc s);
  get_action = λ remove_obsolete. "upgrade" ∷ [];
  upgrade_internal = λ remove_obsolete s. (ok (process_result 0 [] []), suc s);
  clean = λ s. (ok 25, s);
}

backend_returns : Returns backend
backend_returns = record {
  run_cmd = λ command realtime s. tt;
  get_packages = λ s. tt;
  refresh = λ hard_fail s. tt;
  upgrade_internal = λ remove_obsolete s. tt;
}

abbrev show : Changes → Text
show changes = []

upgrade-Documented_example :
    Yields
      (λ r. upgrade_result_code r.code ≡ true)
      (upgrade backend show true false true (("bash", codes "6") ∷ []) 0)
upgrade-Documented_example =
    upgrade-Documented backend backend_returns show true false true (("bash", codes "6") ∷ []) 0

abbrev before : Packages
before = ("bash", codes "5.2" ∷ []) ∷ ("vim", codes "9" ∷ []) ∷ []

abbrev after : Packages
after = ("bash", codes "5.3" ∷ []) ∷ ("nano", codes "8" ∷ []) ∷ []

absent_lem : lookup "bash" (("nano", codes "8" ∷ []) ∷ []) ≡ none
unfolding lookup
absent_lem = refl

distinct : Distinct after
distinct = (absent_lem, (lookup-nil "nano", tt))

compare_packages_exact_example :
    (lookup "bash" (compare_packages before after).installed
      ≡ (if has_key "bash" before then none else lookup "bash" after))
    × (lookup "bash" (compare_packages before after).removed
        ≡ (if has_key "bash" after then none else lookup "bash" before))
    × (lookup "bash" (compare_packages before after).updated
        ≡ differing (lookup "bash" before) (lookup "bash" after))
compare_packages_exact_example = compare_packages_exact before after "bash" distinct

abbrev name_of : Text → String
name_of text = "linux-image"

cli_agents_documented_example :
    Finishes shell works packages
      (λ s. tt)
      show
      suc
      agent_args
      []
      (dnf_cli shell vm_agent "dnf" packages)
    × Finishes shell works packages
        (λ s. tt)
        show
        suc
        agent_args
        []
        (apt_cli shell name_of vm_agent packages)
    × Finishes shell works packages
        (λ s. tt)
        show
        suc
        agent_args
        []
        (pacman_cli shell vm_agent packages)
cli_agents_documented_example =
    cli_agents_documented shell works packages (λ s. tt) show suc agent_args [] name_of vm_agent
      "dnf"

abbrev os : OsData
os = record {
  id = "debian";
  name = "Debian";
  release = some "12";
  codename = none;
  os_family = debian;
}

abbrev int : String → Option ℤ
int text = some (pos 12)

abbrev imports : Kind → Bool
imports kind = true

package_manager_kind-suits_example :
    Suited int imports update_vm false (package_manager_kind int imports os update_vm false)
package_manager_kind-suits_example = package_manager_kind-suits int imports update_vm os false

-- Libraries that do nothing, without updates.
abbrev no_dnf : DnfLibrary ℕ
no_dnf = record {
  make_base = λ t s. (ok tt, s);
  skip_unavailable = λ s. s;
  set_obsolete = λ b s. s;
  enabled_repos = λ s. (ok ("fedora" ∷ []), s);
  load = λ repo s. (ok tt, suc s);
  update_cache = λ s. (ok true, s);
  fill_sack = λ s. (ok tt, s);
  upgrade_all = λ s. (ok tt, s);
  resolve = λ b s. (ok none, s);
  download_packages = λ pkgs s. (ok tt, s);
  signature_check = λ pkg s. (ok (0, []), s);
  import_key = λ pkg s. (ok tt, s);
  do_transaction = λ pkgs s. (ok tt, s);
  post_install = λ s. (ok tt, s);
  close = λ s. (ok tt, s);
  str = λ e. [];
}

abbrev no_dnf5 : Dnf5Library ℕ ℕ
no_dnf5 = record {
  make_base = λ t s. (ok tt, s);
  skip_unavailable = λ b s. s;
  set_obsoletes = λ b s. s;
  create_repos = λ s. (ok tt, s);
  load_repos = λ s. (ok tt, s);
  resolve = λ b s. (ok 0, s);
  packages_count = λ x. x;
  resolve_logs = λ x. [];
  download = λ x s. (ok tt, s);
  check_gpg_signatures = λ x s. (ok false, s);
  run_transaction = λ x s. (ok 0, s);
  post_install = λ s. (ok tt, s);
  str = λ e. [];
}

abbrev no_apt : AptLibrary ℕ
no_apt = record {
  make_cache = λ s. (err (other_error "lists"), s);
  lock_exists = λ s. true;
  take_lock = λ s. (ok tt, suc s);
  update = λ s. (ok true, s);
  open_cache = λ s. (ok tt, s);
  mark_upgrade = λ b s. (ok tt, s);
  make_partial = λ s. (ok tt, s);
  set_config = λ k v s. (ok tt, s);
  commit_cache = λ s. (ok tt, s);
  str = λ e. [];
}

api_agents_documented_example :
    FinishesOnceMade shell works packages
      (λ s. tt)
      show
      suc
      agent_args
      []
      (dnf_api_init no_dnf vm_agent (dnf_cli shell vm_agent "dnf" packages))
    × FinishesOnceMade shell works packages
        (λ s. tt)
        show
        suc
        agent_args
        []
        (dnf5_init no_dnf5 vm_agent
          (expire_cache shell vm_agent "dnf")
          (dnf_cli shell vm_agent "dnf" packages))
    × FinishesOnceMade shell works packages
        (λ s. tt)
        show
        suc
        agent_args
        []
        (apt_api_init no_apt
          (remove_obsolete_kernels shell name_of)
          (apt_cli shell name_of vm_agent packages))
api_agents_documented_example =
    api_agents_documented shell works packages (λ s. tt) no_dnf no_dnf5 no_apt (λ s. tt) (λ s. tt)
      show suc agent_args [] name_of vm_agent "dnf"
