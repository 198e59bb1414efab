-- ===== src/Tests/Apply.antt =====
-- The propagation of updates, run.
use qubes_core_admin_linux.Apply.{
  possibly_changed, sort_derived, get_derived_vm_to_apply, updated_templates, apply_to_derived,
  apply_running, shutdown_loop, start_loop, Statuses, apply_updates_to_appvm, restart_vms,
  shutdown_domains,
}
use qubes_core_admin_linux.Apply.Calls.{apply_updates_to_appvm-calls, Allowed}
use qubes_core_admin_linux.Apply.Codes.{
  let_down, apply_updates_to_appvm_code, shutdown_domains_exact,
}
use qubes_core_admin_linux.Args.{Args}
use qubes_core_admin_linux.Exec.{ok}
use qubes_core_admin_linux.Exit.{err_start_app, err_shutdown_app, err_shutdown_tmpl, exit_ok}
use qubes_core_admin_linux.Prelude.{lookup, length, All, ◌<◌, ◌≡◌, refl, ◌⊎◌, true, false, [], ◌∷◌}
use qubes_core_admin_linux.Status.{FinalStatus}
use qubes_core_admin_linux.System.{call_start, call_wait, call_shutdown}
use qubes_core_admin_linux.Targets.Stale.{get_feature, get_boolean_feature}
use qubes_core_admin_linux.Tests.Samples.{fedora, sys_net, templates_args, system, machine}

abbrev sys_args : Args
sys_args = record templates_args { apply_to_sys = true }

abbrev updated : Statuses
updated = ("fedora", FinalStatus.success) ∷ []

apply_updates_to_appvm-calls_example :
    All
      (Allowed system false (fedora ∷ []) updated [])
      (apply_updates_to_appvm system sys_args (fedora ∷ []) updated [] machine).1.calls
apply_updates_to_appvm-calls_example =
    apply_updates_to_appvm-calls system sys_args (fedora ∷ []) updated [] machine tt

applied_lem : (apply_updates_to_appvm system sys_args (fedora ∷ []) updated [] machine).0 ≡ ok 0
unfolding apply_updates_to_appvm apply_running apply_to_derived updated_templates
    get_derived_vm_to_apply sort_derived possibly_changed restart_vms start_loop shutdown_domains
    shutdown_loop call_shutdown call_start call_wait get_boolean_feature get_feature lookup
applied_lem = refl

apply_updates_to_appvm_code_example :
    (0 ≡ exit_ok) ⊎ (0 ≡ err_shutdown_tmpl) ⊎ (0 ≡ err_shutdown_app) ⊎ (0 ≡ err_start_app)
apply_updates_to_appvm_code_example =
    apply_updates_to_appvm_code system sys_args (fedora ∷ []) updated [] machine 0 applied_lem

shut_lem : (shutdown_domains system (sys_net ∷ []) machine).0 ≡ ok (0, sys_net ∷ [])
unfolding shutdown_domains shutdown_loop call_shutdown call_wait
shut_lem = refl

shutdown_domains_exact_example :
    (sys_net ∷ [] ≡ let_down system (sys_net ∷ []) machine.state)
    × (((0 ≡ exit_ok) × (sys_net ∷ [] ≡ sys_net ∷ []))
        ⊎ ((0 ≡ err_shutdown_app) × (length (sys_net ∷ []) < length (sys_net ∷ []))))
shutdown_domains_exact_example =
    shutdown_domains_exact system (sys_net ∷ []) machine 0 (sys_net ∷ []) shut_lem

restarted_lem : (restart_vms system (sys_net ∷ []) machine).0 ≡ ok 0
unfolding restart_vms start_loop shutdown_domains shutdown_loop call_shutdown call_start call_wait
restarted_lem = refl
