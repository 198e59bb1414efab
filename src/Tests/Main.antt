-- ===== src/Tests/Main.antt =====
-- The whole program, run.
use qubes_core_admin_linux.Args.{Args}
use qubes_core_admin_linux.Exec.{ok, key_error}
use qubes_core_admin_linux.Exit.{ok_no_updates}
use qubes_core_admin_linux.Main.{Answer, raised, returned, Workers, main}
use qubes_core_admin_linux.Main.Codes.{main-IsDocumented}
use qubes_core_admin_linux.Main.DryRun.{main_dry_run}
use qubes_core_admin_linux.Main.Hidden.{main_hidden_key_error, main_hidden_no_updates, AllSucceed}
use qubes_core_admin_linux.Main.RunCodes.{IsDocumented}
use qubes_core_admin_linux.Manager.{collected, fed, vm_code}
use qubes_core_admin_linux.Prelude.{split, contains, ℕ, ◌≡◌, refl, ap, inl, true, false, [], ◌∷◌}
use qubes_core_admin_linux.Process.{process_result}
use qubes_core_admin_linux.Status.{FinalStatus, done_info}
use qubes_core_admin_linux.System.{Machine}
use qubes_core_admin_linux.Targets.{read_flag, qualifies, select_loop, select_targets, get_targets}
use qubes_core_admin_linux.Targets.Preselect.{
  class_targets, drop_skip_update, implicit_targets, preselect_targets,
}
use qubes_core_admin_linux.Tests.Samples.{
  fedora, domains, templates_args, agent_args, clock, system, machine,
}

abbrev hidden_args : Args
hidden_args = record templates_args { agent = record agent_args { quiet = true } }

-- Workers that succeed, and report the end of one qube.
abbrev workers : Workers
workers targets dom0 = (
  fed (done_info "fedora" FinalStatus.success) ∷ collected "fedora" (process_result 0 [] []) ∷ [],
  false,
)

succeed : AllSucceed workers
unfolding vm_code
succeed targets dom0 = (refl, refl)

chosen_lem : get_targets clock hidden_args domains ≡ ok (fedora ∷ [])
unfolding get_targets preselect_targets implicit_targets drop_skip_update class_targets contains
    split select_targets select_loop qualifies read_flag
chosen_lem = refl

main_hidden_no_updates_example :
    main system workers clock hidden_args domains machine ≡ (returned ok_no_updates, machine)
main_hidden_no_updates_example =
    main_hidden_no_updates workers hidden_args refl refl succeed system clock domains fedora []
      machine chosen_lem refl refl refl

abbrev applying_args : Args
applying_args = record hidden_args { apply_to_sys = true }

applied_lem : get_targets clock applying_args domains ≡ ok (fedora ∷ [])
unfolding get_targets preselect_targets implicit_targets drop_skip_update class_targets contains
    split select_targets select_loop qualifies read_flag
applied_lem = refl

main_hidden_key_error_example :
    main system workers clock applying_args domains machine ≡ (raised (key_error "fedora"), machine)
main_hidden_key_error_example =
    main_hidden_key_error workers applying_args refl refl succeed system clock domains fedora []
      machine applied_lem fedora [] refl (inl refl)

abbrev dry_args : Args
dry_args = record templates_args { dry_run = true; apply_to_sys = true }

main_dry_run_example :
    ((main system workers clock dry_args domains machine).1 ≡ machine)
    × (main system workers clock dry_args domains machine
        ≡ main system (λ targets dom0. ([], true)) clock dry_args domains machine)
main_dry_run_example =
    main_dry_run system workers (λ targets dom0. ([], true)) clock dry_args domains machine refl

returned_lem : (main system workers clock hidden_args domains machine).0 ≡ returned ok_no_updates
returned_lem =
    ap (λ (r : Answer ℕ × Machine system). r.0)
      (main_hidden_no_updates workers hidden_args refl refl succeed system clock domains fedora []
        machine chosen_lem refl refl refl)

main-IsDocumented_example : IsDocumented ok_no_updates
main-IsDocumented_example =
    main-IsDocumented system workers clock hidden_args domains machine ok_no_updates returned_lem
