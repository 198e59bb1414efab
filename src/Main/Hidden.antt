-- ===== src/Main/Hidden.antt =====
-- Runs of `main` in which progress is not shown: no statuses are collected then.
use qubes_core_admin_linux.Apply.{apply_updates_to_appvm}
use qubes_core_admin_linux.Apply.Codes.{apply_updates_to_appvm_missing}
use qubes_core_admin_linux.Args.{Args}
use qubes_core_admin_linux.Exec.{key_error, ok}
use qubes_core_admin_linux.Exit.{ok_no_updates, exit_ok}
use qubes_core_admin_linux.Main.{
  derived, admins, raised, independents, main_code, finish_main, main_derived, main,
  main_independent, main_targets, returned, run_update, update_admin, Workers,
}
use qubes_core_admin_linux.Manager.{show_progress}
use qubes_core_admin_linux.Manager.Codes.{highest}
use qubes_core_admin_linux.Manager.Runs.{run_hidden}
use qubes_core_admin_linux.Prelude.{
  values, ◌≡◌, ◌⊎◌, Bool, true, false, not, ◌&&◌, List, [], ◌∷◌, arith,
}
use qubes_core_admin_linux.System.{Machine, System}
use qubes_core_admin_linux.Targets.{get_targets}
use qubes_core_admin_linux.Targets.Stale.{Clock}
use qubes_core_admin_linux.Vm.{Vm}

-- No cancel is requested, and no worker fails.
abbrev pub AllSucceed : Workers → Type 0
AllSucceed workers =
    (targets : List Vm) (dom0 : Bool)
    → ((workers targets dom0).1 ≡ false) × (highest (workers targets dom0).0 exit_ok ≡ exit_ok)

module _ (workers : Workers) (args : Args) (real : args.dry_run ≡ false)
    (hidden : show_progress args.agent ≡ false) (good : AllSucceed workers) where
  run_update_hidden :
      (targets : List Vm) (dom0 : Bool)
      → run_update workers args targets dom0 ≡ returned (exit_ok, [])
  unfolding run_update
  run_update_hidden [] dom0 = ground arith
  run_update_hidden (v ∷ vms) dom0 =
      let batch = workers (v ∷ vms) dom0 in
      let (m, e) = run_hidden args v vms batch.0 batch.1 hidden in
      let (calm, none_failed) = good (v ∷ vms) dom0 in ground arith

  update_admin_hidden :
      (admin : List Vm) → update_admin workers args admin ≡ returned (exit_ok, true)
  unfolding update_admin values
  update_admin_hidden admin =
      ground (arith, run_update_hidden admin (not (args.just_print_progress && args.no_refresh)))

  module _ (sys : System) (v : Vm) (vms : List Vm) (m : Machine sys) where
    main_targets_hidden :
        main_targets sys workers args (v ∷ vms) m
        ≡ finish_main sys workers args
            (independents (v ∷ vms))
            exit_ok
            (exit_ok, [])
            (exit_ok, [])
            true
            m
    unfolding main_targets main_independent main_derived values
    main_targets_hidden = ground (
      arith,
      update_admin_hidden (admins (v ∷ vms)),
      run_update_hidden (independents (v ∷ vms)) false,
      run_update_hidden (derived (v ∷ vms)) false,
    )

  module _ (sys : System) (clock : Clock) (domains : List Vm) (v : Vm) (vms : List Vm)
      (m : Machine sys) (chosen : get_targets clock args domains ≡ ok (v ∷ vms)) where
    -- With `--signal-no-updates` and `--quiet` or `--no-progress`, without propagation, a run with
    -- targets whose workers all succeed and in which no cancel is requested returns 100 for "no updates", whatever
    -- they installed, if it is no dry run.
    pub main_hidden_no_updates :
        args.signal_no_updates ≡ true
        → args.apply_to_sys ≡ false
        → args.apply_to_all ≡ false
        → main sys workers clock args domains m ≡ (returned ok_no_updates, m)
    unfolding main finish_main main_code apply_updates_to_appvm
    main_hidden_no_updates signal no_sys no_all = ground (arith, main_targets_hidden sys v vms m)

    -- With `--quiet` or `--no-progress` and a propagation option, a run that has updated a template
    -- or a standalone ends with a `KeyError` and propagates nothing, if it is no dry run, no cancel is
    -- requested and no worker fails.
    pub main_hidden_key_error :
        (t : Vm) (ts : List Vm)
        → independents (v ∷ vms) ≡ t ∷ ts
        → (args.apply_to_sys ≡ true) ⊎ (args.apply_to_all ≡ true)
        → main sys workers clock args domains m ≡ (raised (key_error t.name), m)
    unfolding main finish_main
    main_hidden_key_error t ts ind flags = ground (
      arith,
      main_targets_hidden sys v vms m,
      apply_updates_to_appvm_missing sys args t ts [] m flags,
    )
