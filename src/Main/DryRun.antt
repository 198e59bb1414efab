-- ===== src/Main/DryRun.antt =====
-- Dry runs of `main`.
use qubes_core_admin_linux.Apply.{apply_updates_to_appvm, Statuses}
use qubes_core_admin_linux.Apply.Codes.{apply_updates_to_appvm_idle}
use qubes_core_admin_linux.Args.{Args}
use qubes_core_admin_linux.Exec.{ok, on_result_ind, Result-cases}
use qubes_core_admin_linux.Exit.{exit_ok}
use qubes_core_admin_linux.Main.{
  all_no_updates, derived, independents, all_success, main_derived, Answer, admins, finish_main,
  main_independent, returned, run_update, update_admin, Workers, main_targets, main,
}
use qubes_core_admin_linux.Prelude.{
  sym, ap, ◌∙◌, ℕ, ◌≡◌, refl, inl, inr, Bool, true, false, ◌&&◌, List, [], ◌∷◌, arith,
}
use qubes_core_admin_linux.System.{Machine, System}
use qubes_core_admin_linux.Targets.{get_targets}
use qubes_core_admin_linux.Targets.Stale.{Clock}
use qubes_core_admin_linux.Vm.{Vm}

module _ (workers : Workers) (args : Args) (dry : args.dry_run ≡ true) where
  run_update_dry :
      (targets : List Vm) (dom0 : Bool)
      → run_update workers args targets dom0 ≡ returned (exit_ok, all_success targets)
  unfolding run_update
  run_update_dry targets dom0 = ground arith

  update_admin_dry : (admin : List Vm) → update_admin workers args admin ≡ returned (exit_ok, true)
  unfolding update_admin
  update_admin_dry admin = ground arith

module _ (sys : System) (args : Args) (targets : List Vm) (m : Machine sys) where
  -- What a dry run does after the batches, which report success for all qubes.
  abbrev dry_end : Workers → Answer ℕ × Machine sys
  dry_end workers =
      let ind = all_success (independents targets) in
      let app = all_success (derived targets) in
      finish_main sys workers args (independents targets) exit_ok (exit_ok, ind) (exit_ok, app)
        (all_no_updates app && (all_no_updates ind && true)) m

  module _ (workers : Workers) (dry : args.dry_run ≡ true) where
    main_independent_dry :
        main_independent sys workers args targets exit_ok true m ≡ dry_end workers
    unfolding main_independent main_derived
    main_independent_dry = ground (
      arith,
      run_update_dry workers args dry (independents targets) false,
      run_update_dry workers args dry (derived targets) false,
    )

  finish_idle :
      (workers : Workers) (ac : ℕ) (i a : ℕ × Statuses) (n : Bool)
      → args.dry_run ≡ true
      → (finish_main sys workers args (independents targets) ac i a n m).1 ≡ m
  unfolding finish_main
  finish_idle workers ac (ic, is) (rc, rs) n dry =
      let ended = apply_updates_to_appvm sys args (independents targets) is rs m in
      let idle = apply_updates_to_appvm_idle sys args (independents targets) is rs m (inl dry) in
      on_result_ind (λ (q : Answer ℕ × Machine sys). q.1 ≡ m) ended.0 (λ c e. idle) (λ x e. idle)

same_end :
    (sys : System) (args : Args) (targets : List Vm) (m : Machine sys) (workers other : Workers)
    → dry_end sys args targets m workers ≡ dry_end sys args targets m other
unfolding finish_main
same_end sys args targets m workers other = refl

main_targets_dry :
    (sys : System) (workers : Workers) (args : Args) (v : Vm) (vms : List Vm) (m : Machine sys)
    → args.dry_run ≡ true
    → main_targets sys workers args (v ∷ vms) m ≡ dry_end sys args (v ∷ vms) m workers
unfolding main_targets
main_targets_dry sys workers args v vms m dry = ground (
  arith,
  update_admin_dry workers args dry (admins (v ∷ vms)),
  main_independent_dry sys args (v ∷ vms) m workers dry,
)

main_chosen :
    (sys : System) (workers : Workers) (clock : Clock) (args : Args) (domains : List Vm)
    (m : Machine sys) (targets : List Vm)
    → get_targets clock args domains ≡ ok targets
    → main sys workers clock args domains m ≡ main_targets sys workers args targets m
unfolding main
main_chosen sys workers clock args domains m targets e = ground arith

-- With `--dry-run` no qube is stopped or started, the state of the system stays as it is, and no
-- worker is asked for anything: all workers lead to the same run.
pub main_dry_run :
    (sys : System) (workers other : Workers) (clock : Clock) (args : Args) (domains : List Vm)
    (m : Machine sys)
    → args.dry_run ≡ true
    → ((main sys workers clock args domains m).1 ≡ m)
      × (main sys workers clock args domains m ≡ main sys other clock args domains m)
unfolding main
main_dry_run sys workers other clock args domains m dry =
    elim (Result-cases (get_targets clock args domains)) [
      | inr (x, e) ↦ ground arith
      | inl ([], e) ↦ unfold main_targets in ground arith
      | inl (v ∷ vms, e) ↦
          let ended = λ (w : Workers).
            main_chosen sys w clock args domains m (v ∷ vms) e
            ∙ main_targets_dry sys w args v vms m dry in
          (
            ap (λ (r : Answer ℕ × Machine sys). r.1) (ended workers)
                ∙ finish_idle sys args (v ∷ vms) m workers exit_ok _ _ _ dry,
            ended workers ∙ same_end sys args (v ∷ vms) m workers other ∙ sym (ended other),
          )
    ]
