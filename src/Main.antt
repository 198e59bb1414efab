-- ===== src/Main.antt =====
-- vmupdate/vmupdate.py: `run_update` and `main`. What the workers of a batch send, and whether a
-- cancel was requested meanwhile, is given by `workers`; what is printed and logged is left out.
pub mod Codes
pub mod RunCodes
pub mod DryRun
pub mod Hidden
use qubes_core_admin_linux.Apply.{apply_updates_to_appvm, Statuses}
use qubes_core_admin_linux.Args.{Args}
use qubes_core_admin_linux.Exec.{argument_error, err, ok, on_result, Exception}
use qubes_core_admin_linux.Exit.{err_usage, ok_no_updates, sigint, exit_ok}
use qubes_core_admin_linux.Manager.{run, Event, finished, Outcome}
use qubes_core_admin_linux.Prelude.{
  is_nil, refl, inr, inl, ◌⊎◌, ◌≡◌, values, all, filter, nat_eq, ℕ, max, Bool, true, false, not,
  ◌&&◌, ◌||◌, List, [], ◌∷◌, if◌then◌else◌,
}
use qubes_core_admin_linux.Status.{FinalStatus, is_no_updates}
use qubes_core_admin_linux.System.{Machine, System}
use qubes_core_admin_linux.Targets.{get_targets}
use qubes_core_admin_linux.Targets.Stale.{Clock}
use qubes_core_admin_linux.Vm.{is_standalone, is_admin, is_template, Vm}

-- How a call ends: it returns, raises, or waits for ever.
pub data Answer (A : Type 0) : Type 0 where
  returned : A → Answer A
  raised : Exception → Answer A
  hung : Answer A

infixl 5 ◌then_run◌
abbrev pub ◌then_run◌ : {A B : Type 0} → Answer A → (A → Answer B) → Answer B
(returned a) then_run k = k a
(raised e) then_run k = raised e
hung then_run k = hung

pub Answer-cases :
    {A : Type 0} (r : Answer A)
    → ((a : A) × (r ≡ returned a)) ⊎ (((e : Exception) × (r ≡ raised e)) ⊎ (r ≡ hung))
Answer-cases (returned a) = inl (a, refl)
Answer-cases (raised e) = inr (inl (e, refl))
Answer-cases hung = inr (inr refl)

-- The events of a batch and its cancel flag, for the qubes and the `dom0` flag of the batch.
abbrev pub Workers : Type 0
Workers = List Vm → Bool → List Event × Bool

abbrev pub of_outcome : Outcome → Answer (ℕ × Statuses)
of_outcome (Outcome.finished code statuses m) = returned (code, statuses)
of_outcome (Outcome.raised e) = raised e
of_outcome Outcome.blocked = hung

-- `{target.name: FinalStatus.SUCCESS for target in targets}`
abbrev pub all_success : List Vm → Statuses
all_success [] = []
all_success (v ∷ vms) = (v.name, FinalStatus.success) ∷ all_success vms

unfoldable pub run_update : Workers → Args → List Vm → Bool → Answer (ℕ × Statuses)
run_update workers args targets dom0 =
    if args.dry_run
    then returned (exit_ok, all_success targets)
    else if is_nil targets
    then returned (exit_ok, [])
    else (let (events, termination) = workers targets dom0 in
        of_outcome (run args targets events termination))

-- `all(stat == FinalStatus.NO_UPDATES for stat in statuses.values())`
abbrev pub all_no_updates : Statuses → Bool
all_no_updates statuses = all is_no_updates (values statuses)

abbrev pub admins : List Vm → List Vm
admins = filter (λ v. is_admin v.klass)

abbrev pub independents : List Vm → List Vm
independents = filter (λ v. is_template v.klass || is_standalone v.klass)

abbrev pub derived : List Vm → List Vm
derived = filter (λ v. not (is_admin v.klass || (is_template v.klass || is_standalone v.klass)))

-- The part about the admin VM: its code and `no_updates`.
unfoldable pub update_admin : Workers → Args → List Vm → Answer (ℕ × Bool)
update_admin workers args admin =
    if args.dry_run || is_nil admin
    then returned (exit_ok, true)
    else (run_update workers args admin (not (args.just_print_progress && args.no_refresh))
        then_run λ r. returned (r.0, all_no_updates r.1))

-- The code at the end of `main`.
unfoldable pub main_code : Args → ℕ → Bool → ℕ
main_code args code no_updates =
    if nat_eq code exit_ok && (no_updates && args.signal_no_updates)
    then ok_no_updates
    else if nat_eq code ok_no_updates && not args.signal_no_updates
    then exit_ok
    else code

module _ (sys : System) (workers : Workers) where
  -- The end of a run that was not interrupted: `apply_updates_to_appvm` and the highest code.
  unfoldable pub finish_main :
      Args → List Vm → ℕ → ℕ × Statuses → ℕ × Statuses → Bool → Machine sys → Answer ℕ × Machine sys
  finish_main args independent admin_code (ind_code, templ_statuses) (app_code, app_statuses)
        no_updates m =
      let (r, m') = apply_updates_to_appvm sys args independent templ_statuses app_statuses m in
      on_result r
        (λ restart_code. (
          returned (
              main_code args (max (max (max admin_code ind_code) app_code) restart_code)
                no_updates),
          m',
        ))
        (λ e. (raised e, m'))

  -- The batch of derived qubes.
  unfoldable pub main_derived :
      Args → List Vm → ℕ → ℕ × Statuses → Bool → Machine sys → Answer ℕ × Machine sys
  main_derived args targets admin_code independent_result no_updates m =
      elim (run_update workers args (derived targets) false) [
        | raised e ↦ (raised e, m)
        | hung ↦ (hung, m)
        | returned r ↦
            let rest =
              finish_main args (independents targets) admin_code independent_result r
                (all_no_updates r.1 && no_updates) m in
            if nat_eq r.0 sigint then (returned sigint, m) else rest
      ]

  -- The batch of templates and standalones.
  unfoldable pub main_independent : Args → List Vm → ℕ → Bool → Machine sys → Answer ℕ × Machine sys
  main_independent args targets admin_code no_updates m =
      elim (run_update workers args (independents targets) false) [
        | raised e ↦ (raised e, m)
        | hung ↦ (hung, m)
        | returned r ↦
            let rest =
              main_derived args targets admin_code r (all_no_updates r.1 && no_updates) m in
            if nat_eq r.0 sigint then (returned sigint, m) else rest
      ]

  -- What `main` does with the targets.
  unfoldable pub main_targets : Args → List Vm → Machine sys → Answer ℕ × Machine sys
  main_targets args [] m = (returned (if args.signal_no_updates then ok_no_updates else exit_ok), m)
  main_targets args (v ∷ vms) m =
      let targets = v ∷ vms in
      elim (update_admin workers args (admins targets)) [
        | raised e ↦ (raised e, m)
        | hung ↦ (hung, m)
        | returned r ↦
            let rest = main_independent args targets r.0 r.1 m in
            if nat_eq r.0 sigint then (returned sigint, m) else rest
      ]

  -- `main`, from the parsed arguments on.
  unfoldable pub main : Clock → Args → List Vm → Machine sys → Answer ℕ × Machine sys
  main clock args domains m = elim (get_targets clock args domains) [
    | ok targets ↦ main_targets args targets m
    | err (argument_error _) ↦ (returned err_usage, m)
    | err e ↦ (raised e, m)
  ]
