-- ===== src/Main/Codes.antt =====
-- The exit codes of `main`, interruption, and runs without progress.
use qubes_core_admin_linux.Apply.{apply_updates_to_appvm, Statuses}
use qubes_core_admin_linux.Apply.Codes.{apply_updates_to_appvm_code}
use qubes_core_admin_linux.Args.{Args}
use qubes_core_admin_linux.Exec.{Result-cases}
use qubes_core_admin_linux.Main.{
  admins, all_no_updates, derived, Answer-cases, independents, main_code, returned, update_admin,
  finish_main, main_derived, main_independent, Workers, main_targets, main, run_update,
}
use qubes_core_admin_linux.Main.RunCodes.{
  run-IsDocumented, max_ind, run_update_code, IsDocumented, IsRunCode,
}
use qubes_core_admin_linux.Prelude.{ℕ, ◌≡◌, inl, inr, Bool, false, not, ◌&&◌, List, [], ◌∷◌, arith}
use qubes_core_admin_linux.System.{Machine, System}
use qubes_core_admin_linux.Targets.{get_targets}
use qubes_core_admin_linux.Targets.Stale.{Clock}
use qubes_core_admin_linux.Vm.{Vm}

main_code-IsDocumented :
    (args : Args) (code : ℕ) (no_updates : Bool)
    → IsDocumented code
    → IsDocumented (main_code args code no_updates)
unfolding main_code
main_code-IsDocumented args code no_updates h = ground arith

module _ (sys : System) (workers : Workers) (args : Args) (targets : List Vm) where
  finish_main-IsDocumented :
      (admin_code : ℕ) (i a : ℕ × Statuses) (no_updates : Bool) (m : Machine sys) (code : ℕ)
      → IsRunCode admin_code
      → IsRunCode i.0
      → IsRunCode a.0
      → (finish_main sys workers args (independents targets) admin_code i a no_updates m).0
        ≡ returned code
      → IsDocumented code
  unfolding finish_main
  finish_main-IsDocumented admin_code (ic, is) (ac, as') no_updates m code h hi ha e =
      elim (Result-cases (apply_updates_to_appvm sys args (independents targets) is as' m).0) [
        | inr (x, e') ↦ ground arith
        | inl (rc, e') ↦
            let documented = main_code-IsDocumented args _ no_updates (
              max_ind IsDocumented _ rc
                (max_ind IsDocumented _ ac
                  (max_ind IsDocumented _ ic (run-IsDocumented admin_code h)
                    (run-IsDocumented ic hi))
                  (run-IsDocumented ac ha))
                (ground (
                  arith,
                  apply_updates_to_appvm_code sys args (independents targets) is as' m rc e',
                ))) in
            ground arith
      ]

  main_derived-IsDocumented :
      (admin_code : ℕ) (i : ℕ × Statuses) (no_updates : Bool) (m : Machine sys) (code : ℕ)
      → IsRunCode admin_code
      → IsRunCode i.0
      → (main_derived sys workers args targets admin_code i no_updates m).0 ≡ returned code
      → IsDocumented code
  unfolding main_derived
  main_derived-IsDocumented admin_code i no_updates m code h hi e =
      elim (Answer-cases (run_update workers args (derived targets) false)) [
        | inl ((c, st), r) ↦ ground (
          arith,
          finish_main-IsDocumented admin_code i (c, st) (all_no_updates st && no_updates) m code h
              hi (run_update_code workers args (derived targets) false c st r),
        )
        | inr other ↦ ground arith
      ]

  main_independent-IsDocumented :
      (admin_code : ℕ) (no_updates : Bool) (m : Machine sys) (code : ℕ)
      → IsRunCode admin_code
      → (main_independent sys workers args targets admin_code no_updates m).0 ≡ returned code
      → IsDocumented code
  unfolding main_independent
  main_independent-IsDocumented admin_code no_updates m code h e =
      elim (Answer-cases (run_update workers args (independents targets) false)) [
        | inl ((c, st), r) ↦ ground (
          arith,
          main_derived-IsDocumented admin_code (c, st) (all_no_updates st && no_updates) m code h
              (run_update_code workers args (independents targets) false c st r),
        )
        | inr other ↦ ground arith
      ]

update_admin_code :
    (workers : Workers) (args : Args) (admin : List Vm) (code : ℕ) (n : Bool)
    → update_admin workers args admin ≡ returned (code, n)
    → IsRunCode code
unfolding update_admin
update_admin_code workers args admin code n e =
    let dom0 = not (args.just_print_progress && args.no_refresh) in
    elim (Answer-cases (run_update workers args admin dom0)) [
      | inl ((c, st), r) ↦ ground (arith, run_update_code workers args admin dom0 c st r)
      | inr other ↦ ground arith
    ]

main_targets-IsDocumented :
    (sys : System) (workers : Workers) (args : Args) (targets : List Vm) (m : Machine sys)
    (code : ℕ)
    → (main_targets sys workers args targets m).0 ≡ returned code
    → IsDocumented code
unfolding main_targets
main_targets-IsDocumented sys workers args [] m code e = ground arith
main_targets-IsDocumented sys workers args (v ∷ vms) m code e =
    elim (Answer-cases (update_admin workers args (admins (v ∷ vms)))) [
      | inl ((c, n), r) ↦ ground (
        arith,
        main_independent-IsDocumented sys workers args (v ∷ vms) c n m code
            (update_admin_code workers args (admins (v ∷ vms)) c n r),
      )
      | inr other ↦ ground arith
    ]

-- Where `main` returns, its code is one that the manual lists, and not the code 2 of argparse.
pub main-IsDocumented :
    (sys : System) (workers : Workers) (clock : Clock) (args : Args) (domains : List Vm)
    (m : Machine sys) (code : ℕ)
    → (main sys workers clock args domains m).0 ≡ returned code
    → IsDocumented code
unfolding main
main-IsDocumented sys workers clock args domains m code e =
    elim (Result-cases (get_targets clock args domains)) [
      | inl (targets, r) ↦ ground (arith, main_targets-IsDocumented sys workers args targets m code)
      | inr (x, r) ↦ ground arith
    ]
