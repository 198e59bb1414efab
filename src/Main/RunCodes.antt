-- ===== src/Main/RunCodes.antt =====
-- The exit codes of `run_update`.
use qubes_core_admin_linux.Apply.{Statuses}
use qubes_core_admin_linux.Args.{Args}
use qubes_core_admin_linux.Exec.{on_result, err, ◌>>?◌, Exception, Result-cases}
use qubes_core_admin_linux.Exit.{
  err_usage, sigint, err_qrexex, err_start_app, err_vm_unhandled, err_shutdown_tmpl, err_vm,
  err_general, ok_no_updates, exit_ok,
}
use qubes_core_admin_linux.Main.{returned, Workers, run_update}
use qubes_core_admin_linux.Manager.{
  finish, pool_of, drive, show_progress, Outcome, Manager, new_manager, Outcome-cases, Pool, run,
  collected, fed, vm_code, Event, final_code,
}
use qubes_core_admin_linux.Manager.Codes.{drive_code, vm_code_exact, highest, IsVmCode}
use qubes_core_admin_linux.Manager.Progress.{no_bars, start_bars}
use qubes_core_admin_linux.Manager.Runs.{run_started}
use qubes_core_admin_linux.Prelude.{
  subst, values, ℕ, ◌≤◌, max, ◌≡◌, refl, sym, ap, ◌∙◌, ◌⊎◌, inl, inr, Bool, List, [], ◌∷◌, arith,
}
use qubes_core_admin_linux.Status.{FinalStatus}
use qubes_core_admin_linux.Vm.{Vm}

abbrev pub IsRunCode : ℕ → Type 0
IsRunCode code =
    (code ≡ exit_ok)
    ⊎ (code ≡ err_general)
    ⊎ ((err_vm ≤ code) × (code ≤ err_vm_unhandled))
    ⊎ (code ≡ err_qrexex)
    ⊎ (code ≡ sigint)

-- The return codes that the manual of qubes-vm-update lists, but for the code 2 of argparse.
abbrev pub IsDocumented : ℕ → Type 0
IsDocumented code =
    (code ≡ exit_ok)
    ⊎ (code ≡ ok_no_updates)
    ⊎ (code ≡ err_general)
    ⊎ ((err_shutdown_tmpl ≤ code) × (code ≤ err_start_app))
    ⊎ ((err_vm ≤ code) × (code ≤ err_vm_unhandled))
    ⊎ (code ≡ err_qrexex)
    ⊎ (code ≡ err_usage)
    ⊎ (code ≡ sigint)

pub highest-IsVmCode :
    (events : List Event) (code : ℕ) → IsVmCode code → IsVmCode (highest events code)
highest-IsVmCode [] code h = h
highest-IsVmCode (fed _ ∷ events) code h = highest-IsVmCode events code h
highest-IsVmCode (collected _ r ∷ events) code h =
    highest-IsVmCode events (max code (vm_code r.code)) (ground (arith, vm_code_exact r.code))

pub final_code_run :
    (termination : Bool) (stats : List FinalStatus) (code : ℕ)
    → IsVmCode code
    → IsRunCode (final_code termination stats code)
unfolding final_code
final_code_run termination stats code v = ground arith

pub finish_code :
    (termination : Bool) (p : Pool) (code : ℕ) (st : Statuses) (m : Manager)
    → IsVmCode p.manager.ret_code
    → finish termination p ≡ Outcome.finished code st m
    → IsRunCode code
finish_code termination p code st m v e =
    ground (arith, final_code_run termination (values p.bars.statuses) p.manager.ret_code v)

pub run_code :
    (args : Args) (qubes : List Vm) (events : List Event) (termination : Bool) (code : ℕ)
    (st : Statuses) (m : Manager)
    → run args qubes events termination ≡ Outcome.finished code st m
    → IsRunCode code
unfolding run new_manager
run_code args [] events termination code st m e = ground arith
run_code args (q ∷ qs) events termination code st m e =
    let starting =
      start_bars args.display_name (show_progress args.agent) args.agent.just_print_progress
        (q ∷ qs) no_bars in
    elim (Result-cases starting) [
      | inr (x, s) ↦ absurd (
          raised_ne
            (sym (run_failed x (ap (λ r. r >>? λ b. drive events (pool_of args.agent b)) s)) ∙ e))
      | inl (bars, s) ↦ elim (Result-cases (drive events (pool_of args.agent bars))) [
        | inr (x, d) ↦ absurd (
            raised_ne (
              sym (run_failed x (ap (λ r. r >>? λ b. drive events (pool_of args.agent b)) s ∙ d))
              ∙ e))
        | inl (p, d) ↦
            finish_code termination p code st m
              (subst IsVmCode (sym (drive_code events (pool_of args.agent bars) p d))
                (highest-IsVmCode events exit_ok (inl refl)))
              (sym (run_started args q qs events termination bars p s d) ∙ e)
      ]
    ]
  where
    run_failed :
        (x : Exception)
        → (start_bars args.display_name
              (show_progress args.agent)
              args.agent.just_print_progress
              (q ∷ qs)
              no_bars
            >>? λ b. drive events (pool_of args.agent b))
          ≡ err x
        → run args (q ∷ qs) events termination ≡ Outcome.raised x
    run_failed x f = ap (λ r. on_result r (finish termination) Outcome.raised) f

    raised_ne : {x : Exception} → Outcome.raised x ≡ Outcome.finished code st m → ⊥
    raised_ne f = cc

pub run_update_code :
    (workers : Workers) (args : Args) (targets : List Vm) (dom0 : Bool) (code : ℕ) (st : Statuses)
    → run_update workers args targets dom0 ≡ returned (code, st)
    → IsRunCode code
unfolding run_update
run_update_code workers args targets dom0 code st e =
    let batch = workers targets dom0 in
    elim (Outcome-cases (run args targets batch.0 batch.1)) [
      | inl (c, st', m, r) ↦ ground (arith, run_code args targets batch.0 batch.1 c st' m r)
      | inr other ↦ ground arith
    ]

pub max-cases : (a b : ℕ) → (max a b ≡ a) ⊎ (max a b ≡ b)
max-cases a b = omega arith

pub max_ind : (P : ℕ → Type 0) (a b : ℕ) → P a → P b → P (max a b)
max_ind P a b pa pb = elim (max-cases a b) [
  | inl e ↦ subst P (sym e) pa
  | inr e ↦ subst P (sym e) pb
]

pub run-IsDocumented : (code : ℕ) → IsRunCode code → IsDocumented code
run-IsDocumented code h = ground arith
