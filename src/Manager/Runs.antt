-- ===== src/Manager/Runs.antt =====
-- Whole runs of `UpdateManager.run`: when they end, and with what.
use qubes_core_admin_linux.Args.{Args}
use qubes_core_admin_linux.Exec.{assertion_error, err, ◌>>?◌, on_result, Exception, ok}
use qubes_core_admin_linux.Exit.{exit_ok, sigint}
use qubes_core_admin_linux.Manager.{
  finish, raised, flush, pool_of, blocked, fed, collect_result, collected, finished, Manager,
  show_progress, Pool, Event, new_manager, final_code, drive, run,
}
use qubes_core_admin_linux.Manager.Codes.{drive_code, highest}
use qubes_core_admin_linux.Manager.Feeding.{drive_left, dones, AllName}
use qubes_core_admin_linux.Manager.Progress.{add_bar, bar_count, no_bars, Bars, start_bars}
use qubes_core_admin_linux.Prelude.{
  eq_iff, insert, true, some, ◌∙◌, ap, ℕ, ◌<◌, ◌↔◌, arith, ◌∷◌, false, Bool, values, String, List,
  Option, ◌≡◌, ◌≢◌, refl, [], if◌then◌else◌,
}
use qubes_core_admin_linux.Vm.{is_admin, Vm}

drive_idle :
    (events : List Event) (p : Pool)
    → p.left ≡ 0
    → (p' : Pool) × (drive events p ≡ ok p') × (p'.bars ≡ p.bars) × (p'.left ≡ 0)
unfolding drive
drive_idle [] p z = (p, refl, refl, z)
drive_idle (collected q r ∷ events) p z =
    drive_idle events (record p { manager = collect_result q r p.manager }) z
drive_idle (fed msg ∷ events) p z =
    let (p', e, b, l) = drive_idle events p z in (p', ground arith, b, l)

start_bars_hidden :
    (name : Option String) (simple : Bool) (qubes : List Vm) (b : Bars)
    → start_bars name false simple qubes b ≡ ok b
unfolding start_bars
start_bars_hidden name simple [] b = refl
start_bars_hidden name simple (q ∷ qs) b = ground (arith, start_bars_hidden name simple qs b)

start_bars_same_name :
    (name : String) (a b c : Vm) (qubes : List Vm)
    → is_admin a.klass ≡ false
    → is_admin b.klass ≡ false
    → start_bars (some name) true true (a ∷ b ∷ c ∷ qubes) no_bars ≡ err assertion_error
unfolding start_bars add_bar insert
start_bars_same_name name a b c qubes not_a not_b = ground (arith, eq_iff name name)

pub run_started :
    (args : Args) (qube : Vm) (qubes : List Vm) (events : List Event) (termination : Bool)
    (bars : Bars) (p : Pool)
    → start_bars args.display_name
        (show_progress args.agent)
        args.agent.just_print_progress
        (qube ∷ qubes)
        no_bars
      ≡ ok bars
    → drive events (pool_of args.agent bars) ≡ ok p
    → run args (qube ∷ qubes) events termination ≡ finish termination p
unfolding run
run_started args qube qubes events termination bars p s d =
    ap (λ r. on_result (r >>? λ b. drive events (pool_of args.agent b)) (finish termination) raised)
      s
    ∙ ap (λ r. on_result r (finish termination) raised) d

finish_hidden :
    (termination : Bool) (p : Pool) (code : ℕ)
    → p.bars.statuses ≡ []
    → p.left ≡ 0
    → p.manager.ret_code ≡ code
    → finish termination p ≡ finished (if termination then sigint else code) [] (flush p.manager)
unfolding final_code values
finish_hidden termination p code s l c = ground arith

-- Where progress is not shown, as under `--quiet` and `--no-progress`, a run of any qubes ends with
-- no status at all, whatever the workers reported. Its code is 130 if a cancel was requested, and
-- else the highest code of the workers' results.
pub run_hidden :
    (args : Args) (qube : Vm) (qubes : List Vm) (events : List Event) (termination : Bool)
    → show_progress args.agent ≡ false
    → (m : Manager) × (run args (qube ∷ qubes) events termination
        ≡ finished (if termination then sigint else highest events exit_ok) [] m)
unfolding new_manager
run_hidden args qube qubes events termination hidden =
    let p = pool_of args.agent no_bars in
    let (p', e, b, l) = drive_idle events p refl in
    let started =
      ap
        (λ show.
          start_bars args.display_name show args.agent.just_print_progress (qube ∷ qubes) no_bars)
        hidden
      ∙ start_bars_hidden args.display_name args.agent.just_print_progress (qube ∷ qubes) no_bars in
    (
      flush p'.manager,
      run_started args qube qubes events termination no_bars p' started e
          ∙ finish_hidden termination p' _ (ap (λ (c : Bars). c.statuses) b) l
              (drive_code events p p' e),
    )

-- Where the bars can be set up, without a failed assertion or a missing name, and every message names
-- one, a run blocks exactly if fewer `DONE` messages come than there are bars, and it raises nothing.
pub run_blocked :
    (args : Args) (qube : Vm) (qubes : List Vm) (events : List Event) (termination : Bool)
    (bars : Bars)
    → start_bars args.display_name
        (show_progress args.agent)
        args.agent.just_print_progress
        (qube ∷ qubes)
        no_bars
      ≡ ok bars
    → AllName bars events
    → ((run args (qube ∷ qubes) events termination ≡ blocked) ↔ (dones events < bar_count bars))
      × ((x : Exception) → run args (qube ∷ qubes) events termination ≢ raised x)
unfolding run
run_blocked args qube qubes events termination bars started names =
    let (p', e, l) = drive_left events (pool_of args.agent bars) names in ground arith

-- Under `--just-print-progress`, where progress is shown and `--display-name` gives all qubes the same
-- name, a run of three qubes or more ends with an `AssertionError` at the third bar, if the first two
-- are not dom0: the dict of bars has one entry and the list of all bars has two.
pub run_same_name :
    (args : Args) (name : String) (a b c : Vm) (qubes : List Vm) (events : List Event)
    (termination : Bool)
    → args.display_name ≡ some name
    → show_progress args.agent ≡ true
    → args.agent.just_print_progress ≡ true
    → is_admin a.klass ≡ false
    → is_admin b.klass ≡ false
    → run args (a ∷ b ∷ c ∷ qubes) events termination ≡ raised assertion_error
unfolding run
run_same_name args name a b c qubes events termination named shown simple not_a not_b =
    ap
      (λ r.
        on_result (r >>? λ bars. drive events (pool_of args.agent bars)) (finish termination)
          raised)
      (ap
          (λ n.
            start_bars n (show_progress args.agent) args.agent.just_print_progress
              (a ∷ b ∷ c ∷ qubes) no_bars)
          named
        ∙ (ap
              (λ s.
                start_bars (some name) s args.agent.just_print_progress (a ∷ b ∷ c ∷ qubes) no_bars)
              shown
            ∙ (ap (λ s. start_bars (some name) true s (a ∷ b ∷ c ∷ qubes) no_bars) simple
                ∙ start_bars_same_name name a b c qubes not_a not_b)))
