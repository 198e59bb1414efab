-- ===== src/Tests/Manager.antt =====
-- The manager, run.
use qubes_core_admin_linux.Args.{Args}
use qubes_core_admin_linux.Exec.{assertion_error, Exception, ok}
use qubes_core_admin_linux.Exit.{sigint, exit_ok}
use qubes_core_admin_linux.Manager.{
  Outcome, blocked, collect_result, collected, fed, feed, vm_code, Event, Manager, Pool, drive,
  final_code, run,
}
use qubes_core_admin_linux.Manager.Codes.{final_code_exact, drive_code, highest}
use qubes_core_admin_linux.Manager.Feeding.{drive_left, dones, AllName, drive_done_twice}
use qubes_core_admin_linux.Manager.Progress.{
  no_bars, bar_count, set_description, feed_bars, add_bar, Bars, start_bars,
}
use qubes_core_admin_linux.Manager.Runs.{run_same_name, run_blocked}
use qubes_core_admin_linux.Prelude.{
  any, insert, eq_iff, lookup, ◌-◌, ◌<◌, ◌≡◌, ◌≢◌, refl, ◌↔◌, ◌⊎◌, inr, true, false, String, none,
  some, List, [], ◌∷◌, arith,
}
use qubes_core_admin_linux.Prelude.Int.{pos}
use qubes_core_admin_linux.Process.{process_result}
use qubes_core_admin_linux.Status.{
  is_unknown, is_error, is_cancelled, final_value, FinalStatus, done_info, status_value,
}
use qubes_core_admin_linux.Tests.Samples.{fedora, sys_net, templates_args, agent_args}

abbrev two_bars : Bars
two_bars = record {
  progresses = ("fedora", pos 0) ∷ ("sys-net", pos 0) ∷ [];
  progress_bars =
      ("fedora", record { desc = "fedora (pending)"; progress = some (pos 0) })
      ∷ ("sys-net", record { desc = "sys-net (pending)"; progress = some (pos 0) })
      ∷ [];
  statuses = [];
  terminal_bars = 0;
}

abbrev empty_manager : Manager
empty_manager = record {
  show_output = false;
  quiet = false;
  no_progress = false;
  buffered = true;
  buffer = [];
  stdout = [];
  ret_code = 0;
}

abbrev pool : Pool
pool = record { manager = empty_manager; bars = two_bars; left = 2 }

abbrev results : List Event
results =
    collected "fedora" (process_result 24 [] [])
    ∷ collected "sys-net" (process_result 23 [] [])
    ∷ []

abbrev after_results : Pool
after_results = record pool { manager = record empty_manager { ret_code = 24 } }

results_lem : drive results pool ≡ ok after_results
unfolding drive collect_result vm_code
results_lem = refl

drive_code_example : 24 ≡ highest results 0
drive_code_example = drive_code results pool after_results results_lem

final_code_exact_example :
    ((final_code false (FinalStatus.cancelled ∷ []) 24 ≡ sigint)
      ↔ ((false ≡ true) ⊎ (any is_cancelled (FinalStatus.cancelled ∷ []) ≡ true)))
    × ((final_code false (FinalStatus.cancelled ∷ []) 24 ≡ exit_ok) ↔ (
        (false ≡ false)
        × (any is_cancelled (FinalStatus.cancelled ∷ []) ≡ false)
        × (any is_error (FinalStatus.cancelled ∷ []) ≡ false)
        × (any is_unknown (FinalStatus.cancelled ∷ []) ≡ false)
        × (24 ≡ exit_ok)))
final_code_exact_example =
    final_code_exact false (FinalStatus.cancelled ∷ []) 24 (inr (ground arith))

abbrev done_twice : List Event
done_twice =
    fed (done_info "fedora" FinalStatus.error)
    ∷ fed (done_info "fedora" FinalStatus.error)
    ∷ fed (done_info "sys-net" FinalStatus.success)
    ∷ []

abbrev after_twice : Pool
after_twice = record pool {
  bars = record two_bars {
    progress_bars =
        ("fedora", record { desc = "fedora (error)"; progress = some (pos 0) })
        ∷ ("sys-net", record { desc = "sys-net (pending)"; progress = some (pos 0) })
        ∷ [];
    statuses = ("fedora", FinalStatus.error) ∷ [];
  };
  left = 0;
}

twice_lem : drive done_twice pool ≡ ok after_twice
unfolding drive feed feed_bars set_description final_value insert lookup
twice_lem = refl

differ : ◌≢◌ {A = String} "fedora" "sys-net"
differ = ground (arith, eq_iff "fedora" "sys-net")

drive_done_twice_example : lookup "sys-net" after_twice.bars.statuses ≡ none
drive_done_twice_example =
    drive_done_twice "fedora" "sys-net" FinalStatus.error FinalStatus.error
      (fed (done_info "sys-net" FinalStatus.success) ∷ []) pool after_twice differ refl refl
      twice_lem

named : AllName two_bars done_twice
unfolding lookup
named = (refl, (refl, (refl, tt)))

drive_left_example :
    (p' : Pool) × (drive done_twice pool ≡ ok p') × (p'.left ≡ 2 - dones done_twice)
drive_left_example = drive_left done_twice pool named

started_lem : start_bars none true false (fedora ∷ sys_net ∷ []) no_bars ≡ ok two_bars
unfolding start_bars add_bar status_value insert
started_lem = refl

run_blocked_example :
    ((run templates_args (fedora ∷ sys_net ∷ []) done_twice false ≡ blocked)
      ↔ (dones done_twice < bar_count two_bars))
    × ((x : Exception)
        → run templates_args (fedora ∷ sys_net ∷ []) done_twice false ≢ Outcome.raised x)
run_blocked_example =
    run_blocked templates_args fedora (sys_net ∷ []) done_twice false two_bars started_lem named

abbrev renamed_args : Args
renamed_args = record templates_args {
  display_name = some "dom0";
  agent = record agent_args { just_print_progress = true };
}

run_same_name_example :
    run renamed_args (fedora ∷ sys_net ∷ fedora ∷ []) [] false ≡ Outcome.raised assertion_error
run_same_name_example =
    run_same_name renamed_args "dom0" fedora sys_net fedora [] [] false refl refl refl refl refl
