-- ===== src/Manager.antt =====
-- vmupdate/update_manager.py: `UpdateManager` and `MultipleUpdateMultipleProgressBar`. The workers
-- of the pool run beside the manager; what reaches it is a sequence of events: messages that
-- `feeding` takes from the queue, and results that the pool hands to `collect_result`.
pub mod Board
pub mod Progress
pub mod Codes
pub mod Feeding
pub mod Runs
pub mod Shown
use qubes_core_admin_linux.Args.{Args, AgentArgs}
use qubes_core_admin_linux.Exec.{on_result, err, Exception, ok, ◌>>?◌, Result}
use qubes_core_admin_linux.Exit.{
  err_qrexex, err_general, ok_no_updates, err_vm_unhandled, exit_ok, sigint, vm_handled,
}
use qubes_core_admin_linux.Manager.Progress.{start_bars, bar_count, no_bars, Bars, feed_bars}
use qubes_core_admin_linux.Prelude.{
  is_nil, refl, inr, inl, ◌⊎◌, ◌≡◌, ◌-◌, ℕ, max, nat_eq, Bool, true, false, not, String, Option,
  none, some, List, [], ◌∷◌, ◌++◌, any, insert, values, Text, codes, lines, if◌then◌else◌, ◌&&◌,
  ◌||◌,
}
use qubes_core_admin_linux.Process.{ProcessResult}
use qubes_core_admin_linux.Status.{
  is_unknown, formated_line, is_error, done_info, is_cancelled, FinalStatus, Message, line_text,
}
use qubes_core_admin_linux.Vm.{Vm}

pub record Manager : Type 0 where
  pub show_output : Bool
  pub quiet : Bool
  pub no_progress : Bool
  pub buffered : Bool
  pub buffer : Text
  pub stdout : List Text
  pub ret_code : ℕ

-- `UpdateManager.__init__`
unfoldable pub new_manager : AgentArgs → Manager
new_manager args = record {
  show_output = args.show_output;
  quiet = args.quiet;
  no_progress = args.no_progress;
  buffered = not args.just_print_progress && not args.no_progress;
  buffer = [];
  stdout = [];
  ret_code = exit_ok;
}

-- `UpdateManager.print`
unfoldable pub print_line : Text → Manager → Manager
print_line text m =
    if m.buffered
    then record m { buffer = m.buffer ++ (text ++ 10 ∷ []) }
    else record m { stdout = m.stdout ++ text ∷ [] }

unfoldable pub print_lines : String → String → List Text → Manager → Manager
print_lines qname stream [] m = m
print_lines qname stream (l ∷ ls) m =
    print_lines qname stream ls (print_line (line_text qname stream l) m)

-- The code that a worker's result stands for.
unfoldable pub vm_code : ℕ → ℕ
vm_code code =
    let handled = if vm_handled code then code else err_vm_unhandled in
    if nat_eq handled ok_no_updates then err_vm_unhandled else handled

-- `UpdateManager.collect_result`
unfoldable pub collect_result : String → ProcessResult → Manager → Manager
collect_result qname result m =
    let counted = record m { ret_code = max m.ret_code (vm_code result.code) } in
    if m.show_output
    then print_lines qname "err" (lines result.err)
        (print_lines qname "out" (lines result.out) counted)
    else if not m.quiet && m.no_progress
    then print_line result.out counted
    else counted

-- What reaches the manager while the pool works.
pub data Event : Type 0 where
  fed : Message → Event
  collected : String → ProcessResult → Event

pub record Pool : Type 0 where
  pub manager : Manager
  pub bars : Bars
  -- `left_to_finish`; once it is 0 `feeding` has returned and takes nothing more from the queue
  pub left : ℕ

-- One turn of the loop of `feeding`, while there are bars left to finish.
unfoldable pub feed : Message → Pool → Result Pool
feed message p = feed_bars message p.bars >>? λ bars. elim message [
  | done_info _ _ ↦ ok (record p { bars = bars; left = p.left - 1 })
  | formated_line qname stream text ↦ ok (
      if p.manager.show_output
      then record p { manager = print_line (line_text qname stream text) p.manager }
      else p)
  | _ ↦ ok (record p { bars = bars })
]

unfoldable pub drive : List Event → Pool → Result Pool
drive [] p = ok p
drive (collected qname result ∷ events) p =
    drive events (record p { manager = collect_result qname result p.manager })
drive (fed message ∷ events) p =
    let rest = λ (q : Pool). drive events q in
    if nat_eq p.left 0 then rest p else (feed message p >>? rest)

-- The end of `run`: the cancel request and the statuses raise the code.
unfoldable pub final_code : Bool → List FinalStatus → ℕ → ℕ
final_code termination stats code =
    let requested = if termination then sigint else code in
    let cancelled_code = if any is_cancelled stats then max requested sigint else requested in
    let error_code =
      if any is_error stats then max cancelled_code err_general else cancelled_code in
    if any is_unknown stats then max error_code err_qrexex else error_code

pub data Outcome : Type 0 where
  -- the return code, the statuses, and what was printed
  finished : ℕ → List (String × FinalStatus) → Manager → Outcome
  raised : Exception → Outcome
  -- `feeding` waits for a message that never comes
  blocked : Outcome

abbrev pub show_progress : AgentArgs → Bool
show_progress args = not args.quiet && not args.no_progress

abbrev pub pool_of : AgentArgs → Bars → Pool
pool_of args bars = record { manager = new_manager args; bars = bars; left = bar_count bars }

abbrev pub flush : Manager → Manager
flush m = if is_nil m.buffer then m else record m { stdout = m.stdout ++ m.buffer ∷ [] }

abbrev pub finish : Bool → Pool → Outcome
finish termination p =
    let code = final_code termination (values p.bars.statuses) p.manager.ret_code in
    if nat_eq p.left 0 then finished code p.bars.statuses (flush p.manager) else blocked

-- `UpdateManager.run`, given the events until the pool has ended and whether a cancel was requested.
unfoldable pub run : Args → List Vm → List Event → Bool → Outcome
run args [] events termination = finished exit_ok [] (new_manager args.agent)
run args (qube ∷ qubes) events termination =
    let started =
      start_bars args.display_name (show_progress args.agent) args.agent.just_print_progress
        (qube ∷ qubes) no_bars
      >>? λ bars. drive events (pool_of args.agent bars) in
    on_result started (finish termination) raised

pub Outcome-cases :
    (o : Outcome)
    → ((c : ℕ) × (st : List (String × FinalStatus)) × (m : Manager) × (o ≡ finished c st m))
      ⊎ (((x : Exception) × (o ≡ raised x)) ⊎ (o ≡ blocked))
Outcome-cases (finished c st m) = inl (c, st, m, refl)
Outcome-cases (raised x) = inr (inl (x, refl))
Outcome-cases blocked = inr (inr refl)
