-- ===== src/Agent/Session.antt =====
-- The body of the connection of `_run_agent` reports no end of its qube.
use qubes_core_admin_linux.Agent.{entrypoint_of, session, start_entrypoint, transfer}
use qubes_core_admin_linux.Agent.Counts.{done_count}
use qubes_core_admin_linux.Agent.Quiet.{
  transfer_agent-Quiet, if_Quiet, run_entrypoint-Quiet, bind-Quiet, run_shell_command-Quiet, Quiet,
}
use qubes_core_admin_linux.Args.{AgentArgs}
use qubes_core_admin_linux.Connection.{
  set_status, read_logs, run_entrypoint, transfer_agent, Conn, Link,
}
use qubes_core_admin_linux.Exec.{ok, ◌>>=◌, Exec, Result, pure}
use qubes_core_admin_linux.Exit.{exit_ok, sigint}
use qubes_core_admin_linux.Host.{Host}
use qubes_core_admin_linux.Prelude.{
  codes, not, ◌&&◌, if_ind, ◌≡◌, refl, Bool, false, String, [], if◌then◌else◌,
}
use qubes_core_admin_linux.Process.{process_result, ◌+=◌, failed, ProcessResult}
use qubes_core_admin_linux.Status.{is_no_updates, FinalStatus}
use qubes_core_admin_linux.System.{System}
use qubes_core_admin_linux.Vm.{Vm, is_admin}

module _ (sys : System) (host : Host sys) (link : Link) where
  transfer-Quiet :
      (qube : Vm) (dom0 : Bool) (this_dir : String)
      → Quiet sys host link (transfer sys host qube dom0 this_dir link)
  unfolding transfer
  transfer-Quiet qube dom0 this_dir =
      let add = λ (r : ProcessResult) (c : Conn sys).
        pure {S = Conn sys} (process_result exit_ok [] [] += r) c in
      if_Quiet sys host link {A = ProcessResult} (is_admin qube.klass)
        (pure (process_result exit_ok [] [])) (transfer_agent sys host link >>= add) (λ c. refl)
        (bind-Quiet sys host link {A = ProcessResult} {B = ProcessResult}
          (transfer_agent sys host link) add (transfer_agent-Quiet sys host link) (λ r c. refl))

  module _ (qube : Vm) (dom0 : Bool) (this_dir : String) (args : AgentArgs)
      (show cancelled : Bool) where
    abbrev ran : ProcessResult → Exec (Conn sys) ProcessResult
    ran r c =
        let result = process_result exit_ok [] [] += r in
        if not (failed result) && not (is_no_updates c.status)
        then (ok result, set_status sys FinalStatus.success c)
        else (ok result, c)

    ran-Quiet : (r : ProcessResult) → Quiet sys host link (ran r)
    ran-Quiet r c =
        let result = process_result exit_ok [] [] += r in
        if_ind (λ (q : Result ProcessResult × Conn sys). done_count q.1.sent ≡ done_count c.sent)
          (not (failed result) && not (is_no_updates c.status)) refl refl

    start_entrypoint-Quiet :
        Quiet sys host link (start_entrypoint sys host qube dom0 this_dir link args show)
    unfolding start_entrypoint
    start_entrypoint-Quiet =
        let entrypoint = entrypoint_of sys host qube dom0 this_dir args show in
        bind-Quiet sys host link {A = ProcessResult} {B = ProcessResult}
          (run_entrypoint sys host link entrypoint args) ran
          (run_entrypoint-Quiet sys host link entrypoint args) ran-Quiet

    abbrev logged : ProcessResult → ProcessResult → Exec (Conn sys) ProcessResult
    logged transferred r = read_logs sys host link >>= λ logs. pure (transferred += r)

    abbrev started : ProcessResult → Exec (Conn sys) ProcessResult
    started transferred =
        if cancelled
        then (λ c. (
          ok (process_result sigint [] (codes "Cancelled")),
          set_status sys FinalStatus.cancelled c,
        ))
        else (start_entrypoint sys host qube dom0 this_dir link args show >>= logged transferred)

    read_logs-Quiet : Quiet sys host link (read_logs sys host link)
    unfolding read_logs
    read_logs-Quiet = run_shell_command-Quiet sys host link _ false

    pub session-Quiet :
        Quiet sys host link (session sys host qube dom0 this_dir link args show cancelled)
    unfolding session
    session-Quiet =
        bind-Quiet sys host link {A = ProcessResult} {B = ProcessResult}
          (transfer sys host qube dom0 this_dir link) started (transfer-Quiet qube dom0 this_dir)
          (λ transferred.
            if_Quiet sys host link {A = ProcessResult} cancelled
              (λ c. (
                ok (process_result sigint [] (codes "Cancelled")),
                set_status sys FinalStatus.cancelled c,
              ))
              (start_entrypoint sys host qube dom0 this_dir link args show >>= logged transferred)
              (λ c. refl)
              (bind-Quiet sys host link {A = ProcessResult} {B = ProcessResult}
                (start_entrypoint sys host qube dom0 this_dir link args show) (logged transferred)
                start_entrypoint-Quiet
                (λ r.
                  bind-Quiet sys host link {A = ProcessResult} {B = ProcessResult}
                    (read_logs sys host link) (λ logs. pure (transferred += r)) read_logs-Quiet
                    (λ logs c. refl))))
