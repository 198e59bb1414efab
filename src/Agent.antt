-- ===== src/Agent.antt =====
-- vmupdate/update_manager.py: `update_qube` and `UpdateAgentManager`, the work of one process of
-- the pool. The cancel flag is read twice; its values are given. Logging is left out.
pub mod Counts
pub mod Session
pub mod Quiet
pub mod Dones
use qubes_core_admin_linux.Args.{AgentArgs}
use qubes_core_admin_linux.Connection.{
  read_logs, set_status, transfer_agent, run_entrypoint, script, with_connection, Conn,
  command_line, Entrypoint, Link,
}
use qubes_core_admin_linux.Exec.{on_result, ok, ◌>>?◌, Exception, pure, ◌>>=◌, Result, Exec}
use qubes_core_admin_linux.Exit.{err_vm_unhandled, sigint, exit_ok}
use qubes_core_admin_linux.Host.{Host}
use qubes_core_admin_linux.Prelude.{
  codes, map, nat_eq, Bool, not, ◌&&◌, ◌||◌, String, ◌<>◌, Option, none, some, List, [], ◌∷◌, ◌++◌,
  if◌then◌else◌,
}
use qubes_core_admin_linux.Process.{failed, ◌+=◌, process_result, ProcessResult}
use qubes_core_admin_linux.Status.{
  is_no_updates, FinalStatus, formated_line, done_info, updating_info, pending_info, Message,
}
use qubes_core_admin_linux.System.{Machine, System}
use qubes_core_admin_linux.Vm.{is_admin, Vm}

-- `StatusNotifierWrapper`: messages go out under another name.
unfoldable pub rename : String → Message → Message
rename name (pending_info _) = pending_info name
rename name (updating_info _ p) = updating_info name p
rename name (done_info _ status) = done_info name status
rename name (formated_line _ stream text) = formated_line name stream text

-- Through a wrapper, or directly.
abbrev pub through : Option String → Message → Message
through none message = message
through (some name) message = rename name message

abbrev pub workdir : String
workdir = "/run/qubes-update/"

module _ (sys : System) (host : Host sys) (qube : Vm) (dom0 : Bool) (this_dir : String) where
  -- The connection that `_run_agent` opens.
  unfoldable pub link_of : AgentArgs → Bool → Link
  link_of args show_progress = record {
    qube = qube;
    dest_dir = if is_admin qube.klass then none else some workdir;
    cleanup = not (is_admin qube.klass) && not args.no_cleanup;
    show_progress = show_progress;
  }

  abbrev flag : String → Bool → List String
  flag name on = if on then name ∷ [] else []

  -- What `_run_agent` runs.
  unfoldable pub entrypoint_of : AgentArgs → Bool → Entrypoint
  entrypoint_of args show_progress =
      if is_admin qube.klass
      then (if dom0
          then command_line (
              ("sudo" ∷ "qubes-dom0-update" ∷ "-y" ∷ [])
              ++ (flag "--just-print-progress" (args.just_print_progress || show_progress)
                  ++ flag "--silent" args.quiet))
          else script (this_dir <> "/agent/entrypoint.py"))
      else script (workdir <> "agent/entrypoint.py")

  -- `_transfer_agent`
  unfoldable pub transfer : Link → Exec (Conn sys) ProcessResult
  transfer link =
      if is_admin qube.klass
      then pure (process_result exit_ok [] [])
      else (transfer_agent sys host link >>= λ r. pure (process_result exit_ok [] [] += r))

  -- `_run_entrypoint`, which sets the final status on success
  unfoldable pub start_entrypoint : Link → AgentArgs → Bool → Exec (Conn sys) ProcessResult
  start_entrypoint link args show_progress =
      run_entrypoint sys host link (entrypoint_of args show_progress) args >>= λ r. λ c.
        let result = process_result exit_ok [] [] += r in
        if not (failed result) && not (is_no_updates c.status)
        then (ok result, set_status sys FinalStatus.success c)
        else (ok result, c)

  -- The body of the `with` of `_run_agent`. A failed transfer does not stop it.
  unfoldable pub session : Link → AgentArgs → Bool → Bool → Exec (Conn sys) ProcessResult
  session link args show_progress cancelled = transfer link >>= λ transferred.
      if cancelled
      then (λ c. (
        ok (process_result sigint [] (codes "Cancelled")),
        set_status sys FinalStatus.cancelled c,
      ))
      else (start_entrypoint link args show_progress >>= λ ran.
          read_logs sys host link >>= λ logs. pure (transferred += ran))

  -- `_log_output`, as far as it changes the result
  unfoldable pub log_output : Bool → ProcessResult → ProcessResult
  log_output show_output result =
      if not show_output
      then record result {
        out = if nat_eq result.code exit_ok then codes "OK" else host.details result.code;
      }
      else result

  -- `run_agent`: the result, the machine, and what went on the queue.
  unfoldable pub run_agent :
      AgentArgs → Bool → Bool → Machine sys → Result ProcessResult × Machine sys × List Message
  run_agent args show_progress cancelled m =
      let link = link_of args show_progress in
      let (r, c) = with_connection sys host link (session link args show_progress cancelled) m in
      let name = if is_admin qube.klass && not dom0 then some "dom0" else none in
      (
        r >>? λ result. ok (log_output args.show_output result),
        c.machine,
        map (through name) c.sent,
      )

  -- `update_qube`: the pair that it returns, the machine, and what went on the queue. The first
  -- flag is the cancel request at the start, the second the one before the entrypoint runs.
  unfoldable pub update_qube :
      AgentArgs
      → Option String
      → Bool
      → Bool
      → Bool
      → Machine sys
      → ProcessResult × Machine sys × List Message
  update_qube args display_name show_progress early late m =
      let (made, s) = host.init_logs m.state in
      let m' = record m { state = s } in
      let (r, m'', sent) = run_agent args show_progress late m' in
      let told = λ (messages : List Message). map (through display_name) messages in
      let failure = λ (e : Exception).
        process_result err_vm_unhandled (codes "ERROR (exception " ++ (host.str e ++ codes ")"))
          [] in
      if early
      then (
        process_result sigint (codes "Canceled") [],
        m,
        told (done_info qube.name FinalStatus.cancelled ∷ []),
      )
      else on_result made
          (λ _.
            on_result r (λ result. (result, m'', told sent))
              (λ e. (failure e, m'', told (sent ++ done_info qube.name FinalStatus.error ∷ []))))
          (λ e. (failure e, m', told (done_info qube.name FinalStatus.error ∷ [])))
