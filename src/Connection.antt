-- ===== src/Connection.antt =====
-- vmupdate/qube_connection.py: `QubeConnection`. A method runs over the state of its connection; the
-- fields that no method changes are in `Link`. Logging is left out.
pub mod Streams
pub mod Progress
use qubes_core_admin_linux.Apply.{shutdown_domains}
use qubes_core_admin_linux.Args.{to_cli_args, AgentArgs}
use qubes_core_admin_linux.Connection.Streams.{collect}
use qubes_core_admin_linux.Exec.{
  is_os_error, os_error, assertion_error, index_error, pure, called_process_error, catches_access,
  err, ok, raise, ◌>>=◌, Exception, on_result, recover, Exec, Result,
}
use qubes_core_admin_linux.Exit.{exit_ok}
use qubes_core_admin_linux.Host.{Host}
use qubes_core_admin_linux.Prelude.{
  nat_eq, contains, ℕ, zero, suc, ◌+◌, ◌-◌, ◌≤◌, ◌<◌, max, ◌≡◌, ◌≢◌, refl, sym, ap, ◌∙◌, ◌↔◌, ◌⊎◌,
  inl, inr, Bool, true, false, not, ◌&&◌, ◌||◌, String, ◌<>◌, Option, none, some, List, [], ◌∷◌,
  ◌++◌, if◌then◌else◌, arith,
}
use qubes_core_admin_linux.Process.{
  ◌+=◌, failed, from_untrusted_out_err, process_result, ProcessResult,
}
use qubes_core_admin_linux.Status.{done_info, FinalStatus, Message}
use qubes_core_admin_linux.System.{call_shutdown, running, Machine, System}
use qubes_core_admin_linux.Vm.{is_admin, Vm}

pub record Link : Type 0 where
  pub qube : Vm
  pub dest_dir : Option String
  pub cleanup : Bool
  pub show_progress : Bool

-- What `run_entrypoint` is given: a path, which Python runs with the agent's arguments, or a list
-- that is run as it is.
pub data Entrypoint : Type 0 where
  script : String → Entrypoint
  command_line : List String → Entrypoint

module _ (sys : System) where
  -- The machine, `self.status`, and what the connection has put on the queue.
  pub record Conn : Type 0 where
    pub machine : Machine sys
    pub status : FinalStatus
    pub sent : List Message

  -- A call of the host, which may change the state of the system.
  abbrev pub call_host : {A : Type 0} → (sys.State → Result A × sys.State) → Exec Conn A
  call_host f c =
      let (r, s) = f c.machine.state in (r, record c { machine = record c.machine { state = s } })

  abbrev pub on_machine : {A : Type 0} → Exec (Machine sys) A → Exec Conn A
  on_machine f c = let (r, m) = f c.machine in (r, record c { machine = m })

  abbrev pub set_status : FinalStatus → Conn → Conn
  set_status status c = record c { status = status }

  unfoldable pub put : Message → Conn → Conn
  put message c = record c { sent = c.sent ++ message ∷ [] }

  abbrev pub put_all : List Message → Conn → Conn
  put_all messages c = record c { sent = c.sent ++ messages }

module _ (sys : System) (host : Host sys) (link : Link) where
  -- The `try` of `_run_command_and_wait_for_output`.
  unfoldable pub attempt : List String → Exec (Conn sys) (List ℕ × List ℕ)
  attempt command =
      if is_admin link.qube.klass
      then (call_host sys (λ s. host.popen s command) >>= λ p.
          if nat_eq p.0 0 then pure (p.1, p.2) else raise (called_process_error p.0 (p.1 ++ p.2)))
      else call_host sys (λ s. host.run_with_args s link.qube command)

  -- Its handlers.
  unfoldable pub recover_wait : Exception → Conn sys → ProcessResult × Conn sys
  recover_wait (called_process_error code output) c =
      let result = from_untrusted_out_err output output in
      if nat_eq code 100
      then (result, set_status sys FinalStatus.no_updates c)
      else (record result { code = code }, c)
  recover_wait e c = (process_result 1 [] (host.str e), c)

  -- `_run_command_and_wait_for_output`, which raises nothing
  unfoldable pub run_and_wait : List String → Conn sys → ProcessResult × Conn sys
  run_and_wait command c =
      let (r, c') = attempt command c in
      on_result r
        (λ outs. (process_result exit_ok [] [] += from_untrusted_out_err outs.0 outs.1, c'))
        (λ e. recover_wait e c')

  abbrev pub service_user : List String → String
  service_user command = if contains command "--download-only" then "user" else "root"

  -- The command line of the service: `fakeroot` stands before a download.
  abbrev pub service_command : List String → List String
  service_command command =
      if not (is_admin link.qube.klass) && contains command "--download-only"
      then "fakeroot" ∷ command
      else command

  -- `_run_command_and_actively_report_progress`
  unfoldable pub run_and_report : List String → Exec (Conn sys) ProcessResult
  run_and_report command c =
      let (r, c') =
        call_host sys (λ s. host.serve s link.qube (service_user command) (service_command command))
          c in
      on_result r
        (λ done.
          let streams = collect host.float link.qube.name done.0 in
          let c'' = put_all sys streams.sent c' in
          if streams.broken
          then (err index_error, c'')
          else if nat_eq done.1 100
          then (ok (process_result exit_ok [] []), set_status sys FinalStatus.no_updates c'')
          else (ok (process_result done.1 [] []), c''))
        (λ e. (err e, c'))

  -- `_run_shell_command_in_qube`
  unfoldable pub run_shell_command : List String → Bool → Exec (Conn sys) ProcessResult
  run_shell_command command show c =
      let waited = run_and_wait command c in
      if show then run_and_report command c else (ok waited.0, waited.1)

  abbrev pub archive : String → String
  archive dest = dest <> "agent.tar.gz"

  -- `_copy_file_from_dom0`, whose handler catches `OSError` alone
  unfoldable pub copy_file_from_dom0 : String → Exec (Conn sys) ProcessResult
  copy_file_from_dom0 dest c =
      let (r, c') = call_host sys (λ s. host.run_input s link.qube ("cat > " <> dest)) c in
      on_result r (λ outs. (ok (from_untrusted_out_err outs.0 outs.1), c'))
        (λ e. if is_os_error e then (ok (process_result 1 (host.str e) []), c') else (err e, c'))

  -- The three commands of `transfer_agent`; it stops at the first that fails.
  unfoldable pub transfer_to : String → Exec (Conn sys) ProcessResult
  transfer_to dest = call_host sys host.make_archive >>= λ _.
      run_shell_command ("mkdir" ∷ "-p" ∷ dest ∷ []) false >>= λ made.
      if failed made
      then pure made
      else (copy_file_from_dom0 (archive dest) >>= λ copied.
          let result = made += copied in
          if failed result
          then pure result
          else (run_shell_command ("tar" ∷ "-xzf" ∷ archive dest ∷ "-C" ∷ dest ∷ []) false
              >>= λ unpacked. pure (result += unpacked)))

  unfoldable pub transfer_agent : Exec (Conn sys) ProcessResult
  transfer_agent = elim link.dest_dir [
    | none ↦ raise assertion_error
    | some dest ↦ transfer_to dest
  ]

  -- `run_entrypoint`
  unfoldable pub run_entrypoint : Entrypoint → AgentArgs → Exec (Conn sys) ProcessResult
  run_entrypoint (script path) args =
      run_shell_command ("/usr/bin/python3" ∷ path ∷ to_cli_args args) link.show_progress
  run_entrypoint (command_line command) args = run_shell_command command link.show_progress

  unfoldable pub read_logs : Exec (Conn sys) ProcessResult
  read_logs = run_shell_command ("cat" ∷ "/var/log/qubes/qubes-update/update-agent.log" ∷ []) false

  -- The removal of the transferred files, whose errors are logged only.
  unfoldable pub remove_from : Option String → Conn sys → Conn sys
  remove_from none c = c
  remove_from (some dest) c = (run_shell_command ("rm" ∷ "-r" ∷ dest ∷ []) false c).1

  abbrev pub remove_files : Conn sys → Conn sys
  remove_files = remove_from link.dest_dir

  -- `_has_assigned_pci_devices`
  unfoldable pub has_assigned_pci_devices : Conn sys → Result Bool
  has_assigned_pci_devices c =
      recover catches_access false (host.pci_devices c.machine.state link.qube)

  -- The shutdown of a qube that the connection has started.
  unfoldable pub stop_qube : Exec (Conn sys) (Unit {0})
  stop_qube c =
      on_result (has_assigned_pci_devices c)
        (λ pci.
          if pci
          then on_machine sys (shutdown_domains sys (link.qube ∷ []) >>= λ _. pure tt) c
          else on_machine sys (call_shutdown sys link.qube false) c)
        (λ e. (err e, c))

  -- `__exit__`, for a qube that was running at the start or not
  unfoldable pub exit : Bool → Exec (Conn sys) (Unit {0})
  exit initially_running c =
      let told = put sys (done_info link.qube.name c.status) c in
      let cleaned = if link.cleanup then remove_files told else told in
      if running sys cleaned.machine link.qube && not initially_running
      then stop_qube cleaned
      else (ok tt, cleaned)

  -- `with QubeConnection(...) as qconn: body`. `__exit__` runs also if the body raises, whose
  -- exception goes on unless `__exit__` raises one of its own.
  unfoldable pub with_connection :
      {A : Type 0} → Exec (Conn sys) A → Machine sys → Result A × Conn sys
  with_connection body m =
      let initially_running = running sys m link.qube in
      let (r, c) = body (record { machine = m; status = FinalStatus.error; sent = [] }) in
      let (x, c') = exit initially_running c in on_result x (λ _. (r, c')) (λ e. (err e, c'))
