-- ===== src/Agent/Quiet.antt =====
-- The actions of a connection that report no end of their qube.
use qubes_core_admin_linux.Agent.Counts.{stream_lines_done, done_count-append, done_count}
use qubes_core_admin_linux.Args.{AgentArgs}
use qubes_core_admin_linux.Connection.{
  has_assigned_pci_devices, remove_from, stop_qube, archive, service_command, service_user,
  command_line, script, Entrypoint, copy_file_from_dom0, recover_wait, run_entrypoint,
  run_shell_command, transfer_agent, transfer_to, Conn, call_host, attempt, run_and_report,
  run_and_wait, Link,
}
use qubes_core_admin_linux.Connection.Streams.{collect}
use qubes_core_admin_linux.Exec.{
  ok, err, on_result, assertion_error, is_os_error, Result-cases, called_process_error, raise,
  Exception, on_result_ind, ◌>>=◌, Exec, Result, pure,
}
use qubes_core_admin_linux.Host.{Host}
use qubes_core_admin_linux.Prelude.{
  if_ind, nat_eq, ℕ, ◌≡◌, refl, ap, ◌∙◌, inl, inr, Bool, true, false, String, ◌<>◌, Option, none,
  some, List, [], ◌∷◌, ◌++◌, if◌then◌else◌, arith,
}
use qubes_core_admin_linux.Process.{◌+=◌, failed, ProcessResult}
use qubes_core_admin_linux.System.{System}
use qubes_core_admin_linux.Vm.{is_admin}

module _ (sys : System) (host : Host sys) (link : Link) where
  -- An action that reports no end.
  abbrev pub Quiet : {A : Type 0} → Exec (Conn sys) A → Type 0
  Quiet m = (c : Conn sys) → done_count (m c).1.sent ≡ done_count c.sent

  pub result-Quiet :
      {A B : Type 0} (r : Result A) (c c0 : Conn sys) (f : A → Exec (Conn sys) B)
      → done_count c.sent ≡ done_count c0.sent
      → ((a : A) → Quiet (f a))
      → done_count (on_result r (λ a. f a c) (λ e. (err e, c))).1.sent ≡ done_count c0.sent
  result-Quiet (ok a) c c0 f q k = k a c ∙ q
  result-Quiet (err e) c c0 f q k = q

  pub bind-Quiet :
      {A B : Type 0} (m : Exec (Conn sys) A) (f : A → Exec (Conn sys) B)
      → Quiet m
      → ((a : A) → Quiet (f a))
      → Quiet (m >>= f)
  bind-Quiet m f q k c = result-Quiet (m c).0 (m c).1 c f (q c) k

  pub if_Quiet :
      {A : Type 0} (b : Bool) (m n : Exec (Conn sys) A)
      → Quiet m
      → Quiet n
      → Quiet (if b then m else n)
  if_Quiet true m n q k = q
  if_Quiet false m n q k = k

  pub attempt-Quiet : (command : List String) → Quiet (attempt sys host link command)
  unfolding attempt
  attempt-Quiet command =
      let call = call_host sys (λ s. host.popen s command) in
      let answer = λ (p : ℕ × List ℕ × List ℕ) (c : Conn sys).
        (if nat_eq p.0 0
            then pure {S = Conn sys} {A = List ℕ × List ℕ} (p.1, p.2)
            else raise (called_process_error p.0 (p.1 ++ p.2)))
          c in
      if_Quiet {A = List ℕ × List ℕ} (is_admin link.qube.klass) (call >>= answer)
        (call_host sys (λ s. host.run_with_args s link.qube command))
        (bind-Quiet {A = ℕ × List ℕ × List ℕ} {B = List ℕ × List ℕ} call answer (λ c. refl)
          (λ p c.
            if_Quiet {A = List ℕ × List ℕ} (nat_eq p.0 0) (pure (p.1, p.2))
              (raise (called_process_error p.0 (p.1 ++ p.2))) (λ c. refl) (λ c. refl) c))
        (λ c. refl)

  pub recover_wait_sent :
      (e : Exception) (c : Conn sys) → (recover_wait sys host link e c).1.sent ≡ c.sent
  unfolding recover_wait
  recover_wait_sent (called_process_error code output) c = ground arith
  recover_wait_sent e c = refl

  pub run_and_wait_done :
      (command : List String) (c : Conn sys)
      → done_count (run_and_wait sys host link command c).1.sent ≡ done_count c.sent
  unfolding run_and_wait
  run_and_wait_done command c =
      let r = attempt sys host link command c in
      on_result_ind (λ (q : ProcessResult × Conn sys). done_count q.1.sent ≡ done_count c.sent) r.0
        (λ outs e. attempt-Quiet command c)
        (λ x e. ap done_count (recover_wait_sent x r.1) ∙ attempt-Quiet command c)

  pub run_and_report-Quiet : (command : List String) → Quiet (run_and_report sys host link command)
  unfolding run_and_report
  run_and_report-Quiet command c =
      let r =
        call_host sys
          (λ s.
            host.serve s link.qube (service_user sys host link command)
              (service_command sys host link command))
          c in
      on_result_ind
        (λ (q : Result ProcessResult × Conn sys). done_count q.1.sent ≡ done_count c.sent) r.0
        (λ done e.
          let streams = collect host.float link.qube.name done.0 in
          let kept : done_count (c.sent ++ streams.sent) ≡ done_count c.sent =
            done_count-append c.sent streams.sent
            ∙ omega (
              arith,
              stream_lines_done host.float link.qube.name done.0
                  (record { progress_finished = false; broken = false; sent = [] }),
            ) in
          if_ind (λ (q : Result ProcessResult × Conn sys). done_count q.1.sent ≡ done_count c.sent)
            streams.broken kept
            (if_ind
              (λ (q : Result ProcessResult × Conn sys). done_count q.1.sent ≡ done_count c.sent)
              (nat_eq done.1 100) kept kept))
        (λ x e. refl)

  pub run_shell_command-Quiet :
      (command : List String) (show : Bool) → Quiet (run_shell_command sys host link command show)
  unfolding run_shell_command
  run_shell_command-Quiet command true c = run_and_report-Quiet command c
  run_shell_command-Quiet command false c = run_and_wait_done command c

  pub copy_file-Quiet : (dest : String) → Quiet (copy_file_from_dom0 sys host link dest)
  unfolding copy_file_from_dom0
  copy_file-Quiet dest c =
      on_result_ind
        (λ (q : Result ProcessResult × Conn sys). done_count q.1.sent ≡ done_count c.sent)
        (call_host sys (λ s. host.run_input s link.qube ("cat > " <> dest)) c).0 (λ outs e. refl)
        (λ x e.
          if_ind (λ (q : Result ProcessResult × Conn sys). done_count q.1.sent ≡ done_count c.sent)
            (is_os_error x) refl refl)

  pub transfer_to-Quiet : (dest : String) → Quiet (transfer_to sys host link dest)
  unfolding transfer_to
  transfer_to-Quiet dest =
      let make = run_shell_command sys host link ("mkdir" ∷ "-p" ∷ dest ∷ []) false in
      let unpack =
        run_shell_command sys host link
          ("tar" ∷ "-xzf" ∷ archive sys host link dest ∷ "-C" ∷ dest ∷ []) false in
      let copy = copy_file_from_dom0 sys host link (archive sys host link dest) in
      let last = λ (result unpacked : ProcessResult) (c : Conn sys).
        pure {S = Conn sys} (result += unpacked) c in
      let third = λ (made copied : ProcessResult) (c : Conn sys).
        (if failed (made += copied)
            then pure {S = Conn sys} (made += copied)
            else (unpack >>= last (made += copied)))
          c in
      let second = λ (made : ProcessResult) (c : Conn sys).
        (if failed made then pure {S = Conn sys} made else (copy >>= third made)) c in
      bind-Quiet {A = Unit {0}} {B = ProcessResult} (call_host sys host.make_archive)
        (λ u. make >>= second) (λ c. refl)
        (λ u.
          bind-Quiet {A = ProcessResult} {B = ProcessResult} make second
            (run_shell_command-Quiet _ false)
            (λ made c.
              if_Quiet {A = ProcessResult} (failed made) (pure made) (copy >>= third made)
                (λ c. refl)
                (bind-Quiet {A = ProcessResult} {B = ProcessResult} copy (third made)
                  (copy_file-Quiet _)
                  (λ copied c.
                    if_Quiet {A = ProcessResult} (failed (made += copied)) (pure (made += copied))
                      (unpack >>= last (made += copied)) (λ c. refl)
                      (bind-Quiet {A = ProcessResult} {B = ProcessResult} unpack
                        (last (made += copied)) (run_shell_command-Quiet _ false)
                        (λ unpacked c. refl))
                      c))
                c))

  pub transfer_agent-Quiet : Quiet (transfer_agent sys host link)
  unfolding transfer_agent
  transfer_agent-Quiet = of_dest link.dest_dir
    where
      of_dest :
          (o : Option String)
          → Quiet {A = ProcessResult}
              (elim o [ none ↦ raise assertion_error | some dest ↦ transfer_to sys host link dest ])
      of_dest none = (λ c. refl)
      of_dest (some dest) = transfer_to-Quiet dest

  pub run_entrypoint-Quiet :
      (e : Entrypoint) (args : AgentArgs) → Quiet (run_entrypoint sys host link e args)
  unfolding run_entrypoint
  run_entrypoint-Quiet (script path) args = run_shell_command-Quiet _ link.show_progress
  run_entrypoint-Quiet (command_line command) args =
      run_shell_command-Quiet command link.show_progress

  pub remove_from-Quiet :
      (o : Option String) (c : Conn sys)
      → done_count (remove_from sys host link o c).sent ≡ done_count c.sent
  unfolding remove_from
  remove_from-Quiet none c = refl
  remove_from-Quiet (some dest) c = run_shell_command-Quiet _ false c

  pub stop_qube-Quiet : Quiet (stop_qube sys host link)
  unfolding stop_qube
  stop_qube-Quiet c = elim (Result-cases (has_assigned_pci_devices sys host link c)) [
    | inl (pci, e) ↦ ground arith
    | inr (x, e) ↦ ground arith
  ]
