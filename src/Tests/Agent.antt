-- ===== src/Tests/Agent.antt =====
-- A worker, run.
use qubes_core_admin_linux.Agent.{run_agent, update_qube}
use qubes_core_admin_linux.Agent.Counts.{done_count}
use qubes_core_admin_linux.Agent.Dones.{update_qube_dones}
use qubes_core_admin_linux.Exec.{os_error, err, on_result, ok}
use qubes_core_admin_linux.Host.{Host}
use qubes_core_admin_linux.Prelude.{◌≡◌, true, false, none, [], if◌then◌else◌}
use qubes_core_admin_linux.Tests.Samples.{fedora, agent_args, system, machine}

-- A host on which the archive of the agent cannot be made.
abbrev host : Host system
host = record {
  popen = λ s command. (ok (0, [], []), s);
  run_with_args = λ s vm command. (ok ([], []), s);
  run_input = λ s vm command. (ok ([], []), s);
  serve = λ s vm user command. (ok ([], 0), s);
  pci_devices = λ s vm. ok false;
  make_archive = λ s. (err (os_error "No space left on device"), s);
  float = λ text. none;
  str = λ e. [];
  details = λ code. [];
  init_logs = λ s. (ok tt, s);
}

update_qube_dones_example :
    done_count
      (update_qube system host fedora false "/usr/lib/vmupdate" agent_args none true false false
        machine).2
    ≡ (if false
        then 1
        else on_result
            (host.init_logs 0).0
            (λ _.
              on_result
                (run_agent system host fedora false "/usr/lib/vmupdate" agent_args true false
                  machine).0
                (λ _. 1)
                (λ _. 2))
            (λ _. 1))
update_qube_dones_example =
    update_qube_dones system host fedora false "/usr/lib/vmupdate" agent_args true none false false
      machine
