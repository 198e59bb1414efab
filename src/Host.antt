-- ===== src/Host.antt =====
-- What reaches a connection from outside: processes, services and devices of qubes, and Python's
-- `float`. None of it is part of the repository.
use qubes_core_admin_linux.Exec.{Exception, Result}
use qubes_core_admin_linux.Prelude.{Text, ℕ, Bool, String, Option, List}
use qubes_core_admin_linux.Prelude.Int.{ℤ}
use qubes_core_admin_linux.System.{System}
use qubes_core_admin_linux.Vm.{Vm}

-- One line of a process, as it arrives, with the stream that it stands on.
pub data Line : Type 0 where
  out_line : List ℕ → Line
  err_line : List ℕ → Line

module _ (sys : System) where
  pub record Host : Type 0 where
    -- subprocess.Popen(command).communicate(): the exit code and the two outputs
    pub popen : sys.State → List String → Result (ℕ × List ℕ × List ℕ) × sys.State
    -- vm.run_with_args(*command, user="root")
    pub run_with_args : sys.State → Vm → List String → Result (List ℕ × List ℕ) × sys.State
    -- vm.run(command, user="root", input=...)
    pub run_input : sys.State → Vm → String → Result (List ℕ × List ℕ) × sys.State
    -- a process whose streams are read while it runs: its lines in order of arrival and its exit
    -- code; the user is given for a service of a qube
    pub serve : sys.State → Vm → String → List String → Result (List Line × ℕ) × sys.State
    -- any(vm.devices["pci"].get_assigned_devices())
    pub pci_devices : sys.State → Vm → Result Bool
    -- shutil.make_archive in a temporary directory
    pub make_archive : sys.State → Result (Unit {0}) × sys.State
    -- float(text), in hundredths, with nothing for a ValueError
    pub float : Text → Option ℤ
    -- str(exc)
    pub str : Exception → Text
    -- f"ERROR (exit code {code}, details in {log_path})" for a code
    pub details : ℕ → Text
    -- the creation of the log of the qube, in `UpdateAgentManager.__init__`
    pub init_logs : sys.State → Result (Unit {0}) × sys.State
